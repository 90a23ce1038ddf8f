-- ===== src/Engines/Delivery.antt =====
-- What the writes to a request leave of what its client received.
use nano_kube_llm_server.Prelude.{
  ℕ, ◌<◌, ◌≡◌, refl, sym, ◌∙◌, ◌⊎◌, inl, inr, Bool, true, List, [], ◌∷◌, ◌++◌, Option, some,
  append-nil, arith, length, All,
}
use nano_kube_llm_server.Runners.Interface.{ModelRunner}
use nano_kube_llm_server.Batching.Sequences.{Sequence, Finish, is_finished, cancelled}
use nano_kube_llm_server.Batching.Scheduler.{State}
use nano_kube_llm_server.Batching.Scheduler.WellFormed.Aborts.{abort-keeps, abort-running}
use nano_kube_llm_server.Batching.RunLoop.Grows.{abort-finishes}
use nano_kube_llm_server.Batching.RunLoop.Outputs.{
  Prefix, IsKept, Prefix-IsKept, finished-IsKept, update-keeps,
}
use nano_kube_llm_server.Engines.{StreamChunk, cancel, leave, Reading, reading, ended}
use nano_kube_llm_server.Engines.Chunks.{texts, texts-append, IsText, IsTerminated}

-- More output ids never change the text that is there: the text of a longer output begins with it,
-- whatever the state of the runner.
pub record IsMonotone {R : Type 0} (ops : ModelRunner R) : Type 0 where
  pub grows :
      (r r' : R) (ids more : List ℕ) → Prefix (ops.decode r ids) (ops.decode r' (ids ++ more))

module _ {R : Type 0} (ops : ModelRunner R) where
  abbrev pub AtPlace : Reading → Bool → List StreamChunk → Type 0
  AtPlace (reading sent) finished chunks = (sent ≡ length (texts chunks)) × All IsText chunks
  AtPlace ended finished chunks = (finished ≡ true) × IsTerminated chunks

  -- What was received is the text of a beginning of the output; every chunk has text and no reason but
  -- the last one of a stream that is over; and the sequence of such a stream is finished.
  pub record IsDelivered (i : ℕ) (st : State) (place : Reading) (chunks : List StreamChunk)
      : Type 0 where
    pub known : i < st.next_id
    pub decoded :
        (texts chunks ≡ [])
        ⊎ ((runner : R) × (seen : List ℕ) × (texts chunks ≡ ops.decode runner seen)
            × Prefix seen (st.heap i).output_ids)
    pub placed : AtPlace place (is_finished (st.heap i)) chunks

  -- A write that keeps what is kept.
  pub IsDelivered-keeps :
      (i : ℕ) (st st' : State) (place : Reading) (chunks : List StreamChunk)
      → (i < st.next_id → i < st'.next_id)
      → ((seen : List ℕ) → Prefix seen (st.heap i).output_ids → Prefix seen (st'.heap i).output_ids)
      → (is_finished (st.heap i) ≡ true → is_finished (st'.heap i) ≡ true)
      → IsDelivered i st place chunks
      → IsDelivered i st' place chunks
  IsDelivered-keeps i st st' place chunks known prefix finished v = record {
    known = known v.known;
    decoded = elim v.decoded [
      | inl e ↦ inl e
      | inr (r, seen, e, p) ↦ inr (r, seen, e, prefix seen p)
    ];
    placed = at place v.placed;
  }
    where
      at :
          (place : Reading)
          → AtPlace place (is_finished (st.heap i)) chunks
          → AtPlace place (is_finished (st'.heap i)) chunks
      at (reading sent) a = a
      at ended (e, t) = (finished e, t)

  pub leave-keeps :
      (P : Sequence → Type 0) (st : State) (i : ℕ) (rest : List (Option ℕ))
      → ((s : Sequence) → P s → P (record s { queue = rest }))
      → P (st.heap i)
      → P ((leave st i rest).heap i)
  unfolding leave
  leave-keeps P st i rest keep p = update-keeps P st.heap i i _ (keep (st.heap i)) p

  pub cancel-keeps :
      (P : Sequence → Type 0) (st : State) (i : ℕ)
      → IsKept P
      → P (st.heap i)
      → P ((cancel st i).heap i)
  unfolding cancel
  cancel-keeps P st i kept p =
      abort-keeps P st i i cancelled (λ s q. kept.aborts cancelled s refl q) p

  pub cancel-known : (st : State) (i : ℕ) → (cancel st i).next_id ≡ st.next_id
  unfolding cancel
  cancel-known st i = (abort-running st i cancelled).1

  pub leave-IsDelivered :
      (i : ℕ) (st : State) (rest : List (Option ℕ)) (place : Reading) (chunks : List StreamChunk)
      → IsDelivered i st place chunks
      → IsDelivered i (leave st i rest) place chunks
  unfolding leave
  leave-IsDelivered i st rest place chunks v =
      IsDelivered-keeps i st (leave st i rest) place chunks (λ k. k)
        (λ seen p. leave-keeps (λ s. Prefix seen s.output_ids) st i rest (λ s q. q) p)
        (leave-keeps (λ s. is_finished s ≡ true) st i rest (λ s q. q)) v

  cancel-IsDelivered :
      (i : ℕ) (st : State) (place : Reading) (chunks : List StreamChunk)
      → IsDelivered i st place chunks
      → IsDelivered i (cancel st i) place chunks
  cancel-IsDelivered i st place chunks v =
      IsDelivered-keeps i st (cancel st i) place chunks (λ k. omega (arith, cancel-known st i))
        (λ seen p. cancel-keeps _ st i (Prefix-IsKept seen) p) (cancel-keeps _ st i finished-IsKept)
        v

  IsTerminated-text : (chunks : List StreamChunk) → All IsText chunks → IsTerminated chunks
  IsTerminated-text chunks a = record {
    pieces = chunks;
    terminal = [];
    joined = sym (append-nil chunks);
    all_text = a;
    at_most_one = inl refl;
  }

  pub cancel-ended : (st : State) (i : ℕ) → is_finished ((cancel st i).heap i) ≡ true
  unfolding cancel
  cancel-ended st i = abort-finishes st i cancelled refl

  -- The client goes away.
  pub closed-IsDelivered :
      (i : ℕ) (st : State) (sent : ℕ) (chunks : List StreamChunk)
      → IsDelivered i st (reading sent) chunks
      → IsDelivered i (cancel st i) ended chunks
  closed-IsDelivered i st sent chunks v =
      let w = cancel-IsDelivered i st (reading sent) chunks v in
      record {
        known = w.known;
        decoded = w.decoded;
        placed = (cancel-ended st i, IsTerminated-text chunks v.placed.1);
      }

  abbrev pub terminal_chunk : Finish → StreamChunk
  terminal_chunk reason = record { text = []; finish_reason = some reason }

  pub texts-terminal :
      (chunks : List StreamChunk) (reason : Finish)
      → texts (chunks ++ terminal_chunk reason ∷ []) ≡ texts chunks
  unfolding texts
  texts-terminal chunks reason =
      texts-append chunks (terminal_chunk reason ∷ []) ∙ append-nil (texts chunks)

  -- The sentinel is read.
  pub terminated-IsDelivered :
      (i : ℕ) (st : State) (sent : ℕ) (chunks : List StreamChunk) (reason : Finish)
      → IsDelivered i st (reading sent) chunks
      → IsDelivered i (cancel st i) ended (chunks ++ terminal_chunk reason ∷ [])
  terminated-IsDelivered i st sent chunks reason v =
      let w = cancel-IsDelivered i st (reading sent) chunks v in
      record {
        known = w.known;
        decoded = rw (texts-terminal chunks reason) w.decoded;
        placed = (
          cancel-ended st i,
          record {
            pieces = chunks;
            terminal = terminal_chunk reason ∷ [];
            joined = refl;
            all_text = v.placed.1;
            at_most_one = inr (reason, refl);
          },
        );
      }
