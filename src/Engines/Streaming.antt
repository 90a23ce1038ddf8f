-- ===== src/Engines/Streaming.antt =====
-- What a streaming client receives.
pub mod Order
pub mod Whole
pub mod Attended
pub mod Stays
pub mod Ends
use nano_kube_llm_server.Prelude.{
  ℕ, ℤ, Float, ◌≡◌, refl, sym, ap, subst, inl, inr, List, [], ◌∷◌, ◌++◌, Option, none, some,
  append-nil, arith, length,
}
use nano_kube_llm_server.Runners.Interface.{Text, ModelRunner}
use nano_kube_llm_server.Batching.Sequences.{is_finished}
use nano_kube_llm_server.Batching.Scheduler.{State}
use nano_kube_llm_server.Batching.RunLoop.{Server, step, prompt_to_sequence}
use nano_kube_llm_server.Batching.Scheduler.WellFormed.Submits.{submit-next_id}
use nano_kube_llm_server.Batching.RunLoop.Outputs.{
  Prefix, Prefix-IsKept, finished-IsKept, step-Holding,
}
use nano_kube_llm_server.Engines.{
  StreamChunk, leave, Reading, reading, ended, send, stream_at, Client, resume_at, close_at, Turn,
  open_stream, happens, resumes, hangs_up, take_turn, take_turns,
}
use nano_kube_llm_server.Engines.Chunks.{texts, IsSent, send-IsSent}
use nano_kube_llm_server.Engines.Delivery.{
  IsMonotone, AtPlace, IsDelivered, IsDelivered-keeps, leave-IsDelivered, closed-IsDelivered,
  terminated-IsDelivered,
}

module _ {R : Type 0} (ops : ModelRunner R) (monotone : IsMonotone ops) where
  -- What was sent is a beginning of the text of the output as it is now.
  sent-Prefix :
      (i : ℕ) (st : State) (sent : ℕ) (chunks : List StreamChunk) (runner : R)
      → IsDelivered ops i st (reading sent) chunks
      → Prefix (texts chunks) (ops.decode runner (st.heap i).output_ids)
  sent-Prefix i st sent chunks runner v = elim v.decoded [
    | inl e ↦ rw e (ops.decode runner (st.heap i).output_ids, refl)
    | inr (r, seen, e, (more, f)) ↦ rw (e, f) (monotone.grows r runner seen more)
  ]

  -- A token is read.
  pub token-IsDelivered :
      (i : ℕ) (st : State) (sent : ℕ) (chunks : List StreamChunk) (runner : R)
      → IsDelivered ops i st (reading sent) chunks
      → IsSent chunks
          (ops.decode runner (st.heap i).output_ids)
          (send sent (ops.decode runner (st.heap i).output_ids)).0
          (send sent (ops.decode runner (st.heap i).output_ids)).1
  token-IsDelivered i st sent chunks runner v =
      let (more, e) = sent-Prefix i st sent chunks runner v in
      rw v.placed.0
        (send-IsSent chunks (ops.decode runner (st.heap i).output_ids) more v.placed.1 e)

  stream_at-IsDelivered :
      (i : ℕ) (st : State) (sent : ℕ) (chunks : List StreamChunk) (runner : R)
      (queue : List (Option ℕ))
      → IsDelivered ops i st (reading sent) chunks
      → IsDelivered ops i
          (stream_at ops runner st i sent queue).0
          (stream_at ops runner st i sent queue).1
          (chunks ++ (stream_at ops runner st i sent queue).2)
  unfolding stream_at
  stream_at-IsDelivered i st sent chunks runner [] v =
      subst (IsDelivered ops i st (reading sent)) (sym (append-nil chunks)) v
  stream_at-IsDelivered i st sent chunks runner (some token ∷ rest) v =
      let r = token-IsDelivered i st sent chunks runner v in
      let output = (st.heap i).output_ids in
      leave-IsDelivered ops i st rest _ _ (record {
        known = v.known;
        decoded = inr (runner, output, r.whole, ([], sym (append-nil output)));
        placed =
            subst
              (λ place.
                AtPlace ops place (is_finished (st.heap i))
                  (chunks ++ (send sent (ops.decode runner output)).1))
              (sym r.counted) (ap length (sym r.whole), r.all_text);
      })
  stream_at-IsDelivered i st sent chunks runner (none ∷ rest) v =
      terminated-IsDelivered ops i (leave st i rest) sent chunks (st.heap i).finish_reason
        (leave-IsDelivered ops i st rest (reading sent) chunks v)

  abbrev pub Delivered : ℕ → Client ops → Type 0
  Delivered i c = IsDelivered ops i c.server.state c.place c.received

  resume_at-IsDelivered :
      (i : ℕ) (c : Client ops) (place : Reading)
      → c.place ≡ place
      → Delivered i c
      → Delivered i (resume_at ops c i place)
  unfolding resume_at
  resume_at-IsDelivered i c ended e v = v
  resume_at-IsDelivered i c (reading sent) e v =
      stream_at-IsDelivered i c.server.state sent c.received c.server.runner (c.server.heap i).queue
        (subst (λ place. IsDelivered ops i c.server.state place c.received) e v)

  close_at-IsDelivered :
      (i : ℕ) (c : Client ops) (place : Reading)
      → c.place ≡ place
      → Delivered i c
      → Delivered i (close_at ops c i place)
  unfolding close_at
  close_at-IsDelivered i c ended e v = v
  close_at-IsDelivered i c (reading sent) e v =
      closed-IsDelivered ops i c.server.state sent c.received
        (subst (λ place. IsDelivered ops i c.server.state place c.received) e v)

  pub take_turn-IsDelivered :
      (i : ℕ) (c : Client ops) (t : Turn ops) → Delivered i c → Delivered i (take_turn ops i c t)
  unfolding take_turn
  take_turn-IsDelivered i c (happens e) v =
      IsDelivered-keeps ops i c.server.state (step ops c.server e).state c.place c.received
        (λ k.
          (step-Holding ops (λ s. Unit {0})
            (record {
              aborts = λ _ _ _ _. tt;
              records = λ _ _ _. tt;
              fails = λ _ _. tt;
              delivers = λ _ _. tt;
            })
            i c.server e (k, tt)).0)
        (λ seen p. (step-Holding ops _ (Prefix-IsKept seen) i c.server e (v.known, p)).1)
        (λ p. (step-Holding ops _ finished-IsKept i c.server e (v.known, p)).1) v
  take_turn-IsDelivered i c resumes v = resume_at-IsDelivered i c c.place refl v
  take_turn-IsDelivered i c hangs_up v = close_at-IsDelivered i c c.place refl v

  take_turns-IsDelivered :
      (i : ℕ) (c : Client ops) (ts : List (Turn ops))
      → Delivered i c
      → Delivered i (take_turns ops i c ts)
  unfolding take_turns
  take_turns-IsDelivered i c [] v = v
  take_turns-IsDelivered i c (t ∷ ts) v =
      take_turns-IsDelivered i (take_turn ops i c t) ts (take_turn-IsDelivered i c t v)

  module _ (m : Server R) (prompt : Text) (max_tokens : ℤ) (temperature : Float)
      (top_k : Option ℤ) where
    abbrev pub opened : Client ops
    opened = open_stream ops m prompt max_tokens temperature top_k

    -- For a runner whose text of a longer output begins with the text that was there: from the submission
    -- of a streamed request on, after any turns (events of the process, of the handler and of the
    -- client), the chunks that the client received hold the text of a beginning of the request's
    -- output; every chunk has text and no reason, but for at most one last chunk without text and with
    -- a reason once the stream is over; and once it is over the request is finished.
    pub open_stream-IsDelivered :
        (ts : List (Turn ops)) → Delivered m.next_id (take_turns ops m.next_id opened ts)
    unfolding open_stream texts
    open_stream-IsDelivered ts = take_turns-IsDelivered m.next_id opened ts (record {
      known = omega (
        arith,
        submit-next_id m.state
            (prompt_to_sequence ops m.runner prompt max_tokens temperature top_k),
      );
      decoded = inl refl;
      placed = (refl, tt);
    })

    -- Under the same condition: when the handler of such a stream reads a token, the client then has
    -- received the whole text of the request's output.
    pub resumes-texts :
        (ts : List (Turn ops)) (sent token : ℕ) (rest : List (Option ℕ))
        → (take_turns ops m.next_id opened ts).place ≡ reading sent
        → ((take_turns ops m.next_id opened ts).server.heap m.next_id).queue ≡ some token ∷ rest
        → texts (take_turn ops m.next_id (take_turns ops m.next_id opened ts) resumes).received
          ≡ ops.decode
              (take_turns ops m.next_id opened ts).server.runner
              ((take_turns ops m.next_id opened ts).server.heap m.next_id).output_ids
    unfolding take_turn resume_at stream_at
    resumes-texts ts sent token rest at item =
        let c = take_turns ops m.next_id opened ts in
        let v =
          subst (λ place. IsDelivered ops m.next_id c.server.state place c.received) at
            (open_stream-IsDelivered ts) in
        rw (at, item)
          (token-IsDelivered m.next_id c.server.state sent c.received c.server.runner v).whole
