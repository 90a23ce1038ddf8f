-- ===== src/Engines/Streaming/Stays.antt =====
-- A stream whose client stays, from its first turn to its end.
use nano_kube_llm_server.Prelude.{
  ℕ, ℤ, Float, ◌≡◌, refl, sym, subst, inl, inr, true, List, [], ◌∷◌, Option, arith, All, elem,
}
use nano_kube_llm_server.Runners.Interface.{Text, ModelRunner}
use nano_kube_llm_server.Batching.Sequences.{Params, new_sequence, emit, stream}
use nano_kube_llm_server.Batching.Scheduler.{State}
use nano_kube_llm_server.Batching.Scheduler.WellFormed.{IsWellFormed}
use nano_kube_llm_server.Batching.RunLoop.Rows.{All-elem}
use nano_kube_llm_server.Batching.RunLoop.Requests.{submit-cases}
use nano_kube_llm_server.Batching.Scheduler.WellFormed.Submits.{submit-next_id}
use nano_kube_llm_server.Batching.RunLoop.{
  Server, Phase, ready, executing, dead, step, submit, submits, prompt_to_sequence,
}
use nano_kube_llm_server.Batching.RunLoop.Safety.{PhaseFits, IsSafe, step-IsSafe}
use nano_kube_llm_server.Batching.RunLoop.Watched.{IsOpenAt}
use nano_kube_llm_server.Engines.{
  Reading, reading, ended, Client, resume_at, Turn, open_stream, happens, resumes, hangs_up,
  take_turn, take_turns,
}
use nano_kube_llm_server.Engines.Chunks.{texts}
use nano_kube_llm_server.Engines.Sentinels.{submit-IsSignalled}
use nano_kube_llm_server.Engines.Delivery.{IsMonotone, IsDelivered}
use nano_kube_llm_server.Engines.Streaming.{
  Delivered, take_turn-IsDelivered, opened, open_stream-IsDelivered,
}
use nano_kube_llm_server.Engines.Streaming.Order.{InOrder}
use nano_kube_llm_server.Engines.Streaming.Whole.{IsWhole}
use nano_kube_llm_server.Engines.Streaming.Attended.{
  AtStage, IsAttended, IsAttentive, happens-IsAttended, read-IsAttended,
}

module _ {R : Type 0} (ops : ModelRunner R) (monotone : IsMonotone ops) (i : ℕ) where
  resume_at-IsAttended :
      (c : Client ops) (place : Reading)
      → c.place ≡ place
      → Delivered ops monotone i c
      → IsAttended ops monotone i c
      → IsAttended ops monotone i (resume_at ops c i place)
  unfolding resume_at
  resume_at-IsAttended c ended e d v = v
  resume_at-IsAttended c (reading sent) e d v =
      read-IsAttended ops monotone i c.server sent c.received (c.server.heap i).queue refl
        (subst (λ place. IsDelivered ops i c.server.state place c.received) e d)
        (subst (λ place. IsAttended ops monotone i (record c { place = place })) e v)

  pub take_turn-IsAttended :
      (c : Client ops) (t : Turn ops)
      → IsAttentive ops monotone i t
      → Delivered ops monotone i c
      → IsAttended ops monotone i c
      → IsAttended ops monotone i (take_turn ops i c t)
  unfolding take_turn
  take_turn-IsAttended c (happens e) spares d v =
      let (known, at, opened_at) =
        happens-IsAttended ops monotone i c.server c.place c.received e spares v.safe v.known
          v.opened_at v.at in
      record {
        safe = step-IsSafe ops c.server e v.safe;
        known = known;
        opened_at = opened_at;
        at = at;
      }
  take_turn-IsAttended c resumes attentive d v = resume_at-IsAttended c c.place refl d v
  take_turn-IsAttended c hangs_up gone d v = absurd gone

  pub take_turns-IsAttended :
      (c : Client ops) (ts : List (Turn ops))
      → All (IsAttentive ops monotone i) ts
      → Delivered ops monotone i c
      → IsAttended ops monotone i c
      → IsAttended ops monotone i (take_turns ops i c ts)
  unfolding take_turns
  take_turns-IsAttended c [] all d v = v
  take_turns-IsAttended c (t ∷ ts) (attentive, all) d v =
      take_turns-IsAttended (take_turn ops i c t) ts all
        (take_turn-IsDelivered ops monotone i c t d) (take_turn-IsAttended c t attentive d v)

-- A request that was just created has neither a token to be read nor an output.
submit-fresh :
    (st : State) (p : Params)
    → let s = (submit st p).heap st.next_id in InOrder (stream s) × (s.output_ids ≡ [])
unfolding new_sequence emit
submit-fresh st p = elim (submit-cases st p) [
  | inl waits ↦ rw waits (tt, refl)
  | inr (nothing, over) ↦ rw over (refl, refl)
]

-- It is not on the worker thread.
opened-IsOpenAt :
    {R : Type 0} (m : Server R) (st : State) (phase : Phase)
    → IsWellFormed m.state
    → PhaseFits m.state phase
    → IsOpenAt m.next_id st phase
opened-IsOpenAt m st ready w fits = tt
opened-IsOpenAt m st (executing batch current outcome) w fits = λ hit. absurd (
    omega (
      arith,
      (All-elem _ m.next_id m.running w.active
          (subst (λ b. elem m.next_id b ≡ true) (sym fits.held) hit)).0,
    ))
opened-IsOpenAt m st dead w fits = tt

module _ {R : Type 0} (ops : ModelRunner R) (monotone : IsMonotone ops) (m : Server R)
    (prompt : Text) (max_tokens : ℤ) (temperature : Float) (top_k : Option ℤ) where
  pub opened-IsAttended :
      IsSafe m
      → IsAttended ops monotone m.next_id
          (opened ops monotone m prompt max_tokens temperature top_k)
  unfolding open_stream texts step
  opened-IsAttended v =
      let p = prompt_to_sequence ops m.runner prompt max_tokens temperature top_k in
      record {
        safe = step-IsSafe ops m (submits p) v;
        known = omega (arith, submit-next_id m.state p);
        opened_at = opened-IsOpenAt m (submit m.state p) m.phase v.well v.fits;
        at = record {
          ordered = record {
            signalled = submit-IsSignalled m.state p;
            order = (submit-fresh m.state p).0;
          };
          caught_up = inr (inl (refl, (submit-fresh m.state p).1));
        };
      }

  -- For a runner whose text of a longer output begins with the text that was there, and a process that
  -- keeps its invariant: when a stream is over whose client did not go away and whose request nobody
  -- else gave up, after any turns, the request is finished, the last chunk that the client received has
  -- the request's reason and no text, and all the chunks together hold the text of the request's whole
  -- output, or there is no text and no output.
  pub open_stream-IsWhole :
      IsSafe m
      → (ts : List (Turn ops)) → All (IsAttentive ops monotone m.next_id) ts
      → (take_turns ops m.next_id
          (opened ops monotone m prompt max_tokens temperature top_k)
          ts).place
        ≡ ended
      → IsWhole ops
          (take_turns ops m.next_id
            (opened ops monotone m prompt max_tokens temperature top_k)
            ts).received
          ((take_turns ops m.next_id
              (opened ops monotone m prompt max_tokens temperature top_k)
              ts).server.heap
            m.next_id)
  unfolding take_turns
  open_stream-IsWhole safe ts all over =
      let c = opened ops monotone m prompt max_tokens temperature top_k in
      let v =
        take_turns-IsAttended ops monotone m.next_id c ts all
          (open_stream-IsDelivered ops monotone m prompt max_tokens temperature top_k [])
          (opened-IsAttended safe) in
      subst
        (λ place.
          AtStage ops monotone m.next_id ((take_turns ops m.next_id c ts).server.heap m.next_id)
            place (take_turns ops m.next_id c ts).received)
        over v.at
