-- ===== src/Batching/Scheduler/WellFormed/Cancels.antt =====
-- All that `abort` does.
use nano_kube_llm_server.Prelude.{
  ℕ, List, ◌≡◌, refl, ap, ◌∙◌, true, false, [], ◌∷◌, ◌++◌, none, elem, ◌==◌, Bool-cases, inl, inr,
  ◌<◌,
}
use nano_kube_llm_server.Batching.Sequences.{Finish, is_finished, stream}
use nano_kube_llm_server.Batching.Sequences.Heaps.{IsDistinct→Halves, emit-Emitted}
use nano_kube_llm_server.Batching.Scheduler.{State, abort, finish}
use nano_kube_llm_server.Batching.Scheduler.WellFormed.{IsWellFormed}
use nano_kube_llm_server.Batching.Scheduler.WellFormed.Aborts.{
  given_up_self, given_up_other, remove-removes, remove-absent, remove-cuts,
}

-- A finished request is left alone; an unfinished one gets the reason and the sentinel, keeps its
-- output, and is cut out of the queue if it waits there; the other requests, the batch, the rest of the
-- queue, the limits and the number of requests stay as they are.
pub record IsGivenUp (st : State) (i : ℕ) (reason : Finish) (st' : State) : Type 0 where
  pub others : (j : ℕ) → (i == j) ≡ false → st'.heap j ≡ st.heap j
  pub running : st'.running ≡ st.running
  pub ended_before : is_finished (st.heap i) ≡ true → st' ≡ st
  pub marked : is_finished (st.heap i) ≡ false → (st'.heap i).finish_reason ≡ reason
  pub output : (st'.heap i).output_ids ≡ (st.heap i).output_ids
  pub sentinel :
      is_finished (st.heap i) ≡ false → stream (st'.heap i) ≡ stream (st.heap i) ++ none ∷ []
  pub unqueued : is_finished (st.heap i) ≡ false → elem i st'.waiting ≡ false
  pub absent : elem i st.waiting ≡ false → st'.waiting ≡ st.waiting
  pub cut :
      is_finished (st.heap i) ≡ false
      → elem i st.waiting ≡ true
      → (before : List ℕ) × (after : List ℕ) × (st.waiting ≡ before ++ i ∷ after)
        × (st'.waiting ≡ before ++ after)
  pub limits :
      (st'.next_id ≡ st.next_id)
      × (st'.max_batch_size ≡ st.max_batch_size)
      × (st'.max_batch_tokens ≡ st.max_batch_tokens)

-- In a well-formed state and for a request that was created: `abort` leaves a finished request alone, and
-- gives an unfinished one the reason and the sentinel, keeps its output, and cuts it out of the
-- queue if it waits there; the other requests, the batch, the rest of the queue in its order, the limits
-- and the number of requests stay as they are.
pub abort-IsGivenUp :
    (st : State) (i : ℕ) (reason : Finish)
    → IsWellFormed st
    → i < st.next_id
    → IsGivenUp st i reason (abort st i reason)
unfolding abort
abort-IsGivenUp st i reason w known = elim (Bool-cases (is_finished (st.heap i))) [
  | inl done ↦ rw done (record {
    others = λ j e. refl;
    running = refl;
    ended_before = λ _. refl;
    marked = λ e. cc;
    output = refl;
    sentinel = λ e. cc;
    unqueued = λ e. cc;
    absent = λ _. refl;
    cut = λ e. cc;
    limits = (refl, refl, refl);
  })
  | inr going ↦
      let e = emit-Emitted (finish reason (st.heap i)) none (w.sound i known).direct in
      let here = given_up_self st.heap i reason in
      rw going (record {
        others = λ j other. given_up_other st.heap i reason j other;
        running = refl;
        ended_before = λ f. cc;
        marked = λ _. ap (λ s. s.finish_reason) here ∙ e.finish_reason;
        output = ap (λ s. s.output_ids) here ∙ e.output_ids;
        sentinel = λ _. ap stream here ∙ e.channel;
        unqueued = λ _.
            remove-removes i st.waiting (IsDistinct→Halves st.running st.waiting w.distinct).right;
        absent = remove-absent i st.waiting;
        cut = λ _. remove-cuts i st.waiting;
        limits = (refl, refl, refl);
      })
]
