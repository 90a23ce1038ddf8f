-- ===== src/Batching/RunLoop/Ticks.antt =====
-- What a tick does to the scheduler.
use nano_kube_llm_server.Prelude.{
  ℕ, ◌<◌, ◌≡◌, refl, sym, subst, ◌∙◌, inl, inr, false, List, [], ◌∷◌, All, All-map, All-append,
  All-both, All-left, Bool-cases, Option,
}
use nano_kube_llm_server.Batching.Sequences.{Heap, is_finished, error}
use nano_kube_llm_server.Batching.Sequences.Heaps.{Halves, IsDistinct→Halves}
use nano_kube_llm_server.Batching.Scheduler.{State, schedule, unfinished, abort}
use nano_kube_llm_server.Batching.Scheduler.Admission.{schedule-Splits}
use nano_kube_llm_server.Batching.Scheduler.WellFormed.{HasBudget, IsWellFormed}
use nano_kube_llm_server.Batching.Scheduler.WellFormed.Schedules.{unfinished-All}
use nano_kube_llm_server.Batching.Scheduler.WellFormed.Aborts.{
  abort-IsWellFormed, abort-keeps, abort-running, aborted-HasBudget,
}
use nano_kube_llm_server.Batching.Scheduler.WellFormed.Records.{postprocess-IsWellFormed}
use nano_kube_llm_server.Batching.RunLoop.{casualties, survivors, abort_each, record_rows}
use nano_kube_llm_server.Batching.RunLoop.Rows.{
  All-elem, survivors-All, casualties-All, survivors-IsDistinct,
}

unfinished-going : (h : Heap) (is : List ℕ) → All (λ i. is_finished (h i) ≡ false) (unfinished h is)
unfolding unfinished
unfinished-going h [] = tt
unfinished-going h (i ∷ is) = elim (Bool-cases (is_finished (h i))) [
  | inl done ↦ rw done (unfinished-going h is)
  | inr going ↦ rw going (going, unfinished-going h is)
]

-- Every request that `schedule` hands to the runner is unfinished and has budget left.
pub schedule-going :
    (st : State)
    → IsWellFormed st
    → All (λ i. (is_finished (st.heap i) ≡ false) × HasBudget (st.heap i)) (schedule st).running
schedule-going st w =
    let r = schedule-Splits st in
    let queued = subst (All _) r.taken w.queued in
    let going = unfinished-going st.heap st.running in
    let active = unfinished-All st.heap _ st.running w.active in
    subst (All _) (sym r.joined) (
      All-append _ (unfinished st.heap st.running) r.admitted
        (All-map _ (λ i p. (p.0, p.1.1 p.0)) (All-both _ _ _ going active))
        (All-map r.admitted (λ i q. (q.1, q.2)) (All-left _ r.admitted _ queued)))

abort_each-IsWellFormed :
    (st : State) (is : List ℕ)
    → IsWellFormed st
    → All (λ i. i < st.next_id) is
    → IsWellFormed (abort_each st is)
unfolding abort_each
abort_each-IsWellFormed st [] w known = w
abort_each-IsWellFormed st (i ∷ is) w known =
    let next = (abort-running st i error).1 in
    abort_each-IsWellFormed (abort st i error) is (abort-IsWellFormed st i error refl known.0 w)
      (subst (λ n. All (λ i. i < n) is) (sym next) known.1)

abort_each-HasBudget :
    (st : State) (is : List ℕ) (j : ℕ)
    → HasBudget (st.heap j)
    → HasBudget ((abort_each st is).heap j)
unfolding abort_each
abort_each-HasBudget st [] j b = b
abort_each-HasBudget st (i ∷ is) j b =
    abort_each-HasBudget (abort st i error) is j
      (abort-keeps HasBudget st i j error (aborted-HasBudget error) b)

abort_each-running : (st : State) (is : List ℕ) → (abort_each st is).running ≡ st.running
unfolding abort_each
abort_each-running st [] = refl
abort_each-running st (i ∷ is) =
    abort_each-running (abort st i error) is ∙ (abort-running st i error).0

pub record_rows-IsWellFormed :
    (st : State) (batch : List ℕ) (next_ids : List (Option ℕ))
    → IsWellFormed st
    → st.running ≡ batch
    → All (λ i. HasBudget (st.heap i)) batch
    → IsWellFormed (record_rows st batch next_ids)
unfolding record_rows
record_rows-IsWellFormed st batch next_ids w held budget =
    postprocess-IsWellFormed st' w' (survivors batch next_ids)
      (survivors-IsDistinct batch next_ids halves.left)
      (survivors-All _ batch next_ids halves.apart)
      (λ j e. All-elem _ j _ (survivors-All (λ i. HasBudget (st'.heap i)) batch next_ids budget') e)
  where
    st' : State
    st' = abort_each st (casualties batch next_ids)

    w' : IsWellFormed st'
    w' =
        abort_each-IsWellFormed st (casualties batch next_ids) w (
          casualties-All _ batch next_ids
            (All-map batch (λ i a. a.0) (subst (All _) held w.active)))

    halves : Halves batch st'.waiting
    halves =
        subst (λ r. Halves r st'.waiting) (abort_each-running st (casualties batch next_ids) ∙ held)
          (IsDistinct→Halves st'.running st'.waiting w'.distinct)

    budget' : All (λ i. HasBudget (st'.heap i)) batch
    budget' = All-map batch (abort_each-HasBudget st (casualties batch next_ids)) budget
