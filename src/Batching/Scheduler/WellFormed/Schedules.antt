-- ===== src/Batching/Scheduler/WellFormed/Schedules.antt =====
-- `schedule` keeps the scheduler well formed.
use nano_kube_llm_server.Prelude.{
  ℕ, ◌<◌, ◌≤◌, ◌≡◌, refl, sym, ap, subst, ◌∙◌, ◌⊎◌, inl, inr, true, false, List, [], ◌∷◌, ◌++◌,
  elem, ◌==◌, All, IsDistinct, All-append, All-left, All-right, All-map, append_assoc, length, pos,
  ◌≤ℤ◌, arith, Bool-cases,
}
use nano_kube_llm_server.Batching.Sequences.{Heap, is_finished}
use nano_kube_llm_server.Batching.Sequences.Heaps.{
  Halves, IsDistinct→Halves, Halves→IsDistinct, elem-append,
}
use nano_kube_llm_server.Batching.Scheduler.{State, unfinished, schedule}
use nano_kube_llm_server.Batching.Scheduler.Admission.{schedule-Splits, schedule-size}
use nano_kube_llm_server.Batching.Scheduler.WellFormed.{IsWellFormed, IsQueued, IsActive}

module _ (h : Heap) where
  unfinished-missing : (i : ℕ) (is : List ℕ) → elem i is ≡ false → elem i (unfinished h is) ≡ false
  unfolding elem unfinished
  unfinished-missing i [] e = refl
  unfinished-missing i (j ∷ js) e = ground (arith, unfinished-missing i js)

  unfinished-elem :
      (i : ℕ) (is : List ℕ)
      → is_finished (h i) ≡ false
      → elem i is ≡ true
      → elem i (unfinished h is) ≡ true
  unfolding elem unfinished
  unfinished-elem i [] f e = e
  unfinished-elem i (j ∷ js) f e = elim (Bool-cases (j == i)) [
    | inl hit ↦
        let same : i ≡ j = ground arith in
        let open_j = subst (λ k. is_finished (h k) ≡ false) same f in ground (arith, open_j)
    | inr miss ↦ ground (arith, unfinished-elem i js f)
  ]

  unfinished-IsDistinct : (is : List ℕ) → IsDistinct is → IsDistinct (unfinished h is)
  unfolding unfinished
  unfinished-IsDistinct [] d = tt
  unfinished-IsDistinct (j ∷ js) d =
      ground (arith, unfinished-missing j js d.0, unfinished-IsDistinct js d.1)

  pub unfinished-All : (P : ℕ → Type 0) (is : List ℕ) → All P is → All P (unfinished h is)
  unfolding unfinished
  unfinished-All P [] a = tt
  unfinished-All P (j ∷ js) a = ground (arith, unfinished-All P js a.1)

  length-unfinished : (is : List ℕ) → length (unfinished h is) ≤ length is
  unfolding unfinished
  length-unfinished [] = omega arith
  length-unfinished (j ∷ js) = ground (arith, length-unfinished js)

  unfinished-Halves : {is js : List ℕ} → Halves is js → Halves (unfinished h is) js
  unfinished-Halves {is} {js} r = record {
    left = unfinished-IsDistinct is r.left;
    right = r.right;
    apart = unfinished-All _ is r.apart;
  }

unfinished-sized :
    (st : State)
    → (pos (length st.running) ≤ℤ st.max_batch_size) ⊎ (st.running ≡ [])
    → (pos (length (unfinished st.heap st.running)) ≤ℤ st.max_batch_size)
      ⊎ (unfinished st.heap st.running ≡ [])
unfolding unfinished
unfinished-sized st (inl k) = inl (omega (arith, length-unfinished st.heap st.running))
unfinished-sized st (inr e) = inr (rw e refl)

module _ (st : State) (w : IsWellFormed st) where
  -- What the batch and the queue hold together is what they held, less the finished requests.
  schedule-joined :
      (schedule st).running ++ (schedule st).waiting ≡ unfinished st.heap st.running ++ st.waiting
  schedule-joined =
      let r = schedule-Splits st in
      ap (λ q. q ++ (schedule st).waiting) r.joined
      ∙ append_assoc (unfinished st.heap st.running) r.admitted (schedule st).waiting
      ∙ ap (◌++◌ (unfinished st.heap st.running)) (sym r.taken)

  schedule-held :
      (i : ℕ)
      → i < st.next_id
      → (is_finished (st.heap i) ≡ true)
        ⊎ (elem i ((schedule st).running ++ (schedule st).waiting) ≡ true)
  schedule-held i k = elim (Bool-cases (is_finished (st.heap i))) [
    | inl done ↦ inl done
    | inr going ↦ inr (
        rw (schedule-joined, elem-append i (unfinished st.heap st.running) st.waiting)
          (ground (
            arith,
            w.held i k,
            elem-append i st.running st.waiting,
            unfinished-elem st.heap i st.running going,
          )))
  ]

  pub schedule-IsWellFormed : IsWellFormed (schedule st)
  unfolding schedule
  schedule-IsWellFormed =
      let r = schedule-Splits st in
      let halves = unfinished-Halves st.heap (IsDistinct→Halves st.running st.waiting w.distinct) in
      let queued = subst (All (λ i. IsQueued st.next_id i (st.heap i))) r.taken w.queued in
      record {
        distinct = subst IsDistinct (sym schedule-joined) (Halves→IsDistinct _ _ halves);
        queued = All-right _ r.admitted _ queued;
        active = subst (All (λ i. IsActive st.next_id i (st.heap i))) (sym r.joined) (
            All-append _ (unfinished st.heap st.running) r.admitted
              (unfinished-All st.heap _ st.running w.active)
              (All-map r.admitted (λ i q. (q.0, λ _. q.2)) (All-left _ r.admitted _ queued)));
        sized = schedule-size st (unfinished-sized st w.sized);
        held = schedule-held;
        sound = w.sound;
      }
