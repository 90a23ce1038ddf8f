-- ===== src/Batching/Scheduler/WellFormed/Failures.antt =====
-- `fail_all` leaves a well-formed scheduler in which every request is finished.
use nano_kube_llm_server.Prelude.{
  ℕ, ◌<◌, ◌≡◌, refl, sym, subst, ◌∙◌, inl, inr, true, List, [], ◌∷◌, ◌++◌, elem, ◌==◌, arith,
  Bool-cases, none,
}
use nano_kube_llm_server.Batching.Sequences.{error, Sequence, Heap, is_finished, update}
use nano_kube_llm_server.Batching.Sequences.Heaps.{update_self, update_other, emit-Emitted}
use nano_kube_llm_server.Batching.Scheduler.{State, fail_one, fail_each, fail_all, finish}
use nano_kube_llm_server.Batching.Scheduler.WellFormed.{IsWellFormed, IsSound}

fail_one-IsSound :
    (i : ℕ) (s : Sequence)
    → IsSound i s
    → IsSound i (fail_one s) × (is_finished (fail_one s) ≡ true)
unfolding fail_one
fail_one-IsSound i s v = elim (Bool-cases (is_finished s)) [
  | inl done ↦
      let e = emit-Emitted s none v.direct in
      rw done (
        record {
          named = e.same.id ∙ v.named;
          direct = e.direct;
          bounded = ground (arith, v.bounded, e.same.max_new_tokens, e.output_ids);
        },
        rw e.finish_reason done,
      )
  | inr going ↦
      let e = emit-Emitted (finish error s) none v.direct in
      rw going (
        record {
          named = e.same.id ∙ v.named;
          direct = e.direct;
          bounded = ground (arith, v.bounded, e.same.max_new_tokens, e.output_ids);
        },
        rw e.finish_reason refl,
      )
]

-- A property of a sequence that `fail_one` keeps outlives the loop.
fail_each-keeps :
    (P : Sequence → Type 0) (h : Heap) (is : List ℕ) (j : ℕ)
    → ((s : Sequence) → P s → P (fail_one s))
    → P (h j)
    → P (fail_each h is j)
unfolding fail_each
fail_each-keeps P h [] j keep p = p
fail_each-keeps P h (i ∷ is) j keep p =
    fail_each-keeps P (update h i (fail_one (h i))) is j keep (elim (Bool-cases (i == j)) [
      | inl hit ↦
          let e : i ≡ j = ground arith in
          subst (λ k. P (update h i (fail_one (h i)) k)) e
            (subst P (sym (update_self h i _)) (keep (h i) (subst (λ k. P (h k)) (sym e) p)))
      | inr miss ↦ subst P (sym (update_other h i j _ miss)) p
    ])

abbrev IsEnded : ℕ → Sequence → Type 0
IsEnded j s = IsSound j s × (is_finished s ≡ true)

-- Each sequence that the loop meets is finished after it.
fail_each-finishes :
    (h : Heap) (is : List ℕ) (j : ℕ)
    → IsSound j (h j)
    → elem j is ≡ true
    → IsEnded j (fail_each h is j)
unfolding fail_each elem
fail_each-finishes h [] j v e = cc
fail_each-finishes h (i ∷ is) j v e = elim (Bool-cases (i == j)) [
  | inl hit ↦
      let same : j ≡ i = ground arith in
      let here =
        subst (λ k. update h i (fail_one (h i)) k ≡ fail_one (h i)) (sym same)
          (update_self h i _) in
      let sound = subst (λ k. IsSound j (h k)) same v in
      fail_each-keeps (IsEnded j) (update h i (fail_one (h i))) is j
        (λ s p. fail_one-IsSound j s p.0)
        (subst (IsEnded j) (sym here) (fail_one-IsSound j (h i) sound))
  | inr miss ↦
      let other = update_other h i j (fail_one (h i)) miss in
      fail_each-finishes (update h i (fail_one (h i))) is j (subst (IsSound j) (sym other) v)
        (ground arith)
]

module _ (st : State) (w : IsWellFormed st) where
  fail_all-IsEnded : (i : ℕ) → i < st.next_id → IsEnded i ((fail_all st).0.heap i)
  unfolding fail_all
  fail_all-IsEnded i k = elim (w.held i k) [
    | inl done ↦
        fail_each-keeps (IsEnded i) st.heap (st.running ++ st.waiting) i
          (λ s p. fail_one-IsSound i s p.0) (w.sound i k, done)
    | inr e ↦ fail_each-finishes st.heap (st.running ++ st.waiting) i (w.sound i k) e
  ]

  -- No request is left waiting for a loop that has ended.
  pub fail_all-finishes : (i : ℕ) → i < st.next_id → is_finished ((fail_all st).0.heap i) ≡ true
  fail_all-finishes i k = (fail_all-IsEnded i k).1

  pub fail_all-IsWellFormed : IsWellFormed (fail_all st).0
  unfolding fail_all
  fail_all-IsWellFormed = record {
    distinct = tt;
    queued = tt;
    active = tt;
    sized = inr refl;
    held = λ i k. inl (fail_all-finishes i k);
    sound = λ i k. (fail_all-IsEnded i k).0;
  }
