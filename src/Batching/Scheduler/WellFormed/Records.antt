-- ===== src/Batching/Scheduler/WellFormed/Records.antt =====
-- `postprocess` on requests of the batch keeps the scheduler well formed.
use nano_kube_llm_server.Prelude.{
  ℕ, ◌+◌, ◌≡◌, refl, sym, subst, ◌∙◌, ◌⊎◌, inl, inr, true, false, List, [], ◌∷◌, ◌++◌, elem, ◌==◌,
  IsDistinct, All-map, arith, Bool-cases, pos, leb_ℤ, length, length-append,
}
use nano_kube_llm_server.Batching.Sequences.{Sequence, Heap, is_finished}
use nano_kube_llm_server.Batching.Sequences.Heaps.{IsApart, IsApart-symm, All-SameOutside}
use nano_kube_llm_server.Batching.Scheduler.{State, postprocess, record_token}
use nano_kube_llm_server.Batching.Scheduler.Tokens.{
  Recorded, record_token-Recorded, Each, refs, postprocess-Each, postprocess-SameOutside,
}
use nano_kube_llm_server.Batching.Scheduler.WellFormed.{
  HasBudget, IsWellFormed, IsQueued, IsActive, IsSound,
}

module _ (i token : ℕ) (s : Sequence) (v : IsSound i s) where
  recorded : Recorded s token (record_token s token)
  recorded = record_token-Recorded s token v.direct

  -- A token within the budget keeps the output within the budget.
  record_token-IsSound : HasBudget s → IsSound i (record_token s token)
  record_token-IsSound budget =
      let r = recorded in
      record {
        named = r.same.id ∙ v.named;
        direct = r.direct;
        bounded = inr (
            ground
              (arith, r.output, r.same.max_new_tokens, length-append s.output_ids (token ∷ [])));
      }

  -- After a token the sequence is finished, or has budget left.
  record_token-HasBudget :
      is_finished (record_token s token) ≡ false → HasBudget (record_token s token)
  record_token-HasBudget going =
      let r = recorded in
      elim (Bool-cases (elem token s.eos_token_ids)) [
        | inl eos ↦ ground (arith, r.on_eos eos)
        | inr other ↦ elim (Bool-cases (leb_ℤ s.max_new_tokens (pos (length s.output_ids + 1)))) [
          | inl full ↦ ground (arith, r.on_limit other (ground arith))
          | inr room ↦
              ground
                (arith, r.output, r.same.max_new_tokens, length-append s.output_ids (token ∷ []))
        ]
      ]

  -- A finished sequence stays finished.
  pub record_token-finished : is_finished s ≡ true → is_finished (record_token s token) ≡ true
  record_token-finished done =
      let r = recorded in
      elim (Bool-cases (elem token s.eos_token_ids)) [
        | inl eos ↦ rw (r.on_eos eos) refl
        | inr other ↦ elim (Bool-cases (leb_ℤ s.max_new_tokens (pos (length s.output_ids + 1)))) [
          | inl full ↦ let e = r.on_limit other (ground arith) in rw e refl
          | inr room ↦ let e = r.below_limit other (ground arith) in rw e done
        ]
      ]

-- Each row of a batch finds its token.
pub Each-at :
    (h h' : Heap) (j : ℕ) (rows : List (ℕ × ℕ))
    → Each h h' rows
    → elem j (refs rows) ≡ true
    → (token : ℕ) × (h' j ≡ record_token (h j) token)
unfolding elem
Each-at h h' j [] all e = cc
Each-at h h' j ((i, token) ∷ rest) all e = elim (Bool-cases (i == j)) [
  | inl hit ↦
      let same : i ≡ j = ground arith in
      (token, subst (λ k. h' k ≡ record_token (h k) token) same all.0)
  | inr miss ↦ Each-at h h' j rest all.1 (ground arith)
]

module _ (st : State) (w : IsWellFormed st) (rows : List (ℕ × ℕ))
    (distinct : IsDistinct (refs rows)) (apart : IsApart (refs rows) st.waiting)
    (budget : (j : ℕ) → elem j (refs rows) ≡ true → HasBudget (st.heap j)) where
  h : Heap
  h = (postprocess st.heap rows).0

  at :
      (P : ℕ → Sequence → Type 0) (j : ℕ)
      → ((token : ℕ) → HasBudget (st.heap j) → P j (record_token (st.heap j) token))
      → P j (st.heap j)
      → P j (h j)
  unfolding h
  at P j new old = elim (Bool-cases (elem j (refs rows))) [
    | inl hit ↦
        let (token, e) = Each-at st.heap _ j rows (postprocess-Each st.heap rows distinct) hit in
        subst (P j) (sym e) (new token (budget j hit))
    | inr miss ↦ subst (P j) (sym (postprocess-SameOutside st.heap rows j miss)) old
  ]

  still_held :
      (j token : ℕ)
      → IsSound j (st.heap j)
      → (is_finished (st.heap j) ≡ true) ⊎ (elem j (st.running ++ st.waiting) ≡ true)
      → (is_finished (record_token (st.heap j) token) ≡ true)
        ⊎ (elem j (st.running ++ st.waiting) ≡ true)
  still_held j token v (inl done) = inl (record_token-finished j token (st.heap j) v done)
  still_held j token v (inr e) = inr e

  pub postprocess-IsWellFormed : IsWellFormed (record st { heap = (postprocess st.heap rows).0 })
  unfolding h
  postprocess-IsWellFormed = record {
    distinct = w.distinct;
    queued =
        All-SameOutside (IsQueued st.next_id) (refs rows) st.waiting
          (postprocess-SameOutside st.heap rows) (IsApart-symm (refs rows) st.waiting apart)
          w.queued;
    active =
        All-map st.running
          (λ j a.
            at (IsActive st.next_id) j
              (λ token b. (a.0, record_token-HasBudget j token (st.heap j) (w.sound j a.0))) a)
          w.active;
    sized = w.sized;
    held = λ j k.
        at (λ j s. (is_finished s ≡ true) ⊎ (elem j (st.running ++ st.waiting) ≡ true)) j
          (λ token b. still_held j token (w.sound j k) (w.held j k)) (w.held j k);
    sound = λ j k.
        at IsSound j (λ token b. record_token-IsSound j token (st.heap j) (w.sound j k) b)
          (w.sound j k);
  }
