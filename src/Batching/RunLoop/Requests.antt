-- ===== src/Batching/RunLoop/Requests.antt =====
-- Properties of single requests that every event keeps, given what the runner answers.
use nano_kube_llm_server.Prelude.{
  ℕ, ◌≡◌, sym, ap, subst, ◌∙◌, ◌⊎◌, inl, inr, true, false, List, [], ◌∷◌, Option, none, some, pos,
  leb_ℤ, elem, ◌==◌, length, arith, Bool-cases,
}
use nano_kube_llm_server.Batching.Sequences.{
  Sequence, Heap, Finish, Params, is_finished, cancelled, error, length_limit, update, emit,
  deliver, new_sequence,
}
use nano_kube_llm_server.Batching.Sequences.Heaps.{Core, core, update_self}
use nano_kube_llm_server.Batching.Scheduler.{State, add, fail_one, record_token, finish}
use nano_kube_llm_server.Batching.Scheduler.WellFormed.{HasBudget, IsSound}
use nano_kube_llm_server.Batching.Scheduler.WellFormed.Aborts.{aborted}
use nano_kube_llm_server.Batching.RunLoop.{submit}
use nano_kube_llm_server.Batching.RunLoop.Grows.{SameTokens}
use nano_kube_llm_server.Batching.RunLoop.Entries.{failed_row, EachEntry}

-- The reasons that `abort` is called with.
abbrev pub IsAbort : Finish → Type 0
IsAbort reason = (reason ≡ cancelled) ⊎ (reason ≡ error)

-- Each token is one that may follow its sequence.
abbrev pub Answers : (Core → ℕ → Type 0) → List Sequence → List (Option ℕ) → Type 0
Answers Follows (s ∷ ss) (none ∷ ts) = Answers Follows ss ts
Answers Follows (s ∷ ss) (some t ∷ ts) = Follows (core s) t × Answers Follows ss ts
Answers Follows _ _ = Unit

-- P holds of every request, and Open of those that are on the worker thread. A token that may follow is
-- recorded only in an open request.
pub record IsStable (Follows : Core → ℕ → Type 0) (P Open : Sequence → Type 0) : Type 0 where
  pub created : (p : Params) (n : ℕ) → P (new_sequence p n true)
  pub refused :
      (p : Params) (n : ℕ)
      → leb_ℤ (new_sequence p n true).max_new_tokens (pos 0) ≡ true
      → P (emit (finish length_limit (new_sequence p n true)) none)
  pub aborts : (reason : Finish) (s : Sequence) → IsAbort reason → P s → P (aborted reason s)
  pub fails : (s : Sequence) → P s → P (fail_one s)
  pub delivers : (s : Sequence) → P s → P (deliver s)
  pub opens : (s : Sequence) → P s → is_finished s ≡ false → Open s
  pub open_aborts :
      (reason : Finish) (s : Sequence) → IsAbort reason → Open s → Open (aborted reason s)
  pub open_delivers : (s : Sequence) → Open s → Open (deliver s)
  pub records :
      (i token : ℕ) (s : Sequence)
      → IsSound i s
      → HasBudget s
      → P s
      → Open s
      → Follows (core s) token
      → P (record_token s token)

-- The entry of a request of the batch.
pub Answers-at :
    (Follows : Core → ℕ → Type 0) (h h' : Heap) (j : ℕ) (seqs : List Sequence) (batch : List ℕ)
    (entries : List (Option ℕ))
    → SameTokens h seqs batch
    → Answers Follows seqs entries
    → length entries ≡ length batch
    → EachEntry h h' batch entries
    → elem j batch ≡ true
    → (h' j ≡ failed_row (h j))
      ⊎ ((token : ℕ) × Follows (core (h j)) token × (h' j ≡ record_token (h j) token))
unfolding elem
Answers-at Follows h h' j ss [] entries same a n each e = cc
Answers-at Follows h h' j [] (i ∷ is) entries same a n each e = absurd same
Answers-at Follows h h' j (s ∷ ss) (i ∷ is) [] same a n each e = absurd (omega (arith, n))
Answers-at Follows h h' j (s ∷ ss) (i ∷ is) (none ∷ ts) same a n each e =
    elim (Bool-cases (i == j)) [
      | inl hit ↦
          let f : i ≡ j = ground arith in inl (subst (λ k. h' k ≡ failed_row (h k)) f each.0)
      | inr miss ↦ Answers-at Follows h h' j ss is ts same.1 a (ground arith) each.1 (ground arith)
    ]
Answers-at Follows h h' j (s ∷ ss) (i ∷ is) (some t ∷ ts) same a n each e =
    elim (Bool-cases (i == j)) [
      | inl hit ↦
          let f : i ≡ j = ground arith in
          inr (
            t,
            subst (λ k. Follows (core (h k)) t) f (subst (λ c. Follows c t) (sym same.0) a.0),
            subst (λ k. h' k ≡ record_token (h k) t) f each.0,
          )
      | inr miss ↦
          Answers-at Follows h h' j ss is ts same.1 a.1 (ground arith) each.1 (ground arith)
    ]

pub submit-cases :
    (st : State) (p : Params)
    → let s = new_sequence p st.next_id true in
      ((submit st p).heap st.next_id ≡ s)
      ⊎ ((leb_ℤ s.max_new_tokens (pos 0) ≡ true)
          × ((submit st p).heap st.next_id ≡ emit (finish length_limit s) none))
unfolding submit add
submit-cases st p = elim (Bool-cases (leb_ℤ (h n).max_new_tokens (pos 0))) [
  | inl none_asked ↦ inr (
    subst (λ s. leb_ℤ s.max_new_tokens (pos 0) ≡ true) made none_asked,
    rw none_asked (update_self h n _ ∙ ap (λ s. emit (finish length_limit s) none) made),
  )
  | inr some_asked ↦ inl (rw some_asked made)
]
  where
    n : ℕ
    n = st.next_id

    h : Heap
    h = update st.heap n (new_sequence p n true)

    made : h n ≡ new_sequence p n true
    made = update_self st.heap n (new_sequence p n true)
