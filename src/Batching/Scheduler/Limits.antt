-- ===== src/Batching/Scheduler/Limits.antt =====
-- The limits of the batch.
use nano_kube_llm_server.Prelude.{
  ℕ, ◌+◌, ◌≡◌, refl, ap, ◌∙◌, ◌⊎◌, inl, inr, List, [], ◌∷◌, ◌++◌, ℤ, pos, ◌≤ℤ◌, length, arith,
  Bool-cases,
}
use nano_kube_llm_server.Batching.Sequences.{Heap, seq_len}
use nano_kube_llm_server.Batching.Scheduler.{State, total_len, fits, admit, schedule, unfinished}
use nano_kube_llm_server.Batching.Scheduler.Admission.{fits_true, total_len-append, batch_tokens}

module _ (h : Heap) (size tokens : ℤ) where
  -- A batch is as it was, or one request, or within the token budget.
  abbrev Kept : List ℕ → List ℕ → Type 0
  Kept running out = (out ≡ running) ⊎ (length out ≡ 1) ⊎ (pos (total_len h out) ≤ℤ tokens)

  enlarged :
      (running : List ℕ) (c : ℕ) (out : List ℕ)
      → (running ≡ []) ⊎ (pos (total_len h running + seq_len (h c)) ≤ℤ tokens)
      → Kept (running ++ c ∷ []) out
      → Kept running out
  unfolding total_len
  enlarged running c out (inl r) (inl e) =
      inr (inl (ap length e ∙ ap (λ q. length (q ++ c ∷ [])) r))
  enlarged running c out (inr b) (inl e) =
      inr (
        inr (omega (arith, ap (total_len h) e, total_len-append h size tokens running (c ∷ []), b)))
  enlarged running c out f (inr k) = inr k

  admit-Kept : (running waiting : List ℕ) → Kept running (admit h size tokens running waiting).0
  unfolding admit
  admit-Kept running [] = inl refl
  admit-Kept running (c ∷ rest) = elim (Bool-cases (fits h size tokens running c)) [
    | inl e ↦ rw e (
        enlarged running c _ (fits_true h size tokens running c e).1
          (admit-Kept (running ++ c ∷ []) rest))
    | inr e ↦ rw e (inl refl)
  ]

-- A batch that `schedule` adds to is within the token budget, or is a single request; else it is
-- what was running, less the finished requests.
pub schedule-budget :
    (st : State)
    → ((schedule st).running ≡ unfinished st.heap st.running)
      ⊎ (length (schedule st).running ≡ 1)
      ⊎ (pos (batch_tokens (schedule st)) ≤ℤ st.max_batch_tokens)
unfolding schedule
schedule-budget st =
    admit-Kept st.heap st.max_batch_size st.max_batch_tokens (unfinished st.heap st.running)
      st.waiting
