-- ===== src/Runners/Qwen/Sampling.antt =====
-- The per-row loop of `_sample`: which failures stay with their row.
use nano_kube_llm_server.Prelude.{
  ℕ, suc, ◌≡◌, refl, ap, ◌∙◌, Bool, true, false, List, [], ◌∷◌, map, Option, none, some, length,
  length-map, Bool-cases, inl, inr, if◌then◌else◌,
}
use nano_kube_llm_server.Batching.Sequences.{Sequence}
use nano_kube_llm_server.Runners.Qwen.{
  Backend, Attempt, returned, out_of_memory, failed, ◌>>=◌, sample, sample_row, pick, cons_row,
}

unfoldable pub any_out_of_memory : List (Attempt ℕ) → Bool
any_out_of_memory [] = false
any_out_of_memory (out_of_memory ∷ tries) = true
any_out_of_memory (returned token ∷ tries) = any_out_of_memory tries
any_out_of_memory (failed ∷ tries) = any_out_of_memory tries

unfoldable pub token_of : Attempt ℕ → Option ℕ
token_of (returned token) = some token
token_of _ = none

module _ (b : Backend) where
  -- What sampling does in each row, each with the generator as the rows above it left it.
  unfoldable pub attempts : List b.Logits → List Sequence → b.Rng → List (Attempt ℕ)
  attempts logits [] g = []
  attempts [] (s ∷ ss) g = failed ∷ attempts [] ss g
  attempts (row ∷ logits) (s ∷ ss) g =
      let (token, g') = sample_row b s row g in token ∷ attempts logits ss g'

  pub length-attempts :
      (logits : List b.Logits) (seqs : List Sequence) (g : b.Rng)
      → length (attempts logits seqs g) ≡ length seqs
  unfolding attempts
  length-attempts logits [] g = refl
  length-attempts [] (s ∷ ss) g = ap suc (length-attempts [] ss g)
  length-attempts (row ∷ logits) (s ∷ ss) g = ap suc (length-attempts logits ss _)

  abbrev collected : List (Attempt ℕ) → Attempt (List (Option ℕ))
  collected tries = if any_out_of_memory tries then out_of_memory else returned (map token_of tries)

  collected-returned :
      (token : Option ℕ) (a : Attempt ℕ) (tries : List (Attempt ℕ))
      → any_out_of_memory (a ∷ tries) ≡ any_out_of_memory tries
      → token_of a ≡ token
      → (collected tries >>= λ tokens. returned (token ∷ tokens)) ≡ collected (a ∷ tries)
  collected-returned token a tries same e = elim (Bool-cases (any_out_of_memory tries)) [
    | inl fatal ↦ rw (same, fatal) refl
    | inr fine ↦ rw (same, fine, e) refl
  ]

  pick-collected :
      (a : Attempt ℕ) (g : b.Rng) (rest : Attempt (List (Option ℕ)) × b.Rng)
      (tries : List (Attempt ℕ))
      → rest.0 ≡ collected tries
      → (pick b a g rest).0 ≡ collected (a ∷ tries)
  unfolding pick cons_row any_out_of_memory token_of
  pick-collected (returned token) g rest tries e =
      ap (λ r. r >>= λ tokens. returned (some token ∷ tokens)) e
      ∙ collected-returned (some token) (returned token) tries refl refl
  pick-collected out_of_memory g rest tries e = refl
  pick-collected failed g rest tries e =
      ap (λ r. r >>= λ tokens. returned (none ∷ tokens)) e
      ∙ collected-returned none failed tries refl refl

  sample-collected :
      (logits : List b.Logits) (seqs : List Sequence) (g : b.Rng)
      → (sample b logits seqs g).0 ≡ collected (attempts logits seqs g)
  unfolding sample attempts any_out_of_memory
  sample-collected logits [] g = refl
  sample-collected [] (s ∷ ss) g =
      pick-collected failed g (sample b [] ss g) (attempts [] ss g) (sample-collected [] ss g)
  sample-collected (row ∷ logits) (s ∷ ss) g =
      let (token, g') = sample_row b s row g in
      pick-collected token g' (sample b logits ss g') (attempts logits ss g')
        (sample-collected logits ss g')

  -- Sampling a batch gives one entry for each sequence: the token of its row, or none exactly if the
  -- row failed, whatever the other rows do; and it raises exactly if a row ran out of memory.
  pub sample_lem :
      (logits : List b.Logits) (seqs : List Sequence) (g : b.Rng)
      → ((sample b logits seqs g).0 ≡ (
          if any_out_of_memory (attempts logits seqs g)
          then out_of_memory
          else returned (map token_of (attempts logits seqs g))))
        × (length (map token_of (attempts logits seqs g)) ≡ length seqs)
  sample_lem logits seqs g = (
    sample-collected logits seqs g,
    length-map (attempts logits seqs g) token_of ∙ length-attempts logits seqs g,
  )
