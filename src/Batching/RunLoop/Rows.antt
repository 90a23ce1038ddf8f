-- ===== src/Batching/RunLoop/Rows.antt =====
-- The rows of a tick: which of the batch failed alone, and which have a token.
use nano_kube_llm_server.Prelude.{
  ℕ, ◌≡◌, refl, true, false, List, [], ◌∷◌, Option, none, some, elem, ◌==◌, All, All-map,
  IsDistinct, arith, Bool-cases, inl, inr, subst,
}
use nano_kube_llm_server.Batching.Scheduler.Tokens.{refs}
use nano_kube_llm_server.Batching.RunLoop.{casualties, survivors}

pub All-elem : (P : ℕ → Type 0) (j : ℕ) (xs : List ℕ) → All P xs → elem j xs ≡ true → P j
unfolding elem
All-elem P j [] a e = cc
All-elem P j (x ∷ xs) a e = elim (Bool-cases (x == j)) [
  | inl hit ↦ let same : x ≡ j = ground arith in subst P same a.0
  | inr miss ↦ All-elem P j xs a.1 (ground arith)
]

module _ (P : ℕ → Type 0) where
  pub survivors-All :
      (batch : List ℕ) (next_ids : List (Option ℕ))
      → All P batch
      → All P (refs (survivors batch next_ids))
  unfolding survivors
  survivors-All [] next_ids a = tt
  survivors-All (i ∷ is) [] a = tt
  survivors-All (i ∷ is) (none ∷ ts) a = survivors-All is ts a.1
  survivors-All (i ∷ is) (some t ∷ ts) a = (a.0, survivors-All is ts a.1)

  pub casualties-All :
      (batch : List ℕ) (next_ids : List (Option ℕ))
      → All P batch
      → All P (casualties batch next_ids)
  unfolding casualties
  casualties-All [] next_ids a = tt
  casualties-All (i ∷ is) [] a = tt
  casualties-All (i ∷ is) (none ∷ ts) a = (a.0, casualties-All is ts a.1)
  casualties-All (i ∷ is) (some t ∷ ts) a = casualties-All is ts a.1

pub survivors-missing :
    (j : ℕ) (batch : List ℕ) (next_ids : List (Option ℕ))
    → elem j batch ≡ false
    → elem j (refs (survivors batch next_ids)) ≡ false
unfolding survivors elem
survivors-missing j [] next_ids e = refl
survivors-missing j (i ∷ is) [] e = refl
survivors-missing j (i ∷ is) (none ∷ ts) e = survivors-missing j is ts (ground arith)
survivors-missing j (i ∷ is) (some t ∷ ts) e = ground (arith, survivors-missing j is ts)

pub survivors-IsDistinct :
    (batch : List ℕ) (next_ids : List (Option ℕ))
    → IsDistinct batch
    → IsDistinct (refs (survivors batch next_ids))
unfolding survivors
survivors-IsDistinct [] next_ids d = tt
survivors-IsDistinct (i ∷ is) [] d = tt
survivors-IsDistinct (i ∷ is) (none ∷ ts) d = survivors-IsDistinct is ts d.1
survivors-IsDistinct (i ∷ is) (some t ∷ ts) d =
    (survivors-missing i is ts d.0, survivors-IsDistinct is ts d.1)

pub casualties-missing :
    (j : ℕ) (batch : List ℕ) (next_ids : List (Option ℕ))
    → elem j batch ≡ false
    → elem j (casualties batch next_ids) ≡ false
unfolding casualties elem
casualties-missing j [] next_ids e = refl
casualties-missing j (i ∷ is) [] e = refl
casualties-missing j (i ∷ is) (none ∷ ts) e = ground (arith, casualties-missing j is ts)
casualties-missing j (i ∷ is) (some t ∷ ts) e = casualties-missing j is ts (ground arith)

pub elem_self : (is : List ℕ) → All (λ i. elem i is ≡ true) is
unfolding elem
elem_self [] = tt
elem_self (i ∷ is) = (ground arith, All-map is (λ j e. ground arith) (elem_self is))
