-- ===== src/Gateway/Requests.antt =====
-- What the handler may rely on in a validated request.
use nano_kube_llm_server.Prelude.{
  ℕ, zero, suc, subst, ap₂, ◌≡◌, refl, sym, ap, ◌∙◌, ◌⊎◌, inl, inr, true, false, Option, none, some,
  ℤ, pos, negsuc, leb_ℤ, ◌≤ℤ◌, Float, finite, lt_float, le_float, arith, Bool-cases, if◌then◌else◌,
}
use nano_kube_llm_server.Gateway.{
  CompletionRequest, sampling_eps, in_bounds, normal_top_k, normalize, validate,
}

-- The number of tokens is not negative; the temperature is 0, or at least the threshold and at most 2;
-- top_k is absent or positive.
pub record IsValid (r : CompletionRequest) : Type 0 where
  pub some_tokens : pos 0 ≤ℤ r.max_tokens
  pub temperate :
      (r.temperature ≡ finite (pos 0) 0)
      ⊎ ((lt_float r.temperature sampling_eps ≡ false)
          × (le_float r.temperature (finite (pos 2) 0) ≡ true))
  pub positive : (r.top_k ≡ none) ⊎ ((k : ℕ) × (r.top_k ≡ some (pos (suc k))))

normal_top_k-positive :
    (k : Option ℤ) → (normal_top_k k ≡ none) ⊎ ((n : ℕ) × (normal_top_k k ≡ some (pos (suc n))))
unfolding normal_top_k
normal_top_k-positive none = inl refl
normal_top_k-positive (some (pos zero)) = inl refl
normal_top_k-positive (some (pos (suc n))) = inr (n, ground arith)
normal_top_k-positive (some (negsuc n)) = inl (ground arith)

normalize-IsValid : (r : CompletionRequest) → in_bounds r ≡ true → IsValid (normalize r)
unfolding normalize in_bounds
normalize-IsValid r e = record {
  some_tokens = ground arith;
  temperate = elim (Bool-cases (lt_float r.temperature sampling_eps)) [
    | inl greedy ↦ inl (rw greedy refl)
    | inr sampled ↦ inr (rw sampled (sampled, ground arith))
  ];
  positive = normal_top_k-positive r.top_k;
}

normal_top_k_twice : (k : Option ℤ) → normal_top_k (normal_top_k k) ≡ normal_top_k k
unfolding normal_top_k
normal_top_k_twice none = refl
normal_top_k_twice (some k) = elim (Bool-cases (leb_ℤ k (pos 0))) [
  | inl off ↦ rw off refl
  | inr on ↦ rw (on, on) refl
]

abbrev floored : Float → Float
floored t = if lt_float t sampling_eps then finite (pos 0) 0 else t

floored_twice : (t : Float) → floored (floored t) ≡ floored t
unfolding lt_float sampling_eps
floored_twice t = elim (Bool-cases (lt_float t sampling_eps)) [
  | inl greedy ↦ rw greedy refl
  | inr sampled ↦ rw (sampled, sampled) refl
]

normalize_twice : (r : CompletionRequest) → normalize (normalize r) ≡ normalize r
unfolding normalize
normalize_twice r =
    ap₂ (λ t k. record r { temperature = t; top_k = k }) (floored_twice r.temperature)
      (normal_top_k_twice r.top_k)

-- A request that is accepted is the normalized body, and it is valid; normalizing it again changes
-- nothing.
pub validate-IsValid :
    (body request : CompletionRequest)
    → validate body ≡ some request
    → (request ≡ normalize body) × IsValid request × (normalize request ≡ request)
unfolding validate
validate-IsValid body request e = elim (Bool-cases (in_bounds body)) [
  | inl fine ↦
      let e' = rw fine at e in
      let f : normalize body ≡ request = cc in
      (
        sym f,
        subst IsValid f (normalize-IsValid body fine),
        ap normalize (sym f) ∙ normalize_twice body ∙ f,
      )
  | inr out ↦ let e' = rw out at e in cc
]
