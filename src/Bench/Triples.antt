-- ===== src/Bench/Triples.antt =====
-- Conditions before and after a run of a benchmark.
use nano_kube_llm_server.Prelude.{
  ℤ, ℕ, zero, suc, List, [], ◌∷◌, Bool-cases, inl, inr, ◌==◌, ◌%◌, length, ◌≡◌, sym, subst,
}
use nano_kube_llm_server.Runners.Qwen.{Attempt, returned, out_of_memory, failed}
use nano_kube_llm_server.Bench.{
  Options, Generation, generates, noted, Rig, Desk, Run, after, ◌>>=◌, pure, change, call, attempt,
}
use nano_kube_llm_server.Bench.Measure.{run_generate, timed, time_runs, measure, median, peak_gb}
use nano_kube_llm_server.Bench.Suites.{each}

module _ {rig : Rig} where
  -- What holds after a run: R if it returned, O if it ran out of memory, F if it failed otherwise.
  abbrev pub Ends : {A : Type 0} → (R O F : Desk rig → Type 0) → Attempt A × Desk rig → Type 0
  Ends R O F (returned a, d) = R d
  Ends R O F (out_of_memory, d) = O d
  Ends R O F (failed, d) = F d

  -- From P, the run ends so.
  pub record Triple {A : Type 0} (P : Desk rig → Type 0) (m : Run rig A) (R O F : Desk rig → Type 0)
      : Type 0 where
    pub ends : (d : Desk rig) → P d → Ends R O F (m d)

  after-Ends :
      {A B : Type 0} (Q R O F : Desk rig → Type 0) (f : A → Run rig B) (x : Attempt A × Desk rig)
      → Ends Q O F x
      → ((a : A) → Triple Q (f a) R O F)
      → Ends R O F (after f x)
  after-Ends Q R O F f (returned a, d) q t = (t a).ends d q
  after-Ends Q R O F f (out_of_memory, d) o t = o
  after-Ends Q R O F f (failed, d) e t = e

  pub bind-Triple :
      {A B : Type 0} {P Q R O F : Desk rig → Type 0} {m : Run rig A} {f : A → Run rig B}
      → Triple P m Q O F
      → ((a : A) → Triple Q (f a) R O F)
      → Triple P (m >>= f) R O F
  unfolding ◌>>=◌
  bind-Triple {Q = Q} {R = R} {O = O} {F = F} {m = m} {f = f} s t = record {
    ends = λ d p. after-Ends Q R O F f (m d) (s.ends d p) t;
  }

  pub pure-Triple : {A : Type 0} {P O F : Desk rig → Type 0} (a : A) → Triple P (pure a) P O F
  unfolding pure
  pure-Triple a = record { ends = λ d p. p }

  pub change-Triple :
      {P R O F : Desk rig → Type 0} (f : Desk rig → Desk rig)
      → ((d : Desk rig) → P d → R (f d))
      → Triple P (change f) R O F
  unfolding change
  change-Triple f keep = record { ends = keep }

  constant-Ends :
      {A : Type 0} (P : Desk rig → Type 0) (x : Attempt A) (d : Desk rig) → P d → Ends P P P (x, d)
  constant-Ends P (returned a) d p = p
  constant-Ends P out_of_memory d p = p
  constant-Ends P failed d p = p

  pub attempt-Triple :
      {A : Type 0} {P : Desk rig → Type 0} (x : Attempt A) → Triple P (attempt x) P P P
  unfolding attempt
  attempt-Triple {P = P} x = record { ends = λ d p. constant-Ends P x d p }

  -- P says nothing of the outside world.
  abbrev pub IsInner : (Desk rig → Type 0) → Type 0
  IsInner P = (d : Desk rig) (w : rig.World) → P d → P (record d { world = w })

  pub call-Triple :
      {A : Type 0} {P : Desk rig → Type 0} (f : rig.World → Attempt A × rig.World)
      → IsInner P
      → Triple P (call f) P P P
  unfolding call
  call-Triple {P = P} f inner = record {
    ends = λ d p. constant-Ends P (f d.world).0 _ (inner d (f d.world).1 p);
  }

  -- The call returns, whatever the world.
  pub call-Triple_returned :
      {P O F : Desk rig → Type 0} (f : rig.World → Attempt (Unit {0}) × rig.World)
      → ((w : rig.World) → (f w).0 ≡ returned tt)
      → IsInner P
      → Triple P (call f) P O F
  unfolding call
  call-Triple_returned {P = P} {O = O} {F = F} f returns inner = record {
    ends = λ d p.
        subst (λ x. Ends P O F (x, record d { world = (f d.world).1 })) (sym (returns d.world))
          (inner d (f d.world).1 p);
  }

  pub weaker-Ends :
      {A : Type 0} {R O F R' O' F' : Desk rig → Type 0} (x : Attempt A × Desk rig)
      → ((d : Desk rig) → R d → R' d)
      → ((d : Desk rig) → O d → O' d)
      → ((d : Desk rig) → F d → F' d)
      → Ends R O F x
      → Ends R' O' F' x
  weaker-Ends (returned a, d) r o f e = r d e
  weaker-Ends (out_of_memory, d) r o f e = o d e
  weaker-Ends (failed, d) r o f e = f d e

  pub weaker-Triple :
      {A : Type 0} {P R O F O' F' : Desk rig → Type 0} {m : Run rig A}
      → Triple P m R O F
      → ((d : Desk rig) → O d → O' d)
      → ((d : Desk rig) → F d → F' d)
      → Triple P m R O' F'
  weaker-Triple {m = m} t o f = record {
    ends = λ d p. weaker-Ends (m d) (λ d r. r) o f (t.ends d p);
  }

  pub each-Triple :
      {A : Type 0} {P O F : Desk rig → Type 0} (body : A → Run rig (Unit {0})) (xs : List A)
      → ((x : A) → Triple P (body x) P O F)
      → Triple P (each rig body xs) P O F
  unfolding each
  each-Triple body [] keep = pure-Triple tt
  each-Triple body (x ∷ xs) keep = bind-Triple (keep x) (λ _. each-Triple body xs keep)

-- What a measurement keeps: it says nothing of the outside world or of the calls of `generate`.
pub record IsSteady {rig : Rig} (P : Desk rig → Type 0) : Type 0 where
  pub inner : IsInner P
  pub generating : (d : Desk rig) (g : Generation) → P d → P (noted rig (generates g) d)

module _ {rig : Rig} {P : Desk rig → Type 0} (steady : IsSteady P) where
  run_generate-Triple :
      (model : rig.Model) (enc : rig.Batch) (g : Generation)
      → Triple P (run_generate rig model enc g) P P P
  run_generate-Triple model enc g =
      bind-Triple (change-Triple _ (λ d p. steady.generating d g p)) λ _. call-Triple _ steady.inner

  timed-Triple :
      (model : rig.Model) (enc : rig.Batch) (g : Generation)
      → Triple P (timed rig model enc g) P P P
  unfolding timed
  timed-Triple model enc g = bind-Triple (call-Triple _ steady.inner) λ _.
      bind-Triple (call-Triple _ steady.inner) λ start.
        bind-Triple (run_generate-Triple model enc g) λ _.
          bind-Triple (call-Triple _ steady.inner)
            λ _. bind-Triple (call-Triple _ steady.inner) λ end. pure-Triple (rig.minus end start)

  time_runs-Triple :
      (runs : ℕ) (model : rig.Model) (enc : rig.Batch) (new_tokens : ℤ) (options : Options)
      → Triple P (time_runs rig runs model enc new_tokens options) P P P
  unfolding time_runs
  time_runs-Triple zero model enc new_tokens options = pure-Triple ([], [])
  time_runs-Triple (suc runs) model enc new_tokens options =
      bind-Triple (timed-Triple model enc _) λ ttft. bind-Triple (timed-Triple model enc _) λ total.
        bind-Triple (time_runs-Triple runs model enc new_tokens options)
          λ (ttfts, totals). pure-Triple (ttft ∷ ttfts, total ∷ totals)

  median-Triple : (xs : List rig.Number) → Triple P (median rig xs) P P P
  unfolding median
  median-Triple xs = elim (Bool-cases (length xs % 2 == 1)) [
    | inl odd ↦ rw odd (attempt-Triple _)
    | inr even ↦ rw even (
        bind-Triple (attempt-Triple _)
          λ low. bind-Triple (attempt-Triple _) λ high. attempt-Triple _)
  ]

  pub measure-Triple :
      (model : rig.Model) (enc : rig.Batch) (new_tokens : ℤ) (options : Options)
      → Triple P (measure rig model enc new_tokens options) P P P
  unfolding measure
  measure-Triple model enc new_tokens options = bind-Triple (run_generate-Triple model enc _) λ _.
      bind-Triple (call-Triple _ steady.inner) λ _.
        bind-Triple (time_runs-Triple 3 model enc new_tokens options) λ (ttfts, totals).
          bind-Triple (median-Triple ttfts) λ ttft. bind-Triple (median-Triple totals) λ total.
            bind-Triple (attempt-Triple _)
              λ decode_tok_s. bind-Triple (attempt-Triple _) λ total_tok_s. pure-Triple _

  peak-Ends : (x : Attempt rig.Number) (d : Desk rig) → P d → Ends P P P (attempt {rig = rig} x d)
  peak-Ends x d p = (attempt-Triple x).ends d p

  pub peak_gb-Triple : Triple P (peak_gb rig) P P P
  unfolding peak_gb
  peak_gb-Triple = record { ends = λ d p. peak-Ends _ d p }
