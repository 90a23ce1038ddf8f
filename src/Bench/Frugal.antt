-- ===== src/Bench/Frugal.antt =====
-- What the names of a benchmark are bound to, step by step, in each of them and in the script.
use nano_kube_llm_server.Prelude.{ℤ, ◌≡◌, refl, ap, true, false, List, [], ◌∷◌, Option, none, some}
use nano_kube_llm_server.Runners.Qwen.{Attempt, returned, out_of_memory, failed}
use nano_kube_llm_server.Bench.{
  Precision, bfloat16, Attention, sdpa, Options, Rig, Label, prints, Desk, Run, is_bound,
}
use nano_kube_llm_server.Bench.Suites.{
  Args, Suite, dtype, attn, batch, compile, roofline, Choice, chosen, dtype_trial, bench_dtype,
  trial, bench_attn, batch_sizes, batch_trial, give_up_batch, caught, batch_loop, bench_batch,
  graphs_trial, bench_compile, bench_roofline, bench, main,
}
use nano_kube_llm_server.Bench.Triples.{
  Ends, Triple, bind-Triple, pure-Triple, change-Triple, attempt-Triple, weaker-Triple, each-Triple,
  measure-Triple, peak_gb-Triple,
}
use nano_kube_llm_server.Bench.Holding.{
  Frugal, Held, Holds, WithModel, noted-Frugal, print-Triple, free-Triple, clear-Triple,
  load_model-Triple, build_enc-Triple, built-Triple, measured-Triple, peaked-Triple, divided-Triple,
  clocked-Triple, measuring-IsSteady,
}

module _ {rig : Rig} where
  -- Neither name is bound before it, and neither after it.
  abbrev IsClean : Run rig (Unit {0}) → Type 0
  IsClean m = Triple (Holds false false) m (Holds false false) Frugal Frugal

  dtype_trial-IsClean :
      (args : Args) (precision : Precision) → IsClean (dtype_trial rig args precision)
  unfolding dtype_trial
  dtype_trial-IsClean args precision = bind-Triple (load_model-Triple precision sdpa) λ model.
      bind-Triple (built-Triple _ _) λ enc.
        bind-Triple (measured-Triple model enc _ _) λ (ttft, dec, total).
          bind-Triple peaked-Triple λ peak.
            bind-Triple (divided-Triple _) λ weights. bind-Triple (print-Triple _) λ _. clear-Triple

  bench_dtype-IsClean : (args : Args) → IsClean (bench_dtype rig args)
  unfolding bench_dtype
  bench_dtype-IsClean args =
      bind-Triple (print-Triple _) λ _. each-Triple _ _ (dtype_trial-IsClean args)

  trial-IsClean :
      (precision : Precision) (attention : Attention) (prompt_tokens new_tokens : ℤ)
      (options : Options) (label : Label)
      → IsClean (trial rig precision attention prompt_tokens new_tokens options label)
  unfolding trial
  trial-IsClean precision attention prompt_tokens new_tokens options label =
      bind-Triple (load_model-Triple precision attention) λ model.
        bind-Triple (built-Triple _ _) λ enc.
          bind-Triple (measured-Triple model enc _ _) λ (ttft, dec, total).
            bind-Triple peaked-Triple λ peak. bind-Triple (print-Triple _) λ _. clear-Triple

  bench_attn-IsClean : (args : Args) → IsClean (bench_attn rig args)
  unfolding bench_attn
  bench_attn-IsClean args = bind-Triple (print-Triple _) λ _.
      bind-Triple (each-Triple _ _ λ a. trial-IsClean _ _ _ _ _ _)
        λ _. bind-Triple (print-Triple _) λ _. each-Triple _ _ λ a. trial-IsClean _ _ _ _ _ _

  graphs_trial-IsClean : (args : Args) → IsClean (graphs_trial rig args)
  unfolding graphs_trial
  graphs_trial-IsClean args = bind-Triple (load_model-Triple bfloat16 sdpa) λ model.
      bind-Triple (built-Triple _ _) λ enc. bind-Triple clocked-Triple λ start.
        bind-Triple (measured-Triple model enc _ _) λ (ttft, dec, total).
          bind-Triple peaked-Triple
            λ peak. bind-Triple clocked-Triple λ end. bind-Triple (print-Triple _) λ _. clear-Triple

  bench_compile-IsClean : (args : Args) → IsClean (bench_compile rig args)
  unfolding bench_compile
  bench_compile-IsClean args = bind-Triple (print-Triple _) λ _.
      bind-Triple (trial-IsClean _ _ _ _ _ _)
        λ _. bind-Triple (trial-IsClean _ _ _ _ _ _) λ _. graphs_trial-IsClean args

  bench_roofline-IsClean : (args : Args) → IsClean (bench_roofline rig args)
  unfolding bench_roofline
  bench_roofline-IsClean args = bind-Triple (load_model-Triple bfloat16 sdpa) λ model.
      bind-Triple (built-Triple _ _) λ enc.
        bind-Triple (measured-Triple model enc _ _) λ (ttft, dec, total).
          bind-Triple (divided-Triple _) λ ceiling. bind-Triple (print-Triple _) λ _.
            bind-Triple (divided-Triple _) λ weights. bind-Triple (print-Triple _) λ _.
              bind-Triple (print-Triple _) λ _. bind-Triple (print-Triple _) λ _.
                bind-Triple (print-Triple _) λ _.
                  bind-Triple (divided-Triple _)
                    λ share. bind-Triple (print-Triple _) λ _. clear-Triple

  -- The model stays bound when the `try` runs out of memory.
  batch_trial-Triple :
      (args : Args) (model : rig.Model) (base : Option rig.Number) (bs : ℤ)
      → Triple
          (Holds true false)
          (batch_trial rig args model base bs)
          (Holds true false)
          (WithModel false)
          Frugal
  unfolding batch_trial
  batch_trial-Triple args model base bs =
      bind-Triple (weaker-Triple (build_enc-Triple _ _) (λ d h. h) (λ d h. h.0)) λ enc.
        bind-Triple
          (weaker-Triple (measure-Triple measuring-IsSteady model enc _ _)
            (λ d (f, m, e, h). (f, m, h)) (λ d h. h.0))
          λ (ttft, dec, total).
            bind-Triple
              (weaker-Triple (peak_gb-Triple measuring-IsSteady) (λ d (f, m, e, h). (f, m, h))
                (λ d h. h.0))
              λ peak.
                bind-Triple
                  (weaker-Triple (attempt-Triple _) (λ d (f, m, e, h). (f, m, h)) (λ d h. h.0))
                  λ ratio. bind-Triple (print-Triple _) λ _.
                    bind-Triple
                      (change-Triple {R = Holds true false} _ λ d (f, m, e, h). (f, m, refl, h))
                      λ _.
                        bind-Triple
                          (weaker-Triple free-Triple (λ d (f, m, e, h). (f, m, h)) (λ d v. v.0))
                          λ _. pure-Triple _

  give_up_batch-Triple :
      (bs : ℤ) → Triple (WithModel false) (give_up_batch rig bs) (Holds true false) Frugal Frugal
  unfolding give_up_batch
  give_up_batch-Triple bs =
      bind-Triple (change-Triple {R = WithModel true} _ λ d (f, m, h). (f, m, refl)) λ _.
        bind-Triple
          (change-Triple {R = WithModel true} _
            λ d (f, m, h). (noted-Frugal (prints _) d f tt, m, h))
          λ _.
            bind-Triple (change-Triple {R = Held true true false} _ λ d (f, m, h). (f, m, refl, h))
              λ _.
                bind-Triple (weaker-Triple free-Triple (λ d v. v.0) (λ d v. v.0))
                  λ _. change-Triple _ λ d (f, m, e, h). (f, m, e, refl)

  caught-Ends :
      (next : rig.Number → Run rig (Unit {0})) (handler : Run rig (Unit {0}))
      (x : Attempt rig.Number × Desk rig)
      → Ends (Holds true false) (WithModel false) Frugal x
      → ((total : rig.Number)
          → Triple (Holds true false) (next total) (Holds true false) Frugal Frugal)
      → Triple (WithModel false) handler (Holds true false) Frugal Frugal
      → Ends (Holds true false) Frugal Frugal (caught rig next handler x)
  caught-Ends next handler (returned total, d) h t u = (t total).ends d h
  caught-Ends next handler (out_of_memory, d) h t u = u.ends d h
  caught-Ends next handler (failed, d) h t u = h

  batch_loop-Triple :
      (args : Args) (model : rig.Model) (base : Option rig.Number) (sizes : List ℤ)
      → Triple
          (Holds true false)
          (batch_loop rig args model base sizes)
          (Holds true false)
          Frugal
          Frugal
  unfolding batch_loop
  batch_loop-Triple args model base [] = record {
    ends = λ d h. (pure-Triple {O = Frugal} {F = Frugal} tt).ends d h;
  }
  batch_loop-Triple args model base (bs ∷ sizes) = record {
    ends = λ d h.
        caught-Ends _ _ (batch_trial rig args model base bs d)
          ((batch_trial-Triple args model base bs).ends d h)
          (λ total. batch_loop-Triple args model (some total) sizes) (give_up_batch-Triple bs);
  }

  bench_batch-IsClean : (args : Args) → IsClean (bench_batch rig args)
  unfolding bench_batch
  bench_batch-IsClean args = bind-Triple (print-Triple _) λ _.
      bind-Triple (load_model-Triple bfloat16 sdpa) λ model.
        bind-Triple (batch_loop-Triple args model none batch_sizes) λ _.
          bind-Triple (change-Triple {R = Holds false false} _ λ d (f, m, e, h). (f, refl, e, h))
            λ _. weaker-Triple free-Triple (λ d v. v.0) (λ d v. v.0)

  bench-IsClean : (args : Args) (suite : Suite) → IsClean (bench rig args suite)
  unfolding bench
  bench-IsClean args dtype = bench_dtype-IsClean args
  bench-IsClean args attn = bench_attn-IsClean args
  bench-IsClean args batch = bench_batch-IsClean args
  bench-IsClean args compile = bench_compile-IsClean args
  bench-IsClean args roofline = bench_roofline-IsClean args

  -- Whatever torch does, and whichever benchmarks are chosen, if neither name is bound, no exception is
  -- being handled and nothing was done yet: no exception is being handled when a model is loaded, a
  -- batch is built or `generate` is called; neither `model` nor `enc` is bound when a model is loaded,
  -- `model` alone when a batch is built, both in a call of `generate`, and `enc` is not when memory is
  -- collected; and if the script ends without raising, neither is bound and no exception is handled.
  pub main-Ends :
      (choice : Choice) (args : Args) (d : Desk rig)
      → d.log ≡ []
      → d.model ≡ none
      → d.enc ≡ none
      → d.handling ≡ false
      → Ends (Holds false false) Frugal Frugal (main rig choice args d)
  unfolding main
  main-Ends choice args d log model enc calm =
      (each-Triple (bench rig args) (chosen choice) (bench-IsClean args)).ends d
        (rw log tt, ap is_bound model, ap is_bound enc, calm)
