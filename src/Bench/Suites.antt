-- ===== src/Bench/Suites.antt =====
-- model_server/bench.py: the benchmarks, and the choice among them.
use nano_kube_llm_server.Prelude.{
  ℤ, pos, true, false, List, [], ◌∷◌, Option, none, some, if◌then◌else◌,
}
use nano_kube_llm_server.Runners.Qwen.{Attempt, returned, out_of_memory, failed}
use nano_kube_llm_server.Bench.{
  Precision, float32, float16, bfloat16, Attention, eager, sdpa, Options, Rig, dtype_title,
  attn_long_title, batch_title, compile_title, attn_title, of_precision, of_attention, of_batch,
  dynamic_cache, static_cache_alone, static_cuda_graphs, Label, no_extra, weights_gb, times_base,
  compile_seconds, header, row, oom, figure, roofline_title, weights_read, spec_bandwidth,
  theoretical_ceiling, measured_rate, bandwidth_utilisation, Desk, Run, ◌>>=◌, ◌>>◌, pure, change,
  attempt, bind_model, bind_enc, handle, free,
}
use nano_kube_llm_server.Bench.Measure.{
  load, make_batch, measure, clock, giga, peak_gb, bytes, print,
}

-- `args.prompt_tokens` and `args.new_tokens`.
pub record Args : Type 0 where
  pub prompt_tokens : ℤ
  pub new_tokens : ℤ

abbrev pub defaults : Options
defaults = record { static_cache = false; disable_compile = false; reduce_overhead = false }

pub data Suite : Type 0 where
  dtype attn batch compile roofline : Suite

-- `which`: a key of BENCHES, or "all".
pub data Choice : Type 0 where
  one : Suite → Choice
  all : Choice

-- The keys of BENCHES, in order.
unfoldable pub chosen : Choice → List Suite
chosen (one suite) = suite ∷ []
chosen all = dtype ∷ attn ∷ batch ∷ compile ∷ roofline ∷ []

-- The sizes of `bench_batch`.
abbrev pub batch_sizes : List ℤ
batch_sizes = pos 1 ∷ pos 2 ∷ pos 4 ∷ pos 8 ∷ pos 16 ∷ pos 32 ∷ pos 64 ∷ []

module _ (rig : Rig) where
  open rig use {Model, Batch, Number}

  -- `model = load(...)`.
  abbrev pub load_model : Precision → Attention → Run rig Model
  load_model precision attention = do
    model ← load rig precision attention
    change (bind_model rig (some model))
    pure model

  -- `enc = make_batch(tokenizer, batch_size, prompt_tokens)`.
  abbrev pub build_enc : ℤ → ℤ → Run rig Batch
  build_enc batch_size prompt_tokens = do
    enc ← make_batch rig batch_size prompt_tokens
    change (bind_enc rig (some enc))
    pure enc

  -- `del model, enc` and `free()`.
  abbrev pub clear : Run rig (Unit {0})
  clear = do change (bind_model rig none); change (bind_enc rig none); free rig

  unfoldable pub each : {A : Type 0} → (A → Run rig (Unit {0})) → List A → Run rig (Unit {0})
  each body [] = pure tt
  each body (x ∷ xs) = do body x; each body xs

  -- The body of the loop of `bench_dtype`.
  unfoldable pub dtype_trial : Args → Precision → Run rig (Unit {0})
  dtype_trial args precision = do
    model ← load_model precision sdpa
    enc ← build_enc (pos 1) args.prompt_tokens
    (ttft, dec, total) ← measure rig model enc args.new_tokens defaults
    peak ← peak_gb rig
    weights ← attempt (rig.divide (rig.of_int (pos (bytes rig (rig.parameters model)))) (giga rig))
    print rig (row (of_precision precision) ttft dec peak (weights_gb weights))
    clear

  unfoldable pub bench_dtype : Args → Run rig (Unit {0})
  unfolding dtype_trial
  bench_dtype args = do
    print rig (header dtype_title)
    each (dtype_trial args) (float32 ∷ float16 ∷ bfloat16 ∷ [])

  -- A load, a batch of one, a measurement and its row, as `bench_attn` and `bench_compile` write them.
  unfoldable pub trial :
      Precision → Attention → (prompt_tokens new_tokens : ℤ) → Options → Label → Run rig (Unit {0})
  trial precision attention prompt_tokens new_tokens options label = do
    model ← load_model precision attention
    enc ← build_enc (pos 1) prompt_tokens
    (ttft, dec, total) ← measure rig model enc new_tokens options
    peak ← peak_gb rig
    print rig (row label ttft dec peak no_extra)
    clear

  unfoldable pub bench_attn : Args → Run rig (Unit {0})
  unfolding trial
  bench_attn args = do
    print rig (header (attn_title args.prompt_tokens))
    each (λ a. trial bfloat16 a args.prompt_tokens args.new_tokens defaults (of_attention a))
        (eager ∷ sdpa ∷ [])
    print rig (header attn_long_title)
    each (λ a. trial bfloat16 a (pos 2048) (pos 32) defaults (of_attention a)) (eager ∷ sdpa ∷ [])

  -- `base or total`.
  abbrev pub base_or : Option Number → Number → Number
  base_or none total = total
  base_or (some base) total = if rig.is_true base then base else total

  -- The `try` of `bench_batch`: the `base` that it leaves.
  unfoldable pub batch_trial : Args → Model → Option Number → ℤ → Run rig Number
  batch_trial args model base bs = do
    enc ← build_enc bs args.prompt_tokens
    (ttft, dec, total) ← measure rig model enc args.new_tokens defaults
    peak ← peak_gb rig
    ratio ← attempt (rig.divide total (base_or base total))
    print rig (row (of_batch bs) ttft total peak (times_base ratio))
    change (bind_enc rig none)
    free rig
    pure (base_or base total)

  -- The `except` clause: "OOM", the batch's name, `free()`, and `break`. It ends at the `break`.
  unfoldable pub give_up_batch : ℤ → Run rig (Unit {0})
  give_up_batch bs = do
    change (handle rig true)
    print rig (oom bs)
    change (bind_enc rig none)
    free rig
    change (handle rig false)

  -- What follows the `try`, on its outcome.
  abbrev pub caught :
      (Number → Run rig (Unit {0}))
      → Run rig (Unit {0})
      → Attempt Number × Desk rig
      → Attempt (Unit {0}) × Desk rig
  caught next handler (returned base, d) = next base d
  caught next handler (out_of_memory, d) = handler d
  caught next handler (failed, d) = (failed, d)

  unfoldable pub batch_loop : Args → Model → Option Number → List ℤ → Run rig (Unit {0})
  unfolding batch_trial give_up_batch
  batch_loop args model base [] d = pure tt d
  batch_loop args model base (bs ∷ sizes) d =
      caught (λ total. batch_loop args model (some total) sizes) (give_up_batch bs)
        (batch_trial args model base bs d)

  unfoldable pub bench_batch : Args → Run rig (Unit {0})
  unfolding batch_loop
  bench_batch args = do
    print rig (header batch_title)
    model ← load_model bfloat16 sdpa
    batch_loop args model none batch_sizes
    change (bind_model rig none)
    free rig

  -- The third part of `bench_compile`, whose row has the time that it took.
  unfoldable pub graphs_trial : Args → Run rig (Unit {0})
  graphs_trial args = do
    model ← load_model bfloat16 sdpa
    enc ← build_enc (pos 1) args.prompt_tokens
    start ← clock rig
    (ttft, dec, total) ←
        measure rig model enc args.new_tokens
          (record { static_cache = true; disable_compile = false; reduce_overhead = true })
    peak ← peak_gb rig
    end ← clock rig
    print rig (row static_cuda_graphs ttft dec peak (compile_seconds (rig.minus end start)))
    clear

  unfoldable pub bench_compile : Args → Run rig (Unit {0})
  unfolding trial graphs_trial
  bench_compile args = do
    print rig (header compile_title)
    trial bfloat16 sdpa args.prompt_tokens args.new_tokens defaults dynamic_cache
    trial bfloat16 sdpa args.prompt_tokens args.new_tokens
        (record { static_cache = true; disable_compile = true; reduce_overhead = false })
        static_cache_alone
    graphs_trial args

  unfoldable pub bench_roofline : Args → Run rig (Unit {0})
  bench_roofline args = do
    model ← load_model bfloat16 sdpa
    enc ← build_enc (pos 1) args.prompt_tokens
    (ttft, dec, total) ← measure rig model enc args.new_tokens defaults
    ceiling ← attempt (
        rig.divide (rig.times (rig.of_int (pos 504)) (giga rig))
          (rig.of_int (pos (bytes rig (rig.parameters model)))))
    print rig (header roofline_title)
    weights ← attempt (rig.divide (rig.of_int (pos (bytes rig (rig.parameters model)))) (giga rig))
    print rig (figure weights_read weights)
    print rig (figure spec_bandwidth (rig.of_int (pos 504)))
    print rig (figure theoretical_ceiling ceiling)
    print rig (figure measured_rate dec)
    share ← attempt (rig.divide dec ceiling)
    print rig (figure bandwidth_utilisation (rig.times share (rig.of_int (pos 100))))
    clear

  -- `BENCHES[name]`.
  unfoldable pub bench : Args → Suite → Run rig (Unit {0})
  bench args dtype = bench_dtype args
  bench args attn = bench_attn args
  bench args batch = bench_batch args
  bench args compile = bench_compile args
  bench args roofline = bench_roofline args

  -- The loop of the script.
  unfoldable pub main : Choice → Args → Run rig (Unit {0})
  unfolding bench chosen
  main choice args = each (bench args) (chosen choice)
