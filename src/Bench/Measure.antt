-- ===== src/Bench/Measure.antt =====
-- model_server/bench.py: what is loaded and built, and how a run is timed.
use nano_kube_llm_server.Prelude.{
  ℕ, zero, suc, ◌+◌, ◌*◌, ◌-◌, ◌/◌, ◌%◌, ◌==◌, ℤ, pos, negsuc, sub_ℕ, List, [], ◌∷◌, if◌then◌else◌,
  length,
}
use nano_kube_llm_server.Runners.Qwen.{Attempt, returned, failed}
use nano_kube_llm_server.Bench.{
  Precision, Attention, Options, Generation, Rig, Line, loads, builds, generates, prints, Run,
  ◌>>=◌, ◌>>◌, pure, call, attempt, note,
}

-- An int times a length.
unfoldable pub scaled : ℕ → ℤ → ℤ
scaled n (pos m) = pos (n * m)
scaled n (negsuc m) = sub_ℕ 0 (n * suc m)

-- `new_tokens - 1`.
unfoldable pub less_one : ℤ → ℤ
less_one (pos zero) = negsuc 0
less_one (pos (suc n)) = pos n
less_one (negsuc n) = negsuc (suc n)

module _ (rig : Rig) where
  open rig use {World, Model, Batch, Number}

  abbrev pub print : Line Number → Run rig (Unit {0})
  print line = note rig (prints line)

  -- `load(dtype, attn)`.
  unfoldable pub load : Precision → Attention → Run rig Model
  load dtype attn = do note rig (loads dtype attn); call (rig.from_pretrained dtype attn)

  unfoldable pub make_batch : ℤ → ℤ → Run rig Batch
  make_batch batch_size prompt_tokens = do
    note rig (builds batch_size prompt_tokens)
    call (rig.full batch_size prompt_tokens rig.token_of_the)

  -- `sorted`, by insertion: a list of floats without nan.
  unfoldable pub insert : Number → List Number → List Number
  insert x [] = x ∷ []
  insert x (y ∷ ys) = let rest = insert x ys in if rig.less y x then y ∷ rest else x ∷ y ∷ ys

  unfoldable pub sorted : List Number → List Number
  unfolding insert
  sorted [] = []
  sorted (x ∷ xs) = insert x (sorted xs)

  abbrev pub item : ℕ → List Number → Attempt Number
  item n [] = failed
  item zero (x ∷ xs) = returned x
  item (suc n) (x ∷ xs) = item n xs

  -- `statistics.median`, which raises on no data.
  unfoldable pub median : List Number → Run rig Number
  unfolding sorted
  median xs =
      let n = length xs in
      let data_sorted = sorted xs in
      if n % 2 == 1 then attempt (item (n / 2) data_sorted) else (do
        low ← attempt (item (n / 2 - 1) data_sorted)
        high ← attempt (item (n / 2) data_sorted)
        attempt (rig.divide (rig.plus low high) (rig.of_int (pos 2))))

  -- `time.perf_counter()`.
  abbrev pub clock : Run rig Number
  clock = call (λ w. let (now, w') = rig.perf_counter w in (returned now, w'))

  abbrev pub generation : ℤ → Options → Generation
  generation n options = record { min_new_tokens = n; max_new_tokens = n; options = options }

  abbrev pub run_generate : Model → Batch → Generation → Run rig (Unit {0})
  run_generate model enc g = do note rig (generates g); call (rig.generate model enc g)

  abbrev pub synchronize : Run rig (Unit {0})
  synchronize = call rig.synchronize

  -- From one `synchronize` to the next: the time that a call of `generate` takes.
  unfoldable pub timed : Model → Batch → Generation → Run rig Number
  timed model enc g = do
    synchronize
    start ← clock
    run_generate model enc g
    synchronize
    end ← clock
    pure (rig.minus end start)

  -- The loop of `measure`: `ttfts` and `totals`.
  unfoldable pub time_runs : ℕ → Model → Batch → ℤ → Options → Run rig (List Number × List Number)
  unfolding timed
  time_runs zero model enc new_tokens options = pure ([], [])
  time_runs (suc runs) model enc new_tokens options = do
    ttft ← timed model enc (generation (pos 1) options)
    total ← timed model enc (generation new_tokens options)
    (ttfts, totals) ← time_runs runs model enc new_tokens options
    pure (ttft ∷ ttfts, total ∷ totals)

  -- `measure` with its default of three runs.
  unfoldable pub measure : Model → Batch → ℤ → Options → Run rig (Number × Number × Number)
  unfolding median time_runs scaled less_one
  measure model enc new_tokens options =
      let bs = rig.batch_size_of enc in
      do
        run_generate model enc (generation (pos 4) options)
        synchronize
        (ttfts, totals) ← time_runs 3 model enc new_tokens options
        ttft ← median ttfts
        total ← median totals
        decode_tok_s ←
            attempt
              (rig.divide (rig.of_int (scaled bs (less_one new_tokens))) (rig.minus total ttft))
        total_tok_s ← attempt (rig.divide (rig.of_int (scaled bs new_tokens)) total)
        pure (rig.times ttft (rig.of_int (pos 1000)), decode_tok_s, total_tok_s)

  -- `1e9`.
  abbrev pub giga : Number
  giga = rig.of_int (pos 1000000000)

  -- `torch.cuda.max_memory_allocated() / 1e9`.
  unfoldable pub peak_gb : Run rig Number
  peak_gb d = attempt (rig.divide (rig.of_int (pos (rig.max_memory_allocated d.world))) giga) d

  -- `sum(p.numel() * p.element_size() for p in model.parameters())`.
  unfoldable pub bytes : List (ℕ × ℕ) → ℕ
  bytes [] = 0
  bytes ((numel, element_size) ∷ ps) = numel * element_size + bytes ps
