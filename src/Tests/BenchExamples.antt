-- ===== src/Tests/BenchExamples.antt =====
-- Benchmarks on a small machine.
use nano_kube_llm_server.Prelude.{
  ℕ, ◌+◌, ◌*◌, ◌-◌, ◌/◌, ◌==◌, ltb, pos, pos_part, ◌≡◌, refl, false, not, [], ◌∷◌, none,
  if◌then◌else◌,
}
use nano_kube_llm_server.Runners.Qwen.{Attempt, returned, out_of_memory, failed}
use nano_kube_llm_server.Bench.{Rig, Desk, ◌>>=◌, pure, change, call, attempt, free}
use nano_kube_llm_server.Bench.Measure.{
  scaled, less_one, load, make_batch, insert, sorted, median, timed, time_runs, measure, peak_gb,
  bytes,
}
use nano_kube_llm_server.Bench.Suites.{
  Args, all, each, batch_trial, give_up_batch, batch_loop, batch_sizes, bench_batch, main,
}
use nano_kube_llm_server.Bench.Triples.{Ends}
use nano_kube_llm_server.Bench.Holding.{Frugal, Holds}
use nano_kube_llm_server.Bench.Frugal.{main-Ends}
use nano_kube_llm_server.Bench.Marks.{FreeReturns, shown, ran_out, marks}
use nano_kube_llm_server.Bench.Scaling.{Finished, Broken, Unloaded, bench_batch-Ends}

abbrev quotient : ℕ → ℕ → Attempt ℕ
quotient a b = if b == 0 then failed else returned (a / b)

-- A batch is its size, and no more than nine fit; time is counted in the tokens that were generated.
abbrev small : Rig
small = record {
  World = ℕ;
  Model = Unit {0};
  Batch = ℕ;
  Number = ℕ;
  from_pretrained = λ precision attention w. (returned tt, w);
  token_of_the = 1;
  full = λ bs prompt_tokens token w.
      (if ltb 9 (pos_part bs) then out_of_memory else returned (pos_part bs), w);
  batch_size_of = λ enc. enc;
  generate = λ model enc g w. (returned tt, w + pos_part g.max_new_tokens);
  synchronize = λ w. (returned tt, w);
  perf_counter = λ w. (w, w);
  max_memory_allocated = λ w. w;
  gc_collect = λ w. (returned tt, w);
  empty_cache = λ w. (returned tt, w);
  reset_peak_memory_stats = λ w. (returned tt, w);
  parameters = λ model. (2, 3) ∷ [];
  of_int = pos_part;
  plus = λ a b. a + b;
  minus = λ a b. a - b;
  times = λ a b. a * b;
  divide = quotient;
  less = ltb;
  is_true = λ a. not (a == 0);
}

abbrev small_quiet : FreeReturns small
small_quiet = record {
  gc_returns = λ w. refl;
  empty_returns = λ w. refl;
  reset_returns = λ w. refl;
}

abbrev args : Args
args = record { prompt_tokens = pos 5; new_tokens = pos 4 }

abbrev empty_desk : Desk small
empty_desk = record { world = 0; model = none; enc = none; handling = false; log = [] }

-- What a benchmark computes with.
benchmarks : Unit {0}
unfolding ◌>>=◌ pure change call attempt free scaled less_one load make_batch insert sorted median
    timed time_runs measure peak_gb bytes each batch_trial give_up_batch batch_loop bench_batch
benchmarks = tt

scaling-marks :
    marks (bench_batch small args empty_desk).1.log
    ≡ shown (pos 1) ∷ shown (pos 2) ∷ shown (pos 4) ∷ shown (pos 8) ∷ ran_out (pos 16) ∷ []
unfolding benchmarks
scaling-marks = refl

main-Ends_example : Ends (Holds false false) Frugal Frugal (main small all args empty_desk)
main-Ends_example = main-Ends all args empty_desk refl refl refl refl

bench_batch-Ends_example :
    Ends
      (Finished small_quiet [] batch_sizes)
      (Unloaded small_quiet [] 0)
      (Broken small_quiet [] batch_sizes)
      (bench_batch small args empty_desk)
bench_batch-Ends_example = bench_batch-Ends small_quiet args empty_desk
