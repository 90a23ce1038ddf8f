-- ===== src/Gateway/Swaps.antt =====
-- The swap of the mock runner for the real one, while requests are under way.
use nano_kube_llm_server.Prelude.{refl, List, ℤ, inl}
use nano_kube_llm_server.Runners.Interface.{ModelRunner}
use nano_kube_llm_server.Batching.Scheduler.WellFormed.{IsWellFormed}
use nano_kube_llm_server.Batching.Scheduler.WellFormed.Failures.{fail_all-IsWellFormed}
use nano_kube_llm_server.Batching.RunLoop.{
  Server, Phase, ready, executing, dead, cancel_at, Event, run, start,
}
use nano_kube_llm_server.Batching.RunLoop.Safety.{IsSafe, run-start-IsSafe}
use nano_kube_llm_server.Batching.RunLoop.Caching.{IsCaching, IsCoherent}
use nano_kube_llm_server.Batching.RunLoop.Coherence.{run-IsCoherent}
use nano_kube_llm_server.Gateway.{swap_runner}

module _ {R S : Type 0} (old : ModelRunner R) (new : ModelRunner S) where
  cancel_at-IsWellFormed :
      (m : Server R) (p : Phase) → IsWellFormed m.state → IsWellFormed (cancel_at old m p).state
  unfolding cancel_at
  cancel_at-IsWellFormed m ready w = w
  cancel_at-IsWellFormed m (executing batch current outcome) w = fail_all-IsWellFormed m.state w
  cancel_at-IsWellFormed m dead w = w

  swapped-IsCoherent :
      (caching : IsCaching new) (runner : S) (m : Server R)
      → IsSafe m
      → IsCoherent new caching (swap_runner old runner m)
  unfolding swap_runner
  swapped-IsCoherent caching runner m v = record {
    safe = record { well = cancel_at-IsWellFormed m m.phase v.well; fits = tt };
    kept = inl refl;
  }

  -- For a new runner that keeps its last batch when a tick is a prefill or extends the kept batch: from
  -- the start of the process with the old runner, after any events, the swap and any events, the process
  -- is safe and what the new runner keeps fits the requests.
  pub run-swap_runner-IsCoherent :
      (caching : IsCaching new) (mock : R) (runner : S) (max_batch_size max_batch_tokens : ℤ)
      (earlier later : List Event)
      → IsCoherent new caching (
          run new
            (swap_runner old runner (run old (start mock max_batch_size max_batch_tokens) earlier))
            later)
  run-swap_runner-IsCoherent caching mock runner max_batch_size max_batch_tokens earlier later =
      run-IsCoherent new caching _ later (
        swapped-IsCoherent caching runner _
          (run-start-IsSafe old mock max_batch_size max_batch_tokens earlier))
