-- ===== src/Gateway/Outages.antt =====
-- A tick that raises, seen from outside.
use nano_kube_llm_server.Prelude.{
  ℕ, ◌<◌, ◌≡◌, refl, Bool, true, false, Bool-cases, inl, inr, ltb, List, [], ◌∷◌, none, ℤ,
}
use nano_kube_llm_server.Runners.Interface.{ModelRunner, raised}
use nano_kube_llm_server.Batching.Sequences.{is_finished}
use nano_kube_llm_server.Batching.Scheduler.{fail_all}
use nano_kube_llm_server.Batching.Scheduler.WellFormed.Failures.{fail_all-finishes}
use nano_kube_llm_server.Batching.RunLoop.{
  Server, executing, dead, Event, ticks, loop_cancelled, submits, gives_up, delivers, step, run,
  start, tick_at, cancel_at, end_tick,
}
use nano_kube_llm_server.Batching.RunLoop.Safety.{IsSafe, run-start-IsSafe}
use nano_kube_llm_server.Batching.RunLoop.Outputs.{Holding, run-Holding, finished-IsKept}
use nano_kube_llm_server.Gateway.{
  CompletionRequest, loop_is_dead, health, refused, completions_start, loop_not_running,
  service_unavailable,
}

health-dead : (loaded : Bool) → health loaded dead ≡ 503
unfolding health loop_is_dead
health-dead true = refl
health-dead false = refl

module _ {R : Type 0} (ops : ModelRunner R) where
  step-dead : (m : Server R) (e : Event) → m.phase ≡ dead → (step ops m e).phase ≡ dead
  unfolding step tick_at cancel_at
  step-dead m ticks at = rw at refl
  step-dead m loop_cancelled at = rw at refl
  step-dead m (submits p) at = at
  step-dead m (gives_up i) at = elim (Bool-cases (ltb i m.next_id)) [
    | inl known ↦ rw known at
    | inr unknown ↦ rw unknown at
  ]
  step-dead m (delivers i) at = elim (Bool-cases (ltb i m.next_id)) [
    | inl known ↦ rw known at
    | inr unknown ↦ rw unknown at
  ]

  run-dead : (m : Server R) (es : List Event) → m.phase ≡ dead → (run ops m es).phase ≡ dead
  unfolding run
  run-dead m [] at = at
  run-dead m (e ∷ es) at = run-dead (step ops m e) es (step-dead m e at)

  raised-dead :
      (m : Server R) (batch current : List ℕ)
      → IsSafe m
      → m.phase ≡ executing batch current raised
      → ((step ops m ticks).phase ≡ dead)
        × ((i : ℕ) → i < m.next_id → Holding (λ s. is_finished s ≡ true) i (step ops m ticks))
  unfolding step tick_at end_tick fail_all
  raised-dead m batch current v at = rw at (refl, λ i k. (k, fail_all-finishes m.state v.well i k))

  -- From the start, after any events: if the worker thread raises, then once the loop has taken this up
  -- and after any further events, every request that was there is finished, /health answers 503, and
  -- every completion is refused with 503.
  pub raised-outage :
      (runner : R) (max_batch_size max_batch_tokens : ℤ) (earlier later : List Event)
      (batch current : List ℕ)
      → (run ops (start runner max_batch_size max_batch_tokens) earlier).phase
        ≡ executing batch current raised
      → ((i : ℕ)
          → i < (run ops (start runner max_batch_size max_batch_tokens) earlier).next_id
          → is_finished (
              (run ops
                  (step ops (run ops (start runner max_batch_size max_batch_tokens) earlier) ticks)
                  later).heap
                i)
            ≡ true)
        × ((loaded : Bool)
            → health loaded
                (run ops
                  (step ops (run ops (start runner max_batch_size max_batch_tokens) earlier) ticks)
                  later).phase
              ≡ 503)
        × ((body : CompletionRequest)
            → completions_start
                (run ops
                  (step ops (run ops (start runner max_batch_size max_batch_tokens) earlier) ticks)
                  later).phase
                body
              ≡ refused (record {
                status = 503;
                message = loop_not_running;
                err_type = service_unavailable;
                param = none;
              }))
  unfolding health completions_start loop_is_dead
  raised-outage runner max_batch_size max_batch_tokens earlier later batch current at =
      let m = run ops (start runner max_batch_size max_batch_tokens) earlier in
      let v = run-start-IsSafe ops runner max_batch_size max_batch_tokens earlier in
      let (stopped, ended) = raised-dead m batch current v at in
      let gone = run-dead (step ops m ticks) later stopped in
      (
        λ i k. (run-Holding ops _ finished-IsKept i (step ops m ticks) later (ended i k)).1,
        λ loaded. rw gone (health-dead loaded),
        λ body. rw gone refl,
      )
