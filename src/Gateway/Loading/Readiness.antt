-- ===== src/Gateway/Loading/Readiness.antt =====
-- When the application says that it is ready, and what then serves.
use nano_kube_llm_server.Prelude.{◌≡◌, ◌≢◌, refl, subst, List, [], ◌∷◌, ℤ, arith}
use nano_kube_llm_server.Runners.Interface.{Text, ModelRunner}
use nano_kube_llm_server.Batching.RunLoop.{Phase, ready, executing, dead}
use nano_kube_llm_server.Gateway.{health, loop_is_dead}
use nano_kube_llm_server.Gateway.Loading.{
  names_model, Load, fetching, sleeping, returned, broken, is_loaded, App, create_app, AppEvent,
  in_loop, loads, load_raises, sleep_ends, shuts_down, fetched, fetch_failed, woken, app_step,
  app_run, live_phase, app_health,
}
use nano_kube_llm_server.Gateway.Loading.Fitting.{
  Serves, LiveIsSafe, FitsLoad, app_run-IsFitting, create_app-IsFitting,
}

module _ {R : Type 0} (ops : ModelRunner R) where
  -- The load has returned and the loop runs.
  health-up :
      (load : Load) (phase : Phase)
      → health (is_loaded load) phase ≡ 200
      → (load ≡ returned) × (phase ≢ dead)
  unfolding health is_loaded loop_is_dead
  health-up fetching phase e = absurd (omega (arith, e))
  health-up sleeping phase e = absurd (omega (arith, e))
  health-up broken phase e = absurd (omega (arith, e))
  health-up returned ready e = (refl, λ f. cc)
  health-up returned (executing batch current outcome) e = (refl, λ f. cc)
  health-up returned dead e = absurd (omega (arith, e))

  -- From the creation of the application, after any events: when /health answers 200, the load has
  -- returned, the loop runs, on the runner that was loaded if a model is named and on the mock if
  -- not, and the process is safe.
  pub app_run-ready :
      (model_id : Text) (max_batch_size max_batch_tokens : ℤ) (es : List (AppEvent ops))
      → let a = app_run ops (create_app ops model_id max_batch_size max_batch_tokens) es in
        app_health ops a ≡ 200
        → (a.load ≡ returned)
          × (live_phase ops a.live ≢ dead)
          × Serves ops (names_model model_id) a.live
          × LiveIsSafe ops a.live
  unfolding app_health
  app_run-ready model_id max_batch_size max_batch_tokens es up =
      let a = app_run ops (create_app ops model_id max_batch_size max_batch_tokens) es in
      let v =
        app_run-IsFitting ops model_id (create_app ops model_id max_batch_size max_batch_tokens) es
          (create_app-IsFitting ops model_id max_batch_size max_batch_tokens) in
      let (over, alive) = health-up a.load (live_phase ops a.live) up in
      (
        over,
        alive,
        subst (λ load. FitsLoad ops load (names_model model_id) a.live) over v.fits,
        v.safe,
      )

  step-broken :
      (a : App ops) (e : AppEvent ops) → a.load ≡ broken → (app_step ops a e).load ≡ broken
  unfolding app_step fetched fetch_failed woken
  step-broken a (in_loop e) at = at
  step-broken a (loads runner) at = rw at refl
  step-broken a load_raises at = rw at refl
  step-broken a sleep_ends at = rw at refl
  step-broken a shuts_down at = at

  run-broken :
      (a : App ops) (es : List (AppEvent ops)) → a.load ≡ broken → (app_run ops a es).load ≡ broken
  unfolding app_run
  run-broken a [] at = at
  run-broken a (e ∷ es) at = run-broken (app_step ops a e) es (step-broken a e at)

  -- If the app is fetching: once the load raised, /health answers 503, whatever happens after.
  pub load_raises-outage :
      (a : App ops) (es : List (AppEvent ops))
      → a.load ≡ fetching
      → app_health ops (app_run ops (app_step ops a load_raises) es) ≡ 503
  unfolding app_health app_step fetch_failed health is_loaded
  load_raises-outage a es at = rw (run-broken (app_step ops a load_raises) es (rw at refl)) refl
