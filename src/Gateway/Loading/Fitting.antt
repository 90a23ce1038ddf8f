-- ===== src/Gateway/Loading/Fitting.antt =====
-- What the application serves, by where its load stands.
use nano_kube_llm_server.Prelude.{
  ◌≡◌, refl, subst, inl, inr, Bool, true, false, List, [], ◌∷◌, ℤ, Bool-cases,
}
use nano_kube_llm_server.Runners.Interface.{Text, ModelRunner}
use nano_kube_llm_server.Runners.Mock.{mock_runner}
use nano_kube_llm_server.Batching.RunLoop.{Server, Event}
use nano_kube_llm_server.Batching.RunLoop.Safety.{
  IsSafe, step-IsSafe, start-IsSafe, cancel_at-IsSafe,
}
use nano_kube_llm_server.Gateway.{swap_runner}
use nano_kube_llm_server.Gateway.Loading.{
  names_model, Load, fetching, sleeping, returned, broken, Live, on_mock, on_model, App, create_app,
  AppEvent, in_loop, loads, load_raises, sleep_ends, shuts_down, live_step, swap_live, cancel_live,
  fetched, fetch_failed, woken, app_step, app_run,
}

module _ {R : Type 0} (ops : ModelRunner R) where
  -- The loop runs on the runner that was loaded if a model is named, else on the mock.
  abbrev pub Serves : Bool → Live ops → Type 0
  Serves true (on_mock m) = ⊥
  Serves true (on_model m) = Unit
  Serves false (on_mock m) = Unit
  Serves false (on_model m) = ⊥

  -- What is served, by where the load stands.
  abbrev pub FitsLoad : Load → Bool → Live ops → Type 0
  FitsLoad fetching named live = (named ≡ true) × Serves false live
  FitsLoad broken named live = (named ≡ true) × Serves false live
  FitsLoad sleeping named live = Serves named live
  FitsLoad returned named live = Serves named live

  abbrev pub LiveIsSafe : Live ops → Type 0
  LiveIsSafe (on_mock m) = IsSafe m
  LiveIsSafe (on_model m) = IsSafe m

  pub record IsFitting (model_id : Text) (a : App ops) : Type 0 where
    pub same : a.model_id ≡ model_id
    pub fits : FitsLoad a.load (names_model model_id) a.live
    pub safe : LiveIsSafe a.live

  swap-IsSafe :
      {Q : Type 0} (old : ModelRunner Q) (runner : R) (m : Server Q)
      → IsSafe m
      → IsSafe (swap_runner old runner m)
  unfolding swap_runner
  swap-IsSafe old runner m v = record { well = (cancel_at-IsSafe old m m.phase v).well; fits = tt }

  swap_live-IsSafe :
      (runner : R) (live : Live ops) → LiveIsSafe live → LiveIsSafe (swap_live ops runner live)
  unfolding swap_live
  swap_live-IsSafe runner (on_mock m) v = swap-IsSafe mock_runner runner m v
  swap_live-IsSafe runner (on_model m) v = swap-IsSafe ops runner m v

  swap_live-Serves : (runner : R) (live : Live ops) → Serves true (swap_live ops runner live)
  unfolding swap_live
  swap_live-Serves runner (on_mock m) = tt
  swap_live-Serves runner (on_model m) = tt

  live_step-IsSafe :
      (live : Live ops) (e : Event) → LiveIsSafe live → LiveIsSafe (live_step ops live e)
  unfolding live_step
  live_step-IsSafe (on_mock m) e v = step-IsSafe mock_runner m e v
  live_step-IsSafe (on_model m) e v = step-IsSafe ops m e v

  cancel_live-IsSafe : (live : Live ops) → LiveIsSafe live → LiveIsSafe (cancel_live ops live)
  unfolding cancel_live
  cancel_live-IsSafe (on_mock m) v = cancel_at-IsSafe mock_runner m m.phase v
  cancel_live-IsSafe (on_model m) v = cancel_at-IsSafe ops m m.phase v

  live_step-Serves :
      (named : Bool) (live : Live ops) (e : Event)
      → Serves named live
      → Serves named (live_step ops live e)
  unfolding live_step
  live_step-Serves true (on_mock m) e v = v
  live_step-Serves true (on_model m) e v = v
  live_step-Serves false (on_mock m) e v = v
  live_step-Serves false (on_model m) e v = v

  cancel_live-Serves :
      (named : Bool) (live : Live ops) → Serves named live → Serves named (cancel_live ops live)
  unfolding cancel_live
  cancel_live-Serves true (on_mock m) v = v
  cancel_live-Serves true (on_model m) v = v
  cancel_live-Serves false (on_mock m) v = v
  cancel_live-Serves false (on_model m) v = v

  FitsLoad-keeps :
      (load : Load) (named : Bool) (live live' : Live ops)
      → ((b : Bool) → Serves b live → Serves b live')
      → FitsLoad load named live
      → FitsLoad load named live'
  FitsLoad-keeps fetching named live live' keep (e, v) = (e, keep false v)
  FitsLoad-keeps broken named live live' keep (e, v) = (e, keep false v)
  FitsLoad-keeps sleeping named live live' keep v = keep named v
  FitsLoad-keeps returned named live live' keep v = keep named v

  fetched-IsFitting :
      (model_id : Text) (a : App ops) (load : Load) (runner : R)
      → a.load ≡ load
      → IsFitting model_id a
      → IsFitting model_id (fetched ops a load runner)
  unfolding fetched
  fetched-IsFitting model_id a fetching runner at v =
      let (named, waits) = subst (λ load. FitsLoad load (names_model model_id) a.live) at v.fits in
      record {
        same = v.same;
        fits = rw named (swap_live-Serves runner a.live);
        safe = swap_live-IsSafe runner a.live v.safe;
      }
  fetched-IsFitting model_id a sleeping runner at v = v
  fetched-IsFitting model_id a returned runner at v = v
  fetched-IsFitting model_id a broken runner at v = v

  fetch_failed-IsFitting :
      (model_id : Text) (a : App ops) (load : Load)
      → a.load ≡ load
      → IsFitting model_id a
      → IsFitting model_id (fetch_failed ops a load)
  unfolding fetch_failed
  fetch_failed-IsFitting model_id a fetching at v = record {
    same = v.same;
    fits = subst (λ load. FitsLoad load (names_model model_id) a.live) at v.fits;
    safe = v.safe;
  }
  fetch_failed-IsFitting model_id a sleeping at v = v
  fetch_failed-IsFitting model_id a returned at v = v
  fetch_failed-IsFitting model_id a broken at v = v

  woken-IsFitting :
      (model_id : Text) (a : App ops) (load : Load)
      → a.load ≡ load
      → IsFitting model_id a
      → IsFitting model_id (woken ops a load)
  unfolding woken
  woken-IsFitting model_id a sleeping at v = record {
    same = v.same;
    fits = subst (λ load. FitsLoad load (names_model model_id) a.live) at v.fits;
    safe = v.safe;
  }
  woken-IsFitting model_id a fetching at v = v
  woken-IsFitting model_id a returned at v = v
  woken-IsFitting model_id a broken at v = v

  app_step-IsFitting :
      (model_id : Text) (a : App ops) (e : AppEvent ops)
      → IsFitting model_id a
      → IsFitting model_id (app_step ops a e)
  unfolding app_step
  app_step-IsFitting model_id a (in_loop e) v = record {
    same = v.same;
    fits =
        FitsLoad-keeps a.load (names_model model_id) a.live (live_step ops a.live e)
          (λ b. live_step-Serves b a.live e) v.fits;
    safe = live_step-IsSafe a.live e v.safe;
  }
  app_step-IsFitting model_id a (loads runner) v = fetched-IsFitting model_id a a.load runner refl v
  app_step-IsFitting model_id a load_raises v = fetch_failed-IsFitting model_id a a.load refl v
  app_step-IsFitting model_id a sleep_ends v = woken-IsFitting model_id a a.load refl v
  app_step-IsFitting model_id a shuts_down v = record {
    same = v.same;
    fits =
        FitsLoad-keeps a.load (names_model model_id) a.live (cancel_live ops a.live)
          (λ b. cancel_live-Serves b a.live) v.fits;
    safe = cancel_live-IsSafe a.live v.safe;
  }

  pub app_run-IsFitting :
      (model_id : Text) (a : App ops) (es : List (AppEvent ops))
      → IsFitting model_id a
      → IsFitting model_id (app_run ops a es)
  unfolding app_run
  app_run-IsFitting model_id a [] v = v
  app_run-IsFitting model_id a (e ∷ es) v =
      app_run-IsFitting model_id (app_step ops a e) es (app_step-IsFitting model_id a e v)

  pub create_app-IsFitting :
      (model_id : Text) (max_batch_size max_batch_tokens : ℤ)
      → IsFitting model_id (create_app ops model_id max_batch_size max_batch_tokens)
  unfolding create_app
  create_app-IsFitting model_id max_batch_size max_batch_tokens = record {
    same = refl;
    fits = elim (Bool-cases (names_model model_id)) [
      | inl named ↦ rw named (refl, tt)
      | inr mocked ↦ rw mocked tt
    ];
    safe = start-IsSafe tt max_batch_size max_batch_tokens;
  }
