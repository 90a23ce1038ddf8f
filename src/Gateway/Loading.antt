-- ===== src/Gateway/Loading.antt =====
-- model_server/main.py, the lifespan of the application: the mock serves at once, and `_load` replaces
-- it by the model. The coroutine is cut at its awaits: the thread that loads, and the sleep after it.
pub mod Fitting
pub mod Readiness
use nano_kube_llm_server.Prelude.{
  ℕ, ◌≡◌, ◌≢◌, refl, ◌⊎◌, inl, inr, Bool, true, false, ◌&&◌, not, if◌then◌else◌, List, [], ◌∷◌, ℤ,
  is_empty, text_of, starts_with, arith, Bool-cases, ◌==◌,
}
use nano_kube_llm_server.Runners.Interface.{Text, ModelRunner}
use nano_kube_llm_server.Runners.Mock.{mock_runner}
use nano_kube_llm_server.Batching.RunLoop.{
  Phase, ready, executing, dead, Server, Event, start, step, cancel_at,
}
use nano_kube_llm_server.Gateway.{swap_runner, health, loop_is_dead}

-- `settings.model_id and not settings.model_id.startswith(MOCK_MODEL_PREFIX)`.
unfoldable pub names_model : Text → Bool
unfolding starts_with
names_model model_id = not (is_empty model_id) && not (starts_with model_id (text_of "mock/"))

-- Where `_load` stands: awaiting the thread that loads, in the sleep, returned, or raised.
pub data Load : Type 0 where
  fetching sleeping returned broken : Load

-- `runtime["loaded"]`.
unfoldable pub is_loaded : Load → Bool
is_loaded returned = true
is_loaded _ = false

module _ {R : Type 0} (ops : ModelRunner R) where
  -- The loop task, on the mock or on the runner that was loaded.
  pub data Live : Type 0 where
    on_mock : Server (Unit {0}) → Live
    on_model : Server R → Live

  pub record App : Type 0 where
    pub model_id : Text
    pub live : Live
    pub load : Load

  unfoldable pub create_app : Text → ℤ → ℤ → App
  unfolding names_model
  create_app model_id max_batch_size max_batch_tokens = record {
    model_id = model_id;
    live = on_mock (start tt max_batch_size max_batch_tokens);
    load = if names_model model_id then fetching else sleeping;
  }

  -- What can happen: an event of the loop, `load_qwen_runner` returns or raises, the sleep ends, the
  -- server shuts down.
  pub data AppEvent : Type 0 where
    in_loop : Event → AppEvent
    loads : R → AppEvent
    load_raises : AppEvent
    sleep_ends : AppEvent
    shuts_down : AppEvent

  unfoldable pub live_step : Live → Event → Live
  live_step (on_mock m) e = on_mock (step mock_runner m e)
  live_step (on_model m) e = on_model (step ops m e)

  unfoldable pub swap_live : R → Live → Live
  swap_live runner (on_mock m) = on_model (swap_runner mock_runner runner m)
  swap_live runner (on_model m) = on_model (swap_runner ops runner m)

  unfoldable pub cancel_live : Live → Live
  cancel_live (on_mock m) = on_mock (cancel_at mock_runner m m.phase)
  cancel_live (on_model m) = on_model (cancel_at ops m m.phase)

  unfoldable pub fetched : App → Load → R → App
  unfolding swap_live
  fetched a fetching runner = record a { live = swap_live runner a.live; load = sleeping }
  fetched a _ runner = a

  unfoldable pub fetch_failed : App → Load → App
  fetch_failed a fetching = record a { load = broken }
  fetch_failed a _ = a

  unfoldable pub woken : App → Load → App
  woken a sleeping = record a { load = returned }
  woken a _ = a

  unfoldable pub app_step : App → AppEvent → App
  unfolding live_step fetched fetch_failed woken cancel_live
  app_step a (in_loop e) = record a { live = live_step a.live e }
  app_step a (loads runner) = fetched a a.load runner
  app_step a load_raises = fetch_failed a a.load
  app_step a sleep_ends = woken a a.load
  app_step a shuts_down = record a { live = cancel_live a.live }

  unfoldable pub app_run : App → List AppEvent → App
  app_run a [] = a
  app_run a (e ∷ es) = app_run (app_step a e) es

  unfoldable pub live_phase : Live → Phase
  live_phase (on_mock m) = m.phase
  live_phase (on_model m) = m.phase

  -- `/health`.
  unfoldable pub app_health : App → ℕ
  unfolding live_phase is_loaded
  app_health a = health (is_loaded a.load) (live_phase a.live)
