-- ===== src/Tests/LoadingExamples.antt =====
-- The life cycle of an application that names a model, for which a second mock stands.
use nano_kube_llm_server.Prelude.{
  ◌≡◌, ◌≢◌, refl, true, false, List, [], ◌∷◌, pos, text_of, starts_with,
}
use nano_kube_llm_server.Runners.Interface.{Text}
use nano_kube_llm_server.Runners.Mock.{mock_runner}
use nano_kube_llm_server.Batching.RunLoop.{ticks, submits, dead}
use nano_kube_llm_server.Gateway.{health, loop_is_dead, swap_runner}
use nano_kube_llm_server.Gateway.Loading.{
  names_model, fetching, returned, is_loaded, App, AppEvent, create_app, in_loop, loads,
  load_raises, sleep_ends, app_step, app_run, live_phase, app_health, live_step, fetched,
  fetch_failed, woken, swap_live,
}
use nano_kube_llm_server.Gateway.Loading.Fitting.{Serves, LiveIsSafe}
use nano_kube_llm_server.Gateway.Loading.Readiness.{app_run-ready, load_raises-outage}
use nano_kube_llm_server.Tests.Samples.{program, request}

-- What a life cycle computes with.
lifecycle : Unit {0}
unfolding program names_model create_app app_step app_run app_health live_phase live_step fetched
    fetch_failed woken swap_live swap_runner health loop_is_dead is_loaded starts_with
lifecycle = tt

abbrev model : Text
model = text_of "Qwen/Qwen3-0.6B"

model-named : names_model model ≡ true
unfolding lifecycle
model-named = refl

mock-unnamed : names_model (text_of "mock/fable-5") ≡ false
unfolding lifecycle
mock-unnamed = refl

-- A request arrives while the model is fetched.
abbrev rollout : List (AppEvent mock_runner)
rollout =
    in_loop (submits (request 3 2)) ∷ in_loop ticks ∷ loads tt ∷ sleep_ends ∷ in_loop ticks ∷ []

abbrev app : App mock_runner
app = app_run mock_runner (create_app mock_runner model (pos 2) (pos 100)) rollout

app-up : app_health mock_runner app ≡ 200
unfolding lifecycle
app-up = refl

app_run-ready_example :
    (app.load ≡ returned)
    × (live_phase mock_runner app.live ≢ dead)
    × Serves mock_runner (names_model model) app.live
    × LiveIsSafe mock_runner app.live
app_run-ready_example = app_run-ready mock_runner model (pos 2) (pos 100) rollout app-up

abbrev young : App mock_runner
young = create_app mock_runner model (pos 2) (pos 100)

young-fetching : young.load ≡ fetching
unfolding lifecycle
young-fetching = refl

load_raises-outage_example :
    app_health mock_runner (app_run mock_runner (app_step mock_runner young load_raises) rollout)
    ≡ 503
load_raises-outage_example = load_raises-outage mock_runner young rollout young-fetching
