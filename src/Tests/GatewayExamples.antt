-- ===== src/Tests/GatewayExamples.antt =====
-- Requests, frames and a swap of the runner.
use nano_kube_llm_server.Prelude.{
  ℕ, ◌<◌, Bool, true, ◌≡◌, refl, false, List, [], ◌∷◌, none, some, pos, negsuc, finite, nan,
  lt_float, le_float,
}
use nano_kube_llm_server.Batching.Sequences.{error, is_finished}
use nano_kube_llm_server.Batching.RunLoop.{
  run, start, ticks, submits, step, executing, Event, Server,
}
use nano_kube_llm_server.Runners.Interface.{ModelRunner, raised}
use nano_kube_llm_server.Gateway.Outages.{raised-outage}
use nano_kube_llm_server.Batching.RunLoop.Caching.{IsCoherent}
use nano_kube_llm_server.Runners.Mock.{mock_runner}
use nano_kube_llm_server.Runners.Qwen.{qwen_runner}
use nano_kube_llm_server.Runners.Qwen.Served.{qwen_caching}
use nano_kube_llm_server.Engines.{StreamChunk}
use nano_kube_llm_server.Gateway.{
  CompletionRequest, sampling_eps, top_k_in_bounds, in_bounds, normal_top_k, normalize, validate,
  join_dots, or_none, rest_of, invalid_request, is_fatal, piece_is_fatal, health, completions_start,
  refused, loop_not_running, service_unavailable, frames, swap_runner,
}
use nano_kube_llm_server.Gateway.Requests.{IsValid, validate-IsValid}
use nano_kube_llm_server.Gateway.Frames.{IsFramed, frames-IsFramed}
use nano_kube_llm_server.Gateway.Swaps.{run-swap_runner-IsCoherent}
use nano_kube_llm_server.Tests.Samples.{history, program}
use nano_kube_llm_server.Tests.QwenExamples.{successor, cache_laws, idle, decoding, asking}

-- A tiny temperature and a top_k of -1.
abbrev body : CompletionRequest
body = record {
  prompt = b'h' ∷ [];
  max_tokens = pos 5;
  temperature = finite (pos 1) 133;
  top_k = some (negsuc 0);
  stream = false;
}

abbrev request : CompletionRequest
request = record body { temperature = finite (pos 0) 0; top_k = none }

validated : validate body ≡ some request
unfolding validate in_bounds top_k_in_bounds normalize normal_top_k sampling_eps lt_float le_float
validated = refl

not_a_number : validate (record body { temperature = nan }) ≡ none
unfolding validate in_bounds le_float
not_a_number = refl

field_named :
    (invalid_request (record { loc = (b'b' ∷ []) ∷ (b't' ∷ []) ∷ []; msg = [] })).param
    ≡ some (b't' ∷ [])
unfolding invalid_request rest_of join_dots or_none
field_named = refl

validate-IsValid_example :
    (request ≡ normalize body) × IsValid request × (normalize request ≡ request)
validate-IsValid_example = validate-IsValid body request validated

abbrev pieces : List StreamChunk
pieces =
    record { text = b'o' ∷ []; finish_reason = none }
    ∷ record { text = []; finish_reason = some error }
    ∷ []

raised-frames : (frames pieces).1 ≡ false
unfolding frames piece_is_fatal is_fatal
raised-frames = refl

frames-IsFramed_example : IsFramed pieces (frames pieces).0 (frames pieces).1
frames-IsFramed_example = frames-IsFramed pieces

run-swap_runner-IsCoherent_example :
    IsCoherent (qwen_runner successor) (qwen_caching successor cache_laws) (
      run
        (qwen_runner successor)
        (swap_runner mock_runner idle (run mock_runner (start tt (pos 2) (pos 100)) history))
        decoding)
run-swap_runner-IsCoherent_example =
    run-swap_runner-IsCoherent mock_runner (qwen_runner successor)
      (qwen_caching successor cache_laws) tt idle (pos 2) (pos 100) history decoding

-- The worker thread always raises.
abbrev broken : ModelRunner (Unit {0})
broken = record mock_runner { execute = λ _ batch. (raised, tt) }

abbrev one_request : List Event
one_request = submits (asking (5 ∷ [])) ∷ ticks ∷ []

abbrev failing : Server (Unit {0})
failing = run broken (start tt (pos 2) (pos 100)) one_request

failing-phase : failing.phase ≡ executing (0 ∷ []) (0 ∷ []) raised
unfolding program
failing-phase = refl

abbrev after_it : Server (Unit {0})
after_it = run broken (step broken failing ticks) (ticks ∷ [])

raised-outage_example :
    ((i : ℕ) → i < failing.next_id → is_finished (after_it.heap i) ≡ true)
    × ((loaded : Bool) → health loaded after_it.phase ≡ 503)
    × ((body : CompletionRequest)
        → completions_start after_it.phase body
          ≡ refused (record {
            status = 503;
            message = loop_not_running;
            err_type = service_unavailable;
            param = none;
          }))
raised-outage_example =
    raised-outage broken tt (pos 2) (pos 100) one_request (ticks ∷ []) (0 ∷ []) (0 ∷ [])
      failing-phase
