-- ===== src/Tests/CallExamples.antt =====
-- Calls of `generate` on the mock runner, and how long the loop takes.
use nano_kube_llm_server.Prelude.{
  false, lt_float, le_float, negsuc, ℕ, zero, suc, ◌<◌, ◌≤◌, ◌≡◌, ◌≢◌, refl, sym, ap, ◌∙◌, true,
  List, [], ◌∷◌, ◌++◌, some, none, pos, finite, map, length, length-replicate, replicate, All,
  arith,
}
use nano_kube_llm_server.Runners.Interface.{Text}
use nano_kube_llm_server.Runners.Mock.{
  mock_runner, mock_execute, mock_word, mock_decode, mock_encode, repeat,
}
use nano_kube_llm_server.Batching.Sequences.{is_finished, length_limit, stream}
use nano_kube_llm_server.Batching.Sequences.Heaps.{Core}
use nano_kube_llm_server.Batching.RunLoop.{
  Server, Event, dead, ticks, submits, gives_up, delivers, run, start, prompt_to_sequence,
}
use nano_kube_llm_server.Batching.RunLoop.Owed.{owed, owed_by}
use nano_kube_llm_server.Batching.RunLoop.Owed.Ended.{owed_in}
use nano_kube_llm_server.Batching.RunLoop.Drain.Bounds.{run-start-finishes}
use nano_kube_llm_server.Batching.RunLoop.Drain.Counts.{IsRowwise, IsDraining}
use nano_kube_llm_server.Engines.{
  happens, Turn, Completion, Caller, answered, open_call, call_turn, call_turns, read_at, drop_at,
  generate_at, complete, leave, cancel,
}
use nano_kube_llm_server.Engines.Calls.{called_params, IsServed}
use nano_kube_llm_server.Engines.Calls.Moments.{IsAccounted, open_call-IsAccounted}
use nano_kube_llm_server.Engines.Asked.{asked_of}
use nano_kube_llm_server.Engines.Calls.Returns.{rounds, HasReturned}
use nano_kube_llm_server.Engines.Calls.Completes.{calling, open_call-HasReturned}
use nano_kube_llm_server.Gateway.{
  CompletionRequest, validate, in_bounds, top_k_in_bounds, normalize, normal_top_k, sampling_eps,
}
use nano_kube_llm_server.Gateway.Answers.{IsReplied, call_turns-IsReplied}
use nano_kube_llm_server.Batching.RunLoop.Safety.{run-start-IsSafe}
use nano_kube_llm_server.Tests.Samples.{program, request}

pub mock-IsRowwise : IsRowwise mock_runner
unfolding mock_execute
mock-IsRowwise r batch tokens e =
    let f : replicate (length batch.seqs) (some 0) ≡ tokens = cc in
    ap length (sym f) ∙ length-replicate (length batch.seqs) (some 0)

-- What a call computes with.
calls : Unit {0}
unfolding program prompt_to_sequence mock_decode mock_encode repeat open_call call_turn call_turns
    read_at drop_at generate_at complete leave cancel owed owed_by
calls = tt

abbrev pub arrivals : List Event
arrivals = submits (request 3 1) ∷ submits (request 2 4) ∷ ticks ∷ []

abbrev pub busy : Server (Unit {0})
busy = run mock_runner (start tt (pos 1) (pos 100)) arrivals

-- The second client leaves while the first one's request is on the worker thread.
abbrev departures : List Event
departures = ticks ∷ gives_up 1 ∷ delivers 0 ∷ replicate 10 ticks

pub busy-alive : busy.phase ≢ dead
unfolding calls
busy-alive = λ e. cc

busy-owed : owed_in busy.state ≡ 5
unfolding calls
busy-owed = refl

pub ticks-IsDraining : (n : ℕ) → All IsDraining (replicate n ticks)
ticks-IsDraining zero = tt
ticks-IsDraining (suc n) = (tt, ticks-IsDraining n)

busy-known : 1 < (run mock_runner busy departures).next_id
unfolding calls
busy-known = omega arith

run-start-finishes_example : is_finished ((run mock_runner busy departures).heap 1) ≡ true
run-start-finishes_example =
    run-start-finishes mock_runner mock-IsRowwise tt (pos 1) (pos 100) arrivals departures
      (omega arith) busy-alive (tt, (tt, (tt, ticks-IsDraining 10))) (omega (arith, busy-owed)) 1
      busy-known

-- "hi"
abbrev pub prompt : Text
prompt = b'h' ∷ b'i' ∷ []

abbrev caller : Caller mock_runner
caller =
    calling mock_runner mock-IsRowwise tt (pos 1) (pos 100) arrivals prompt (pos 2)
      (finite (pos 0) 0) none

abbrev many_ticks : List Event
many_ticks = replicate 15 ticks

abbrev completion : Completion
completion = record {
  text = mock_word ++ mock_word;
  prompt_tokens = 2;
  completion_tokens = 2;
  finish_reason = length_limit;
}

completion-text :
    (call_turns mock_runner busy.next_id caller
      (map happens many_ticks ++ rounds mock_runner busy.next_id 3)).call
    ≡ answered completion
unfolding calls
completion-text = refl

calling-owed : owed_in caller.server.state ≡ 7
unfolding calls
calling-owed = refl

calling-short : length (stream ((run mock_runner caller.server many_ticks).heap busy.next_id)) ≤ 3
unfolding calls
calling-short = omega arith

open_call-HasReturned_example : HasReturned mock_runner (
    call_turns mock_runner busy.next_id caller
      (map happens many_ticks ++ rounds mock_runner busy.next_id 3))
open_call-HasReturned_example =
    open_call-HasReturned mock_runner mock-IsRowwise tt (pos 1) (pos 100) arrivals prompt (pos 2)
      (finite (pos 0) 0) none many_ticks 3 (omega arith) busy-alive (ticks-IsDraining 15)
      (omega (arith, calling-owed)) calling-short

abbrev called_core : Core
called_core = asked_of (called_params mock_runner busy prompt (pos 2) (finite (pos 0) 0) none)

abbrev call_events : List (Turn mock_runner)
call_events = map happens many_ticks ++ rounds mock_runner busy.next_id 3

open_call-IsAccounted_example :
    IsServed mock_runner called_core busy.next_id
      (call_turns mock_runner busy.next_id caller call_events)
    × IsAccounted mock_runner called_core busy.next_id caller call_events
        (call_turns mock_runner busy.next_id caller call_events).call
open_call-IsAccounted_example =
    open_call-IsAccounted mock_runner busy prompt (pos 2) (finite (pos 0) 0) none call_events

-- A top_k of -1, and without it.
abbrev body : CompletionRequest
body = record {
  prompt = prompt;
  max_tokens = pos 2;
  temperature = finite (pos 0) 0;
  top_k = some (negsuc 0);
  stream = false;
}

abbrev request_body : CompletionRequest
request_body = record body { top_k = none }

accepted : validate body ≡ some request_body
unfolding validate in_bounds top_k_in_bounds normalize normal_top_k sampling_eps lt_float le_float
accepted = refl

call_turns-IsReplied_example : IsReplied mock_runner busy body request_body call_events completion
unfolding calls
call_turns-IsReplied_example =
    call_turns-IsReplied mock_runner busy body request_body call_events completion accepted
      (run-start-IsSafe mock_runner tt (pos 1) (pos 100) arrivals) completion-text
