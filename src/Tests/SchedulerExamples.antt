-- ===== src/Tests/SchedulerExamples.antt =====
-- The scheduler's theorems at a state with a finished, a running and a waiting request.
use nano_kube_llm_server.Prelude.{
  ◌+◌, ◌≡◌, ◌≢◌, ◌⊎◌, refl, true, false, List, [], ◌∷◌, ◌++◌, some, none, pos, ◌≤ℤ◌, ◌<ℤ◌, length,
  arith, replicate, elem,
}
use nano_kube_llm_server.Batching.Sequences.{
  Sequence, cancelled, is_finished, seq_len, stream, stopped,
}
use nano_kube_llm_server.Batching.Scheduler.{
  State, schedule, unfinished, has_work, postprocess, record_token, fail_all, abort,
}
use nano_kube_llm_server.Batching.Scheduler.Admission.{
  Splits, schedule-Splits, schedule_maximal, schedule_progress, batch_tokens,
}
use nano_kube_llm_server.Batching.Scheduler.Limits.{schedule-budget}
use nano_kube_llm_server.Batching.Scheduler.Tokens.{
  Recorded, record_token-Recorded, Each, postprocess_lem, finished_of,
}
use nano_kube_llm_server.Batching.Scheduler.WellFormed.Cancels.{IsGivenUp, abort-IsGivenUp}
use nano_kube_llm_server.Batching.Scheduler.WellFormed.Failures.{fail_all-finishes}
use nano_kube_llm_server.Batching.RunLoop.{Server, Event, submit, start, submits, ticks, run}
use nano_kube_llm_server.Batching.RunLoop.Late.{late, late_token, entry_at}
use nano_kube_llm_server.Batching.RunLoop.Stuck.{IsBack, run_stuck}
use nano_kube_llm_server.Batching.RunLoop.Safety.{IsSafe, run-start-IsSafe}
use nano_kube_llm_server.Runners.Mock.{mock_runner}
use nano_kube_llm_server.Tests.Samples.{program, request, served, history}

served-IsSafe : IsSafe served
served-IsSafe = run-start-IsSafe mock_runner tt (pos 2) (pos 100) history

schedule-Splits_example :
    Splits
      (unfinished served.heap served.running)
      served.waiting
      (schedule served.state).running
      (schedule served.state).waiting
schedule-Splits_example = schedule-Splits served.state

-- A scheduler that holds one request of three tokens, with a budget of four tokens and a queue.
abbrev crowded : State
crowded =
    let st =
      submit (schedule (submit (start tt (pos 4) (pos 4)).state (request 3 2))) (request 2 2) in
    st

schedule_maximal_example :
    (pos 4 <ℤ pos (length (schedule crowded).running + 1))
    ⊎ (((schedule crowded).running ≢ [])
        × (pos 4 <ℤ pos (batch_tokens (schedule crowded) + seq_len (crowded.heap 1))))
unfolding program
schedule_maximal_example = schedule_maximal crowded 1 [] refl

schedule-budget_example :
    ((schedule crowded).running ≡ unfinished crowded.heap crowded.running)
    ⊎ (length (schedule crowded).running ≡ 1)
    ⊎ (pos (batch_tokens (schedule crowded)) ≤ℤ crowded.max_batch_tokens)
schedule-budget_example = schedule-budget crowded

schedule_progress_example :
    ((schedule crowded).running ≢ []) ⊎ (has_work (schedule crowded) ≡ false)
unfolding program
schedule_progress_example = schedule_progress crowded (omega arith)

-- `MAX_BATCH_SIZE=0`, and one request.
abbrev no_room : Server (Unit {0})
no_room = run mock_runner (start tt (pos 0) (pos 100)) (submits (request 3 2) ∷ [])

run_stuck_example : IsBack mock_runner no_room.state (run mock_runner no_room (replicate 5 ticks))
unfolding program
run_stuck_example = run_stuck mock_runner no_room 5 refl (omega arith) refl (λ e. cc)

record_token-Recorded_example : Recorded (crowded.heap 0) 2 (record_token (crowded.heap 0) 2)
unfolding program
record_token-Recorded_example = record_token-Recorded (crowded.heap 0) 2 (λ e. refl)

postprocess_lem_example :
    Each crowded.heap (postprocess crowded.heap ((0, 7) ∷ (1, 2) ∷ [])).0 ((0, 7) ∷ (1, 2) ∷ [])
    × ((postprocess crowded.heap ((0, 7) ∷ (1, 2) ∷ [])).1
        ≡ finished_of (postprocess crowded.heap ((0, 7) ∷ (1, 2) ∷ [])).0 (0 ∷ 1 ∷ []))
unfolding program
postprocess_lem_example = postprocess_lem crowded.heap ((0, 7) ∷ (1, 2) ∷ []) (refl, (refl, tt))

fail_all-finishes_example : is_finished ((fail_all served.state).0.heap 1) ≡ true
unfolding program
fail_all-finishes_example = fail_all-finishes served.state served-IsSafe.well 1 (omega arith)

-- Two requests on the worker thread, and 0 ends the first.
abbrev two_asked : List Event
two_asked =
    submits (record (request 2 4) { eos_token_ids = 0 ∷ [] }) ∷ submits (request 1 2) ∷ ticks ∷ []

abbrev at_work : Server (Unit {0})
at_work = run mock_runner (start tt (pos 2) (pos 100)) two_asked

abbrev late_0 : Sequence
late_0 = late mock_runner at_work (0 ∷ 1 ∷ []) (0 ∷ 1 ∷ []) (some 0 ∷ some 0 ∷ []) 0 0

late_0-reason : late_0.finish_reason ≡ stopped
unfolding program
late_0-reason = refl

late_token_example :
    (late_0.output_ids ≡ (at_work.heap 0).output_ids ++ 0 ∷ [])
    × (stream late_0 ≡ stream (at_work.heap 0) ++ none ∷ some 0 ∷ none ∷ [])
    × (elem 0 (at_work.heap 0).eos_token_ids ≡ true → late_0.finish_reason ≡ stopped)
unfolding program entry_at
late_token_example =
    late_token mock_runner at_work (0 ∷ 1 ∷ []) (0 ∷ 1 ∷ []) (some 0 ∷ some 0 ∷ []) 0 0
      (run-start-IsSafe mock_runner tt (pos 2) (pos 100) two_asked) refl refl refl

abort-IsGivenUp_example : IsGivenUp served.state 2 cancelled (abort served.state 2 cancelled)
unfolding program
abort-IsGivenUp_example = abort-IsGivenUp served.state 2 cancelled served-IsSafe.well (omega arith)
