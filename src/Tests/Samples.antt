-- ===== src/Tests/Samples.antt =====
-- Requests and processes that the examples share.
use nano_kube_llm_server.Prelude.{ℕ, ◌≡◌, refl, List, [], ◌∷◌, none, pos, finite, replicate}
use nano_kube_llm_server.Runners.Mock.{mock_runner, mock_execute}
use nano_kube_llm_server.Batching.Sequences.{
  Params, length_limit, emit, update, new_sequence, deliver,
}
use nano_kube_llm_server.Batching.Scheduler.{
  add, schedule, postprocess, record_token, reason_after, unfinished, total_len, fits, admit,
  new_scheduler, has_work, abort, remove, fail_all, fail_one, fail_each,
}
use nano_kube_llm_server.Batching.RunLoop.{
  Server, Event, ticks, submits, start, step, run, submit, launch, begin_tick, end_tick, tick_at,
  cancel_at, casualties, survivors, abort_each, record_rows, same_ids,
}
use nano_kube_llm_server.Prelude.{elem}

abbrev pub request : ℕ → ℕ → Params
request prompt_len max_tokens = record {
  prompt_ids = replicate prompt_len 1;
  max_new_tokens = pos max_tokens;
  temperature = finite (pos 0) 0;
  top_k = none;
  eos_token_ids = 2 ∷ [];
}

-- What a run computes with.
unfoldable pub program : Unit {0}
unfolding mock_execute emit update new_sequence deliver add schedule postprocess record_token
    reason_after unfinished total_len fits admit new_scheduler has_work abort remove fail_all
    fail_one fail_each start step run submit launch begin_tick end_tick tick_at cancel_at casualties
    survivors abort_each record_rows same_ids elem
program = tt

-- Three requests for a batch of two: the first is done after one tick, the last is waiting.
abbrev pub history : List Event
history = submits (request 3 1) ∷ submits (request 2 4) ∷ submits (request 1 2) ∷ ticks ∷ ticks ∷ []

abbrev pub served : Server (Unit {0})
served = run mock_runner (start tt (pos 2) (pos 100)) history

served-output : (served.heap 0).output_ids ≡ 0 ∷ []
unfolding program
served-output = refl

served-reason : (served.heap 0).finish_reason ≡ length_limit
unfolding program
served-reason = refl

served-waiting : served.waiting ≡ 2 ∷ []
unfolding program
served-waiting = refl

served-backfill : (step mock_runner served ticks).running ≡ 1 ∷ 2 ∷ []
unfolding program
served-backfill = refl
