-- ===== src/Batching/RunLoop.antt =====
-- model_server/batching.py, run_loop and prompt_to_sequence. The coroutine is cut at its `await`s:
-- between two cuts nothing else runs on the event loop, and at a cut the request handlers may.
pub mod Rows
pub mod Ticks
pub mod Safety
pub mod Late
pub mod Stuck
pub mod Grows
pub mod Recorded
pub mod Entries
pub mod Caching
pub mod Coherence
pub mod Outputs
pub mod Requests
pub mod Opened
pub mod Upheld
pub mod Traces
pub mod Watched
pub mod Owed
pub mod Drain
pub mod Settings
use nano_kube_llm_server.Prelude.{
  ℕ, suc, ◌==◌, ltb, if◌then◌else◌, Bool, true, false, ◌&&◌, not, List, [], ◌∷◌, map, Option, none,
  some, ℤ, pos, Float, finite, is_empty,
}
use nano_kube_llm_server.Runners.Interface.{Text, Outcome, rows, raised, ModelRunner}
use nano_kube_llm_server.Batching.Sequences.{
  Sequence, cancelled, error, Params, update, new_sequence, deliver,
}
use nano_kube_llm_server.Batching.Scheduler.{
  State, add, schedule, postprocess, has_work, abort, fail_all, modify, new_scheduler,
}

-- Where the coroutine stands: about to start an iteration (or in the idle sleep before one), awaiting
-- the worker thread, or ended. The worker reads the batch when the tick starts, and what it will
-- deliver is kept with the batch.
pub data Phase : Type 0 where
  ready : Phase
  executing : (batch current : List ℕ) → Outcome → Phase
  dead : Phase

-- The process: the heap, the scheduler, the runner, and the local variables of `run_loop`.
pub record Server (R : Type 0) : Type 0 where
  pub state : State
  pub open state use *
  pub members : List ℕ
  pub phase : Phase
  pub runner : R

-- What an id that is not in use holds. No reference to it exists.
abbrev pub vacant : Sequence
vacant = record {
  prompt_ids = [];
  max_new_tokens = pos 0;
  temperature = finite (pos 0) 0;
  top_k = none;
  eos_token_ids = [];
  id = 0;
  output_ids = [];
  finish_reason = cancelled;
  queue = [];
  on_loop = false;
  posted = [];
}

-- A process in which no request was made and the loop is about to start.
unfoldable pub start : {R : Type 0} → R → ℤ → ℤ → Server R
unfolding new_scheduler
start runner max_batch_size max_batch_tokens = record {
  state = record {
    heap = λ i. vacant;
    next_id = 0;
    scheduler = new_scheduler max_batch_size max_batch_tokens;
  };
  members = [];
  phase = ready;
  runner = runner;
}

-- `current == members`, on tuples of ids.
unfoldable pub same_ids : List ℕ → List ℕ → Bool
same_ids [] [] = true
same_ids (i ∷ is) (j ∷ js) = i == j && same_ids is js
same_ids _ _ = false

-- `[s for s, token in zip(batch, next_ids) if token is None]`.
unfoldable pub casualties : List ℕ → List (Option ℕ) → List ℕ
casualties (i ∷ is) (none ∷ tokens) = i ∷ casualties is tokens
casualties (i ∷ is) (some token ∷ tokens) = casualties is tokens
casualties _ _ = []

-- `[(s, t) for s, t in zip(batch, next_ids) if t is not None]`.
unfoldable pub survivors : List ℕ → List (Option ℕ) → List (ℕ × ℕ)
survivors (i ∷ is) (none ∷ tokens) = survivors is tokens
survivors (i ∷ is) (some token ∷ tokens) = (i, token) ∷ survivors is tokens
survivors _ _ = []

unfoldable pub abort_each : State → List ℕ → State
abort_each st [] = st
abort_each st (i ∷ is) = abort_each (abort st i error) is

-- What follows `execute` in an iteration.
unfoldable pub record_rows : State → List ℕ → List (Option ℕ) → State
record_rows st batch next_ids =
    let st' = abort_each st (casualties batch next_ids) in
    record st' { heap = (postprocess st'.heap (survivors batch next_ids)).0 }

-- `Sequence(...)` and `Scheduler.add`, as a request handler calls them.
unfoldable pub submit : State → Params → State
submit st p =
    let i = st.next_id in
    add (record st { heap = update st.heap i (new_sequence p i true); next_id = suc i }) i

-- What can happen next: the loop goes on to its next `await`, is cancelled, a handler submits a
-- request or gives one up, the event loop runs a posted call of sequence `i`.
pub data Event : Type 0 where
  ticks : Event
  loop_cancelled : Event
  submits : Params → Event
  gives_up : ℕ → Event
  delivers : ℕ → Event

module _ {R : Type 0} (ops : ModelRunner R) where
  open ops use {eos_token_ids, encode, execute, reset}

  unfoldable pub prompt_to_sequence : R → Text → ℤ → Float → Option ℤ → Params
  prompt_to_sequence runner prompt max_new_tokens temperature top_k = record {
    prompt_ids = encode runner prompt;
    max_new_tokens = max_new_tokens;
    temperature = temperature;
    top_k = top_k;
    eos_token_ids = eos_token_ids runner;
  }

  -- The call of `execute` on the batch that `schedule` left running.
  unfoldable pub launch : Server R → State → Server R
  launch m st =
      let current = map (λ i. (st.heap i).id) st.running in
      let is_prefill = not (same_ids current m.members) in
      let (outcome, runner) =
        execute m.runner (record { seqs = map st.heap st.running; is_prefill = is_prefill }) in
      record m { state = st; phase = executing st.running current outcome; runner = runner }

  -- An iteration up to its first `await`: the idle sleep, or the worker thread. With an empty batch
  -- the code goes on with the next iteration at once.
  unfoldable pub begin_tick : Server R → Server R
  begin_tick m =
      let st = schedule m.state in
      if not (has_work m.state)
      then m
      else if is_empty st.running
      then record m { state = st; members = []; runner = reset m.runner }
      else launch m st

  -- The rest of the iteration, with what the worker thread delivers.
  unfoldable pub end_tick : Server R → List ℕ → List ℕ → Outcome → Server R
  end_tick m batch current (rows next_ids) = record m {
    state = record_rows m.state batch next_ids;
    members = current;
    phase = ready;
  }
  end_tick m batch current raised = record m { state = (fail_all m.state).0; phase = dead }

  unfoldable pub tick_at : Server R → Phase → Server R
  tick_at m ready = begin_tick m
  tick_at m (executing batch current outcome) = end_tick m batch current outcome
  tick_at m dead = m

  -- `task.cancel()`, which raises CancelledError at the `await` where the coroutine stands: only the
  -- worker's is inside the `try`.
  unfoldable pub cancel_at : Server R → Phase → Server R
  cancel_at m ready = record m { phase = dead }
  cancel_at m (executing batch current outcome) = record m {
    state = (fail_all m.state).0;
    phase = dead;
  }
  cancel_at m dead = m

  -- A handler only holds references to sequences that were created.
  unfoldable pub step : Server R → Event → Server R
  step m ticks = tick_at m m.phase
  step m loop_cancelled = cancel_at m m.phase
  step m (submits p) = record m { state = submit m.state p }
  step m (gives_up i) =
      if ltb i m.next_id then record m { state = abort m.state i cancelled } else m
  step m (delivers i) = if ltb i m.next_id then record m { state = modify m.state i deliver } else m

  unfoldable pub run : Server R → List Event → Server R
  run m [] = m
  run m (e ∷ es) = run (step m e) es
