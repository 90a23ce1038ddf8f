-- ===== src/Engines.antt =====
-- model_server/engines.py. A request handler submits a sequence, reads its queue, and gives it up when
-- it ends, however it ends. It is cut where it awaits `seq.queue.get()`; what it does between two cuts
-- is one step, taken when the event loop resumes it.
pub mod Chunks
pub mod Sentinels
pub mod Turns
pub mod Asked
pub mod Calls
pub mod Delivery
pub mod Streaming
use nano_kube_llm_server.Prelude.{
  ℕ, ℤ, Float, ltb, if◌then◌else◌, Option, none, some, List, [], ◌∷◌, ◌++◌, length, drop,
}
use nano_kube_llm_server.Runners.Interface.{Text, ModelRunner}
use nano_kube_llm_server.Batching.Sequences.{Finish, cancelled, error, Sequence}
use nano_kube_llm_server.Batching.Scheduler.{State, abort, modify, num_running, num_waiting}
use nano_kube_llm_server.Batching.RunLoop.{Server, Event, step, submit, prompt_to_sequence}

pub record Completion : Type 0 where
  pub text : Text
  pub prompt_tokens : ℕ
  pub completion_tokens : ℕ
  pub finish_reason : Finish

-- No `finish_reason` on a chunk of text, and one on the terminal chunk.
pub record StreamChunk : Type 0 where
  pub text : Text
  pub finish_reason : Option Finish

unfoldable pub stats : State → ℕ × ℕ
stats st = (num_running st, num_waiting st)

unfoldable pub cancel : State → ℕ → State
cancel st i = abort st i cancelled

-- `seq.queue.get()` took one item, and these are left.
unfoldable pub leave : State → ℕ → List (Option ℕ) → State
leave st i rest = modify st i (λ s. record s { queue = rest })

-- Where a stream stands: awaiting an item, with the number of characters sent, or over.
pub data Reading : Type 0 where
  reading : ℕ → Reading
  ended : Reading

-- `if len(text) > sent`: the new suffix, if there is one.
unfoldable pub send : ℕ → Text → Reading × List StreamChunk
send sent text =
    if ltb sent (length text)
    then (reading (length text), record { text = drop sent text; finish_reason = none } ∷ [])
    else (reading sent, [])

module _ {R : Type 0} (ops : ModelRunner R) where
  open ops use {decode}

  -- What follows the loop of `generate`, after the `finally` clause.
  unfoldable pub complete : R → Sequence → Completion
  complete runner s = record {
    text = decode runner s.output_ids;
    prompt_tokens = length s.prompt_ids;
    completion_tokens = length s.output_ids;
    finish_reason = s.finish_reason;
  }

  -- One turn of the loop of `generate` on the queue of `i`: the sentinel ends it.
  unfoldable pub generate_at : R → State → ℕ → List (Option ℕ) → State × Option Completion
  generate_at runner st i [] = (st, none)
  generate_at runner st i (some token ∷ rest) = (leave st i rest, none)
  generate_at runner st i (none ∷ rest) =
      let st' = cancel (leave st i rest) i in (st', some (complete runner (st'.heap i)))

  -- One turn of the loop of `stream` on the queue of `i`, with the chunks that it yields. After the
  -- terminal chunk the generator is resumed or closed, and the `finally` clause runs.
  unfoldable pub stream_at :
      R → State → ℕ → ℕ → List (Option ℕ) → State × Reading × List StreamChunk
  unfolding send
  stream_at runner st i sent [] = (st, reading sent, [])
  stream_at runner st i sent (some token ∷ rest) =
      let (place, chunks) = send sent (decode runner (st.heap i).output_ids) in
      (leave st i rest, place, chunks)
  stream_at runner st i sent (none ∷ rest) = (
    cancel (leave st i rest) i,
    ended,
    record { text = []; finish_reason = some (st.heap i).finish_reason } ∷ [],
  )

  -- A process with one streaming client of sequence `i`, and what the client has received.
  pub record Client : Type 0 where
    pub server : Server R
    pub place : Reading
    pub received : List StreamChunk

  -- `stream` up to its first `await`: `_submit`, whose sequence is the next one to be created.
  unfoldable pub open_stream : Server R → Text → ℤ → Float → Option ℤ → Client
  open_stream m prompt max_tokens temperature top_k = record {
    server = record m {
      state = submit m.state (prompt_to_sequence ops m.runner prompt max_tokens temperature top_k);
    };
    place = reading 0;
    received = [];
  }

  unfoldable pub resume_at : Client → ℕ → Reading → Client
  resume_at c i ended = c
  resume_at c i (reading sent) =
      let (st, place, chunks) =
        stream_at c.server.runner c.server.state i sent (c.server.heap i).queue in
      record {
        server = record c.server { state = st };
        place = place;
        received = c.received ++ chunks;
      }

  -- GeneratorExit at the `await`: the `finally` clause runs and nothing is yielded.
  unfoldable pub close_at : Client → ℕ → Reading → Client
  close_at c i ended = c
  close_at c i (reading sent) = record c {
    server = record c.server { state = cancel c.server.state i };
    place = ended;
  }

  -- Anything else happens, the handler of `i` is resumed, or its client goes away.
  pub data Turn : Type 0 where
    happens : Event → Turn
    resumes : Turn
    hangs_up : Turn

  unfoldable pub take_turn : ℕ → Client → Turn → Client
  take_turn i c (happens e) = record c { server = step ops c.server e }
  take_turn i c resumes = resume_at c i c.place
  take_turn i c hangs_up = close_at c i c.place

  unfoldable pub take_turns : ℕ → Client → List Turn → Client
  take_turns i c [] = c
  take_turns i c (t ∷ ts) = take_turns i (take_turn i c t) ts

  -- A process with one client that called `generate` for sequence `i`, and what came of the call: it
  -- awaits an item, returned, or was cancelled.
  pub data Call : Type 0 where
    asking : Call
    answered : Completion → Call
    dropped : Call

  pub record Caller : Type 0 where
    pub server : Server R
    pub call : Call

  -- `generate` up to its first `await`.
  unfoldable pub open_call : Server R → Text → ℤ → Float → Option ℤ → Caller
  open_call m prompt max_tokens temperature top_k = record {
    server = record m {
      state = submit m.state (prompt_to_sequence ops m.runner prompt max_tokens temperature top_k);
    };
    call = asking;
  }

  abbrev call_after : Option Completion → Call
  call_after none = asking
  call_after (some completion) = answered completion

  unfoldable pub read_at : Caller → ℕ → Call → Caller
  unfolding generate_at
  read_at c i asking =
      let (st, result) = generate_at c.server.runner c.server.state i (c.server.heap i).queue in
      record { server = record c.server { state = st }; call = call_after result }
  read_at c i _ = c

  -- CancelledError at the `await`: the `finally` clause runs and nothing is returned.
  unfoldable pub drop_at : Caller → ℕ → Call → Caller
  drop_at c i asking = record {
    server = record c.server { state = cancel c.server.state i };
    call = dropped;
  }
  drop_at c i _ = c

  unfoldable pub call_turn : ℕ → Caller → Turn → Caller
  call_turn i c (happens e) = record c { server = step ops c.server e }
  call_turn i c resumes = read_at c i c.call
  call_turn i c hangs_up = drop_at c i c.call

  unfoldable pub call_turns : ℕ → Caller → List Turn → Caller
  call_turns i c [] = c
  call_turns i c (t ∷ ts) = call_turns i (call_turn i c t) ts
