-- ===== src/Gateway.antt =====
-- model_server/main.py: the HTTP gateway. A request body is what JSON gave, a reply is a value. The
-- bounds that `Field` declares are tested by pydantic; the order of its errors is not modelled.
pub mod Wire
pub mod Loading
pub mod Requests
pub mod Frames
pub mod Swaps
pub mod Outages
pub mod Answers
pub mod Streams
use nano_kube_llm_server.Prelude.{
  ℕ, ◌+◌, Bool, true, false, ◌&&◌, ◌||◌, not, if◌then◌else◌, List, [], ◌∷◌, ◌++◌, Option, none,
  some, ℤ, pos, negsuc, leb_ℤ, Float, finite, lt_float, le_float,
}
use nano_kube_llm_server.Runners.Interface.{Text, ModelRunner}
use nano_kube_llm_server.Batching.Sequences.{Finish, stopped, length_limit, cancelled, error}
use nano_kube_llm_server.Batching.RunLoop.{Phase, ready, executing, dead, Server, cancel_at}
use nano_kube_llm_server.Engines.{Completion, StreamChunk}

pub record CompletionRequest : Type 0 where
  pub prompt : Text
  pub max_tokens : ℤ
  pub temperature : Float
  pub top_k : Option ℤ
  pub stream : Bool

-- `1e-5`, as the nearest double.
unfoldable pub sampling_eps : Float
sampling_eps = finite (pos 5902958103587057) 69

-- `Field(default=None, ge=-1)`.
unfoldable pub top_k_in_bounds : Option ℤ → Bool
top_k_in_bounds none = true
top_k_in_bounds (some k) = leb_ℤ (negsuc 0) k

-- The bounds of `max_tokens`, `temperature` and `top_k`.
unfoldable pub in_bounds : CompletionRequest → Bool
in_bounds r =
    leb_ℤ (pos 0) r.max_tokens
    && (le_float (finite (pos 0) 0) r.temperature && le_float r.temperature (finite (pos 2) 0))
    && top_k_in_bounds r.top_k

unfoldable pub normal_top_k : Option ℤ → Option ℤ
normal_top_k none = none
normal_top_k (some k) = if leb_ℤ k (pos 0) then none else some k

unfoldable pub normalize : CompletionRequest → CompletionRequest
normalize r = record r {
  temperature = if lt_float r.temperature sampling_eps then finite (pos 0) 0 else r.temperature;
  top_k = normal_top_k r.top_k;
}

-- A body that is validated: the handler sees it normalized, or not at all.
unfoldable pub validate : CompletionRequest → Option CompletionRequest
validate r = if in_bounds r then some (normalize r) else none

pub data ErrorType : Type 0 where
  invalid_request_error service_unavailable internal_server_error : ErrorType

pub data Message : Type 0 where
  first_error : Text → Message
  loop_not_running : Message
  generation_failed : Finish → Message

-- `error_response`: the status and the fields of the envelope.
pub record ErrorResponse : Type 0 where
  pub status : ℕ
  pub message : Message
  pub err_type : ErrorType
  pub param : Option Text

-- An entry of `exc.errors()`.
pub record FieldError : Type 0 where
  pub loc : List Text
  pub msg : Text

-- `".".join(parts)`.
unfoldable pub join_dots : List Text → Text
join_dots [] = []
join_dots (p ∷ []) = p
join_dots (p ∷ q ∷ ps) = p ++ b'.' ∷ join_dots (q ∷ ps)

-- `text or None`.
unfoldable pub or_none : Text → Option Text
or_none [] = none
or_none (c ∷ cs) = some (c ∷ cs)

-- `loc[1:]`.
unfoldable pub rest_of : List Text → List Text
rest_of [] = []
rest_of (p ∷ ps) = ps

unfoldable pub invalid_request : FieldError → ErrorResponse
invalid_request first = record {
  status = 400;
  message = first_error first.msg;
  err_type = invalid_request_error;
  param = or_none (join_dots (rest_of first.loc));
}

-- `FATAL_FINISH_REASONS`.
unfoldable pub is_fatal : Finish → Bool
is_fatal error = true
is_fatal cancelled = true
is_fatal _ = false

-- `task.done()`.
unfoldable pub loop_is_dead : Phase → Bool
loop_is_dead dead = true
loop_is_dead _ = false

-- The status of `/health`.
unfoldable pub health : Bool → Phase → ℕ
health loaded phase = if not loaded then 503 else if loop_is_dead phase then 503 else 200

pub record CompletionBody : Type 0 where
  pub text : Text
  pub finish_reason : Finish
  pub prompt_tokens : ℕ
  pub completion_tokens : ℕ
  pub total_tokens : ℕ

-- What `completions` answers at once: it refuses, or goes on to stream or to generate.
pub data Start : Type 0 where
  refused : ErrorResponse → Start
  streams generates : Start

unfoldable pub completions_start : Phase → CompletionRequest → Start
completions_start phase body =
    if loop_is_dead phase
    then refused (record {
      status = 503;
      message = loop_not_running;
      err_type = service_unavailable;
      param = none;
    })
    else if body.stream
    then streams
    else generates

pub data Reply : Type 0 where
  failure : ErrorResponse → Reply
  success : CompletionBody → Reply

-- The rest of `completions`, on what `generate` returned.
unfoldable pub completions_end : Completion → Reply
completions_end result =
    if is_fatal result.finish_reason
    then failure (record {
      status = 500;
      message = generation_failed result.finish_reason;
      err_type = internal_server_error;
      param = none;
    })
    else success (record {
      text = result.text;
      finish_reason = result.finish_reason;
      prompt_tokens = result.prompt_tokens;
      completion_tokens = result.completion_tokens;
      total_tokens = result.prompt_tokens + result.completion_tokens;
    })

-- `piece.finish_reason in FATAL_FINISH_REASONS`.
unfoldable pub piece_is_fatal : StreamChunk → Bool
piece_is_fatal piece = elim piece.finish_reason [ none ↦ false | some reason ↦ is_fatal reason ]

-- A server-sent event: a chunk, or the terminator.
pub data Frame : Type 0 where
  chunk : StreamChunk → Frame
  done : Frame

-- `_stream` over the pieces of the engine: the frames, and whether it ended without raising.
unfoldable pub frames : List StreamChunk → List Frame × Bool
frames [] = (done ∷ [], true)
frames (piece ∷ pieces) =
    let (rest, complete) = frames pieces in
    if piece_is_fatal piece then ([], false) else (chunk piece ∷ rest, complete)

-- The swap at the end of `_load`: the old loop is cancelled, and a new one with the new runner starts
-- on the same scheduler.
unfoldable pub swap_runner : {R S : Type 0} → ModelRunner R → S → Server R → Server S
swap_runner ops runner m = record {
  state = (cancel_at ops m m.phase).state;
  members = [];
  phase = ready;
  runner = runner;
}
