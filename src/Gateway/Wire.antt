-- ===== src/Gateway/Wire.antt =====
-- model_server/main.py, the texts that go over the wire: the server-sent events of a streamed reply,
-- with json.dumps of their payload, and the text of /metrics.
pub mod Events
pub mod Json
pub mod Payloads
pub mod Gauges
use nano_kube_llm_server.Prelude.{
  ℕ, ◌+◌, ◌-◌, ◌*◌, ◌/◌, ◌%◌, ◌≡◌, refl, sym, ap, ap₂, ◌∙◌, inl, inr, Bool, true, false, ◌&&◌, leb,
  ltb, ◌==◌, if◌then◌else◌, List, [], ◌∷◌, ◌++◌, Option, none, some, map, elem, text_of,
  starts_with, str_ℕ, last_number, IsLine, append-IsLine, str_ℕ-IsLine, last_number-str_ℕ,
  last_number-append, arith, Bool-cases, append_assoc, drop,
}
use nano_kube_llm_server.Runners.Interface.{Text}
use nano_kube_llm_server.Batching.Sequences.{Finish, unset, stopped, length_limit, cancelled, error}
use nano_kube_llm_server.Engines.{StreamChunk}
use nano_kube_llm_server.Gateway.{Frame, chunk, done}

-- A hexadecimal digit, in lower case.
unfoldable pub hex_digit : ℕ → ℕ
hex_digit n = if ltb n 10 then 48 + n else 87 + n

-- `\uXXXX`.
unfoldable pub unicode_escape : ℕ → Text
unfolding hex_digit
unicode_escape n =
    b'\\'
    ∷ b'u'
    ∷ hex_digit (n / 4096 % 16)
    ∷ hex_digit (n / 256 % 16)
    ∷ hex_digit (n / 16 % 16)
    ∷ hex_digit (n % 16)
    ∷ []

-- A code point in a JSON string, as `json.dumps` writes it by default: in ASCII.
unfoldable pub escape_char : ℕ → Text
unfolding unicode_escape
escape_char c =
    if c == 34
    then text_of "\\\""
    else if c == 92
    then text_of "\\\\"
    else if c == 10
    then text_of "\\n"
    else if c == 13
    then text_of "\\r"
    else if c == 9
    then text_of "\\t"
    else if c == 8
    then text_of "\\b"
    else if c == 12
    then text_of "\\f"
    else if leb 32 c && leb c 126
    then c ∷ []
    else if ltb c 65536
    then unicode_escape c
    else unicode_escape (55296 + (c - 65536) / 1024) ++ unicode_escape (56320 + (c - 65536) % 1024)

unfoldable pub escape : Text → Text
unfolding escape_char
escape [] = []
escape (c ∷ cs) = escape_char c ++ escape cs

unfoldable pub json_string : Text → Text
unfolding escape
json_string t = text_of "\"" ++ escape t ++ text_of "\""

-- The values of `finish_reason`.
unfoldable pub reason_text : Finish → Text
reason_text unset = []
reason_text stopped = text_of "stop"
reason_text length_limit = text_of "length"
reason_text cancelled = text_of "cancelled"
reason_text error = text_of "error"

unfoldable pub json_reason : Option Finish → Text
unfolding json_string reason_text
json_reason none = text_of "null"
json_reason (some reason) = json_string (reason_text reason)

-- What the chunks of a reply share: `cmpl_id`, `created` and the model's name.
pub record Head : Type 0 where
  pub cmpl_id : Text
  pub created : ℕ
  pub model_name : Text

-- `json.dumps(payload)`.
unfoldable pub payload_text : Head → StreamChunk → Text
unfolding json_string json_reason
payload_text head piece =
    text_of "{\"id\": "
    ++ json_string head.cmpl_id
    ++ text_of ", \"object\": \"text_completion\", \"created\": "
    ++ str_ℕ head.created
    ++ text_of ", \"model\": "
    ++ json_string head.model_name
    ++ text_of ", \"choices\": [{\"text\": "
    ++ json_string piece.text
    ++ text_of ", \"index\": 0, \"logprobs\": null, \"finish_reason\": "
    ++ json_reason piece.finish_reason
    ++ text_of "}]}"

-- The data of an event.
unfoldable pub frame_data : Head → Frame → Text
unfolding payload_text
frame_data head (chunk piece) = payload_text head piece
frame_data head done = text_of "[DONE]"

-- What `_stream` yields for it.
unfoldable pub frame_text : Head → Frame → Text
unfolding frame_data
frame_text head frame = text_of "data: " ++ frame_data head frame ++ text_of "\n\n"

-- The body of the reply.
unfoldable pub body_text : Head → List Frame → Text
unfolding frame_text
body_text head [] = []
body_text head (frame ∷ frames) = frame_text head frame ++ body_text head frames

-- A gauge of /metrics. The name of the model is written as it is.
unfoldable pub gauge_text : Text → Text → Text → ℕ → Text
gauge_text metric help model_name value =
    text_of "# HELP "
    ++ metric
    ++ text_of " "
    ++ help
    ++ text_of "\n# TYPE "
    ++ metric
    ++ text_of " gauge\n"
    ++ metric
    ++ text_of "{model_name=\""
    ++ model_name
    ++ text_of "\"} "
    ++ str_ℕ value
    ++ text_of "\n"

-- The text of /metrics, on what `stats` returned.
unfoldable pub metrics_text : Text → ℕ → ℕ → Text
unfolding gauge_text
metrics_text model_name running waiting =
    gauge_text (text_of "vllm:num_requests_running")
      (text_of "Number of requests currently running on GPU.") model_name running
    ++ gauge_text (text_of "vllm:num_requests_waiting")
        (text_of "Number of requests waiting to be processed.") model_name waiting
