-- ===== src/Tests/WireExamples.antt =====
-- What goes over the wire, for a small reply and a small state.
use nano_kube_llm_server.Prelude.{
  ◌≡◌, refl, false, List, [], ◌∷◌, some, none, map, text_of, str_ℕ, elem, arith,
}
use nano_kube_llm_server.Batching.Sequences.{error}
use nano_kube_llm_server.Engines.{StreamChunk}
use nano_kube_llm_server.Gateway.{frames, piece_is_fatal, is_fatal}
use nano_kube_llm_server.Gateway.Wire.{Head, payload_text, body_text, metrics_text, gauge_text}
use nano_kube_llm_server.Gateway.Wire.Events.{lines, data_of, has_terminator}
use nano_kube_llm_server.Gateway.Wire.Json.{IsUnicode, tokens}
use nano_kube_llm_server.Gateway.Wire.Payloads.{frame_tokens, body-tokens}
use nano_kube_llm_server.Gateway.Wire.Gauges.{samples, metrics-read}

sample_metrics :
    metrics_text (text_of "m") 3 12
    ≡ text_of
        "# HELP vllm:num_requests_running Number of requests currently running on GPU.\n# TYPE vllm:num_requests_running gauge\nvllm:num_requests_running{model_name=\"m\"} 3\n# HELP vllm:num_requests_waiting Number of requests waiting to be processed.\n# TYPE vllm:num_requests_waiting gauge\nvllm:num_requests_waiting{model_name=\"m\"} 12\n"
unfolding metrics_text gauge_text str_ℕ
sample_metrics = refl

abbrev head : Head
head = record { cmpl_id = text_of "cmpl-0"; created = 17; model_name = text_of "m" }

abbrev quoted : StreamChunk
quoted = record { text = text_of "a\n\"é"; finish_reason = none }

-- As json.dumps writes it.
quoted-payload :
    payload_text head quoted
    ≡ text_of
        "{\"id\": \"cmpl-0\", \"object\": \"text_completion\", \"created\": 17, \"model\": \"m\", \"choices\": [{\"text\": \"a\\n\\\"\\u00e9\", \"index\": 0, \"logprobs\": null, \"finish_reason\": null}]}"
unfolding payload_text str_ℕ
quoted-payload = refl

-- A reply that fails after its first chunk.
abbrev broken : List StreamChunk
broken = quoted ∷ record { text = []; finish_reason = some error } ∷ []

cmpl_id-IsUnicode : IsUnicode head.cmpl_id
cmpl_id-IsUnicode =
    (omega arith, (omega arith, (omega arith, (omega arith, (omega arith, (omega arith, tt))))))

model_name-IsUnicode : IsUnicode head.model_name
model_name-IsUnicode = (omega arith, tt)

quoted-IsUnicode : IsUnicode quoted.text
quoted-IsUnicode = (omega arith, (omega arith, (omega arith, (omega arith, tt))))

body-tokens_example :
    (map tokens (data_of (body_text head (frames broken).0))
      ≡ map (frame_tokens head) (frames broken).0)
    × (has_terminator (data_of (body_text head (frames broken).0)) ≡ (frames broken).1)
body-tokens_example =
    body-tokens head cmpl_id-IsUnicode model_name-IsUnicode broken (quoted-IsUnicode, (tt, tt))

broken-ends : (frames broken).1 ≡ false
unfolding frames piece_is_fatal is_fatal
broken-ends = refl

m-IsLine : elem 10 (text_of "m") ≡ false
unfolding elem
m-IsLine = refl

metrics-read_example :
    samples (lines (metrics_text (text_of "m") 3 12))
    ≡ (text_of "vllm:num_requests_running", 3) ∷ (text_of "vllm:num_requests_waiting", 12) ∷ []
metrics-read_example = metrics-read (text_of "m") 3 12 m-IsLine
