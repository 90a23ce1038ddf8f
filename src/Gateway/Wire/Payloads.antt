-- ===== src/Gateway/Wire/Payloads.antt =====
-- What a reader of a streamed reply gets from its events.
use nano_kube_llm_server.Prelude.{
  ◌≡◌, refl, ap, ap₂, ◌∙◌, inl, inr, List, [], ◌∷◌, ◌++◌, map, Option, none, some, text_of,
  append_assoc, All, Bool-cases, str_ℕ,
}
use nano_kube_llm_server.Runners.Interface.{Text}
use nano_kube_llm_server.Batching.Sequences.{Finish, unset, stopped, length_limit, cancelled, error}
use nano_kube_llm_server.Engines.{StreamChunk}
use nano_kube_llm_server.Gateway.{Frame, chunk, done, frames, piece_is_fatal}
use nano_kube_llm_server.Gateway.Wire.{
  json_string, reason_text, json_reason, Head, payload_text, frame_data, body_text,
}
use nano_kube_llm_server.Gateway.Wire.Events.{data_of, has_terminator, body-data, frames-terminator}
use nano_kube_llm_server.Gateway.Wire.Json.{
  Token, word, mark, tokens, lex, next, emits, utf16, IsUnicode, json_string-tokens, bare-tokens,
  str_ℕ-IsBare,
}

-- A key and its value, in an object.
abbrev pub entry : Text → List Token → List Token
entry key value = word key ∷ mark b':' ∷ value

abbrev pub comma : List Token
comma = mark b',' ∷ []

-- `null`, or the string of the reason.
unfoldable pub reason_tokens : Option Finish → List Token
reason_tokens none = map mark (text_of "null")
reason_tokens (some unset) = word [] ∷ []
reason_tokens (some stopped) = word (text_of "stop") ∷ []
reason_tokens (some length_limit) = word (text_of "length") ∷ []
reason_tokens (some cancelled) = word (text_of "cancelled") ∷ []
reason_tokens (some error) = word (text_of "error") ∷ []

-- The object that a chunk of text_completion is: its texts are in UTF-16.
unfoldable pub payload_tokens : Head → StreamChunk → List Token
unfolding reason_tokens
payload_tokens head piece =
    mark b'{'
    ∷ entry (text_of "id") (
        word (utf16 head.cmpl_id)
        ∷ mark b','
        ∷ entry (text_of "object") (
            word (text_of "text_completion")
            ∷ mark b','
            ∷ entry (text_of "created") (
                map mark (str_ℕ head.created)
                ++ mark b','
                  ∷ entry (text_of "model") (
                      word (utf16 head.model_name)
                      ∷ mark b','
                      ∷ entry (text_of "choices") (
                          mark b'['
                          ∷ mark b'{'
                          ∷ entry (text_of "text") (
                              word (utf16 piece.text)
                              ∷ mark b','
                              ∷ entry (text_of "index") (
                                  mark b'0'
                                  ∷ mark b','
                                  ∷ entry (text_of "logprobs") (
                                      map mark (text_of "null")
                                      ++ mark b','
                                        ∷ entry (text_of "finish_reason") (
                                            reason_tokens piece.finish_reason
                                            ++ mark b'}' ∷ mark b']' ∷ mark b'}' ∷ [])))))))))

json_reason-tokens :
    (reason : Option Finish) (rest : Text)
    → tokens (json_reason reason ++ rest) ≡ reason_tokens reason ++ tokens rest
unfolding json_reason json_string reason_text reason_tokens tokens lex next emits
json_reason-tokens none rest = refl
json_reason-tokens (some unset) rest = refl
json_reason-tokens (some stopped) rest = refl
json_reason-tokens (some length_limit) rest = refl
json_reason-tokens (some cancelled) rest = refl
json_reason-tokens (some error) rest = refl

-- The data of an event.
unfoldable pub frame_tokens : Head → Frame → List Token
unfolding payload_tokens
frame_tokens head (chunk piece) = payload_tokens head piece
frame_tokens head done = map mark (text_of "[DONE]")

module _ (head : Head) (named : IsUnicode head.cmpl_id) (modelled : IsUnicode head.model_name) where
  payload_text-tokens :
      (piece : StreamChunk)
      → IsUnicode piece.text
      → tokens (payload_text head piece) ≡ payload_tokens head piece
  unfolding payload_text payload_tokens tokens lex next emits
  payload_text-tokens piece valid =
      let after_text =
        text_of ", \"index\": 0, \"logprobs\": null, \"finish_reason\": "
        ++ (json_reason piece.finish_reason ++ text_of "}]}") in
      let after_model =
        text_of ", \"choices\": [{\"text\": " ++ (json_string piece.text ++ after_text) in
      let after_created = text_of ", \"model\": " ++ (json_string head.model_name ++ after_model) in
      let after_id =
        text_of ", \"object\": \"text_completion\", \"created\": "
        ++ (str_ℕ head.created ++ after_created) in
      let flat : payload_text head piece
          ≡ text_of "{\"id\": " ++ (json_string head.cmpl_id ++ after_id) =
        simp append_assoc in
      ap tokens flat
      ∙ ap (λ ts. mark b'{' ∷ entry (text_of "id") ts)
          (json_string-tokens head.cmpl_id after_id named
            ∙ ap
                (λ ts.
                  word (utf16 head.cmpl_id)
                  ∷ mark b','
                  ∷ entry (text_of "object")
                      (word (text_of "text_completion") ∷ mark b',' ∷ entry (text_of "created") ts))
                (bare-tokens (str_ℕ head.created) after_created (str_ℕ-IsBare head.created)
                  ∙ ap
                      (λ ts.
                        map mark (str_ℕ head.created) ++ mark b',' ∷ entry (text_of "model") ts)
                      (json_string-tokens head.model_name after_model modelled
                        ∙ ap
                            (λ ts.
                              word (utf16 head.model_name)
                              ∷ mark b','
                              ∷ entry (text_of "choices")
                                  (mark b'[' ∷ mark b'{' ∷ entry (text_of "text") ts))
                            (json_string-tokens piece.text after_text valid
                              ∙ ap
                                  (λ ts.
                                    word (utf16 piece.text)
                                    ∷ mark b','
                                    ∷ entry (text_of "index") (
                                        mark b'0'
                                        ∷ mark b','
                                        ∷ entry (text_of "logprobs") (
                                            map mark (text_of "null")
                                            ++ mark b',' ∷ entry (text_of "finish_reason") ts)))
                                  (json_reason-tokens piece.finish_reason (text_of "}]}"))))))

  abbrev IsUnicodeFrame : Frame → Type 0
  IsUnicodeFrame (chunk piece) = IsUnicode piece.text
  IsUnicodeFrame done = Unit

  frame_data-tokens :
      (frame : Frame)
      → IsUnicodeFrame frame
      → tokens (frame_data head frame) ≡ frame_tokens head frame
  unfolding frame_data frame_tokens tokens lex next emits
  frame_data-tokens (chunk piece) valid = payload_text-tokens piece valid
  frame_data-tokens done valid = refl

  data-tokens :
      (sent : List Frame)
      → All IsUnicodeFrame sent
      → map tokens (map (frame_data head) sent) ≡ map (frame_tokens head) sent
  data-tokens [] valid = refl
  data-tokens (frame ∷ sent) (here, there) =
      ap₂ ◌∷◌ (frame_data-tokens frame here) (data-tokens sent there)

  frames-IsUnicodeFrame :
      (pieces : List StreamChunk)
      → All (λ p. IsUnicode p.text) pieces
      → All IsUnicodeFrame (frames pieces).0
  unfolding frames
  frames-IsUnicodeFrame [] valid = (tt, tt)
  frames-IsUnicodeFrame (piece ∷ pieces) (here, there) = elim (Bool-cases (piece_is_fatal piece)) [
    | inl fatal ↦ rw fatal tt
    | inr fine ↦ rw fine (here, frames-IsUnicodeFrame pieces there)
  ]

  -- For texts of code points: a reader of server-sent events that reads JSON gets from the body an event for
  -- each piece that is sent, in order, then the terminator if the stream ended well. Of a piece it gets
  -- the object of a chunk of text_completion, with the reply's id, time and model, and with the piece's
  -- own text, in UTF-16, and its own reason, or null. And it sees the terminator exactly if the stream
  -- ended well.
  pub body-tokens :
      (pieces : List StreamChunk)
      → All (λ p. IsUnicode p.text) pieces
      → (map tokens (data_of (body_text head (frames pieces).0))
          ≡ map (frame_tokens head) (frames pieces).0)
        × (has_terminator (data_of (body_text head (frames pieces).0)) ≡ (frames pieces).1)
  body-tokens pieces valid =
      let read = body-data head (frames pieces).0 in
      (
        ap (λ ds. map tokens ds) read
            ∙ data-tokens (frames pieces).0 (frames-IsUnicodeFrame pieces valid),
        ap has_terminator read ∙ frames-terminator head pieces,
      )
