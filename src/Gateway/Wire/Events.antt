-- ===== src/Gateway/Wire/Events.antt =====
-- A reader of the server-sent events of a reply.
use nano_kube_llm_server.Prelude.{
  ℕ, ◌+◌, ◌-◌, ◌/◌, ◌%◌, ◌≡◌, refl, ap, ◌∙◌, inl, inr, Bool, true, false, ◌&&◌, ◌||◌, leb, ltb,
  ◌==◌, if◌then◌else◌, List, [], ◌∷◌, ◌++◌, Option, none, some, map, elem, text_of, starts_with,
  IsLine, append-IsLine, str_ℕ-IsLine, arith, Bool-cases, append_assoc, drop, All, str_ℕ,
}
use nano_kube_llm_server.Runners.Interface.{Text}
use nano_kube_llm_server.Batching.Sequences.{Finish}
use nano_kube_llm_server.Engines.{StreamChunk}
use nano_kube_llm_server.Gateway.{Frame, chunk, done, frames, piece_is_fatal}
use nano_kube_llm_server.Gateway.Wire.{
  hex_digit, unicode_escape, escape_char, escape, json_string, reason_text, json_reason, Head,
  payload_text, frame_data, frame_text, body_text,
}

abbrev cons_first : ℕ → List Text → List Text
cons_first c [] = (c ∷ []) ∷ []
cons_first c (l ∷ ls) = (c ∷ l) ∷ ls

-- The lines of a text, each ended by a line break.
unfoldable pub lines : Text → List Text
lines [] = []
lines (c ∷ cs) = if 10 == c then [] ∷ lines cs else cons_first c (lines cs)

pub lines-line : (l rest : Text) → IsLine l → lines (l ++ 10 ∷ rest) ≡ l ∷ lines rest
unfolding lines elem
lines-line [] rest e = refl
lines-line (c ∷ l) rest e =
    let here : (10 == c) ≡ false = ground arith in
    let there : IsLine l = ground arith in rw here (ap (cons_first c) (lines-line l rest there))

-- The data of the events, each of one line: an empty line ends an event, and what is then pending, the
-- rest of a line that began with "data: ", is its data. An event that is not ended is lost.
unfoldable pub events_of : List Text → Option Text → List Text
events_of [] pending = []
events_of ([] ∷ ls) none = events_of ls none
events_of ([] ∷ ls) (some event) = event ∷ events_of ls none
events_of ((c ∷ cs) ∷ ls) pending =
    let rest = drop 6 (c ∷ cs) in
    let other = events_of ls pending in
    let begun = events_of ls (some rest) in
    if starts_with (c ∷ cs) (text_of "data: ") then begun else other

-- What a reader of the body gets.
unfoldable pub data_of : Text → List Text
unfolding lines events_of
data_of body = events_of (lines body) none

if-IsLine :
    (b : Bool) (s t : Text) → IsLine s → (b ≡ false → IsLine t) → IsLine (if b then s else t)
if-IsLine true s t e f = e
if-IsLine false s t e f = f refl

hex_digit_line : (n : ℕ) → (10 == hex_digit n) ≡ false
unfolding hex_digit
hex_digit_line n = ground arith

unicode_escape-IsLine : (n : ℕ) → IsLine (unicode_escape n)
unfolding unicode_escape elem
unicode_escape-IsLine n =
    rw
      (
        hex_digit_line (n / 4096 % 16),
        hex_digit_line (n / 256 % 16),
        hex_digit_line (n / 16 % 16),
        hex_digit_line (n % 16),
      )
      refl

escape_char-IsLine : (c : ℕ) → IsLine (escape_char c)
unfolding escape_char elem
escape_char-IsLine c = if-IsLine (c == 34) _ _ refl λ _. if-IsLine (c == 92) _ _ refl λ _.
    if-IsLine (c == 10) _ _ refl λ other. if-IsLine (c == 13) _ _ refl λ _.
      if-IsLine (c == 9) _ _ refl λ _. if-IsLine (c == 8) _ _ refl λ _.
        if-IsLine (c == 12) _ _ refl λ _. if-IsLine (leb 32 c && leb c 126) _ _ (ground arith) λ _.
          if-IsLine (ltb c 65536) _ _ (unicode_escape-IsLine c) λ _.
            let high = 55296 + (c - 65536) / 1024 in
            let low = 56320 + (c - 65536) % 1024 in
            append-IsLine (unicode_escape high) (unicode_escape low) (unicode_escape-IsLine high)
              (unicode_escape-IsLine low)

escape-IsLine : (t : Text) → IsLine (escape t)
unfolding escape elem
escape-IsLine [] = refl
escape-IsLine (c ∷ cs) =
    append-IsLine (escape_char c) (escape cs) (escape_char-IsLine c) (escape-IsLine cs)

json_string-IsLine : (t : Text) → IsLine (json_string t)
unfolding json_string elem
json_string-IsLine t =
    append-IsLine (text_of "\"" ++ escape t) (text_of "\"")
      (append-IsLine (text_of "\"") (escape t) refl (escape-IsLine t)) refl

json_reason-IsLine : (reason : Option Finish) → IsLine (json_reason reason)
unfolding json_reason elem
json_reason-IsLine none = refl
json_reason-IsLine (some reason) = json_string-IsLine (reason_text reason)

-- Parts one after the other.
abbrev pub concat_from : Text → List Text → Text
concat_from acc [] = acc
concat_from acc (part ∷ parts) = concat_from (acc ++ part) parts

pub concat_from-IsLine :
    (acc : Text) (parts : List Text)
    → IsLine acc
    → All IsLine parts
    → IsLine (concat_from acc parts)
concat_from-IsLine acc [] e a = e
concat_from-IsLine acc (part ∷ parts) e a =
    concat_from-IsLine (acc ++ part) parts (append-IsLine acc part e a.0) a.1

payload_text-IsLine : (head : Head) (piece : StreamChunk) → IsLine (payload_text head piece)
unfolding payload_text elem
payload_text-IsLine head piece =
    concat_from-IsLine (text_of "{\"id\": ")
      (json_string head.cmpl_id
        ∷ text_of ", \"object\": \"text_completion\", \"created\": "
        ∷ str_ℕ head.created
        ∷ text_of ", \"model\": "
        ∷ json_string head.model_name
        ∷ text_of ", \"choices\": [{\"text\": "
        ∷ json_string piece.text
        ∷ text_of ", \"index\": 0, \"logprobs\": null, \"finish_reason\": "
        ∷ json_reason piece.finish_reason
        ∷ text_of "}]}"
        ∷ [])
      refl
      (
        json_string-IsLine head.cmpl_id,
        (
          refl,
          (
            str_ℕ-IsLine head.created,
            (
              refl,
              (
                json_string-IsLine head.model_name,
                (
                  refl,
                  (
                    json_string-IsLine piece.text,
                    (refl, (json_reason-IsLine piece.finish_reason, (refl, tt))),
                  ),
                ),
              ),
            ),
          ),
        ),
      )

frame_data-IsLine : (head : Head) (frame : Frame) → IsLine (frame_data head frame)
unfolding frame_data elem
frame_data-IsLine head (chunk piece) = payload_text-IsLine head piece
frame_data-IsLine head done = refl

-- An event is a line, and an empty line.
body-event :
    (head : Head) (frame : Frame) (rest : Text)
    → lines (frame_text head frame ++ rest)
      ≡ (text_of "data: " ++ frame_data head frame) ∷ [] ∷ lines rest
unfolding frame_text elem
body-event head frame rest =
    let line = text_of "data: " ++ frame_data head frame in
    ap lines (append_assoc line (text_of "\n\n") rest)
    ∙ lines-line line (10 ∷ rest) (
        append-IsLine (text_of "data: ") (frame_data head frame) refl
          (frame_data-IsLine head frame))
    ∙ ap (λ ls. line ∷ ls) (lines-line [] rest refl)

pub body-data :
    (head : Head) (sent : List Frame) → data_of (body_text head sent) ≡ map (frame_data head) sent
unfolding body_text data_of events_of starts_with lines
body-data head [] = refl
body-data head (frame ∷ sent) =
    ap (λ ls. events_of ls none) (body-event head frame (body_text head sent))
    ∙ ap (λ ds. frame_data head frame ∷ ds) (body-data head sent)

-- Whether the reader has seen the terminator.
unfoldable pub has_terminator : List Text → Bool
has_terminator [] = false
has_terminator (d ∷ ds) = starts_with d (text_of "[DONE]") || has_terminator ds

payload-other :
    (head : Head) (piece : StreamChunk)
    → starts_with (payload_text head piece) (text_of "[DONE]") ≡ false
unfolding payload_text starts_with
payload-other head piece = refl

pub frames-terminator :
    (head : Head) (pieces : List StreamChunk)
    → has_terminator (map (frame_data head) (frames pieces).0) ≡ (frames pieces).1
unfolding frames frame_data has_terminator starts_with
frames-terminator head [] = refl
frames-terminator head (piece ∷ pieces) = elim (Bool-cases (piece_is_fatal piece)) [
  | inl fatal ↦ rw fatal refl
  | inr fine ↦ rw fine (
      ap (λ b. b || has_terminator (map (frame_data head) (frames pieces).0))
        (payload-other head piece)
      ∙ frames-terminator head pieces)
]
