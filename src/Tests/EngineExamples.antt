-- ===== src/Tests/EngineExamples.antt =====
-- A streamed request on the mock runner.
use nano_kube_llm_server.Prelude.{
  true, arith, ℕ, zero, suc, ◌+◌, ◌≡◌, refl, sym, ap, ◌∙◌, List, [], ◌∷◌, ◌++◌, none, some, pos,
  finite, length, length-append, append_assoc,
}
use nano_kube_llm_server.Runners.Interface.{Text, ModelRunner}
use nano_kube_llm_server.Runners.Mock.{mock_runner, mock_word, mock_decode, mock_encode, repeat}
use nano_kube_llm_server.Batching.Sequences.{length_limit}
use nano_kube_llm_server.Batching.RunLoop.{Server, start, ticks, delivers, run, prompt_to_sequence}
use nano_kube_llm_server.Engines.{
  Client, Turn, happens, resumes, reading, ended, open_stream, take_turn, take_turns, resume_at,
  close_at, stream_at, send, leave, cancel,
}
use nano_kube_llm_server.Engines.Chunks.{texts}
use nano_kube_llm_server.Engines.Delivery.{IsMonotone}
use nano_kube_llm_server.Engines.Streaming.{Delivered, open_stream-IsDelivered, resumes-texts}
use nano_kube_llm_server.Gateway.{CompletionRequest}
use nano_kube_llm_server.Gateway.Streams.{IsStreamed, take_turns-IsStreamed}
use nano_kube_llm_server.Batching.RunLoop.Safety.{IsSafe, run-start-IsSafe}
use nano_kube_llm_server.Tests.Samples.{program}

repeat-add : (m n : ℕ) (word : Text) → repeat (m + n) word ≡ repeat m word ++ repeat n word
unfolding repeat
repeat-add zero n word = let e : 0 + n ≡ n = omega arith in ap (λ k. repeat k word) e
repeat-add (suc m) n word =
    let e : suc m + n ≡ suc (m + n) = omega arith in
    ap (λ k. repeat k word) e
    ∙ ap (λ t. word ++ t) (repeat-add m n word)
    ∙ sym (append_assoc word (repeat m word) (repeat n word))

pub mock_runner-IsMonotone : IsMonotone mock_runner
unfolding mock_decode
mock_runner-IsMonotone = record {
  grows = λ r r' ids more. (
    repeat (length more) mock_word,
    ap (λ n. repeat n mock_word) (length-append ids more)
        ∙ repeat-add (length ids) (length more) mock_word,
  );
}

-- What a streamed request computes with.
streaming : Unit {0}
unfolding program prompt_to_sequence mock_decode mock_encode repeat open_stream take_turn take_turns
    resume_at close_at stream_at send leave cancel texts
streaming = tt

abbrev fresh : Server (Unit {0})
fresh = start tt (pos 2) (pos 100)

-- "hi"
abbrev prompt : Text
prompt = b'h' ∷ b'i' ∷ []

abbrev first_tick : List (Turn mock_runner)
first_tick = happens ticks ∷ happens ticks ∷ happens (delivers 0) ∷ []

abbrev to_the_end : List (Turn mock_runner)
to_the_end =
    happens ticks
    ∷ happens ticks
    ∷ happens (delivers 0)
    ∷ resumes
    ∷ happens ticks
    ∷ happens ticks
    ∷ happens (delivers 0)
    ∷ happens (delivers 0)
    ∷ resumes
    ∷ resumes
    ∷ []

abbrev client : List (Turn mock_runner) → Client mock_runner
client =
    take_turns mock_runner 0 (open_stream mock_runner fresh prompt (pos 2) (finite (pos 0) 0) none)

received-all :
    (client to_the_end).received
    ≡ record { text = mock_word; finish_reason = none }
      ∷ record { text = mock_word; finish_reason = none }
      ∷ record { text = []; finish_reason = some length_limit }
      ∷ []
unfolding streaming
received-all = refl

abbrev waiting_client : Client mock_runner
waiting_client = client first_tick

place-first : waiting_client.place ≡ reading 0
unfolding streaming
place-first = refl

queue-first : (waiting_client.server.heap 0).queue ≡ some 0 ∷ []
unfolding streaming
queue-first = refl

open_stream-IsDelivered_example : Delivered mock_runner mock_runner-IsMonotone 0 (client to_the_end)
unfolding start
open_stream-IsDelivered_example =
    open_stream-IsDelivered mock_runner mock_runner-IsMonotone fresh prompt (pos 2)
      (finite (pos 0) 0) none to_the_end

resumes-texts_example :
    texts (take_turn mock_runner 0 waiting_client resumes).received
    ≡ mock_decode (waiting_client.server.heap 0).output_ids
unfolding start
resumes-texts_example =
    resumes-texts mock_runner mock_runner-IsMonotone fresh prompt (pos 2) (finite (pos 0) 0) none
      first_tick 0 0 [] place-first queue-first

fresh-IsSafe : IsSafe fresh
unfolding run
fresh-IsSafe = run-start-IsSafe mock_runner tt (pos 2) (pos 100) []

place-end : (client to_the_end).place ≡ ended
unfolding streaming
place-end = refl

abbrev body : CompletionRequest
body = record {
  prompt = prompt;
  max_tokens = pos 2;
  temperature = finite (pos 0) 0;
  top_k = none;
  stream = true;
}

take_turns-IsStreamed_example :
    IsStreamed mock_runner ((client to_the_end).server.heap 0) (client to_the_end).received
unfolding start
take_turns-IsStreamed_example =
    take_turns-IsStreamed mock_runner mock_runner-IsMonotone fresh body to_the_end fresh-IsSafe
      (tt, (tt, (tt, (tt, (tt, (tt, (tt, (tt, (tt, (tt, tt)))))))))) place-end

-- A tokenizer that gives U+FFFD for the first half of a character.
abbrev lossy_decode : List ℕ → Text
lossy_decode [] = []
lossy_decode (a ∷ []) = 65533 ∷ []
lossy_decode (a ∷ b ∷ ids) = 23383 ∷ []

abbrev lossy : ModelRunner (Unit {0})
lossy = record mock_runner { decode = λ _ ids. lossy_decode ids }

-- The whole character is as long as its half, so it is never sent.
lossy-received :
    texts
      (take_turns lossy 0 (open_stream lossy fresh prompt (pos 2) (finite (pos 0) 0) none) (
        happens ticks
        ∷ happens ticks
        ∷ happens (delivers 0)
        ∷ resumes
        ∷ happens ticks
        ∷ happens ticks
        ∷ happens (delivers 0)
        ∷ happens (delivers 0)
        ∷ resumes
        ∷ resumes
        ∷ [])).received
    ≡ 65533 ∷ []
unfolding streaming
lossy-received = refl
