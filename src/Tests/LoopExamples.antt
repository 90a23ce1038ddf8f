-- ===== src/Tests/LoopExamples.antt =====
-- The loop's theorems at a short history.
use nano_kube_llm_server.Prelude.{
  ℕ, ◌≡◌, ◌≢◌, refl, true, List, Option, none, some, pos_part, replicate, finite, le_float, inr,
  sym, ◌∙◌, IsDistinct,
}
use nano_kube_llm_server.Batching.Sequences.{Sequence, stopped, length_limit}
use nano_kube_llm_server.Batching.RunLoop.{Event, Server, submits, record_rows}
use nano_kube_llm_server.Batching.RunLoop.Requests.{Answers}
use nano_kube_llm_server.Batching.RunLoop.Entries.{EachEntry, record_rows-EachEntry}
use nano_kube_llm_server.Batching.RunLoop.Traces.Solo.{Greedy, solo, run-start-solo}
use nano_kube_llm_server.Runners.Mock.Lengths.{IsZero, mock_caching, run-start-zeros}
use nano_kube_llm_server.Tests.Samples.{request}
use nano_kube_llm_server.Prelude.{pos, ◌<◌, [], ◌∷◌, arith}
use nano_kube_llm_server.Batching.RunLoop.Outputs.{Prefix, run-Prefix}
use nano_kube_llm_server.Batching.RunLoop.{run, start, ticks}
use nano_kube_llm_server.Batching.RunLoop.Safety.{IsSafe, run-start-IsSafe}
use nano_kube_llm_server.Runners.Mock.{mock_runner}
use nano_kube_llm_server.Tests.Samples.{history, served, program}

run-start-IsSafe_example : IsSafe (run mock_runner (start tt (pos 2) (pos 100)) history)
run-start-IsSafe_example = run-start-IsSafe mock_runner tt (pos 2) (pos 100) history

served-known : 0 < served.next_id
unfolding program
served-known = omega arith

served-IsDistinct : IsDistinct served.running
unfolding program
served-IsDistinct = (refl, (refl, tt))

run-Prefix_example :
    Prefix
      (served.heap 0).output_ids
      ((run mock_runner served (ticks ∷ ticks ∷ [])).heap 0).output_ids
run-Prefix_example = run-Prefix mock_runner served (ticks ∷ ticks ∷ []) 0 served-known

-- The mock's own requests have no EOS token.
abbrev mocked : List Event
mocked = submits (record (request 3 2) { eos_token_ids = [] }) ∷ ticks ∷ ticks ∷ ticks ∷ ticks ∷ []

abbrev mock_server : Server (Unit {0})
mock_server = run mock_runner (start tt (pos 2) (pos 100)) mocked

mock-known : 0 < mock_server.next_id
unfolding program
mock-known = omega arith

mock-eos : (mock_server.heap 0).eos_token_ids ≡ []
unfolding program
mock-eos = refl

mock-over : (mock_server.heap 0).finish_reason ≡ length_limit
unfolding program
mock-over = refl

run-start-zeros_example :
    ((mock_server.heap 0).finish_reason ≢ stopped)
    × ((mock_server.heap 0).finish_reason ≡ length_limit
        → (mock_server.heap 0).output_ids
          ≡ replicate (pos_part (mock_server.heap 0).max_new_tokens) 0)
run-start-zeros_example = run-start-zeros (pos 2) (pos 100) mocked 0 mock-known mock-eos

zero-Answers :
    (seqs : List Sequence) (tokens : List (Option ℕ))
    → Answers IsZero seqs tokens
    → Answers (Greedy (λ toks. 0)) seqs tokens
zero-Answers [] tokens a = tt
zero-Answers (s ∷ ss) [] a = tt
zero-Answers (s ∷ ss) (none ∷ ts) a = zero-Answers ss ts a
zero-Answers (s ∷ ss) (some t ∷ ts) a = (λ greedy asked. a.0, zero-Answers ss ts a.1)

mock-greedy : le_float (mock_server.heap 0).temperature (finite (pos 0) 0) ≡ true
unfolding program le_float
mock-greedy = refl

mock-prompt : (mock_server.heap 0).prompt_ids ≡ 1 ∷ 1 ∷ 1 ∷ []
unfolding program
mock-prompt = refl

run-start-solo_example :
    (mock_server.heap 0).output_ids
    ≡ solo
        (λ toks. 0)
        (mock_server.heap 0).eos_token_ids
        (pos_part (mock_server.heap 0).max_new_tokens)
        (mock_server.heap 0).prompt_ids
run-start-solo_example =
    run-start-solo mock_runner mock_caching (λ toks. 0) zero-Answers tt (pos 2) (pos 100) mocked 0
      mock-known mock-greedy (λ e. let f = sym mock-prompt ∙ e in cc) (inr mock-over)

record_rows-EachEntry_example :
    EachEntry served.heap
      (record_rows served.state served.running (some 7 ∷ none ∷ [])).heap
      served.running
      (some 7 ∷ none ∷ [])
record_rows-EachEntry_example =
    record_rows-EachEntry served.state served.running (some 7 ∷ none ∷ []) served-IsDistinct
