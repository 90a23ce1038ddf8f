-- ===== src/Runners/Mock.antt =====
-- model_server/runners.py, class MockRunner. It keeps no state. The sleep of a tick is not modelled:
-- it only delays what the worker thread delivers.
pub mod Lengths
use nano_kube_llm_server.Prelude.{ℕ, zero, suc, List, [], ◌∷◌, ◌++◌, some, map, length, replicate}
use nano_kube_llm_server.Runners.Interface.{Text, ForwardBatch, Outcome, rows, ModelRunner}

-- "mock ".
abbrev pub mock_word : Text
mock_word = b'm' ∷ b'o' ∷ b'c' ∷ b'k' ∷ b' ' ∷ []

-- `word * n`.
unfoldable pub repeat : ℕ → Text → Text
repeat zero word = []
repeat (suc n) word = word ++ repeat n word

-- `ord(c)`: a text is its list of code points.
unfoldable pub mock_encode : Text → List ℕ
mock_encode prompt = map (λ c. c) prompt

unfoldable pub mock_decode : List ℕ → Text
unfolding repeat
mock_decode token_ids = repeat (length token_ids) mock_word

unfoldable pub mock_execute : ForwardBatch → Outcome
mock_execute batch = rows (replicate (length batch.seqs) (some 0))

abbrev pub mock_runner : ModelRunner (Unit {0})
mock_runner = record {
  eos_token_ids = λ _. [];
  encode = λ _ prompt. mock_encode prompt;
  decode = λ _ token_ids. mock_decode token_ids;
  execute = λ _ batch. (mock_execute batch, tt);
  reset = λ _. tt;
}
