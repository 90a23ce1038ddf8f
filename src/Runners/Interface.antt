-- ===== src/Runners/Interface.antt =====
-- model_server/runners.py: ForwardBatch and the abstract class ModelRunner. Whatever runs a batch is
-- a record of operations over a type of runner states, which the loop and the engine take.
use nano_kube_llm_server.Prelude.{ℕ, ◌≡◌, Bool, List, [], ◌∷◌, ◌++◌, Option}
use nano_kube_llm_server.Batching.Sequences.{Sequence, token_ids}

-- A text is its list of code points.
abbrev pub Text : Type 0
Text = List ℕ

pub record ForwardBatch : Type 0 where
  pub seqs : List Sequence
  pub is_prefill : Bool

-- A call of `execute` returns one token or None for each row, or raises.
pub data Outcome : Type 0 where
  rows : List (Option ℕ) → Outcome
  raised : Outcome

pub record ModelRunner (R : Type 0) : Type 0 where
  pub eos_token_ids : R → List ℕ
  pub encode : R → Text → List ℕ
  pub decode : R → List ℕ → Text
  pub execute : R → ForwardBatch → Outcome × R
  pub reset : R → R

-- Each sequence of a decode batch has one more token than in the batch before.
abbrev pub Extends : List Sequence → List Sequence → Type 0
Extends [] [] = Unit
Extends (s ∷ ss) (t ∷ ts) =
    ((token : ℕ) × (token_ids t ≡ token_ids s ++ token ∷ [])) × Extends ss ts
Extends _ _ = ⊥
