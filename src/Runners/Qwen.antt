-- ===== src/Runners/Qwen.antt =====
-- model_server/runners.py, class QwenRunner. Torch, the model and the tokenizer are a record of
-- operations. A tensor is the list of its rows, a set of token ids is a list.
pub mod Padding
pub mod Cache
pub mod Sampling
pub mod Executed
pub mod Served
pub mod Model
pub mod Greedy
use nano_kube_llm_server.Prelude.{
  ℕ, zero, suc, ◌+◌, ◌-◌, min, pos_part, ltb, if◌then◌else◌, Bool, true, false, ◌&&◌, List, [], ◌∷◌,
  ◌++◌, map, Option, none, some, ℤ, pos, negsuc, leb_ℤ, ltb_ℤ, Float, finite, le_float, length,
  replicate, is_empty,
}
use nano_kube_llm_server.Runners.Interface.{Text, ForwardBatch, Outcome, rows, raised, ModelRunner}
use nano_kube_llm_server.Batching.Sequences.{Sequence, seq_len, token_ids}

-- A call that returns, runs out of GPU memory, or raises another exception.
pub data Attempt {ℓ} (A : Type ℓ) : Type ℓ where
  returned : A → Attempt A
  out_of_memory failed : Attempt A

infixl 5 ◌>>=◌
abbrev pub ◌>>=◌ {ℓ κ} : {A : Type ℓ} {B : Type κ} → Attempt A → (A → Attempt B) → Attempt B
returned a >>= f = f a
out_of_memory >>= f = out_of_memory
failed >>= f = failed

-- `eos_token_id` of a configuration: one id, or a list of them.
pub data EosId : Type 0 where
  one : ℕ → EosId
  many : List ℕ → EosId

pub record Backend : Type 1 where
  -- A row of logits, one logit, a row of probabilities, the key-value cache, the random generator.
  pub Logits : Type 0
  pub Logit : Type 0
  pub Probs : Type 0
  pub Cache : Type 0
  pub Rng : Type 0
  -- On a row of an int64 tensor: `row.cumsum(-1)`, `row - k`, `row.clamp(min=k)`.
  pub cumsum : List ℤ → List ℤ
  pub minus : List ℤ → ℤ → List ℤ
  pub clamp_min : List ℤ → ℤ → List ℤ
  -- The model on input_ids, attention_mask, position_ids and past_key_values: the new
  -- past_key_values, and the logits by row and column.
  pub forward :
      List (List ℕ)
      → List (List ℤ)
      → List (List ℤ)
      → Option Cache
      → Attempt (Cache × List (List Logits))
  -- `argmax(row)`, `row / t`, `row.size(-1)`, `topk(row, k)` (the values),
  -- `row.masked_fill(row < x, -inf)`, `softmax(row)`, `multinomial(probs, 1)`.
  pub argmax : Logits → Attempt ℕ
  pub divide : Logits → Float → Attempt Logits
  pub size : Logits → ℕ
  pub topk : Logits → ℕ → Attempt (List Logit)
  pub mask_below : Logits → Logit → Attempt Logits
  pub softmax : Logits → Attempt Probs
  pub multinomial : Probs → Rng → Attempt ℕ × Rng
  -- The tokenizer: the chat template, the token ids of a text, and the text of token ids.
  pub apply_chat_template : Text → Bool → Text
  pub tokenize : Text → List ℕ
  pub detokenize : List ℕ → Text
  pub pad_token_id : Option ℕ
  pub tokenizer_eos : Option EosId
  pub generation_eos : Option EosId

-- `max(len(s) for s in seqs)`, which raises on no sequence at all.
unfoldable pub width : List Sequence → ℕ
width [] = 0
width (s ∷ ss) = let w = width ss in if ltb w (seq_len s) then seq_len s else w

-- `[self.pad_id] * pad + toks` and `[0] * pad + [1] * len(toks)`.
unfoldable pub pad_row : ℕ → ℕ → List ℕ → List ℕ
pad_row pad_id width toks = replicate (width - length toks) pad_id ++ toks

unfoldable pub mask_row : ℕ → List ℕ → List ℤ
mask_row width toks = replicate (width - length toks) (pos 0) ++ replicate (length toks) (pos 1)

-- The last element of a row; an empty one has none, and the index raises.
unfoldable pub last_of {ℓ} : {A : Type ℓ} → List A → Attempt A
last_of [] = failed
last_of (x ∷ []) = returned x
last_of (x ∷ y ∷ xs) = last_of (y ∷ xs)

-- `t[:, -1:]`.
unfoldable pub last_column {ℓ} : {A : Type ℓ} → List A → List A
last_column [] = []
last_column (x ∷ []) = x ∷ []
last_column (x ∷ y ∷ xs) = last_column (y ∷ xs)

-- `out.logits[:, -1, :]`.
unfoldable pub last_logits {ℓ} : {A : Type ℓ} → List (List A) → Attempt (List A)
last_logits [] = returned []
last_logits (r ∷ rs) = last_of r >>= λ x. last_logits rs >>= λ xs. returned (x ∷ xs)

-- `set(eos) if isinstance(eos, (list, tuple)) else {eos}`, and no id if there is none.
unfoldable pub eos_set : Option EosId → List ℕ
eos_set none = []
eos_set (some (one i)) = i ∷ []
eos_set (some (many is)) = is

unfoldable pub resolve_eos_ids : Option EosId → Option EosId → List ℕ
unfolding eos_set
resolve_eos_ids none tokenizer = eos_set tokenizer
resolve_eos_ids (some eos) tokenizer = eos_set (some eos)

-- `tokenizer.pad_token_id or 0`.
unfoldable pub pad_id_of : Option ℕ → ℕ
pad_id_of none = 0
pad_id_of (some i) = i

module _ (b : Backend) where
  open b use {
    Logits, Logit, Probs, Cache, Rng, cumsum, minus, clamp_min, forward, argmax, divide, size, topk,
    mask_below, softmax, multinomial, apply_chat_template, tokenize, detokenize, pad_token_id,
    tokenizer_eos, generation_eos,
  }

  pub record Qwen : Type 0 where
    pub enable_thinking : Bool
    pub cache : Option Cache
    pub rng : Rng

  -- `(attention_mask.cumsum(-1) - 1).clamp(min=0)`.
  unfoldable pub positions : List ℤ → List ℤ
  positions mask = clamp_min (minus (cumsum mask) (pos 1)) (pos 0)

  unfoldable pub qwen_encode : Qwen → Text → List ℕ
  qwen_encode r prompt = tokenize (apply_chat_template prompt r.enable_thinking)

  unfoldable pub qwen_eos : List ℕ
  qwen_eos = resolve_eos_ids generation_eos tokenizer_eos

  unfoldable pub pad_id : ℕ
  pad_id = pad_id_of pad_token_id

  unfoldable pub padded : List Sequence → List (List ℕ)
  padded seqs = map (λ s. pad_row pad_id (width seqs) (token_ids s)) seqs

  unfoldable pub masks : List Sequence → List (List ℤ)
  masks seqs = map (λ s. mask_row (width seqs) (token_ids s)) seqs

  -- `if s.top_k and s.top_k > 0`: keep the k largest logits, at most as many as there are.
  unfoldable pub filter_top_k : Option ℤ → Logits → Attempt Logits
  filter_top_k none row = returned row
  filter_top_k (some k) row =
      if ltb_ℤ (pos 0) k
      then (topk row (min (pos_part k) (size row)) >>= λ kept.
          last_of kept >>= λ least. mask_below row least)
      else returned row

  unfoldable pub weights : Sequence → Logits → Attempt Probs
  weights s row =
      divide row s.temperature >>= λ scaled. filter_top_k s.top_k scaled >>= λ kept. softmax kept

  unfoldable pub draw : Attempt Probs → Rng → Attempt ℕ × Rng
  draw (returned probs) g = multinomial probs g
  draw out_of_memory g = (out_of_memory, g)
  draw failed g = (failed, g)

  unfoldable pub sample_row : Sequence → Logits → Rng → Attempt ℕ × Rng
  sample_row s row g =
      if le_float s.temperature (finite (pos 0) 0) then (argmax row, g) else draw (weights s row) g

  unfoldable pub cons_row :
      Option ℕ → Attempt (List (Option ℕ)) × Rng → Attempt (List (Option ℕ)) × Rng
  cons_row token (picked, g) = (picked >>= λ tokens. returned (token ∷ tokens), g)

  -- The body of the loop of `_sample`, at what `_sample_row` did: a row that raises has no token, but
  -- running out of memory ends the loop.
  unfoldable pub pick :
      Attempt ℕ → Rng → Attempt (List (Option ℕ)) × Rng → Attempt (List (Option ℕ)) × Rng
  pick (returned token) g rest = cons_row (some token) rest
  pick out_of_memory g rest = (out_of_memory, g)
  pick failed g rest = cons_row none rest

  -- `logits[row]` raises too where there is no such row.
  unfoldable pub sample : List Logits → List Sequence → Rng → Attempt (List (Option ℕ)) × Rng
  sample logits [] g = (returned [], g)
  sample [] (s ∷ ss) g = let rest = sample [] ss g in pick failed g rest
  sample (row ∷ logits) (s ∷ ss) g =
      let (token, g') = sample_row s row g in let rest = sample logits ss g' in pick token g' rest

  -- With a cache only the last column is fed.
  unfoldable pub feed {ℓ} : {A : Type ℓ} → Option Cache → List (List A) → List (List A)
  feed none columns = columns
  feed (some c) columns = map last_column columns

  unfoldable pub outcome_of : Attempt (List (Option ℕ)) → Outcome
  outcome_of (returned tokens) = rows tokens
  outcome_of _ = raised

  unfoldable pub sample_last : Qwen → List Sequence → Attempt (List Logits) → Outcome × Qwen
  sample_last r seqs (returned logits) =
      let (picked, g) = sample logits seqs r.rng in (outcome_of picked, record r { rng = g })
  sample_last r seqs _ = (raised, r)

  unfoldable pub after_forward :
      Qwen → List Sequence → Attempt (Cache × List (List Logits)) → Outcome × Qwen
  after_forward r seqs (returned (c, logits)) =
      sample_last (record r { cache = some c }) seqs (last_logits logits)
  after_forward r seqs _ = (raised, r)

  unfoldable pub execute_with : Qwen → List Sequence → Outcome × Qwen
  execute_with r seqs = after_forward r seqs (
      forward (feed r.cache (padded seqs)) (masks seqs) (feed r.cache (map positions (masks seqs)))
        r.cache)

  unfoldable pub qwen_execute : Qwen → ForwardBatch → Outcome × Qwen
  qwen_execute r batch =
      let r' = if batch.is_prefill then record r { cache = none } else r in
      if is_empty batch.seqs then (raised, r') else execute_with r' batch.seqs

  abbrev pub qwen_runner : ModelRunner Qwen
  qwen_runner = record {
    eos_token_ids = λ _. qwen_eos;
    encode = qwen_encode;
    decode = λ _ token_ids. detokenize token_ids;
    execute = qwen_execute;
    reset = λ r. record r { cache = none };
  }
