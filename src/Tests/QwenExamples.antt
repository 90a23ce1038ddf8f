-- ===== src/Tests/QwenExamples.antt =====
-- A small backend whose next token is the last token plus one, and the theorems about QwenRunner.
use nano_kube_llm_server.Prelude.{
  ℕ, suc, ◌≡◌, refl, ℤ, true, false, List, [], ◌∷◌, map, Option, none, some, length, pos, finite,
  Float, le_float, ◌==◌, if◌then◌else◌, ◌-ℤ◌, ◌+ℤ◌, ltb_ℤ, inr,
}
use nano_kube_llm_server.Runners.Interface.{Extends, rows}
use nano_kube_llm_server.Batching.Sequences.{Sequence, unset}
use nano_kube_llm_server.Runners.Qwen.{
  Backend, returned, out_of_memory, failed, one, many, Qwen, width, pad_row, mask_row, last_of,
  last_column, last_logits, eos_set, resolve_eos_ids, pad_id_of, positions, qwen_eos, pad_id,
  padded, masks, filter_top_k, weights, draw, sample_row, cons_row, pick, sample, feed, outcome_of,
  sample_last, after_forward, execute_with, qwen_execute, qwen_runner,
}
use nano_kube_llm_server.Batching.Sequences.{Params}
use nano_kube_llm_server.Batching.RunLoop.{Event, ticks, submits, Server, start, run, executing}
use nano_kube_llm_server.Batching.RunLoop.Caching.{IsCoherent}
use nano_kube_llm_server.Batching.RunLoop.Coherence.{run-start-IsCoherent}
use nano_kube_llm_server.Runners.Qwen.Served.{qwen_caching, run-start-Holds}
use nano_kube_llm_server.Tests.Samples.{program}
use nano_kube_llm_server.Runners.Qwen.Padding.{
  partial_sums, TorchLaws, AllStacked, padded-AllStacked,
}
use nano_kube_llm_server.Runners.Qwen.Cache.{beside, join, CacheLaws, Holds, execute-Holds}
use nano_kube_llm_server.Runners.Qwen.Sampling.{any_out_of_memory, token_of, attempts, sample_lem}

abbrev pub successor : Backend
successor = record {
  Logits = ℕ;
  Logit = ℕ;
  Probs = ℕ;
  Cache = List (List ℕ);
  Rng = ℕ;
  cumsum = partial_sums (pos 0);
  minus = λ xs k. map (λ x. x -ℤ k) xs;
  clamp_min = λ xs k. map (λ x. if ltb_ℤ x k then k else x) xs;
  forward = λ ids mask positions old. returned (beside (λ c. c) old ids, map (map suc) ids);
  argmax = λ row. returned row;
  divide = λ row t. returned row;
  size = λ row. 1;
  topk = λ row k. returned (row ∷ []);
  mask_below = λ row least. returned row;
  softmax = λ row. returned row;
  multinomial = λ probs g. (if probs == 0 then failed else returned probs, suc g);
  apply_chat_template = λ text thinking. text;
  tokenize = λ text. text;
  detokenize = λ ids. ids;
  pad_token_id = none;
  tokenizer_eos = some (one 2);
  generation_eos = some (many (2 ∷ 3 ∷ []));
}

-- What the examples compute with.
unfoldable pub computing : Unit {0}
unfolding width pad_row mask_row last_of last_column last_logits eos_set resolve_eos_ids pad_id_of
    positions qwen_eos pad_id padded masks filter_top_k weights draw sample_row cons_row pick sample
    feed outcome_of sample_last after_forward execute_with qwen_execute beside join Holds
    any_out_of_memory token_of attempts partial_sums ◌+ℤ◌ ◌-ℤ◌ le_float
computing = tt

abbrev asked : Float → List ℕ → List ℕ → Sequence
asked temperature prompt output = record {
  prompt_ids = prompt;
  max_new_tokens = pos 9;
  temperature = temperature;
  top_k = some (pos 1);
  eos_token_ids = [];
  id = 0;
  output_ids = output;
  finish_reason = unset;
  queue = [];
  on_loop = false;
  posted = [];
}

abbrev pub greedy : Float
greedy = finite (pos 0) 0

abbrev pub idle : Qwen successor
idle = record { enable_thinking = false; cache = none; rng = 0 }

abbrev first : List Sequence
first = asked greedy (5 ∷ 6 ∷ 7 ∷ []) [] ∷ asked greedy (8 ∷ []) [] ∷ []

abbrev second : List Sequence
second = asked greedy (5 ∷ 6 ∷ 7 ∷ []) (8 ∷ []) ∷ asked greedy (8 ∷ []) (9 ∷ []) ∷ []

eos-both : qwen_eos successor ≡ 2 ∷ 3 ∷ []
unfolding computing
eos-both = refl

padded-second : padded successor second ≡ (5 ∷ 6 ∷ 7 ∷ 8 ∷ []) ∷ (0 ∷ 0 ∷ 8 ∷ 9 ∷ []) ∷ []
unfolding computing
padded-second = refl

abbrev prefilled : Qwen successor
prefilled = (qwen_execute successor idle (record { seqs = first; is_prefill = true })).1

decode-second :
    (qwen_execute successor prefilled (record { seqs = second; is_prefill = false })).0
    ≡ rows (some 9 ∷ some 10 ∷ [])
unfolding computing
decode-second = refl

torch_laws : TorchLaws successor
torch_laws = record {
  cumsum_lem = λ xs. refl;
  minus_lem = λ xs k. refl;
  clamp_min_lem = λ xs k. refl;
}

pub grown-beside :
    (ids : List (List ℕ)) (mask positions : List (List ℤ)) (old : Option (List (List ℕ)))
    (c logits : List (List ℕ))
    → successor.forward ids mask positions old ≡ returned (c, logits)
    → c ≡ beside (λ c. c) old ids
grown-beside ids mask positions old c logits e = cc

abbrev pub cache_laws : CacheLaws successor
cache_laws = record { fed = λ c. c; forward_lem = grown-beside }

padded-AllStacked_example :
    AllStacked successor (width second) second (padded successor second) (masks successor second)
padded-AllStacked_example = padded-AllStacked successor torch_laws second

prefilled-Holds : Holds successor cache_laws prefilled first
unfolding computing
prefilled-Holds = (padded successor first, refl, refl)

second-Extends : Extends first second
second-Extends = ((8, refl), ((9, refl), tt))

execute-Holds_example :
    Holds successor cache_laws
      (qwen_execute successor prefilled (record { seqs = second; is_prefill = false })).1
      second
execute-Holds_example =
    execute-Holds successor cache_laws prefilled (record { seqs = second; is_prefill = false })
      (some 9 ∷ some 10 ∷ []) (inr (first, prefilled-Holds, second-Extends, λ e. cc)) decode-second

-- The first row fails, the second does not.
abbrev warm : List Sequence
warm = asked (finite (pos 1) 0) (5 ∷ []) [] ∷ asked (finite (pos 1) 0) (6 ∷ []) [] ∷ []

sample-warm : (sample successor (0 ∷ 4 ∷ []) warm 0).0 ≡ returned (none ∷ some 4 ∷ [])
unfolding computing
sample-warm = refl

sample_lem_example :
    ((sample successor (0 ∷ 4 ∷ []) warm 0).0 ≡ (
      if any_out_of_memory (attempts successor (0 ∷ 4 ∷ []) warm 0)
      then out_of_memory
      else returned (map token_of (attempts successor (0 ∷ 4 ∷ []) warm 0))))
    × (length (map token_of (attempts successor (0 ∷ 4 ∷ []) warm 0)) ≡ length warm)
sample_lem_example = sample_lem successor (0 ∷ 4 ∷ []) warm 0

-- Two requests through the loop: a prefill, and a decode step that is still on the worker thread.
abbrev pub asking : List ℕ → Params
asking prompt = record {
  prompt_ids = prompt;
  max_new_tokens = pos 9;
  temperature = greedy;
  top_k = none;
  eos_token_ids = [];
}

abbrev pub decoding : List Event
decoding =
    submits (asking (5 ∷ 6 ∷ 7 ∷ [])) ∷ submits (asking (8 ∷ [])) ∷ ticks ∷ ticks ∷ ticks ∷ []

abbrev produced : List (Option ℕ)
produced = some 9 ∷ some 10 ∷ []

abbrev both : List ℕ
both = 0 ∷ 1 ∷ []

abbrev at_work : Server (Qwen successor)
at_work = run (qwen_runner successor) (start idle (pos 4) (pos 100)) decoding

at_work-phase : at_work.phase ≡ executing both both (rows produced)
unfolding computing program
at_work-phase = refl

at_work-cache : at_work.runner.cache ≡ some ((5 ∷ 6 ∷ 7 ∷ 8 ∷ []) ∷ (0 ∷ 0 ∷ 8 ∷ 9 ∷ []) ∷ [])
unfolding computing program
at_work-cache = refl

run-start-IsCoherent_example :
    IsCoherent (qwen_runner successor) (qwen_caching successor cache_laws) at_work
run-start-IsCoherent_example =
    run-start-IsCoherent (qwen_runner successor) (qwen_caching successor cache_laws) idle (pos 4)
      (pos 100) decoding

run-start-Holds_example :
    Holds successor cache_laws at_work.runner (map at_work.heap both)
    × (length produced ≡ length both)
run-start-Holds_example =
    run-start-Holds successor cache_laws idle (pos 4) (pos 100) decoding both both produced
      at_work-phase
