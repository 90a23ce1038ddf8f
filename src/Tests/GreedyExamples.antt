-- ===== src/Tests/GreedyExamples.antt =====
-- A backend whose next token is one more than the sum of a request's own tokens.
use nano_kube_llm_server.Prelude.{
  ℕ, suc, ◌+◌, ◌<◌, ◌≡◌, refl, true, List, [], ◌∷◌, Option, none, some, ℤ, pos, inr, pos_part, sym,
  subst, false, ◌∙◌, finite, le_float, arith,
}
use nano_kube_llm_server.Batching.Sequences.{length_limit}
use nano_kube_llm_server.Batching.RunLoop.{Event, Server, ticks, submits, run, start}
use nano_kube_llm_server.Batching.RunLoop.Traces.Solo.{solo}
use nano_kube_llm_server.Runners.Qwen.{Backend, returned, last_of, Qwen, qwen_runner}
use nano_kube_llm_server.Runners.Qwen.Padding.{TorchLaws, attended}
use nano_kube_llm_server.Runners.Qwen.Cache.{beside, CacheLaws}
use nano_kube_llm_server.Runners.Qwen.Model.{ModelLaws, EachRowMeans}
use nano_kube_llm_server.Runners.Qwen.Greedy.{best, run-start-best}
use nano_kube_llm_server.Tests.Samples.{program}
use nano_kube_llm_server.Tests.QwenExamples.{successor, asking, computing}

total : List ℕ → ℕ
total [] = 0
total (t ∷ ts) = t + total ts

abbrev after : List ℕ → ℕ
after toks = suc (total toks)

row_reads : List (List ℕ) → List (List ℤ) → List (List ℕ)
row_reads (row ∷ rows) (m ∷ ms) = (after (attended m row) ∷ []) ∷ row_reads rows ms
row_reads _ _ = []

-- The cache is the token ids and the positions that were fed, and the last mask.
abbrev summing : Backend
summing = record successor {
  Cache = List (List ℕ) × List (List ℤ) × List (List ℤ);
  forward = λ ids mask positions old.
      let full = beside (λ c. c.0) old ids in
      returned ((full, beside (λ c. c.1) old positions, mask), row_reads full mask);
}

summing_torch : TorchLaws summing
summing_torch = record {
  cumsum_lem = λ xs. refl;
  minus_lem = λ xs k. refl;
  clamp_min_lem = λ xs k. refl;
}

summing-cache :
    (ids : List (List ℕ)) (mask positions : List (List ℤ)) (old : Option summing.Cache)
    (c : summing.Cache) (logits : List (List ℕ))
    → summing.forward ids mask positions old ≡ returned (c, logits)
    → c.0 ≡ beside (λ c. c.0) old ids
summing-cache ids mask positions old c logits e = cc

summing-places :
    (ids : List (List ℕ)) (mask positions : List (List ℤ)) (old : Option summing.Cache)
    (c : summing.Cache) (logits : List (List ℕ))
    → summing.forward ids mask positions old ≡ returned (c, logits)
    → c.1 ≡ beside (λ c. c.1) old positions
summing-places ids mask positions old c logits e = cc

summing-mask :
    (ids : List (List ℕ)) (mask positions : List (List ℤ)) (old : Option summing.Cache)
    (c : summing.Cache) (logits : List (List ℕ))
    → summing.forward ids mask positions old ≡ returned (c, logits)
    → c.2 ≡ mask
summing-mask ids mask positions old c logits e = cc

abbrev summing_laws : CacheLaws summing
summing_laws = record { fed = λ c. c.0; forward_lem = summing-cache }

row_reads-EachRowMeans :
    (ids : List (List ℕ)) (mask places : List (List ℤ))
    → EachRowMeans summing after ids mask places (row_reads ids mask)
unfolding row_reads last_of
row_reads-EachRowMeans [] mask places = tt
row_reads-EachRowMeans (row ∷ ids) [] places = tt
row_reads-EachRowMeans (row ∷ ids) (m ∷ ms) [] = tt
row_reads-EachRowMeans (row ∷ ids) (m ∷ ms) (p ∷ ps) =
    (λ placed marked. refl, row_reads-EachRowMeans ids ms ps)

summing-logits :
    (ids : List (List ℕ)) (mask positions : List (List ℤ)) (old : Option summing.Cache)
    (c : summing.Cache) (logits : List (List ℕ))
    → summing.forward ids mask positions old ≡ returned (c, logits)
    → EachRowMeans summing after c.0 mask c.1 logits
summing-logits ids mask positions old c logits e =
    let f : row_reads (beside (λ c. c.0) old ids) mask ≡ logits = cc in
    let g : beside (λ c. c.0) old ids ≡ c.0 = cc in
    subst (λ l. EachRowMeans summing after c.0 mask c.1 l) f
      (subst (λ rows. EachRowMeans summing after c.0 mask c.1 (row_reads rows mask)) (sym g)
        (row_reads-EachRowMeans c.0 mask c.1))

abbrev summing_model : ModelLaws summing summing_laws
summing_model = record {
  placed = λ c. c.1;
  placed_lem = summing-places;
  under = λ c mask. c.2 ≡ mask;
  fresh_lem = λ ids mask positions c logits e. summing-mask ids mask positions none c logits e;
  grown_lem = λ ids mask positions old c logits before columns e kept grown.
      summing-mask ids mask positions (some old) c logits e;
  alone = after;
  logits_lem =
      λ ids mask positions old c logits e kept. summing-logits ids mask positions old c logits e;
}

abbrev sums : Qwen summing
sums = record { enable_thinking = false; cache = none; rng = 0 }

-- Two requests that share the batch, and a third that joins it later.
abbrev shared : List Event
shared =
    submits (asking (1 ∷ 2 ∷ []))
    ∷ submits (asking (3 ∷ []))
    ∷ ticks
    ∷ ticks
    ∷ ticks
    ∷ ticks
    ∷ submits (record (asking (5 ∷ [])) { max_new_tokens = pos 2 })
    ∷ ticks
    ∷ ticks
    ∷ ticks
    ∷ ticks
    ∷ []

abbrev server : Server (Qwen summing)
server = run (qwen_runner summing) (start sums (pos 3) (pos 100)) shared

server-third : (server.heap 2).output_ids ≡ 6 ∷ 12 ∷ []
unfolding computing program total row_reads attended
server-third = refl

server-over : (server.heap 2).finish_reason ≡ length_limit
unfolding computing program total row_reads attended
server-over = refl

server-greedy : le_float (server.heap 2).temperature (finite (pos 0) 0) ≡ true
unfolding computing program total row_reads attended
server-greedy = refl

server-prompt : (server.heap 2).prompt_ids ≡ 5 ∷ []
unfolding computing program total row_reads attended
server-prompt = refl

server-known : 2 < server.next_id
unfolding computing program total row_reads attended
server-known = omega arith

run-start-best_example :
    (server.heap 2).output_ids
    ≡ solo
        (best summing summing_torch summing_laws summing_model)
        (server.heap 2).eos_token_ids
        (pos_part (server.heap 2).max_new_tokens)
        (server.heap 2).prompt_ids
run-start-best_example =
    run-start-best summing summing_torch summing_laws summing_model sums (pos 3) (pos 100) shared 2
      server-known server-greedy (λ e. let f = sym server-prompt ∙ e in cc) (inr server-over)
