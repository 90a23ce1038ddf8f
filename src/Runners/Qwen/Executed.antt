-- ===== src/Runners/Qwen/Executed.antt =====
-- What a tick of QwenRunner that returns tokens has done.
use nano_kube_llm_server.Prelude.{
  ℕ, length, length-map, ◌≡◌, refl, ap, ◌∙◌, List, map, Option, none, some, Bool, Bool-cases, inl,
  inr, is_empty, if◌then◌else◌,
}
use nano_kube_llm_server.Runners.Interface.{ForwardBatch, rows}
use nano_kube_llm_server.Batching.Sequences.{Sequence}
use nano_kube_llm_server.Runners.Qwen.{
  Backend, Attempt, returned, out_of_memory, failed, Qwen, positions, padded, masks, last_logits,
  sample, feed, outcome_of, sample_last, after_forward, execute_with, qwen_execute,
}
use nano_kube_llm_server.Runners.Qwen.Sampling.{
  attempts, token_of, any_out_of_memory, sample_lem, length-attempts,
}

-- A prefill drops the cache first.
abbrev pub begun : {b : Backend} → Qwen b → Bool → Qwen b
begun r is_prefill = if is_prefill then record r { cache = none } else r

module _ (b : Backend) where
  -- The forward pass on what is fed with the cache of `r`, and the rows that were sampled.
  pub record IsExecuted (r : Qwen b) (seqs : List Sequence) (tokens : List (Option ℕ)) (r' : Qwen b)
      : Type 0 where
    pub cache : b.Cache
    pub logits : List (List b.Logits)
    pub last : List b.Logits
    pub ran :
        b.forward
          (feed b r.cache (padded b seqs))
          (masks b seqs)
          (feed b r.cache (map (positions b) (masks b seqs)))
          r.cache
        ≡ returned (cache, logits)
    pub lasts : last_logits logits ≡ returned last
    pub picked : tokens ≡ map token_of (attempts b last seqs r.rng)
    pub kept : r'.cache ≡ some cache

  sample-tokens :
      (logits : List b.Logits) (seqs : List Sequence) (g : b.Rng) (tokens : List (Option ℕ))
      → outcome_of b (sample b logits seqs g).0 ≡ rows tokens
      → tokens ≡ map token_of (attempts b logits seqs g)
  unfolding outcome_of
  sample-tokens logits seqs g tokens e =
      let same = (sample_lem b logits seqs g).0 in
      elim (Bool-cases (any_out_of_memory (attempts b logits seqs g))) [
        | inl fatal ↦ let e' = rw (same, fatal) at e in cc
        | inr fine ↦ let e' = rw (same, fine) at e in cc
      ]

  module _ (r : Qwen b) (seqs : List Sequence) (tokens : List (Option ℕ)) where
    abbrev ForwardIs : Attempt (b.Cache × List (List b.Logits)) → Type 0
    ForwardIs a =
        b.forward (feed b r.cache (padded b seqs)) (masks b seqs)
          (feed b r.cache (map (positions b) (masks b seqs))) r.cache
        ≡ a

    sampled :
        (c : b.Cache) (logits : List (List b.Logits)) (last : Attempt (List b.Logits))
        → ForwardIs (returned (c, logits))
        → last_logits logits ≡ last
        → (sample_last b (record r { cache = some c }) seqs last).0 ≡ rows tokens
        → IsExecuted r seqs tokens (sample_last b (record r { cache = some c }) seqs last).1
    unfolding sample_last
    sampled c logits (returned last) ran lasts ok = record {
      cache = c;
      logits = logits;
      last = last;
      ran = ran;
      lasts = lasts;
      picked = sample-tokens last seqs r.rng tokens ok;
      kept = refl;
    }
    sampled c logits out_of_memory ran lasts ok = cc
    sampled c logits failed ran lasts ok = cc

    forwarded :
        (a : Attempt (b.Cache × List (List b.Logits)))
        → ForwardIs a
        → (after_forward b r seqs a).0 ≡ rows tokens
        → IsExecuted r seqs tokens (after_forward b r seqs a).1
    unfolding after_forward
    forwarded (returned (c, logits)) ran ok = sampled c logits (last_logits logits) ran refl ok
    forwarded out_of_memory ran ok = cc
    forwarded failed ran ok = cc

  pub executed :
      (r : Qwen b) (batch : ForwardBatch) (tokens : List (Option ℕ))
      → (qwen_execute b r batch).0 ≡ rows tokens
      → IsExecuted (begun r batch.is_prefill) batch.seqs tokens (qwen_execute b r batch).1
  unfolding qwen_execute execute_with
  executed r batch tokens ok = elim (Bool-cases (is_empty batch.seqs)) [
    | inl nothing ↦ let ok' = rw nothing at ok in cc
    | inr something ↦
        rw something
          (forwarded (begun r batch.is_prefill) batch.seqs tokens _ refl (rw something at ok))
  ]

  -- There is an entry for each row.
  pub qwen_execute-length :
      (r : Qwen b) (batch : ForwardBatch) (tokens : List (Option ℕ))
      → (qwen_execute b r batch).0 ≡ rows tokens
      → length tokens ≡ length batch.seqs
  qwen_execute-length r batch tokens ok =
      let x = executed r batch tokens ok in
      ap length x.picked
      ∙ length-map (attempts b x.last batch.seqs _) token_of
      ∙ length-attempts b x.last batch.seqs _
