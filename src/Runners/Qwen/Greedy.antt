-- ===== src/Runners/Qwen/Greedy.antt =====
-- Greedy requests under QwenRunner in run_loop.
use nano_kube_llm_server.Prelude.{
  ℕ, ◌<◌, ◌≤◌, ◌≡◌, ◌≢◌, refl, sym, ap, ap₂, subst, ◌∙◌, ◌⊎◌, inl, inr, Bool, true, false, List, [],
  ◌∷◌, map, Option, some, ℤ, pos, pos_part, finite, le_float, length, All,
}
use nano_kube_llm_server.Runners.Interface.{ForwardBatch, rows, Extends}
use nano_kube_llm_server.Batching.Sequences.{Sequence, token_ids, stopped, length_limit}
use nano_kube_llm_server.Batching.Sequences.Heaps.{core}
use nano_kube_llm_server.Batching.RunLoop.{Event, run, start}
use nano_kube_llm_server.Batching.RunLoop.Caching.{IsCaching}
use nano_kube_llm_server.Batching.RunLoop.Requests.{Answers}
use nano_kube_llm_server.Batching.RunLoop.Traces.Solo.{Greedy, solo, run-start-solo}
use nano_kube_llm_server.Runners.Qwen.{
  Backend, Attempt, returned, out_of_memory, failed, Qwen, width, mask_row, positions, last_column,
  padded, masks, last_logits, sample_row, feed, qwen_execute, qwen_runner,
}
use nano_kube_llm_server.Runners.Qwen.Padding.{TorchLaws, positions-mask_row, width-bounds}
use nano_kube_llm_server.Runners.Qwen.Cache.{
  join, beside, CacheLaws, Holds, execute-Holds, row_for, join-Extends, width-Extends,
}
use nano_kube_llm_server.Runners.Qwen.Sampling.{attempts, token_of}
use nano_kube_llm_server.Runners.Qwen.Executed.{begun, executed, qwen_execute-length}
use nano_kube_llm_server.Runners.Qwen.Model.{
  EachRowMeans, ModelLaws, token_or_zero, place_row, place_row-RowGrows, mask_row-RowGrows,
  LogitsOf, meant,
}

module _ (b : Backend) (torch : TorchLaws b) (laws : CacheLaws b) (model : ModelLaws b laws) where
  open model use {placed, under, alone}

  -- The best next token after the given ones alone.
  abbrev pub best : List ℕ → ℕ
  best tokens = token_or_zero (b.argmax (alone tokens))

  read :
      (ss : List Sequence) (logits : List (List b.Logits)) (last : List b.Logits)
      → EachRowMeans b alone
          (padded b ss)
          (masks b ss)
          (map (row_for place_row (width ss)) ss)
          logits
      → last_logits logits ≡ returned last
      → LogitsOf b alone ss last
  unfolding padded masks
  read ss logits last m e = meant b alone (width ss) ss logits last m e

  Answers-cons :
      (s : Sequence) (ss : List Sequence) (a : Attempt ℕ) (ts : List (Option ℕ))
      → ((t : ℕ) → a ≡ returned t → Greedy best (core s) t)
      → Answers (Greedy best) ss ts
      → Answers (Greedy best) (s ∷ ss) (token_of a ∷ ts)
  unfolding token_of
  Answers-cons s ss (returned t) ts first rest = (first t refl, rest)
  Answers-cons s ss out_of_memory ts first rest = rest
  Answers-cons s ss failed ts first rest = rest

  sample_row-Greedy :
      (s : Sequence) (l : b.Logits) (g : b.Rng) (t : ℕ)
      → (s.prompt_ids ≢ [] → l ≡ alone (token_ids s))
      → (sample_row b s l g).0 ≡ returned t
      → Greedy best (core s) t
  unfolding sample_row
  sample_row-Greedy s l g t same e greedy asked =
      let e' : b.argmax l ≡ returned t = rw greedy at e in
      let f : b.argmax (alone (token_ids s)) ≡ returned t = ap b.argmax (sym (same asked)) ∙ e' in
      ap token_or_zero (sym f)

  no_logits : (ss : List Sequence) → LogitsOf b alone ss []
  no_logits [] = tt
  no_logits (s ∷ ss) = tt

  sampled-Answers :
      (ss : List Sequence) (last : List b.Logits) (g : b.Rng)
      → LogitsOf b alone ss last
      → Answers (Greedy best) ss (map token_of (attempts b last ss g))
  unfolding attempts
  sampled-Answers [] last g m = tt
  sampled-Answers (s ∷ ss) [] g m =
      Answers-cons s ss failed _ (λ t e. cc) (sampled-Answers ss [] g (no_logits ss))
  sampled-Answers (s ∷ ss) (l ∷ ls) g m =
      Answers-cons s ss (sample_row b s l g).0 _ (λ t e. sample_row-Greedy s l g t m.0 e)
        (sampled-Answers ss ls (sample_row b s l g).1 m.1)

  abbrev places : List Sequence → List (List ℤ)
  places seqs = map (row_for place_row (width seqs)) seqs

  positions-masks : (seqs : List Sequence) → map (positions b) (masks b seqs) ≡ places seqs
  unfolding masks
  positions-masks seqs = go seqs (width-bounds seqs)
    where
      go :
          (ss : List Sequence)
          → All (λ s. length (token_ids s) ≤ width seqs) ss
          → map (positions b) (map (row_for mask_row (width seqs)) ss)
            ≡ map (row_for place_row (width seqs)) ss
      go [] a = refl
      go (s ∷ ss) a =
          ap₂ ◌∷◌ (positions-mask_row b torch (width seqs) (token_ids s) a.0) (go ss a.1)

  -- The cache stands for the whole padded batch, at the positions that a prefill would give and under
  -- the mask that it would have.
  Modelled : Qwen b → List Sequence → Type 0
  Modelled r seqs =
      Holds b laws r seqs
      × ((c : b.Cache) × (r.cache ≡ some c) × (placed c ≡ places seqs) × under c (masks b seqs))

  places_fed :
      (r : Qwen b) (is_prefill : Bool) (seqs : List Sequence)
      → (is_prefill ≡ true)
        ⊎ ((before : List Sequence) × Modelled r before × Extends before seqs × (before ≢ []))
      → beside placed
          (begun r is_prefill).cache
          (feed b (begun r is_prefill).cache (map (positions b) (masks b seqs)))
        ≡ places seqs
  unfolding Modelled beside feed
  places_fed r true seqs mode = positions-masks seqs
  places_fed r false seqs (inl e) = cc
  places_fed r false seqs (inr (before, (held, (c, at, placed_before, _)), x, some_before)) =
      rw (at, positions-masks seqs, placed_before, width-Extends before seqs x some_before)
        (join-Extends place_row place_row-RowGrows (width before) before seqs x)

  -- One token more for each sequence: the mask adds a column.
  masks_grown :
      (before seqs : List Sequence)
      → Extends before seqs
      → before ≢ []
      → masks b seqs ≡ join (masks b before) (map last_column (masks b seqs))
  unfolding masks
  masks_grown before seqs x some_before =
      rw (width-Extends before seqs x some_before)
        (sym (join-Extends mask_row mask_row-RowGrows (width before) before seqs x))

  masked_now :
      (r : Qwen b) (is_prefill : Bool) (seqs : List Sequence) (ids : List (List ℕ))
      (places_now : List (List ℤ)) (c : b.Cache) (logits : List (List b.Logits))
      → (is_prefill ≡ true)
        ⊎ ((before : List Sequence) × Modelled r before × Extends before seqs × (before ≢ []))
      → b.forward ids (masks b seqs) places_now (begun r is_prefill).cache ≡ returned (c, logits)
      → under c (masks b seqs)
  unfolding Modelled
  masked_now r true seqs ids ps c logits mode ran = model.fresh_lem ids _ ps c logits ran
  masked_now r false seqs ids ps c logits (inl e) ran = cc
  masked_now r false seqs ids ps c logits (inr (before, (held, old), x, some_before)) ran =
      let (cache, at, _, masked) = old in
      model.grown_lem ids (masks b seqs) ps cache c logits (masks b before)
        (map last_column (masks b seqs)) (rw at at ran) masked
        (masks_grown before seqs x some_before)

  execute-Modelled :
      (r : Qwen b) (batch : ForwardBatch) (tokens : List (Option ℕ))
      → (batch.is_prefill ≡ true)
        ⊎ ((before : List Sequence) × Modelled r before × Extends before batch.seqs × (before ≢ []))
      → (qwen_execute b r batch).0 ≡ rows tokens
      → Modelled (qwen_execute b r batch).1 batch.seqs
        × Answers (Greedy best) batch.seqs tokens
        × (length tokens ≡ length batch.seqs)
  unfolding Modelled Holds
  execute-Modelled r batch tokens mode ok =
      let x = executed b r batch tokens ok in
      let (c, at, whole) = execute-Holds b laws r batch tokens (held mode) ok in
      let same : x.cache ≡ c = let e = sym x.kept ∙ at in cc in
      let placed_now =
        model.placed_lem _ _ _ (begun r batch.is_prefill).cache x.cache x.logits x.ran
        ∙ places_fed r batch.is_prefill batch.seqs mode in
      let masked = masked_now r batch.is_prefill batch.seqs _ _ x.cache x.logits mode x.ran in
      let means =
        model.logits_lem _ _ _ (begun r batch.is_prefill).cache x.cache x.logits x.ran masked in
      let rows_mean =
        subst (λ ids. EachRowMeans b alone ids (masks b batch.seqs) (places batch.seqs) x.logits)
          (ap laws.fed same ∙ whole)
          (subst (λ ps. EachRowMeans b alone (laws.fed x.cache) (masks b batch.seqs) ps x.logits)
            placed_now means) in
      (
        ((c, at, whole), (x.cache, x.kept, placed_now, masked)),
        subst (Answers (Greedy best) batch.seqs) (sym x.picked) (
            sampled-Answers batch.seqs x.last _
              (read batch.seqs x.logits x.last rows_mean x.lasts)),
        qwen_execute-length b r batch tokens ok,
      )
    where
      held :
          (batch.is_prefill ≡ true)
            ⊎ ((before : List Sequence) × Modelled r before
                × Extends before batch.seqs
                × (before ≢ []))
          → (batch.is_prefill ≡ true)
            ⊎ ((before : List Sequence) × Holds b laws r before
                × Extends before batch.seqs
                × (before ≢ []))
      held (inl e) = inl e
      held (inr (before, m, x, some_before)) = inr (before, m.0, x, some_before)

  pub modelled_caching : IsCaching (qwen_runner b)
  modelled_caching = record {
    Kept = Modelled;
    Answered = Answers (Greedy best);
    execute_keeps = execute-Modelled;
  }

  -- For a model whose logits for a row are those of its attended tokens alone as long as the mask only adds
  -- columns from pass to pass: from the start of the loop over QwenRunner, after any events, a greedy
  -- request with a prompt that ended with "stop" or "length" has the very output that greedy decoding of
  -- its prompt alone gives.
  pub run-start-best :
      (runner : Qwen b) (max_batch_size max_batch_tokens : ℤ) (es : List Event) (i : ℕ)
      → i < (run (qwen_runner b) (start runner max_batch_size max_batch_tokens) es).next_id
      → let s = (run (qwen_runner b) (start runner max_batch_size max_batch_tokens) es).heap i in
        le_float s.temperature (finite (pos 0) 0) ≡ true
        → s.prompt_ids ≢ []
        → (s.finish_reason ≡ stopped) ⊎ (s.finish_reason ≡ length_limit)
        → s.output_ids ≡ solo best s.eos_token_ids (pos_part s.max_new_tokens) s.prompt_ids
  unfolding modelled_caching
  run-start-best = run-start-solo (qwen_runner b) modelled_caching best (λ seqs tokens a. a)
