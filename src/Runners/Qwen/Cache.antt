-- ===== src/Runners/Qwen/Cache.antt =====
-- The key-value cache between ticks.
use nano_kube_llm_server.Prelude.{
  ℕ, suc, ◌-◌, ◌≡◌, ◌≢◌, refl, sym, ap, ap₂, ◌∙◌, ◌⊎◌, Bool, true, false, List, [], ◌∷◌, ◌++◌, map,
  Option, none, some, ℤ, length, length-append, replicate, append_assoc, arith, inl, inr,
}
use nano_kube_llm_server.Runners.Interface.{Extends, ForwardBatch, rows}
use nano_kube_llm_server.Batching.Sequences.{Sequence, seq_len, token_ids}
use nano_kube_llm_server.Runners.Qwen.{
  Backend, returned, Qwen, width, pad_row, padded, pad_id, last_column, feed, qwen_execute,
}
use nano_kube_llm_server.Runners.Qwen.Executed.{begun, executed}
use nano_kube_llm_server.Runners.Qwen.Padding.{last_column-append}

-- The columns of two matrices side by side.
unfoldable pub join : {A : Type 0} → List (List A) → List (List A) → List (List A)
join (r ∷ rs) (c ∷ cs) = (r ++ c) ∷ join rs cs
join _ _ = []

unfoldable pub beside :
    {A B : Type 0} → (B → List (List A)) → Option B → List (List A) → List (List A)
beside fed none new = new
beside fed (some old) new = join (fed old) new

-- What the model documents of its cache: it stands for the token ids fed so far, by row, and a forward
-- pass adds the columns that it is fed.
pub record CacheLaws (b : Backend) : Type 0 where
  pub fed : b.Cache → List (List ℕ)
  pub forward_lem :
      (ids : List (List ℕ)) (mask positions : List (List ℤ)) (old : Option b.Cache) (c : b.Cache)
      (logits : List (List b.Logits))
      → b.forward ids mask positions old ≡ returned (c, logits)
      → fed c ≡ beside fed old ids

pub seq_len-token_ids : (s : Sequence) → seq_len s ≡ length (token_ids s)
seq_len-token_ids s = sym (length-append s.prompt_ids s.output_ids)

seq_len_extended :
    (s t : Sequence) (token : ℕ)
    → token_ids t ≡ token_ids s ++ token ∷ []
    → seq_len t ≡ suc (seq_len s)
seq_len_extended s t token e = omega (
  arith,
  seq_len-token_ids s,
  seq_len-token_ids t,
  ap length e,
  length-append (token_ids s) (token ∷ []),
)

pub width-Extends : (ss ts : List Sequence) → Extends ss ts → ss ≢ [] → width ts ≡ suc (width ss)
unfolding width
width-Extends [] ts x e = absurd (e refl)
width-Extends (s ∷ ss) [] x e = absurd x
width-Extends (s ∷ []) (t ∷ []) x e = ground (arith, seq_len_extended s t x.0.0 x.0.1)
width-Extends (s ∷ []) (t ∷ u ∷ us) x e = absurd x.1
width-Extends (s ∷ r ∷ rs) (t ∷ []) x e = absurd x.1
width-Extends (s ∷ r ∷ rs) (t ∷ u ∷ us) x e =
    let ih = width-Extends (r ∷ rs) (u ∷ us) x.1 (λ f. cc) in
    ground (arith, seq_len_extended s t x.0.0 x.0.1, ih)

-- A row that is made of the tokens of a sequence for a width: one token more and a width of one more add
-- one element at its right end.
abbrev pub RowGrows : {A : Type 0} → (ℕ → List ℕ → List A) → Type 0
RowGrows {A} f =
    (w : ℕ) (toks : List ℕ) (token : ℕ)
    → (x : A) × (f (suc w) (toks ++ token ∷ []) ≡ f w toks ++ x ∷ [])

pub pad_row-RowGrows : (pad : ℕ) → RowGrows (pad_row pad)
unfolding pad_row
pad_row-RowGrows pad w toks token =
    let same : suc w - length (toks ++ token ∷ []) ≡ w - length toks =
      omega (arith, length-append toks (token ∷ [])) in
    (token, rw same (sym (append_assoc (replicate (w - length toks) pad) toks (token ∷ []))))

abbrev pub row_for : {A : Type 0} → (ℕ → List ℕ → List A) → ℕ → Sequence → List A
row_for f w s = f w (token_ids s)

module _ {A : Type 0} (f : ℕ → List ℕ → List A) (grows : RowGrows f) (w : ℕ) where
  -- The columns that the cache stands for and the last column are the whole row.
  row_joined :
      (toks : List ℕ) (token : ℕ)
      → f w toks ++ last_column (f (suc w) (toks ++ token ∷ [])) ≡ f (suc w) (toks ++ token ∷ [])
  unfolding last_column
  row_joined toks token =
      let (x, e) = grows w toks token in
      rw e (ap (◌++◌ (f w toks)) (last_column-append (f w toks) (x ∷ []) (λ g. cc)))

  pub join-Extends :
      (ss ts : List Sequence)
      → Extends ss ts
      → join (map (row_for f w) ss) (map last_column (map (row_for f (suc w)) ts))
        ≡ map (row_for f (suc w)) ts
  unfolding join
  join-Extends [] [] x = refl
  join-Extends [] (t ∷ ts) x = absurd x
  join-Extends (s ∷ ss) [] x = absurd x
  join-Extends (s ∷ ss) (t ∷ ts) ((token, e), x) =
      ap₂ ◌∷◌ (rw e (row_joined (token_ids s) token)) (join-Extends ss ts x)

module _ (b : Backend) (laws : CacheLaws b) where
  -- The cache stands for the whole padded batch.
  unfoldable pub Holds : Qwen b → List Sequence → Type 0
  Holds r seqs = (c : b.Cache) × (r.cache ≡ some c) × (laws.fed c ≡ padded b seqs)

  -- A decode step feeds one column, and the cache that it leaves stands for the whole padded batch.
  decode_whole :
      (r : Qwen b) (before seqs : List Sequence)
      → Holds r before
      → Extends before seqs
      → before ≢ []
      → beside laws.fed r.cache (feed b r.cache (padded b seqs)) ≡ padded b seqs
  unfolding Holds beside feed padded
  decode_whole r before seqs (c, at, whole) x some_before =
      rw (at, whole, width-Extends before seqs x some_before)
        (join-Extends (pad_row (pad_id b)) (pad_row-RowGrows (pad_id b)) (width before) before seqs
          x)

  begun_whole :
      (r : Qwen b) (is_prefill : Bool) (seqs : List Sequence)
      → (is_prefill ≡ true)
        ⊎ ((before : List Sequence) × Holds r before × Extends before seqs × (before ≢ []))
      → beside laws.fed
          (begun r is_prefill).cache
          (feed b (begun r is_prefill).cache (padded b seqs))
        ≡ padded b seqs
  unfolding beside feed
  begun_whole r true seqs mode = refl
  begun_whole r false seqs (inl e) = cc
  begun_whole r false seqs (inr (before, held, x, some_before)) =
      decode_whole r before seqs held x some_before

  -- After a tick that returns tokens the cache stands for the whole padded batch: a prefill has fed all
  -- of it, and a decode step, on a batch whose sequences each have one more token than those that the
  -- cache stood for, has fed the last column. So a decode step leaves what a prefill would.
  pub execute-Holds :
      (r : Qwen b) (batch : ForwardBatch) (tokens : List (Option ℕ))
      → (batch.is_prefill ≡ true)
        ⊎ ((before : List Sequence) × Holds r before × Extends before batch.seqs × (before ≢ []))
      → (qwen_execute b r batch).0 ≡ rows tokens
      → Holds (qwen_execute b r batch).1 batch.seqs
  unfolding Holds
  execute-Holds r batch tokens mode ok =
      let x = executed b r batch tokens ok in
      (
        x.cache,
        x.kept,
        laws.forward_lem _ _ _ (begun r batch.is_prefill).cache x.cache x.logits x.ran
            ∙ begun_whole r batch.is_prefill batch.seqs mode,
      )
