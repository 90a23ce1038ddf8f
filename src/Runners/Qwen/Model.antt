-- ===== src/Runners/Qwen/Model.antt =====
-- QwenRunner and the model: the tokens that greedy requests get.

use nano_kube_llm_server.Prelude.{
  ℕ, zero, suc, ◌-◌, ◌≡◌, ◌≢◌, refl, sym, ap, subst, ◌∙◌, List, [], ◌∷◌, ◌++◌, map, Option, none,
  some, ℤ, pos, length, replicate, length-append, append_assoc, arith,
}
use nano_kube_llm_server.Batching.Sequences.{Sequence, token_ids}
use nano_kube_llm_server.Runners.Qwen.{
  ◌>>=◌, Backend, Attempt, returned, out_of_memory, failed, pad_row, mask_row, pad_id, masks,
  last_of, last_column, last_logits,
}
use nano_kube_llm_server.Runners.Qwen.Padding.{
  attended, count_up, attended-zeros, attended-ones, last_column-append,
}
use nano_kube_llm_server.Runners.Qwen.Cache.{join, beside, CacheLaws, RowGrows, row_for}

-- In a row whose marked positions count up from 0 and whose last column is marked, the logits of the last
-- column are those of the marked tokens alone.
abbrev pub RowMeans :
    (b : Backend) → (List ℕ → b.Logits) → List ℕ → List ℤ → List ℤ → List b.Logits → Type 0
RowMeans b alone row mask ps logits =
    attended mask ps ≡ count_up 0 (length (attended mask row))
    → last_column mask ≡ pos 1 ∷ []
    → last_of logits ≡ returned (alone (attended mask row))

abbrev pub EachRowMeans :
    (b : Backend)
    → (List ℕ → b.Logits)
    → List (List ℕ)
    → List (List ℤ)
    → List (List ℤ)
    → List (List b.Logits)
    → Type 0
EachRowMeans b alone (row ∷ ids) (mask ∷ masks) (ps ∷ pss) (l ∷ ls) =
    RowMeans b alone row mask ps l × EachRowMeans b alone ids masks pss ls
EachRowMeans b alone _ _ _ _ = Unit

-- What the model documents of its logits, with causal attention. The cache keeps the positions that the
-- tokens were fed with. Its columns stand under a mask: that of the first pass, or a mask that only adds
-- columns to the one that they stood under before. While the mask of a pass is such a mask, the last
-- logits of a row are those of its attended tokens at these positions, so padding and the other rows
-- have no part in them.
pub record ModelLaws (b : Backend) (laws : CacheLaws b) : Type 1 where
  pub placed : b.Cache → List (List ℤ)
  pub placed_lem :
      (ids : List (List ℕ)) (mask positions : List (List ℤ)) (old : Option b.Cache) (c : b.Cache)
      (logits : List (List b.Logits))
      → b.forward ids mask positions old ≡ returned (c, logits)
      → placed c ≡ beside placed old positions
  pub under : b.Cache → List (List ℤ) → Type 0
  pub fresh_lem :
      (ids : List (List ℕ)) (mask positions : List (List ℤ)) (c : b.Cache)
      (logits : List (List b.Logits))
      → b.forward ids mask positions none ≡ returned (c, logits)
      → under c mask
  pub grown_lem :
      (ids : List (List ℕ)) (mask positions : List (List ℤ)) (old c : b.Cache)
      (logits : List (List b.Logits)) (mask_before columns : List (List ℤ))
      → b.forward ids mask positions (some old) ≡ returned (c, logits)
      → under old mask_before
      → mask ≡ join mask_before columns
      → under c mask
  pub alone : List ℕ → b.Logits
  pub logits_lem :
      (ids : List (List ℕ)) (mask positions : List (List ℤ)) (old : Option b.Cache) (c : b.Cache)
      (logits : List (List b.Logits))
      → b.forward ids mask positions old ≡ returned (c, logits)
      → under c mask
      → EachRowMeans b alone (laws.fed c) mask (placed c) logits

-- The best token, where there is one.
abbrev pub token_or_zero : Attempt ℕ → ℕ
token_or_zero (returned token) = token
token_or_zero _ = 0

-- The positions of a row.
abbrev pub place_row : ℕ → List ℕ → List ℤ
place_row w toks = replicate (w - length toks) (pos 0) ++ count_up 0 (length toks)

count_up-snoc : (from n : ℕ) → (x : ℤ) × (count_up from (suc n) ≡ count_up from n ++ x ∷ [])
count_up-snoc from zero = (pos from, refl)
count_up-snoc from (suc n) = let (x, e) = count_up-snoc (suc from) n in (x, ap (◌∷◌ (pos from)) e)

pub place_row-RowGrows : RowGrows place_row
place_row-RowGrows w toks token =
    let n : length (toks ++ token ∷ []) ≡ suc (length toks) =
      omega (arith, length-append toks (token ∷ [])) in
    let (x, e) = count_up-snoc 0 (length toks) in
    let m : suc w - suc (length toks) ≡ w - length toks = omega arith in
    (
      x,
      rw (n, m, e)
          (sym (
            append_assoc (replicate (w - length toks) (pos 0)) (count_up 0 (length toks))
              (x ∷ []))),
    )

replicate-snoc : {A : Type 0} (n : ℕ) (x : A) → replicate (suc n) x ≡ replicate n x ++ x ∷ []
replicate-snoc zero x = refl
replicate-snoc (suc n) x = ap (◌∷◌ x) (replicate-snoc n x)

pub mask_row-RowGrows : RowGrows mask_row
unfolding mask_row
mask_row-RowGrows w toks token =
    let n : length (toks ++ token ∷ []) ≡ suc (length toks) =
      omega (arith, length-append toks (token ∷ [])) in
    let m : suc w - suc (length toks) ≡ w - length toks = omega arith in
    (
      pos 1,
      rw (n, m, replicate-snoc (length toks) (pos 1))
          (sym (
            append_assoc (replicate (w - length toks) (pos 0)) (replicate (length toks) (pos 1))
              (pos 1 ∷ []))),
    )

length-count_up : (from n : ℕ) → length (count_up from n) ≡ n
length-count_up from zero = refl
length-count_up from (suc n) = ap suc (length-count_up (suc from) n)

last_column-ones : (n : ℕ) → last_column (replicate (suc n) (pos 1)) ≡ pos 1 ∷ []
unfolding last_column
last_column-ones zero = refl
last_column-ones (suc n) = last_column-ones n

module _ (w : ℕ) (toks : List ℕ) where
  attended_tokens : (pad : ℕ) → attended (mask_row w toks) (pad_row pad w toks) ≡ toks
  unfolding mask_row pad_row
  attended_tokens pad = attended-zeros (w - length toks) pad _ toks ∙ attended-ones toks

  attended_places : attended (mask_row w toks) (place_row w toks) ≡ count_up 0 (length toks)
  unfolding mask_row
  attended_places =
      attended-zeros (w - length toks) (pos 0) _ (count_up 0 (length toks))
      ∙ ap (λ n. attended (replicate n (pos 1)) (count_up 0 (length toks)))
          (sym (length-count_up 0 (length toks)))
      ∙ attended-ones (count_up 0 (length toks))

  marked_last : toks ≢ [] → last_column (mask_row w toks) ≡ pos 1 ∷ []
  unfolding mask_row
  marked_last some_tokens = go toks some_tokens
    where
      go :
          (ts : List ℕ)
          → ts ≢ []
          → last_column (replicate (w - length toks) (pos 0) ++ replicate (length ts) (pos 1))
            ≡ pos 1 ∷ []
      go [] e = absurd (e refl)
      go (t ∷ ts) e =
          last_column-append (replicate (w - length toks) (pos 0)) _ (λ f. cc)
          ∙ last_column-ones (length ts)

bind_returned :
    {A B : Type 0} (a : Attempt A) (f : A → Attempt B) (y : B)
    → (a >>= f) ≡ returned y
    → (x : A) × (a ≡ returned x) × (f x ≡ returned y)
bind_returned (returned x) f y e = (x, refl, e)
bind_returned out_of_memory f y e = cc
bind_returned failed f y e = cc

module _ (b : Backend) (alone : List ℕ → b.Logits) where
  -- The logits of each sequence with a prompt are those of its tokens alone.
  abbrev pub LogitsOf : List Sequence → List b.Logits → Type 0
  LogitsOf (s ∷ ss) (l ∷ ls) = (s.prompt_ids ≢ [] → l ≡ alone (token_ids s)) × LogitsOf ss ls
  LogitsOf _ _ = Unit

  some_tokens : (s : Sequence) → s.prompt_ids ≢ [] → token_ids s ≢ []
  some_tokens s asked = go s.prompt_ids asked
    where
      go : (ps : List ℕ) → ps ≢ [] → ps ++ s.output_ids ≢ []
      go [] e = absurd (e refl)
      go (p ∷ ps) e = λ f. cc

  pub meant :
      (w : ℕ) (ss : List Sequence) (logits : List (List b.Logits)) (last : List b.Logits)
      → EachRowMeans b alone
          (map (row_for (pad_row (pad_id b)) w) ss)
          (map (row_for mask_row w) ss)
          (map (row_for place_row w) ss)
          logits
      → last_logits logits ≡ returned last
      → LogitsOf ss last
  unfolding last_logits
  meant w [] logits last m e = tt
  meant w (s ∷ ss) [] last m e = let f : [] ≡ last = cc in subst (LogitsOf (s ∷ ss)) f tt
  meant w (s ∷ ss) (l ∷ ls) last m e =
      let (x, at, e') = bind_returned (last_of l) _ last e in
      let (xs, at', e'') = bind_returned (last_logits ls) _ last e' in
      let f : x ∷ xs ≡ last = cc in
      let toks = attended_tokens w (token_ids s) (pad_id b) in
      subst (LogitsOf (s ∷ ss)) f (
        λ asked.
            let g =
              m.0 (attended_places w (token_ids s) ∙ ap (λ ts. count_up 0 (length ts)) (sym toks))
                (marked_last w (token_ids s) (some_tokens s asked)) in
            let same = sym at ∙ g in
            let h : x
                ≡ alone (attended (mask_row w (token_ids s)) (pad_row (pad_id b) w (token_ids s))) =
              cc in
            h ∙ ap alone toks,
        meant w ss ls xs m.1 at',
      )
