-- ===== src/Runners/Qwen/Padding.antt =====
-- The rectangular batch of `_pad_and_stack`: left padding, the mask, and the positions.
use nano_kube_llm_server.Prelude.{
  ℕ, zero, suc, ◌-◌, ◌≤◌, ◌≡◌, refl, ap, ap₂, ◌≢◌, ◌∙◌, List, [], ◌∷◌, ◌++◌, map, ℤ, pos, ◌+ℤ◌,
  ◌-ℤ◌, ltb_ℤ, length, length-append, length-replicate, replicate, All, All-map, arith,
  if◌then◌else◌,
}
use mathlib.Core.List.{map-append}
use nano_kube_llm_server.Batching.Sequences.{Sequence, token_ids}
use nano_kube_llm_server.Runners.Qwen.{
  Backend, width, pad_row, mask_row, positions, last_column, pad_id, padded, masks,
}

-- The sums of the prefixes of a row, from `acc` on.
unfoldable pub partial_sums : ℤ → List ℤ → List ℤ
partial_sums acc [] = []
partial_sums acc (x ∷ xs) = let s = acc +ℤ x in s ∷ partial_sums s xs

-- What the library documents of its operations on a row.
pub record TorchLaws (b : Backend) : Type 0 where
  pub cumsum_lem : (xs : List ℤ) → b.cumsum xs ≡ partial_sums (pos 0) xs
  pub minus_lem : (xs : List ℤ) (k : ℤ) → b.minus xs k ≡ map (λ x. x -ℤ k) xs
  pub clamp_min_lem :
      (xs : List ℤ) (k : ℤ) → b.clamp_min xs k ≡ map (λ x. if ltb_ℤ x k then k else x) xs

-- from, from + 1, ..., n numbers.
abbrev pub count_up : ℕ → ℕ → List ℤ
count_up from zero = []
count_up from (suc n) = pos from ∷ count_up (suc from) n

partial_sums-zeros :
    (n : ℕ) (rest : List ℤ)
    → partial_sums (pos 0) (replicate n (pos 0) ++ rest)
      ≡ replicate n (pos 0) ++ partial_sums (pos 0) rest
unfolding partial_sums ◌+ℤ◌
partial_sums-zeros zero rest = refl
partial_sums-zeros (suc n) rest = ap (◌∷◌ (pos 0)) (partial_sums-zeros n rest)

next_pos : (n : ℕ) → pos n +ℤ pos 1 ≡ pos (suc n)
unfolding ◌+ℤ◌
next_pos n = ground arith

partial_sums-ones :
    (from n : ℕ) → partial_sums (pos from) (replicate n (pos 1)) ≡ count_up (suc from) n
unfolding partial_sums ◌+ℤ◌
partial_sums-ones from zero = refl
partial_sums-ones from (suc n) =
    rw (next_pos from) (ap (◌∷◌ (pos (suc from))) (partial_sums-ones (suc from) n))

abbrev minus_one : ℤ → ℤ
minus_one x = x -ℤ pos 1

abbrev at_least_zero : ℤ → ℤ
at_least_zero x = if ltb_ℤ x (pos 0) then pos 0 else x

abbrev shifted : ℤ → ℤ
shifted x = at_least_zero (minus_one x)

map-shifted : (xs : List ℤ) → map at_least_zero (map minus_one xs) ≡ map shifted xs
map-shifted [] = refl
map-shifted (x ∷ xs) = ap (◌∷◌ (shifted x)) (map-shifted xs)

map-shifted_zeros : (n : ℕ) → map shifted (replicate n (pos 0)) ≡ replicate n (pos 0)
unfolding ◌-ℤ◌
map-shifted_zeros zero = refl
map-shifted_zeros (suc n) = ap (◌∷◌ (pos 0)) (map-shifted_zeros n)

shifted-suc : (n : ℕ) → shifted (pos (suc n)) ≡ pos n
unfolding ◌-ℤ◌
shifted-suc n = ground arith

map-shifted_count : (from n : ℕ) → map shifted (count_up (suc from) n) ≡ count_up from n
map-shifted_count from zero = refl
map-shifted_count from (suc n) = ap₂ ◌∷◌ (shifted-suc from) (map-shifted_count (suc from) n)

-- The entries of a row that its mask marks.
unfoldable pub attended {ℓ} : {A : Type ℓ} → List ℤ → List A → List A
attended (m ∷ ms) (t ∷ ts) = let rest = attended ms ts in if ltb_ℤ (pos 0) m then t ∷ rest else rest
attended _ _ = []

pub attended-zeros :
    {A : Type 0} (n : ℕ) (pad : A) (ms : List ℤ) (ts : List A)
    → attended (replicate n (pos 0) ++ ms) (replicate n pad ++ ts) ≡ attended ms ts
unfolding attended
attended-zeros zero pad ms ts = refl
attended-zeros (suc n) pad ms ts = attended-zeros n pad ms ts

pub attended-ones : {A : Type 0} (ts : List A) → attended (replicate (length ts) (pos 1)) ts ≡ ts
unfolding attended
attended-ones [] = refl
attended-ones (t ∷ ts) = ap (◌∷◌ t) (attended-ones ts)

pub last_column-append :
    {A : Type 0} (xs ys : List A) → ys ≢ [] → last_column (xs ++ ys) ≡ last_column ys
unfolding last_column
last_column-append [] ys e = refl
last_column-append (x ∷ []) [] e = absurd (e refl)
last_column-append (x ∷ []) (y ∷ ys) e = refl
last_column-append (x ∷ z ∷ xs) ys e = last_column-append (z ∷ xs) ys e

-- A row of the batch: as wide as the widest sequence, with the tokens at its right end. The mask marks
-- the tokens and nothing else, the positions of the tokens count up from 0 whatever the padding, and
-- the last column holds the newest token.
pub record IsStacked (b : Backend) (w : ℕ) (toks : List ℕ) (row : List ℕ) (mask : List ℤ)
    : Type 0 where
  pub row_width : length row ≡ w
  pub mask_width : length mask ≡ w
  pub at_right : (left : List ℕ) × (row ≡ left ++ toks)
  pub mask_at_right : mask ≡ replicate (w - length toks) (pos 0) ++ replicate (length toks) (pos 1)
  pub marked : attended mask row ≡ toks
  pub placed : positions b mask ≡ replicate (w - length toks) (pos 0) ++ count_up 0 (length toks)
  pub newest : toks ≢ [] → last_column row ≡ last_column toks

module _ (b : Backend) (laws : TorchLaws b) (w : ℕ) (toks : List ℕ) (room : length toks ≤ w) where
  pub positions-mask_row :
      positions b (mask_row w toks)
      ≡ replicate (w - length toks) (pos 0) ++ count_up 0 (length toks)
  unfolding positions mask_row
  positions-mask_row =
      let pad = w - length toks in
      let n = length toks in
      let mask = replicate pad (pos 0) ++ replicate n (pos 1) in
      let sums =
        partial_sums-zeros pad (replicate n (pos 1))
        ∙ ap (λ q. replicate pad (pos 0) ++ q) (partial_sums-ones 0 n) in
      laws.clamp_min_lem (b.minus (b.cumsum mask) (pos 1)) (pos 0)
      ∙ ap (map at_least_zero) (
          laws.minus_lem (b.cumsum mask) (pos 1) ∙ ap (map minus_one) (laws.cumsum_lem mask ∙ sums))
      ∙ map-shifted (replicate pad (pos 0) ++ count_up 1 n)
      ∙ map-append shifted (replicate pad (pos 0)) (count_up 1 n)
      ∙ ap₂ ◌++◌ (map-shifted_zeros pad) (map-shifted_count 0 n)

  pad_row-IsStacked : IsStacked b w toks (pad_row (pad_id b) w toks) (mask_row w toks)
  unfolding pad_row mask_row
  pad_row-IsStacked = record {
    row_width = omega (
      arith,
      length-append (replicate (w - length toks) (pad_id b)) toks,
      length-replicate (w - length toks) (pad_id b),
    );
    mask_width = omega (
      arith,
      length-append (replicate (w - length toks) (pos 0)) (replicate (length toks) (pos 1)),
      length-replicate (w - length toks) (pos 0),
      length-replicate (length toks) (pos 1),
    );
    at_right = (replicate (w - length toks) (pad_id b), refl);
    mask_at_right = refl;
    marked = attended-zeros (w - length toks) (pad_id b) _ toks ∙ attended-ones toks;
    placed = positions-mask_row;
    newest = last_column-append (replicate (w - length toks) (pad_id b)) toks;
  }

pub width-bounds : (seqs : List Sequence) → All (λ s. length (token_ids s) ≤ width seqs) seqs
unfolding width
width-bounds [] = tt
width-bounds (s ∷ ss) = (
  ground (arith, length-append s.prompt_ids s.output_ids),
  All-map ss (λ t k. ground arith) (width-bounds ss),
)

-- Each row of a batch, as `_pad_and_stack` builds it.
abbrev pub AllStacked : Backend → ℕ → List Sequence → List (List ℕ) → List (List ℤ) → Type 0
AllStacked b w [] [] [] = Unit
AllStacked b w (s ∷ ss) (row ∷ rows) (mask ∷ masks) =
    IsStacked b w (token_ids s) row mask × AllStacked b w ss rows masks
AllStacked b w _ _ _ = ⊥

module _ (b : Backend) (laws : TorchLaws b) where
  rows-AllStacked :
      (w : ℕ) (seqs : List Sequence)
      → All (λ s. length (token_ids s) ≤ w) seqs
      → AllStacked b w seqs
          (map (λ s. pad_row (pad_id b) w (token_ids s)) seqs)
          (map (λ s. mask_row w (token_ids s)) seqs)
  rows-AllStacked w [] room = tt
  rows-AllStacked w (s ∷ ss) room =
      (pad_row-IsStacked b laws w (token_ids s) room.0, rows-AllStacked w ss room.1)

  -- With the documented operations on a row of a tensor, every row that is built for a batch is as wide
  -- as the widest sequence and has its tokens at its right end; the mask marks the tokens and nothing
  -- else; the positions of the tokens count up from 0; and the last column holds the newest token.
  pub padded-AllStacked :
      (seqs : List Sequence) → AllStacked b (width seqs) seqs (padded b seqs) (masks b seqs)
  unfolding padded masks
  padded-AllStacked seqs = rows-AllStacked (width seqs) seqs (width-bounds seqs)
