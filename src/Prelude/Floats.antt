-- ===== src/Prelude/Floats.antt =====
-- Python's floats, exactly: a finite float is an integer over a power of two. The code only compares
-- the floats that reach it, so no arithmetic is modelled.
use Prim.Native.Nat.{ℕ, suc, pred, ◌*◌, ◌^◌}
use mathlib.Core.Bool.{Bool, true, false}
use nano_kube_llm_server.Prelude.Int.{ℤ, pos, negsuc, ltb_ℤ, leb_ℤ}

pub data Float : Type 0 where
  -- `finite n k` is n / 2 ^ k.
  finite : ℤ → ℕ → Float
  infinity negative_infinity nan : Float

-- n * 2 ^ k.
abbrev scale_up : ℤ → ℕ → ℤ
scale_up (pos n) k = pos (n * 2 ^ k)
scale_up (negsuc n) k = negsuc (pred (suc n * 2 ^ k))

-- `a < b`, which is false where either side is NaN.
unfoldable pub lt_float : Float → Float → Bool
lt_float (finite n k) (finite m j) = ltb_ℤ (scale_up n j) (scale_up m k)
lt_float (finite n k) infinity = true
lt_float negative_infinity (finite m j) = true
lt_float negative_infinity infinity = true
lt_float _ _ = false

-- `a <= b`, which is false where either side is NaN.
unfoldable pub le_float : Float → Float → Bool
le_float (finite n k) (finite m j) = leb_ℤ (scale_up n j) (scale_up m k)
le_float (finite n k) infinity = true
le_float infinity infinity = true
le_float negative_infinity (finite m j) = true
le_float negative_infinity infinity = true
le_float negative_infinity negative_infinity = true
le_float _ _ = false
