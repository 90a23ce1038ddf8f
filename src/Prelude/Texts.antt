-- ===== src/Prelude/Texts.antt =====
-- Texts as lists of code points, and decimal numbers in them.
use Prim.Native.Char.{code}
use Prim.Native.Nat.{ℕ, zero, suc, ◌+◌, ◌-◌, ◌*◌, ◌/◌, ◌%◌, ◌<◌}
use Prim.Native.String.{String}
use mathlib.Core.Path.{◌≡◌, refl, ◌∙◌}
use mathlib.Core.Logic.{inl, inr}
use mathlib.Core.Bool.{Bool, true, false, ◌&&◌}
use mathlib.Core.List.{List, [], ◌∷◌, ◌++◌}
use native.Mathlib.Omega.{arith}
use nano_kube_llm_server.Prelude.Tests.{◌==◌, ltb, if◌then◌else◌, Bool-cases}
use nano_kube_llm_server.Prelude.Lists.{elem}

-- The code points of a literal.
abbrev pub text_of : String → List ℕ
text_of String.[] = []
text_of (String.◌∷◌ c s) = code c ∷ text_of s

-- `str.startswith`.
unfoldable pub starts_with : List ℕ → List ℕ → Bool
starts_with text [] = true
starts_with [] (c ∷ cs) = false
starts_with (d ∷ ds) (c ∷ cs) = d == c && starts_with ds cs

-- `str(n)`: one digit for each step, of which `n + 1` are enough.
unfoldable pub digits : ℕ → ℕ → List ℕ
digits zero n = []
digits (suc steps) n =
    let front = digits steps (n / 10) in
    if ltb n 10 then (48 + n) ∷ [] else front ++ (48 + n % 10) ∷ []

unfoldable pub str_ℕ : ℕ → List ℕ
unfolding digits
str_ℕ n = digits (suc n) n

-- The number after the last space.
unfoldable pub last_number : ℕ → List ℕ → ℕ
last_number acc [] = acc
last_number acc (c ∷ cs) =
    let next = last_number (acc * 10 + (c - 48)) cs in if c == 32 then last_number 0 cs else next

pub last_number-append :
    (acc : ℕ) (xs ys : List ℕ) → last_number acc (xs ++ ys) ≡ last_number (last_number acc xs) ys
unfolding last_number
last_number-append acc [] ys = refl
last_number-append acc (x ∷ xs) ys = elim (Bool-cases (x == 32)) [
  | inl e ↦ rw e (last_number-append 0 xs ys)
  | inr e ↦ rw e (last_number-append (acc * 10 + (x - 48)) xs ys)
]

last_number-digit : (acc d : ℕ) → last_number acc ((48 + d) ∷ []) ≡ acc * 10 + d
unfolding last_number
last_number-digit acc d = ground arith

last_number-digits : (steps n : ℕ) → n < steps → last_number 0 (digits steps n) ≡ n
unfolding digits
last_number-digits zero n k = omega arith
last_number-digits (suc steps) n k = elim (Bool-cases (ltb n 10)) [
  | inl small ↦ rw small (omega (arith, last_number-digit 0 n))
  | inr large ↦
      let m : 10 < n + 1 = ground arith in
      let ih = last_number-digits steps (n / 10) (omega (arith, m)) in
      rw large (
        last_number-append 0 (digits steps (n / 10)) ((48 + n % 10) ∷ [])
        ∙ last_number-digit (last_number 0 (digits steps (n / 10))) (n % 10)
        ∙ omega (arith, ih))
]

-- What is printed is read back.
pub last_number-str_ℕ : (n : ℕ) → last_number 0 (str_ℕ n) ≡ n
unfolding str_ℕ
last_number-str_ℕ n = last_number-digits (suc n) n (omega arith)

-- A text without a line break.
abbrev pub IsLine : List ℕ → Type 0
IsLine t = elem 10 t ≡ false

pub append-IsLine : (s t : List ℕ) → IsLine s → IsLine t → IsLine (s ++ t)
unfolding elem
append-IsLine [] t e f = f
append-IsLine (c ∷ s) t e f = ground (arith, append-IsLine s t, f)

digits-IsLine : (steps n : ℕ) → IsLine (digits steps n)
unfolding digits elem
digits-IsLine zero n = refl
digits-IsLine (suc steps) n = elim (Bool-cases (ltb n 10)) [
  | inl small ↦ rw small (ground arith)
  | inr large ↦ rw large (
      append-IsLine (digits steps (n / 10)) ((48 + n % 10) ∷ []) (digits-IsLine steps (n / 10))
        (ground arith))
]

pub str_ℕ-IsLine : (n : ℕ) → IsLine (str_ℕ n)
unfolding str_ℕ
str_ℕ-IsLine n = digits-IsLine (suc n) n
