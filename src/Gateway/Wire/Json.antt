-- ===== src/Gateway/Wire/Json.antt =====
-- A reader of JSON: the strings of a text, as the UTF-16 code units that they stand for, and its other
-- characters.
use nano_kube_llm_server.Prelude.{
  ℕ, zero, suc, ◌+◌, ◌-◌, ◌*◌, ◌/◌, ◌%◌, ◌<◌, ◌≡◌, refl, ap, subst, ◌∙◌, inl, inr, Bool, true,
  false, ◌&&◌, leb, ltb, ◌==◌, if◌then◌else◌, List, [], ◌∷◌, ◌++◌, text_of, arith, Bool-cases,
  append_assoc, All, map, elem, str_ℕ, digits,
}
use nano_kube_llm_server.Runners.Interface.{Text}
use nano_kube_llm_server.Gateway.Wire.{hex_digit, unicode_escape, escape_char, escape, json_string}

-- A string, or a character outside of every string.
pub data Token : Type 0 where
  word : List ℕ → Token
  mark : ℕ → Token

-- Outside, in a string, after a backslash, or in \uXXXX with so many digits to come after the next one.
pub data Mode : Type 0 where
  outside within escaped : Mode
  hex : (more value : ℕ) → Mode

unfoldable pub hex_value : ℕ → ℕ
hex_value c = if ltb c 58 then c - 48 else if ltb c 71 then c - 55 else c - 87

-- What stands for a character after a backslash.
unfoldable pub short : ℕ → ℕ
short c =
    if c == 110
    then 10
    else if c == 114
    then 13
    else if c == 116
    then 9
    else if c == 98
    then 8
    else if c == 102
    then 12
    else c

unfoldable pub next : Mode → ℕ → Mode
unfolding hex_value
next outside c = if c == 34 then within else outside
next within c = if c == 34 then outside else if c == 92 then escaped else within
next escaped c = if c == 117 then hex 3 0 else within
next (hex zero value) c = within
next (hex (suc more) value) c = hex more (value * 16 + hex_value c)

-- The rest of the string where the reader stands, and the tokens after it.
unfoldable pub emits : Mode → ℕ → List ℕ × List Token → List ℕ × List Token
unfolding hex_value short
emits outside c (units, ts) =
    if c == 34 then ([], word units ∷ ts) else if c == 32 then ([], ts) else ([], mark c ∷ ts)
emits within c (units, ts) =
    if c == 34 then ([], ts) else if c == 92 then (units, ts) else (c ∷ units, ts)
emits escaped c (units, ts) = if c == 117 then (units, ts) else (short c ∷ units, ts)
emits (hex zero value) c (units, ts) = ((value * 16 + hex_value c) ∷ units, ts)
emits (hex (suc more) value) c p = p

unfoldable pub lex : Mode → Text → List ℕ × List Token
unfolding next emits
lex m [] = ([], [])
lex m (c ∷ cs) = let rest = lex (next m c) cs in emits m c rest

unfoldable pub tokens : Text → List Token
unfolding lex
tokens t = (lex outside t).1

-- The code units of a code point, and of a text.
unfoldable pub utf16_char : ℕ → List ℕ
utf16_char c =
    if ltb c 65536 then c ∷ [] else (55296 + (c - 65536) / 1024) ∷ (56320 + (c - 65536) % 1024) ∷ []

unfoldable pub utf16 : Text → List ℕ
unfolding utf16_char
utf16 [] = []
utf16 (c ∷ cs) = utf16_char c ++ utf16 cs

-- The code points of Python's texts.
abbrev pub IsUnicode : Text → Type 0
IsUnicode t = All (λ c. c < 1114112) t

abbrev Reads : ℕ → Text → Type 0
Reads c s =
    (rest : Text)
    → lex within (s ++ rest) ≡ (utf16_char c ++ (lex within rest).0, (lex within rest).1)

if-Reads :
    (c : ℕ) (b : Bool) (s t : Text)
    → ((b ≡ true) → Reads c s)
    → ((b ≡ false) → Reads c t)
    → Reads c (if b then s else t)
if-Reads c true s t so other = so refl
if-Reads c false s t so other = other refl

is_char : (c d : ℕ) (s : Text) → Reads d s → (c == d) ≡ true → Reads c s
is_char c d s reads e = let same : d ≡ c = ground arith in subst (λ k. Reads k s) same reads

hex_value-hex_digit : (n : ℕ) → n < 16 → hex_value (hex_digit n) ≡ n
unfolding hex_value hex_digit
hex_value-hex_digit n small = ground arith

unicode_escape-read :
    (n : ℕ) (rest : Text)
    → n < 65536
    → lex within (unicode_escape n ++ rest) ≡ (n ∷ (lex within rest).0, (lex within rest).1)
unfolding unicode_escape lex next emits
unicode_escape-read n rest small =
    let e : ((((0 * 16 + n / 4096 % 16) * 16 + n / 256 % 16) * 16 + n / 16 % 16) * 16 + n % 16)
        ≡ n =
      omega (arith, small) in
    rw
      (
        hex_value-hex_digit (n / 4096 % 16) (omega arith),
        hex_value-hex_digit (n / 256 % 16) (omega arith),
        hex_value-hex_digit (n / 16 % 16) (omega arith),
        hex_value-hex_digit (n % 16) (omega arith),
      )
      (ap (λ k. (k ∷ (lex within rest).0, (lex within rest).1)) e)

escape_char-Reads : (c : ℕ) → c < 1114112 → Reads c (escape_char c)
unfolding escape_char lex next emits utf16_char short
escape_char-Reads c valid =
    if-Reads c (c == 34) _ _ (is_char c 34 (text_of "\\\"") λ r. refl) λ quote.
      if-Reads c (c == 92) _ _ (is_char c 92 (text_of "\\\\") λ r. refl) λ backslash.
        if-Reads c (c == 10) _ _ (is_char c 10 (text_of "\\n") λ r. refl) λ _.
          if-Reads c (c == 13) _ _ (is_char c 13 (text_of "\\r") λ r. refl) λ _.
            if-Reads c (c == 9) _ _ (is_char c 9 (text_of "\\t") λ r. refl) λ _.
              if-Reads c (c == 8) _ _ (is_char c 8 (text_of "\\b") λ r. refl) λ _.
                if-Reads c (c == 12) _ _ (is_char c 12 (text_of "\\f") λ r. refl) λ _.
                  if-Reads c (leb 32 c && leb c 126) _ _
                    (λ plain r.
                      let small : ltb c 65536 ≡ true = ground arith in
                      rw (quote, backslash, small) refl)
                    λ _.
                      if-Reads c (ltb c 65536) _ _
                        (λ small r. rw small (unicode_escape-read c r (ground arith)))
                        λ large r.
                          let high = 55296 + (c - 65536) / 1024 in
                          let low = 56320 + (c - 65536) % 1024 in
                          rw large (
                            unicode_escape-read high (unicode_escape low ++ r)
                              (omega (arith, valid))
                            ∙ ap (λ p. (high ∷ p.0, p.1)) (unicode_escape-read low r (omega arith)))

escape-read :
    (t rest : Text)
    → IsUnicode t
    → lex within (escape t ++ 34 ∷ rest) ≡ (utf16 t, (lex outside rest).1)
unfolding escape utf16 lex next emits
escape-read [] rest valid = refl
escape-read (c ∷ cs) rest valid =
    ap (lex within) (append_assoc (escape_char c) (escape cs) (34 ∷ rest))
    ∙ escape_char-Reads c valid.0 (escape cs ++ 34 ∷ rest)
    ∙ ap (λ p. (utf16_char c ++ p.0, p.1)) (escape-read cs rest valid.1)

pub json_string-tokens :
    (t rest : Text) → IsUnicode t → tokens (json_string t ++ rest) ≡ word (utf16 t) ∷ tokens rest
unfolding json_string tokens lex next emits
json_string-tokens t rest valid =
    let split : json_string t ++ rest ≡ 34 ∷ (escape t ++ 34 ∷ rest) = simp append_assoc in
    ap tokens split ∙ ap (λ p. word p.0 ∷ p.1) (escape-read t rest valid)

append_without :
    (s t : Text) (c : ℕ) → elem c s ≡ false → elem c t ≡ false → elem c (s ++ t) ≡ false
unfolding elem
append_without [] t c e f = f
append_without (d ∷ s) t c e f = ground (arith, append_without s t c, f)

-- Digits, and other characters without quotes and spaces.
abbrev pub IsBare : Text → Type 0
IsBare t = (elem 34 t ≡ false) × (elem 32 t ≡ false)

mark_first :
    (c : ℕ) (cs : Text)
    → (c == 34) ≡ false
    → (c == 32) ≡ false
    → tokens (c ∷ cs) ≡ mark c ∷ tokens cs
unfolding tokens lex next emits
mark_first c cs quote space =
    let e : lex outside (c ∷ cs) ≡ ([], mark c ∷ (lex outside cs).1) = rw (quote, space) refl in
    ap (λ p. p.1) e

pub bare-tokens : (t rest : Text) → IsBare t → tokens (t ++ rest) ≡ map mark t ++ tokens rest
unfolding elem
bare-tokens [] rest bare = refl
bare-tokens (c ∷ cs) rest bare =
    let quote : (c == 34) ≡ false = ground (arith, bare.0) in
    let space : (c == 32) ≡ false = ground (arith, bare.1) in
    let others : IsBare cs = (ground (arith, bare.0), ground (arith, bare.1)) in
    mark_first c (cs ++ rest) quote space ∙ ap (λ ts. mark c ∷ ts) (bare-tokens cs rest others)

digits-IsBare : (steps n : ℕ) → IsBare (digits steps n)
unfolding digits elem
digits-IsBare zero n = (refl, refl)
digits-IsBare (suc steps) n = elim (Bool-cases (ltb n 10)) [
  | inl small ↦ rw small (ground arith, ground arith)
  | inr large ↦
      let front = digits-IsBare steps (n / 10) in
      rw large (
        append_without (digits steps (n / 10)) ((48 + n % 10) ∷ []) 34 front.0 (ground arith),
        append_without (digits steps (n / 10)) ((48 + n % 10) ∷ []) 32 front.1 (ground arith),
      )
]

pub str_ℕ-IsBare : (n : ℕ) → IsBare (str_ℕ n)
unfolding str_ℕ
str_ℕ-IsBare n = digits-IsBare (suc n) n
