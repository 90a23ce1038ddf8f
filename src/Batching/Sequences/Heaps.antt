-- ===== src/Batching/Sequences/Heaps.antt =====
-- Writes through one reference, and what they leave alone.
use nano_kube_llm_server.Prelude.{
  ℕ, ℤ, Float, ◌≡◌, refl, ◌==◌, false, List, [], ◌∷◌, ◌++◌, Option, elem, All, arith, Bool-cases,
  append_assoc, append-nil, inl, inr, sym, subst, IsDistinct, ◌||◌,
}
use nano_kube_llm_server.Batching.Sequences.{
  Finish, unset, stopped, length_limit, cancelled, error, is_set, deliver, put_posted, Sequence,
  Heap, SameOutside, update, emit, stream,
}

pub update_self : (h : Heap) (i : ℕ) (s : Sequence) → update h i s i ≡ s
unfolding update
update_self h i s = ground arith

pub update_other : (h : Heap) (i j : ℕ) (s : Sequence) → (i == j) ≡ false → update h i s j ≡ h j
unfolding update
update_other h i j s e = ground arith

pub elem-cons_false :
    (j i : ℕ) (is : List ℕ) → elem j (i ∷ is) ≡ false → ((i == j) ≡ false) × (elem j is ≡ false)
unfolding elem
elem-cons_false j i is e = (ground arith, ground arith)

pub elem-append : (j : ℕ) (xs ys : List ℕ) → elem j (xs ++ ys) ≡ (elem j xs || elem j ys)
unfolding elem
elem-append j [] ys = refl
elem-append j (x ∷ xs) ys = rw (elem-append j xs ys) (ground arith)

pub update-SameOutside : (h : Heap) (i : ℕ) (s : Sequence) → SameOutside (i ∷ []) h (update h i s)
update-SameOutside h i s j e = update_other h i j s (elem-cons_false j i [] e).0

-- A predicate on references and what they hold outlives writes to other references.
pub All-SameOutside :
    (P : ℕ → Sequence → Type 0) {h h' : Heap} (is js : List ℕ)
    → SameOutside is h h'
    → All (λ j. elem j is ≡ false) js
    → All (λ j. P j (h j)) js
    → All (λ j. P j (h' j)) js
All-SameOutside P is [] same apart all = tt
All-SameOutside P is (j ∷ js) same apart all =
    (subst (P j) (sym (same j apart.0)) all.0, All-SameOutside P is js same apart.1 all.1)

abbrev pub IsApart : List ℕ → List ℕ → Type 0
IsApart xs ys = All (λ j. elem j ys ≡ false) xs

IsApart-nil : (ys : List ℕ) → IsApart ys []
unfolding elem
IsApart-nil [] = tt
IsApart-nil (y ∷ ys) = (refl, IsApart-nil ys)

IsApart-cons_right :
    (x : ℕ) (xs ys : List ℕ) → elem x ys ≡ false → IsApart ys xs → IsApart ys (x ∷ xs)
unfolding elem
IsApart-cons_right x xs [] e a = tt
IsApart-cons_right x xs (y ∷ ys) e a =
    (ground arith, IsApart-cons_right x xs ys (elem-cons_false x y ys e).1 a.1)

pub IsApart-symm : (xs ys : List ℕ) → IsApart xs ys → IsApart ys xs
IsApart-symm [] ys a = IsApart-nil ys
IsApart-symm (x ∷ xs) ys a = IsApart-cons_right x xs ys a.0 (IsApart-symm xs ys a.1)

-- A list without repetition has halves without repetition that are apart, and conversely.
pub record Halves (xs ys : List ℕ) : Type 0 where
  pub left : IsDistinct xs
  pub right : IsDistinct ys
  pub apart : IsApart xs ys

pub IsDistinct→Halves : (xs ys : List ℕ) → IsDistinct (xs ++ ys) → Halves xs ys
IsDistinct→Halves [] ys d = record { left = tt; right = d; apart = tt }
IsDistinct→Halves (x ∷ xs) ys d =
    let r = IsDistinct→Halves xs ys d.1 in
    record {
      left = (ground (arith, elem-append x xs ys), r.left);
      right = r.right;
      apart = (ground (arith, elem-append x xs ys), r.apart);
    }

pub Halves→IsDistinct : (xs ys : List ℕ) → Halves xs ys → IsDistinct (xs ++ ys)
Halves→IsDistinct [] ys r = r.right
Halves→IsDistinct (x ∷ xs) ys r = (
  rw (elem-append x xs ys, r.left.0) r.apart.0,
  Halves→IsDistinct xs ys (record { left = r.left.1; right = r.right; apart = r.apart.1 }),
)

-- A sequence that was not created on a loop has nothing posted.
abbrev pub IsDirect : Sequence → Type 0
IsDirect s = s.on_loop ≡ false → s.posted ≡ []

-- The attributes other than the output channel.
pub record SameBut (s s' : Sequence) : Type 0 where
  pub prompt_ids : s'.prompt_ids ≡ s.prompt_ids
  pub max_new_tokens : s'.max_new_tokens ≡ s.max_new_tokens
  pub eos_token_ids : s'.eos_token_ids ≡ s.eos_token_ids
  pub id : s'.id ≡ s.id
  pub on_loop : s'.on_loop ≡ s.on_loop

pub record Emitted (s : Sequence) (token : Option ℕ) (s' : Sequence) : Type 0 where
  pub same : SameBut s s'
  pub output_ids : s'.output_ids ≡ s.output_ids
  pub finish_reason : s'.finish_reason ≡ s.finish_reason
  pub channel : stream s' ≡ stream s ++ token ∷ []
  pub direct : IsDirect s'

stream-emit :
    (s : Sequence) (token : Option ℕ) → IsDirect s → stream (emit s token) ≡ stream s ++ token ∷ []
unfolding emit
stream-emit s token direct = elim (Bool-cases s.on_loop) [
  | inl e ↦ rw e (sym (append_assoc s.queue s.posted (token ∷ [])))
  | inr e ↦ rw (e, direct e, append-nil s.queue) (append-nil (s.queue ++ token ∷ []))
]

pub emit-Emitted : (s : Sequence) (token : Option ℕ) → IsDirect s → Emitted s token (emit s token)
unfolding emit
emit-Emitted s token direct = record {
  same = ground arith;
  output_ids = ground arith;
  finish_reason = ground arith;
  channel = stream-emit s token direct;
  direct = λ e. ground (arith, direct);
}

-- What a runner reads of a sequence, and when it is to stop: all but the id, the reason and the channel.
pub record Core : Type 0 where
  pub prompt_ids : List ℕ
  pub output_ids : List ℕ
  pub max_new_tokens : ℤ
  pub temperature : Float
  pub top_k : Option ℤ
  pub eos_token_ids : List ℕ

abbrev pub core : Sequence → Core
core s = record {
  prompt_ids = s.prompt_ids;
  output_ids = s.output_ids;
  max_new_tokens = s.max_new_tokens;
  temperature = s.temperature;
  top_k = s.top_k;
  eos_token_ids = s.eos_token_ids;
}

abbrev pub core_tokens : Core → List ℕ
core_tokens c = c.prompt_ids ++ c.output_ids

abbrev pub with_token : Core → ℕ → Core
with_token c token = record c { output_ids = c.output_ids ++ token ∷ [] }

pub emit-core : (s : Sequence) (token : Option ℕ) → core (emit s token) ≡ core s
unfolding emit
emit-core s token = elim (Bool-cases s.on_loop) [ inl e ↦ rw e refl | inr e ↦ rw e refl ]

pub emit-finish_reason :
    (s : Sequence) (token : Option ℕ) → (emit s token).finish_reason ≡ s.finish_reason
unfolding emit
emit-finish_reason s token = ground arith

put_posted-core :
    (q : List (Option ℕ)) (s : Sequence)
    → (core (put_posted q s) ≡ core s) × ((put_posted q s).finish_reason ≡ s.finish_reason)
unfolding put_posted
put_posted-core [] s = (refl, refl)
put_posted-core (token ∷ rest) s = (refl, refl)

pub deliver-core :
    (s : Sequence) → (core (deliver s) ≡ core s) × ((deliver s).finish_reason ≡ s.finish_reason)
unfolding deliver
deliver-core s = put_posted-core s.posted s

pub reason-unset : (reason : Finish) → is_set reason ≡ false → reason ≡ unset
reason-unset unset e = refl
reason-unset stopped e = cc
reason-unset length_limit e = cc
reason-unset cancelled e = cc
reason-unset error e = cc
