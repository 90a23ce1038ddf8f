-- ===== src/Batching/RunLoop/Grows.antt =====
-- What a tick, and what happens between its two halves, does to the tokens of the batch.
use nano_kube_llm_server.Prelude.{
  ℕ, ◌≡◌, refl, sym, ap, subst, ◌∙◌, inl, inr, true, false, List, [], ◌∷◌, ◌++◌, map, Option, none,
  elem, ◌==◌, All, arith, Bool-cases,
}
use nano_kube_llm_server.Runners.Interface.{Extends}
use nano_kube_llm_server.Batching.Sequences.{
  Sequence, Heap, Finish, is_set, error, is_finished, token_ids, emit, deliver, put_posted, update,
}
use nano_kube_llm_server.Batching.Sequences.Heaps.{
  core, core_tokens, emit-core, update_self, update_other,
}
use nano_kube_llm_server.Batching.Scheduler.{State, abort, modify}
use nano_kube_llm_server.Batching.Scheduler.WellFormed.Aborts.{
  abort-running, aborted, abort-keeps, abort-here,
}
use nano_kube_llm_server.Batching.RunLoop.{abort_each}

-- One more token.
abbrev pub OneMore : Sequence → Sequence → Type 0
OneMore s t = (token : ℕ) × (token_ids t ≡ token_ids s ++ token ∷ [])

-- The requests `is` have the tokens and the settings that the sequences had.
abbrev pub SameTokens : Heap → List Sequence → List ℕ → Type 0
SameTokens h [] [] = Unit
SameTokens h (s ∷ ss) (i ∷ is) = (core (h i) ≡ core s) × SameTokens h ss is
SameTokens h _ _ = ⊥

-- Each of the requests `is` is finished, or has one token more than its sequence had.
abbrev pub Grown : Heap → List Sequence → List ℕ → Type 0
Grown h [] [] = Unit
Grown h (s ∷ ss) (i ∷ is) = (is_finished (h i) ≡ false → OneMore s (h i)) × Grown h ss is
Grown h _ _ = ⊥

-- The tokens and the settings stay, and what is finished stays finished.
abbrev pub Quiet : Sequence → Sequence → Type 0
Quiet s t = (core t ≡ core s) × (is_finished t ≡ false → is_finished s ≡ false)

pub SameTokens-Quiet :
    (h h' : Heap) (ss : List Sequence) (is : List ℕ)
    → All (λ i. Quiet (h i) (h' i)) is
    → SameTokens h ss is
    → SameTokens h' ss is
SameTokens-Quiet h h' [] [] q e = tt
SameTokens-Quiet h h' [] (i ∷ is) q e = e
SameTokens-Quiet h h' (s ∷ ss) [] q e = e
SameTokens-Quiet h h' (s ∷ ss) (i ∷ is) q e = (q.0.0 ∙ e.0, SameTokens-Quiet h h' ss is q.1 e.1)

pub Grown-Quiet :
    (h h' : Heap) (ss : List Sequence) (is : List ℕ)
    → All (λ i. Quiet (h i) (h' i)) is
    → Grown h ss is
    → Grown h' ss is
Grown-Quiet h h' [] [] q g = tt
Grown-Quiet h h' [] (i ∷ is) q g = g
Grown-Quiet h h' (s ∷ ss) [] q g = g
Grown-Quiet h h' (s ∷ ss) (i ∷ is) q g = (
  λ going. let (token, e) = g.0 (q.0.1 going) in (token, ap core_tokens q.0.0 ∙ e),
  Grown-Quiet h h' ss is q.1 g.1,
)

pub SameTokens-Grown :
    (h h' : Heap) (ss : List Sequence) (is : List ℕ)
    → All (λ i. is_finished (h' i) ≡ false → OneMore (h i) (h' i)) is
    → SameTokens h ss is
    → Grown h' ss is
SameTokens-Grown h h' [] [] q e = tt
SameTokens-Grown h h' [] (i ∷ is) q e = e
SameTokens-Grown h h' (s ∷ ss) [] q e = e
SameTokens-Grown h h' (s ∷ ss) (i ∷ is) q e = (
  λ going. let (token, f) = q.0 going in (token, f ∙ ap (λ c. core_tokens c ++ token ∷ []) e.0),
  SameTokens-Grown h h' ss is q.1 e.1,
)

-- If all of them are unfinished, each has one token more.
pub Grown-Extends :
    (h : Heap) (ss : List Sequence) (is : List ℕ)
    → All (λ i. is_finished (h i) ≡ false) is
    → Grown h ss is
    → Extends ss (map h is)
Grown-Extends h [] [] going g = tt
Grown-Extends h [] (i ∷ is) going g = g
Grown-Extends h (s ∷ ss) [] going g = g
Grown-Extends h (s ∷ ss) (i ∷ is) going g = (g.0 going.0, Grown-Extends h ss is going.1 g.1)

pub SameTokens-map : (h : Heap) (is : List ℕ) → SameTokens h (map h is) is
SameTokens-map h [] = tt
SameTokens-map h (i ∷ is) = (refl, SameTokens-map h is)

pub aborted-Quiet :
    (reason : Finish) (s : Sequence) → is_set reason ≡ true → Quiet s (aborted reason s)
unfolding emit
aborted-Quiet reason s e = (emit-core _ none, λ f. ground arith)

pub abort-Quiet :
    (st : State) (i j : ℕ) (reason : Finish)
    → is_set reason ≡ true
    → Quiet (st.heap j) ((abort st i reason).heap j)
abort-Quiet st i j reason e =
    abort-keeps (Quiet (st.heap j)) st i j reason
      (λ s q. let a = aborted-Quiet reason s e in (a.0 ∙ q.0, λ f. q.1 (a.1 f))) (refl, λ f. f)

put_posted-Quiet : (q : List (Option ℕ)) (s : Sequence) → Quiet s (put_posted q s)
unfolding put_posted
put_posted-Quiet [] s = (refl, λ f. f)
put_posted-Quiet (token ∷ rest) s = (refl, λ f. f)

pub deliver-Quiet : (st : State) (i j : ℕ) → Quiet (st.heap j) ((modify st i deliver).heap j)
unfolding deliver
deliver-Quiet st i j = elim (Bool-cases (i == j)) [
  | inl hit ↦
      let e : i ≡ j = ground arith in
      subst (λ k. Quiet (st.heap k) (update st.heap i (deliver (st.heap i)) k)) e
        (subst (Quiet (st.heap i)) (sym (update_self st.heap i _))
          (put_posted-Quiet (st.heap i).posted (st.heap i)))
  | inr miss ↦ subst (Quiet (st.heap j)) (sym (update_other st.heap i j _ miss)) (refl, λ f. f)
]

-- `abort_each` leaves each sequence as it is, or marks it and ends its stream.
pub abort_each-keeps :
    (P : Sequence → Type 0) (st : State) (is : List ℕ) (j : ℕ)
    → ((s : Sequence) → P s → P (aborted error s))
    → P (st.heap j)
    → P ((abort_each st is).heap j)
unfolding abort_each
abort_each-keeps P st [] j keep p = p
abort_each-keeps P st (i ∷ is) j keep p =
    abort_each-keeps P (abort st i error) is j keep (abort-keeps P st i j error keep p)

aborted-finishes :
    (reason : Finish) (s : Sequence) → is_set reason ≡ true → is_finished (aborted reason s) ≡ true
unfolding emit
aborted-finishes reason s e = ground arith

pub abort-finishes :
    (st : State) (i : ℕ) (reason : Finish)
    → is_set reason ≡ true
    → is_finished ((abort st i reason).heap i) ≡ true
unfolding abort
abort-finishes st i reason e = elim (Bool-cases (is_finished (st.heap i))) [
  | inl done ↦ rw (done, done) refl
  | inr going ↦
      ap is_finished (abort-here st i reason going) ∙ aborted-finishes reason (st.heap i) e
]

pub abort_each-finishes :
    (st : State) (is : List ℕ) (j : ℕ)
    → elem j is ≡ true
    → is_finished ((abort_each st is).heap j) ≡ true
unfolding abort_each elem
abort_each-finishes st [] j e = cc
abort_each-finishes st (i ∷ is) j e = elim (Bool-cases (i == j)) [
  | inl hit ↦
      let same : i ≡ j = ground arith in
      abort_each-keeps (λ s. is_finished s ≡ true) (abort st i error) is j
        (λ s f. aborted-finishes error s refl)
        (subst (λ k. is_finished ((abort st i error).heap k) ≡ true) same
          (abort-finishes st i error refl))
  | inr miss ↦ abort_each-finishes (abort st i error) is j (ground arith)
]

pub abort_each-next_id : (st : State) (is : List ℕ) → (abort_each st is).next_id ≡ st.next_id
unfolding abort_each
abort_each-next_id st [] = refl
abort_each-next_id st (i ∷ is) =
    abort_each-next_id (abort st i error) is ∙ (abort-running st i error).1
