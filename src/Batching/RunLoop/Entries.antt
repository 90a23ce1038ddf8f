-- ===== src/Batching/RunLoop/Entries.antt =====
-- What the entries of a tick do, row by row.
use nano_kube_llm_server.Prelude.{
  ℕ, ◌≡◌, refl, sym, ap, subst, ◌∙◌, true, false, List, [], ◌∷◌, Option, none, some, elem, ◌==◌,
  All, All-map, All-both, IsDistinct, arith, Bool-cases, inl, inr, if◌then◌else◌,
}
use nano_kube_llm_server.Batching.Sequences.{Sequence, Heap, SameOutside, is_finished, error}
use nano_kube_llm_server.Batching.Sequences.Heaps.{IsApart, IsApart-symm, elem-cons_false}
use nano_kube_llm_server.Batching.Scheduler.{State, abort, record_token, postprocess}
use nano_kube_llm_server.Batching.Scheduler.Tokens.{
  refs, Each, postprocess-Each, postprocess-SameOutside,
}
use nano_kube_llm_server.Batching.Scheduler.WellFormed.Aborts.{aborted, given_up_self, abort-other}
use nano_kube_llm_server.Batching.RunLoop.{casualties, survivors, abort_each, record_rows}
use nano_kube_llm_server.Batching.RunLoop.Rows.{
  survivors-IsDistinct, survivors-missing, casualties-missing, elem_self,
}

-- A row that failed alone ends its request, unless it had ended already.
abbrev pub failed_row : Sequence → Sequence
failed_row s = if is_finished s then s else aborted error s

abort_self : (st : State) (i : ℕ) → (abort st i error).heap i ≡ failed_row (st.heap i)
unfolding abort
abort_self st i = elim (Bool-cases (is_finished (st.heap i))) [
  | inl done ↦ rw done refl
  | inr going ↦ rw going (given_up_self st.heap i error)
]

pub abort_each-SameOutside :
    (st : State) (is : List ℕ) → SameOutside is st.heap (abort_each st is).heap
unfolding abort_each
abort_each-SameOutside st [] j e = refl
abort_each-SameOutside st (i ∷ is) j e =
    let (other, apart) = elem-cons_false j i is e in
    abort_each-SameOutside (abort st i error) is j apart ∙ abort-other st i j error other

elem-apart : (i j : ℕ) (is : List ℕ) → elem i is ≡ false → elem j is ≡ true → (i == j) ≡ false
elem-apart i j is out in_it = elim (Bool-cases (i == j)) [
  | inl hit ↦
      let e : i ≡ j = ground arith in let in_it' = subst (λ k. elem k is ≡ true) (sym e) in_it in cc
  | inr miss ↦ miss
]

pub abort_each-All :
    (st : State) (is : List ℕ)
    → IsDistinct is
    → All (λ i. (abort_each st is).heap i ≡ failed_row (st.heap i)) is
unfolding abort_each
abort_each-All st [] d = tt
abort_each-All st (i ∷ is) d = (
  abort_each-SameOutside (abort st i error) is i d.0 ∙ abort_self st i,
  All-map is (λ j p. p.0 ∙ ap failed_row (abort-other st i j error (elem-apart i j is d.0 p.1)))
      (All-both _ _ is (abort_each-All (abort st i error) is d.1) (elem_self is)),
)

pub casualties-IsApart :
    (batch : List ℕ) (next_ids : List (Option ℕ))
    → IsDistinct batch
    → IsApart (casualties batch next_ids) (refs (survivors batch next_ids))
unfolding casualties survivors elem
casualties-IsApart [] next_ids d = tt
casualties-IsApart (i ∷ is) [] d = tt
casualties-IsApart (i ∷ is) (none ∷ ts) d =
    (survivors-missing i is ts d.0, casualties-IsApart is ts d.1)
casualties-IsApart (i ∷ is) (some t ∷ ts) d =
    All-map (casualties is ts)
      (λ j p.
        ground (arith, p.0, elem-apart i j (casualties is ts) (casualties-missing i is ts d.0) p.1))
      (All-both _ _ _ (casualties-IsApart is ts d.1) (elem_self (casualties is ts)))

pub casualties-IsDistinct :
    (batch : List ℕ) (next_ids : List (Option ℕ))
    → IsDistinct batch
    → IsDistinct (casualties batch next_ids)
unfolding casualties
casualties-IsDistinct [] next_ids d = tt
casualties-IsDistinct (i ∷ is) [] d = tt
casualties-IsDistinct (i ∷ is) (none ∷ ts) d =
    (casualties-missing i is ts d.0, casualties-IsDistinct is ts d.1)
casualties-IsDistinct (i ∷ is) (some t ∷ ts) d = casualties-IsDistinct is ts d.1

-- What one entry makes of its sequence.
abbrev pub after_entry : Sequence → Option ℕ → Sequence
after_entry s none = failed_row s
after_entry s (some token) = record_token s token

-- Each row of the batch that has an entry is what its entry makes of it.
abbrev pub EachEntry : Heap → Heap → List ℕ → List (Option ℕ) → Type 0
EachEntry h h' (i ∷ is) (entry ∷ entries) =
    (h' i ≡ after_entry (h i) entry) × EachEntry h h' is entries
EachEntry h h' _ _ = Unit

entries-join :
    (h h' : Heap) (batch : List ℕ) (next_ids : List (Option ℕ))
    → All (λ i. h' i ≡ failed_row (h i)) (casualties batch next_ids)
    → Each h h' (survivors batch next_ids)
    → EachEntry h h' batch next_ids
unfolding casualties survivors
entries-join h h' [] next_ids a e = tt
entries-join h h' (i ∷ is) [] a e = tt
entries-join h h' (i ∷ is) (none ∷ ts) a e = (a.0, entries-join h h' is ts a.1 e)
entries-join h h' (i ∷ is) (some t ∷ ts) a e = (e.0, entries-join h h' is ts a e.1)

Each-before :
    (h h₁ h' : Heap) (rows : List (ℕ × ℕ))
    → All (λ i. h₁ i ≡ h i) (refs rows)
    → Each h₁ h' rows
    → Each h h' rows
Each-before h h₁ h' [] a e = tt
Each-before h h₁ h' ((i, token) ∷ rows) a e =
    (e.0 ∙ ap (λ s. record_token s token) a.0, Each-before h h₁ h' rows a.1 e.1)

-- For a batch without repetition: a tick makes of each row what its own entry makes of it, none ending
-- the request with an error and a token being recorded,
pub record_rows-EachEntry :
    (st : State) (batch : List ℕ) (next_ids : List (Option ℕ))
    → IsDistinct batch
    → EachEntry st.heap (record_rows st batch next_ids).heap batch next_ids
unfolding record_rows
record_rows-EachEntry st batch next_ids d =
    let st' = abort_each st (casualties batch next_ids) in
    let tokens = survivors batch next_ids in
    let apart = casualties-IsApart batch next_ids d in
    entries-join st.heap (postprocess st'.heap tokens).0 batch next_ids
      (All-map (casualties batch next_ids)
        (λ i p. postprocess-SameOutside st'.heap tokens i p.0 ∙ p.1)
        (All-both _ _ _ apart
          (abort_each-All st (casualties batch next_ids) (casualties-IsDistinct batch next_ids d))))
      (Each-before st.heap st'.heap _ tokens
        (All-map (refs tokens) (λ i e. abort_each-SameOutside st (casualties batch next_ids) i e)
          (IsApart-symm (casualties batch next_ids) (refs tokens) apart))
        (postprocess-Each st'.heap tokens (survivors-IsDistinct batch next_ids d)))

-- and it leaves every other request alone.
pub record_rows-SameOutside :
    (st : State) (batch : List ℕ) (next_ids : List (Option ℕ))
    → SameOutside batch st.heap (record_rows st batch next_ids).heap
unfolding record_rows
record_rows-SameOutside st batch next_ids j e =
    postprocess-SameOutside _ (survivors batch next_ids) j (survivors-missing j batch next_ids e)
    ∙ abort_each-SameOutside st (casualties batch next_ids) j
        (casualties-missing j batch next_ids e)
