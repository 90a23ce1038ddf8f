-- ===== src/Batching/RunLoop/Owed/Ended.antt =====
-- What is owed once all requests are finished, and what a row's entry leaves of it.
use nano_kube_llm_server.Prelude.{
  ℕ, ◌<◌, ◌≡◌, refl, sym, subst, inl, inr, true, false, List, [], ◌∷◌, Option, none, some, length,
  elem, is_empty, All, All-append, All-map, not, ◌||◌, arith, Bool-cases, ◌==◌, ◌++◌,
}
use nano_kube_llm_server.Batching.Sequences.{Sequence, Heap, is_finished}
use nano_kube_llm_server.Batching.Scheduler.{State, has_work}
use nano_kube_llm_server.Batching.Scheduler.WellFormed.{HasBudget, IsWellFormed}
use nano_kube_llm_server.Batching.RunLoop.Rows.{All-elem}
use nano_kube_llm_server.Batching.RunLoop.Entries.{EachEntry, after_entry}
use nano_kube_llm_server.Batching.RunLoop.Owed.{
  owed_by, owed, owed-ended, owed-at, owed_by-going, record_token-owes, failed_row-owes,
}

-- Of a state: the tokens that its requests may still get.
abbrev pub owed_in : State → ℕ
owed_in st = owed st.heap st.next_id

none_held :
    (i : ℕ) (running waiting : List ℕ)
    → (not (is_empty waiting) || not (is_empty running)) ≡ false
    → elem i (running ++ waiting) ≡ false
unfolding elem
none_held i [] [] e = refl
none_held i [] (j ∷ js) e = cc
none_held i (j ∷ js) [] e = cc
none_held i (j ∷ js) (k ∷ ks) e = cc

pub all-finished : (st : State) → IsWellFormed st → has_work st ≡ false → owed_in st ≡ 0
unfolding has_work
all-finished st w idle = owed-ended st.heap st.next_id (λ i k. elim (w.held i k) [
  | inl over ↦ over
  | inr held ↦ let missing = none_held i st.running st.waiting idle in cc
])

held_budget :
    (st : State)
    → IsWellFormed st
    → All (λ i. is_finished (st.heap i) ≡ false → HasBudget (st.heap i)) (st.running ++ st.waiting)
held_budget st w =
    All-append _ st.running st.waiting (All-map st.running (λ i a. a.1) w.active)
      (All-map st.waiting (λ i q going. q.2) w.queued)

-- A request that is owed nothing is finished.
pub finished-all :
    (st : State)
    → IsWellFormed st
    → owed_in st ≡ 0
    → (i : ℕ) → i < st.next_id
    → is_finished (st.heap i) ≡ true
finished-all st w e i k = elim (Bool-cases (is_finished (st.heap i))) [
  | inl over ↦ over
  | inr going ↦ elim (w.held i k) [
    | inl over ↦ over
    | inr held ↦
        let b = All-elem _ i _ (held_budget st w) held going in
        absurd (omega (arith, owed-at st.heap st.next_id i k e, owed_by-going (st.heap i) going b))
  ]
]

after_entry-owes :
    (s : Sequence) (entry : Option ℕ)
    → is_finished s ≡ false
    → HasBudget s
    → owed_by (after_entry s entry) < owed_by s
after_entry-owes s none going b = failed_row-owes s going b
after_entry-owes s (some token) going b = record_token-owes s token going b

-- The entry of an unfinished row leaves it less than it was owed.
pub entry-owes :
    (h h' : Heap) (batch : List ℕ) (entries : List (Option ℕ)) (j : ℕ)
    → length entries ≡ length batch
    → EachEntry h h' batch entries
    → elem j batch ≡ true
    → is_finished (h j) ≡ false
    → HasBudget (h j)
    → owed_by (h' j) < owed_by (h j)
unfolding elem
entry-owes h h' [] entries j n each e going b = cc
entry-owes h h' (i ∷ is) [] j n each e going b = absurd (omega (arith, n))
entry-owes h h' (i ∷ is) (entry ∷ entries) j n each e going b = elim (Bool-cases (i == j)) [
  | inl hit ↦
      let f : i ≡ j = ground arith in
      subst (λ s. owed_by s < owed_by (h j))
        (sym (subst (λ k. h' k ≡ after_entry (h k) entry) f each.0))
        (after_entry-owes (h j) entry going b)
  | inr miss ↦ entry-owes h h' is entries j (omega (arith, n)) each.1 (ground arith) going b
]
