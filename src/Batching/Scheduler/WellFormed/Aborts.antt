-- ===== src/Batching/Scheduler/WellFormed/Aborts.antt =====
-- A request that is given up keeps the scheduler well formed.
use nano_kube_llm_server.Prelude.{
  ℕ, ◌<◌, ◌≡◌, refl, sym, ap, subst, ◌∙◌, ◌⊎◌, inl, inr, true, false, List, [], ◌∷◌, ◌++◌, elem,
  ◌==◌, All, IsDistinct, All-map, arith, Bool-cases, none,
}
use nano_kube_llm_server.Batching.Sequences.{
  Finish, is_set, Sequence, Heap, SameOutside, is_finished, update, emit,
}
use nano_kube_llm_server.Batching.Sequences.Heaps.{
  IsApart-symm, Halves, IsDistinct→Halves, Halves→IsDistinct, elem-append, update_self,
  update_other, All-SameOutside, emit-Emitted, elem-cons_false,
}
use nano_kube_llm_server.Batching.Scheduler.{State, abort, remove, set_waiting, finish}
use nano_kube_llm_server.Batching.Scheduler.WellFormed.{
  HasBudget, IsWellFormed, IsQueued, IsActive, IsSound,
}

module _ (i : ℕ) where
  remove-missing : (j : ℕ) (js : List ℕ) → elem j js ≡ false → elem j (remove i js) ≡ false
  unfolding elem remove
  remove-missing j [] e = refl
  remove-missing j (k ∷ ks) e = ground (arith, remove-missing j ks)

  remove-elem :
      (j : ℕ) (js : List ℕ) → (i == j) ≡ false → elem j js ≡ true → elem j (remove i js) ≡ true
  unfolding elem remove
  remove-elem j [] o e = e
  remove-elem j (k ∷ ks) o e = ground (arith, remove-elem j ks o)

  remove-IsDistinct : (js : List ℕ) → IsDistinct js → IsDistinct (remove i js)
  unfolding remove
  remove-IsDistinct [] d = tt
  remove-IsDistinct (k ∷ ks) d = ground (arith, remove-missing k ks d.0, remove-IsDistinct ks d.1)

  -- The one occurrence is cut out, and the rest keeps its order.
  pub remove-cuts :
      (js : List ℕ)
      → elem i js ≡ true
      → (before : List ℕ) × (after : List ℕ) × (js ≡ before ++ i ∷ after)
        × (remove i js ≡ before ++ after)
  unfolding elem remove
  remove-cuts [] e = cc
  remove-cuts (k ∷ ks) e = elim (Bool-cases (k == i)) [
    | inl hit ↦ let same : k ≡ i = ground arith in ([], ks, ap (λ j. j ∷ ks) same, rw hit refl)
    | inr miss ↦
        let (before, after, split, rest) = remove-cuts ks (ground arith) in
        (k ∷ before, after, ap (λ js. k ∷ js) split, rw miss (ap (λ js. k ∷ js) rest))
  ]

  pub remove-absent : (js : List ℕ) → elem i js ≡ false → remove i js ≡ js
  unfolding elem remove
  remove-absent [] e = refl
  remove-absent (k ∷ ks) e = ground (arith, remove-absent ks)

  pub remove-removes : (js : List ℕ) → IsDistinct js → elem i (remove i js) ≡ false
  unfolding elem remove
  remove-removes [] d = refl
  remove-removes (k ∷ ks) d = elim (Bool-cases (k == i)) [
    | inl hit ↦
        let e : k ≡ i = ground arith in
        let missing = subst (λ m. elem m ks ≡ false) e d.0 in ground (arith, missing)
    | inr miss ↦ ground (arith, remove-removes ks d.1)
  ]

  remove-All : (P : ℕ → Type 0) (js : List ℕ) → All P js → All P (remove i js)
  unfolding remove
  remove-All P [] a = tt
  remove-All P (k ∷ ks) a = ground (arith, remove-All P ks a.1)

-- The heap `h` differs from that of `st` at `i` only, where it holds a finished sequence.
module _ (st : State) (w : IsWellFormed st) (i : ℕ) (known : i < st.next_id) (h : Heap)
    (same : SameOutside (i ∷ []) st.heap h) (done : is_finished (h i) ≡ true)
    (sound : IsSound i (h i)) where
  at :
      (P : ℕ → Sequence → Type 0) (j : ℕ)
      → (((i == j) ≡ false) → P j (st.heap j))
      → P i (h i)
      → P j (h j)
  unfolding elem
  at P j old new = elim (Bool-cases (i == j)) [
    | inl hit ↦ let e : i ≡ j = ground arith in subst (λ k. P k (h k)) e new
    | inr miss ↦ subst (P j) (sym (same j (ground arith))) (old miss)
  ]

  given_up-Halves : Halves st.running (remove i st.waiting)
  given_up-Halves =
      let r = IsDistinct→Halves st.running st.waiting w.distinct in
      record {
        left = r.left;
        right = remove-IsDistinct i st.waiting r.right;
        apart = All-map st.running (λ j. remove-missing i j st.waiting) r.apart;
      }

  given_up-held :
      (j : ℕ)
      → j < st.next_id
      → (is_finished (h j) ≡ true) ⊎ (elem j (st.running ++ remove i st.waiting) ≡ true)
  given_up-held j k =
      at (λ j s. (is_finished s ≡ true) ⊎ (elem j (st.running ++ remove i st.waiting) ≡ true)) j
        (λ miss. ground (
          arith,
          w.held j k,
          elem-append j st.running st.waiting,
          elem-append j st.running (remove i st.waiting),
          remove-elem i j st.waiting miss,
        ))
        (inl done)

  pub given_up-IsWellFormed :
      IsWellFormed (set_waiting (record st { heap = h }) (remove i st.waiting))
  given_up-IsWellFormed =
      let r = IsDistinct→Halves st.running st.waiting w.distinct in
      record {
        distinct = Halves→IsDistinct st.running _ given_up-Halves;
        queued =
            All-SameOutside (IsQueued st.next_id) (i ∷ []) (remove i st.waiting) same
              (IsApart-symm (i ∷ []) _ (remove-removes i st.waiting r.right, tt))
              (remove-All i _ st.waiting w.queued);
        active =
            All-map st.running
              (λ j a. at (λ j s. IsActive st.next_id j s) j (λ _. a) (known, λ e. cc)) w.active;
        sized = w.sized;
        held = given_up-held;
        sound = λ j k. at IsSound j (λ _. w.sound j k) sound;
      }

-- What `abort` makes of an unfinished sequence.
abbrev pub aborted : Finish → Sequence → Sequence
aborted reason s = emit (finish reason s) none

pub aborted-IsSound :
    {i : ℕ} {s : Sequence} (reason : Finish)
    → IsSound i s
    → IsSound i (aborted reason s) × ((aborted reason s).finish_reason ≡ reason)
aborted-IsSound {s = s} reason v =
    let e = emit-Emitted (finish reason s) none v.direct in
    (
      record {
        named = e.same.id ∙ v.named;
        direct = e.direct;
        bounded = ground (arith, v.bounded, e.same.max_new_tokens, e.output_ids);
      },
      e.finish_reason,
    )

-- The heap that `abort` leaves, after its two writes.
abbrev given_up : Heap → ℕ → Finish → Heap
given_up h i reason =
    let marked = update h i (finish reason (h i)) in update marked i (emit (marked i) none)

module _ (h : Heap) (i : ℕ) (reason : Finish) where
  pub given_up_self : given_up h i reason i ≡ aborted reason (h i)
  given_up_self = update_self _ i _ ∙ ap (λ s. emit s none) (update_self h i _)

  pub given_up_other : (j : ℕ) → (i == j) ≡ false → given_up h i reason j ≡ h j
  given_up_other j other = update_other _ i j _ other ∙ update_other h i j _ other

pub abort-IsWellFormed :
    (st : State) (i : ℕ) (reason : Finish)
    → is_set reason ≡ true
    → i < st.next_id
    → IsWellFormed st
    → IsWellFormed (abort st i reason)
unfolding abort
abort-IsWellFormed st i reason some_reason known w = elim (Bool-cases (is_finished (st.heap i))) [
  | inl done ↦ rw done w
  | inr going ↦ rw going (
      given_up-IsWellFormed st w i known (given_up st.heap i reason) same
        (subst (λ s. is_finished s ≡ true) (sym here) (rw r.1 some_reason))
        (subst (IsSound i) (sym here) r.0))
]
  where
    same : SameOutside (i ∷ []) st.heap (given_up st.heap i reason)
    same j e = given_up_other st.heap i reason j (elem-cons_false j i [] e).0

    here : given_up st.heap i reason i ≡ aborted reason (st.heap i)
    here = given_up_self st.heap i reason

    r :
        IsSound i (aborted reason (st.heap i))
        × ((aborted reason (st.heap i)).finish_reason ≡ reason)
    r = aborted-IsSound reason (w.sound i known)

-- What `emit` and a new reason leave alone, whatever the sequence.
pub aborted-HasBudget :
    (reason : Finish) (s : Sequence) → HasBudget s → HasBudget (aborted reason s)
unfolding emit
aborted-HasBudget reason s budget = ground arith

-- `abort` leaves each sequence as it is, or marks it and ends its stream.
pub abort-keeps :
    (P : Sequence → Type 0) (st : State) (i j : ℕ) (reason : Finish)
    → ((s : Sequence) → P s → P (aborted reason s))
    → P (st.heap j)
    → P ((abort st i reason).heap j)
unfolding abort
abort-keeps P st i j reason keep p = elim (Bool-cases (is_finished (st.heap i))) [
  | inl done ↦ rw done p
  | inr going ↦ rw going (elim (Bool-cases (i == j)) [
    | inl hit ↦
        let e : i ≡ j = ground arith in
        subst (λ k. P (given_up st.heap i reason k)) e
          (subst P (sym (given_up_self st.heap i reason))
            (keep (st.heap i) (subst (λ k. P (st.heap k)) (sym e) p)))
    | inr miss ↦ subst P (sym (given_up_other st.heap i reason j miss)) p
  ])
]

pub abort-other :
    (st : State) (i j : ℕ) (reason : Finish)
    → (i == j) ≡ false
    → (abort st i reason).heap j ≡ st.heap j
unfolding abort
abort-other st i j reason miss = elim (Bool-cases (is_finished (st.heap i))) [
  | inl done ↦ rw done refl
  | inr going ↦ rw going (given_up_other st.heap i reason j miss)
]

pub abort-running :
    (st : State) (i : ℕ) (reason : Finish)
    → ((abort st i reason).running ≡ st.running) × ((abort st i reason).next_id ≡ st.next_id)
unfolding abort
abort-running st i reason = ground arith

pub abort-here :
    (st : State) (i : ℕ) (reason : Finish)
    → is_finished (st.heap i) ≡ false
    → (abort st i reason).heap i ≡ aborted reason (st.heap i)
unfolding abort
abort-here st i reason going = rw going (given_up_self st.heap i reason)
