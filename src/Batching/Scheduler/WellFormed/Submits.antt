-- ===== src/Batching/Scheduler/WellFormed/Submits.antt =====
-- A submitted request keeps the scheduler well formed.
use nano_kube_llm_server.Prelude.{
  ℕ, suc, ◌<◌, ◌≡◌, refl, sym, ap, subst, ◌∙◌, ◌⊎◌, inl, inr, true, false, List, [], ◌∷◌, ◌++◌,
  elem, All, IsDistinct, All-append, All-map, append_assoc, pos, arith, Bool-cases, none, leb_ℤ,
  ltb,
}
use nano_kube_llm_server.Batching.Sequences.{
  Sequence, Heap, SameOutside, Params, is_finished, new_sequence, update, emit, length_limit,
}
use nano_kube_llm_server.Batching.Sequences.Heaps.{
  IsApart, Halves→IsDistinct, elem-append, update_self, update_other, update-SameOutside,
  All-SameOutside, emit-Emitted, elem-cons_false,
}
use nano_kube_llm_server.Batching.Scheduler.{State, add, set_waiting, finish}
use nano_kube_llm_server.Batching.RunLoop.{submit}
use nano_kube_llm_server.Batching.Scheduler.WellFormed.{IsWellFormed, IsQueued, IsActive, IsSound}

-- A new sequence `n`, the only one that the new heap does not share with the old one.
module _ (st : State) (w : IsWellFormed st) (h : Heap)
    (same : SameOutside (st.next_id ∷ []) st.heap h)
    (sound : IsSound st.next_id (h st.next_id)) where
  abbrev pub grown : State
  grown = record st { heap = h; next_id = suc st.next_id }

  below-apart : (i : ℕ) → i < st.next_id → elem i (st.next_id ∷ []) ≡ false
  unfolding elem
  below-apart i k = ground arith

  grown-All :
      (P : ℕ → ℕ → Sequence → Type 0) (is : List ℕ)
      → ((i : ℕ) → P st.next_id i (st.heap i) → i < st.next_id)
      → ((i : ℕ) → P st.next_id i (st.heap i) → P (suc st.next_id) i (st.heap i))
      → All (λ i. P st.next_id i (st.heap i)) is
      → All (λ i. P (suc st.next_id) i (h i)) is
  grown-All P is below weaken all =
      All-SameOutside (P (suc st.next_id)) (st.next_id ∷ []) is same
        (All-map is (λ i p. below-apart i (below i p)) all) (All-map is weaken all)

  grown-IsQueued : All (λ i. IsQueued (suc st.next_id) i (h i)) st.waiting
  grown-IsQueued =
      grown-All IsQueued st.waiting (λ i p. p.0) (λ i p. (omega arith, p.1, p.2)) w.queued

  grown-IsActive : All (λ i. IsActive (suc st.next_id) i (h i)) st.running
  grown-IsActive = grown-All IsActive st.running (λ i p. p.0) (λ i p. (omega arith, p.1)) w.active

  grown-at :
      (P : ℕ → Sequence → Type 0)
      → ((i : ℕ) → i < st.next_id → P i (st.heap i))
      → P st.next_id (h st.next_id)
      → (i : ℕ) → i < suc st.next_id
      → P i (h i)
  grown-at P old new i k = elim (Bool-cases (ltb i st.next_id)) [
    | inl below ↦
        let k' : i < st.next_id = ground arith in
        subst (P i) (sym (same i (below-apart i k'))) (old i k')
    | inr above ↦ let e : st.next_id ≡ i = ground arith in subst (λ j. P j (h j)) e new
  ]

  grown-IsSound : (i : ℕ) → i < suc st.next_id → IsSound i (h i)
  grown-IsSound = grown-at IsSound w.sound sound

  held-IsApart : IsApart (st.running ++ st.waiting) (st.next_id ∷ [])
  held-IsApart =
      All-append _ st.running st.waiting (All-map st.running (λ i p. below-apart i p.0) w.active)
        (All-map st.waiting (λ i p. below-apart i p.0) w.queued)

  with_new :
      st.running ++ (st.waiting ++ st.next_id ∷ []) ≡ st.running ++ st.waiting ++ st.next_id ∷ []
  with_new = sym (append_assoc st.running st.waiting (st.next_id ∷ []))

  -- The new request is finished already.
  pub finished-IsWellFormed : is_finished (h st.next_id) ≡ true → IsWellFormed grown
  finished-IsWellFormed done = record {
    distinct = w.distinct;
    queued = grown-IsQueued;
    active = grown-IsActive;
    sized = w.sized;
    held =
        grown-at (λ i s. (is_finished s ≡ true) ⊎ (elem i (st.running ++ st.waiting) ≡ true)) w.held
          (inl done);
    sound = grown-IsSound;
  }

  held-more :
      (i : ℕ)
      → (is_finished (st.heap i) ≡ true) ⊎ (elem i (st.running ++ st.waiting) ≡ true)
      → (is_finished (st.heap i) ≡ true)
        ⊎ (elem i (st.running ++ (st.waiting ++ st.next_id ∷ [])) ≡ true)
  held-more i (inl done) = inl done
  held-more i (inr e) =
      inr (rw (with_new, elem-append i (st.running ++ st.waiting) (st.next_id ∷ []), e) refl)

  held-new : elem st.next_id (st.running ++ (st.waiting ++ st.next_id ∷ [])) ≡ true
  unfolding elem
  held-new = ground (
    arith,
    ap (elem st.next_id) with_new,
    elem-append st.next_id (st.running ++ st.waiting) (st.next_id ∷ []),
  )

  -- The new request joins the queue.
  pub queued-IsWellFormed :
      IsQueued (suc st.next_id) st.next_id (h st.next_id)
      → IsWellFormed (set_waiting grown (st.waiting ++ st.next_id ∷ []))
  unfolding elem
  queued-IsWellFormed q = record {
    distinct = subst IsDistinct (sym with_new) (
        Halves→IsDistinct _ (st.next_id ∷ [])
          (record { left = w.distinct; right = (refl, tt); apart = held-IsApart }));
    queued = All-append _ st.waiting (st.next_id ∷ []) grown-IsQueued (q, tt);
    active = grown-IsActive;
    sized = w.sized;
    held =
        grown-at
          (λ i s.
            (is_finished s ≡ true)
            ⊎ (elem i (st.running ++ (st.waiting ++ st.next_id ∷ [])) ≡ true))
          (λ i k. held-more i (w.held i k)) (inr held-new);
    sound = grown-IsSound;
  }

module _ (p : Params) (n : ℕ) where
  new-IsSound : IsSound n (new_sequence p n true)
  unfolding new_sequence
  new-IsSound = record { named = refl; direct = λ e. refl; bounded = inl refl }

  new-IsQueued :
      leb_ℤ (new_sequence p n true).max_new_tokens (pos 0) ≡ false
      → IsQueued (suc n) n (new_sequence p n true)
  unfolding new_sequence
  new-IsQueued e = (omega arith, refl, ground arith)

  new-output_ids : (new_sequence p n true).output_ids ≡ []
  unfolding new_sequence
  new-output_ids = refl

  -- `max_tokens=0`: the sequence is finished when `add` returns, with no output.
  refused : Sequence
  refused = emit (finish length_limit (new_sequence p n true)) none

  refused-IsSound : IsSound n refused × (is_finished refused ≡ true)
  unfolding refused
  refused-IsSound =
      let s = new_sequence p n true in
      let e = emit-Emitted (finish length_limit s) none (new-IsSound.direct) in
      (
        record {
          named = e.same.id ∙ new-IsSound.named;
          direct = e.direct;
          bounded = inl (e.output_ids ∙ new-output_ids);
        },
        rw e.finish_reason refl,
      )

pub submit-IsWellFormed : (st : State) (p : Params) → IsWellFormed st → IsWellFormed (submit st p)
unfolding submit add refused
submit-IsWellFormed st p w = elim (Bool-cases (leb_ℤ (h n).max_new_tokens (pos 0))) [
  | inl none_asked ↦ rw none_asked (
      finished-IsWellFormed st w (update h n (emit (finish length_limit (h n)) none)) same_twice
        (subst (IsSound n) (sym ended) (refused-IsSound p n).0)
        (subst (λ s. is_finished s ≡ true) (sym ended) (refused-IsSound p n).1))
  | inr some_asked ↦ rw some_asked (
      queued-IsWellFormed st w h (update-SameOutside st.heap n s₀)
        (subst (IsSound n) (sym created) (new-IsSound p n))
        (subst (IsQueued (suc n) n) (sym created) (
          new-IsQueued p n
            (subst (λ s. leb_ℤ s.max_new_tokens (pos 0) ≡ false) created some_asked))))
]
  where
    n : ℕ
    n = st.next_id

    s₀ : Sequence
    s₀ = new_sequence p n true

    h : Heap
    h = update st.heap n s₀

    created : h n ≡ s₀
    created = update_self st.heap n s₀

    ended : update h n (emit (finish length_limit (h n)) none) n ≡ refused p n
    ended = update_self h n _ ∙ ap (λ s. emit (finish length_limit s) none) created

    same_twice : SameOutside (n ∷ []) st.heap (update h n (emit (finish length_limit (h n)) none))
    same_twice j e =
        let other = (elem-cons_false j n [] e).0 in
        update_other h n j _ other ∙ update_other st.heap n j s₀ other

-- The requests that were there are left alone.
pub submit-old :
    (st : State) (p : Params) (j : ℕ) → j < st.next_id → (submit st p).heap j ≡ st.heap j
unfolding submit add update
submit-old st p j k = ground arith

pub submit-running : (st : State) (p : Params) → (submit st p).running ≡ st.running
unfolding submit add
submit-running st p = ground arith

pub submit-next_id : (st : State) (p : Params) → (submit st p).next_id ≡ suc st.next_id
unfolding submit add
submit-next_id st p = ground arith
