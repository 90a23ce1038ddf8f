-- ===== src/Batching/Scheduler/WellFormed/Deliveries.antt =====
-- A posted call that the event loop runs keeps the scheduler well formed.
use nano_kube_llm_server.Prelude.{
  ℕ, ◌<◌, ◌≡◌, refl, sym, subst, ◌∙◌, true, false, List, [], ◌∷◌, ◌++◌, elem, ◌==◌, All-map, arith,
  Bool-cases, inl, inr, append_assoc, Option, ◌⊎◌,
}
use nano_kube_llm_server.Batching.Sequences.{
  Sequence, Heap, is_set, is_finished, update, deliver, put_posted, stream,
}
use nano_kube_llm_server.Batching.Sequences.Heaps.{update_self, update_other, IsDirect}
use nano_kube_llm_server.Batching.Scheduler.{State, modify}
use nano_kube_llm_server.Batching.Scheduler.WellFormed.{
  HasBudget, IsWellFormed, IsQueued, IsActive, IsSound,
}

put_posted-stream :
    (q : List (Option ℕ)) (s : Sequence) → s.posted ≡ q → stream (put_posted q s) ≡ s.queue ++ q
unfolding put_posted
put_posted-stream [] s e = rw e refl
put_posted-stream (token ∷ rest) s e = append_assoc s.queue (token ∷ []) rest

-- The event loop moves tokens towards their reader, and neither loses nor reorders any.
pub stream-deliver : (s : Sequence) → stream (deliver s) ≡ stream s
unfolding deliver
stream-deliver s = put_posted-stream s.posted s refl

-- Only the channel changes.
pub record Silent (s s' : Sequence) : Type 0 where
  pub id : s'.id ≡ s.id
  pub output_ids : s'.output_ids ≡ s.output_ids
  pub finish_reason : s'.finish_reason ≡ s.finish_reason
  pub max_new_tokens : s'.max_new_tokens ≡ s.max_new_tokens
  pub direct : IsDirect s'

put_posted-Silent :
    (q : List (Option ℕ)) (s : Sequence) → s.posted ≡ q → IsDirect s → Silent s (put_posted q s)
unfolding put_posted
put_posted-Silent [] s e direct = record {
  id = refl;
  output_ids = refl;
  finish_reason = refl;
  max_new_tokens = refl;
  direct = direct;
}
put_posted-Silent (token ∷ rest) s e direct = record {
  id = refl;
  output_ids = refl;
  finish_reason = refl;
  max_new_tokens = refl;
  direct = λ f. cc (direct f);
}

pub deliver-IsDirect : (s : Sequence) → IsDirect s → IsDirect (deliver s)
unfolding deliver
deliver-IsDirect s direct = (put_posted-Silent s.posted s refl direct).direct

-- A write through one reference that changes only the channel.
module _ (st : State) (w : IsWellFormed st) (i : ℕ) (s' : Sequence)
    (here : Silent (st.heap i) s') where
  h : Heap
  h = update st.heap i s'

  at :
      (P : ℕ → Sequence → Type 0) (j : ℕ)
      → ((s s' : Sequence) → Silent s s' → P j s → P j s')
      → P j (st.heap j)
      → P j (h j)
  unfolding h
  at P j keep p = elim (Bool-cases (i == j)) [
    | inl hit ↦
        let e : i ≡ j = ground arith in
        subst (λ k. P j (update st.heap i s' k)) e
          (subst (P j) (sym (update_self st.heap i _))
            (keep (st.heap i) _ here (subst (λ k. P j (st.heap k)) (sym e) p)))
    | inr miss ↦ subst (P j) (sym (update_other st.heap i j _ miss)) p
  ]

  pub silent-IsWellFormed : IsWellFormed (record st { heap = update st.heap i s' })
  unfolding h
  silent-IsWellFormed = record {
    distinct = w.distinct;
    queued =
        All-map st.waiting (λ j. at (IsQueued st.next_id) j (λ s s' e p. ground (arith, e)))
          w.queued;
    active =
        All-map st.running
          (λ j. at (IsActive st.next_id) j (λ s s' e p. (
            p.0,
            λ f.
                let budget = p.1 (subst (λ r. is_set r ≡ false) e.finish_reason f) in
                ground (arith, e, budget),
          )))
          w.active;
    sized = w.sized;
    held = λ j k.
        at (λ j s. (is_finished s ≡ true) ⊎ (elem j (st.running ++ st.waiting) ≡ true)) j
          (λ s s' e p. ground (arith, e)) (w.held j k);
    sound = λ j k.
        at IsSound j
          (λ s s' e p. record {
            named = e.id ∙ p.named;
            direct = e.direct;
            bounded = ground (arith, e, p.bounded);
          })
          (w.sound j k);
  }

  pub silent-HasBudget : (j : ℕ) → HasBudget (st.heap j) → HasBudget (update st.heap i s' j)
  unfolding h
  silent-HasBudget j b = at (λ j s. HasBudget s) j (λ s s' e p. ground (arith, e, p)) b

module _ (st : State) (w : IsWellFormed st) (i : ℕ) (known : i < st.next_id) where
  delivered : Silent (st.heap i) (deliver (st.heap i))
  unfolding deliver
  delivered = put_posted-Silent (st.heap i).posted (st.heap i) refl (w.sound i known).direct

  pub deliver-IsWellFormed : IsWellFormed (modify st i deliver)
  deliver-IsWellFormed = silent-IsWellFormed st w i (deliver (st.heap i)) delivered

  pub deliver-HasBudget : (j : ℕ) → HasBudget (st.heap j) → HasBudget ((modify st i deliver).heap j)
  deliver-HasBudget = silent-HasBudget st w i (deliver (st.heap i)) delivered
