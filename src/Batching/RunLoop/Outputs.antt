-- ===== src/Batching/RunLoop/Outputs.antt =====
-- What no event undoes: the outputs of the requests.
use nano_kube_llm_server.Prelude.{
  ℕ, ◌<◌, ◌≡◌, refl, sym, ap, subst, ◌∙◌, true, List, [], ◌∷◌, ◌++◌, Option, none, append-nil,
  append_assoc, ltb, ◌==◌, arith, Bool-cases, inl, inr, is_empty,
}
use nano_kube_llm_server.Runners.Interface.{Outcome, rows, raised, ModelRunner}
use nano_kube_llm_server.Batching.Sequences.{
  Sequence, Heap, Finish, update, emit, deliver, is_finished, is_set, cancelled, error,
}
use nano_kube_llm_server.Batching.Sequences.Heaps.{
  update_self, update_other, emit-core, emit-finish_reason, deliver-core,
}
use nano_kube_llm_server.Batching.Scheduler.Tokens.{record_token-core}
use nano_kube_llm_server.Batching.Scheduler.{
  State, schedule, postprocess, record_token, reason_after, fail_one, fail_each, fail_all, has_work,
}
use nano_kube_llm_server.Batching.Scheduler.WellFormed.Submits.{submit-old, submit-next_id}
use nano_kube_llm_server.Batching.Scheduler.WellFormed.Aborts.{aborted, abort-keeps, abort-running}
use nano_kube_llm_server.Batching.RunLoop.{
  Phase, ready, executing, dead, Server, casualties, survivors, record_rows, launch, begin_tick,
  end_tick, tick_at, cancel_at, Event, ticks, loop_cancelled, submits, gives_up, delivers, step,
  run,
}
use nano_kube_llm_server.Batching.RunLoop.Grows.{abort_each-keeps, abort_each-next_id}

-- What every write to a sequence keeps.
pub record IsKept (P : Sequence → Type 0) : Type 0 where
  pub aborts : (reason : Finish) (s : Sequence) → is_set reason ≡ true → P s → P (aborted reason s)
  pub records : (token : ℕ) (s : Sequence) → P s → P (record_token s token)
  pub fails : (s : Sequence) → P s → P (fail_one s)
  pub delivers : (s : Sequence) → P s → P (deliver s)

module _ (P : Sequence → Type 0) where
  pub update-keeps :
      (h : Heap) (i j : ℕ) (s : Sequence) → (P (h i) → P s) → P (h j) → P (update h i s j)
  update-keeps h i j s keep p = elim (Bool-cases (i == j)) [
    | inl hit ↦
        let e : i ≡ j = ground arith in
        subst (λ k. P (update h i s k)) e
          (subst P (sym (update_self h i s)) (keep (subst (λ k. P (h k)) (sym e) p)))
    | inr miss ↦ subst P (sym (update_other h i j s miss)) p
  ]

  fail_each-keeps :
      (h : Heap) (is : List ℕ) (j : ℕ)
      → ((s : Sequence) → P s → P (fail_one s))
      → P (h j)
      → P (fail_each h is j)
  unfolding fail_each
  fail_each-keeps h [] j fails p = p
  fail_each-keeps h (i ∷ is) j fails p =
      fail_each-keeps (update h i (fail_one (h i))) is j fails
        (update-keeps h i j _ (fails (h i)) p)

  pub fail_all-keeps :
      (st : State) (j : ℕ)
      → ((s : Sequence) → P s → P (fail_one s))
      → P (st.heap j)
      → P ((fail_all st).0.heap j)
  unfolding fail_all
  fail_all-keeps st j fails p = fail_each-keeps st.heap _ j fails p

  module _ (kept : IsKept P) where
    postprocess-keeps :
        (h : Heap) (rows : List (ℕ × ℕ)) (j : ℕ) → P (h j) → P ((postprocess h rows).0 j)
    unfolding postprocess
    postprocess-keeps h [] j p = p
    postprocess-keeps h ((i, token) ∷ rest) j p =
        postprocess-keeps (update h i (record_token (h i) token)) rest j
          (update-keeps h i j _ (kept.records token (h i)) p)

    pub record_rows-keeps :
        (st : State) (batch : List ℕ) (next_ids : List (Option ℕ)) (j : ℕ)
        → P (st.heap j)
        → P ((record_rows st batch next_ids).heap j)
    unfolding record_rows
    record_rows-keeps st batch next_ids j p =
        postprocess-keeps _ (survivors batch next_ids) j (
          abort_each-keeps P st (casualties batch next_ids) j (λ s q. kept.aborts error s refl q) p)

-- `j` was created, and what it holds satisfies P.
abbrev pub Holding : {R : Type 0} → (Sequence → Type 0) → ℕ → Server R → Type 0
Holding P j m = (j < m.next_id) × P (m.heap j)

module _ {R : Type 0} (ops : ModelRunner R) (P : Sequence → Type 0) (kept : IsKept P) (j : ℕ) where
  begin_tick-Holding : (m : Server R) → Holding P j m → Holding P j (begin_tick ops m)
  unfolding begin_tick launch schedule
  begin_tick-Holding m p = elim (Bool-cases (has_work m.state)) [
    | inl work ↦ rw work (elim (Bool-cases (is_empty (schedule m.state).running)) [
      | inl nothing ↦ rw nothing p
      | inr something ↦ rw something p
    ])
    | inr idle ↦ rw idle p
  ]

  end_tick-Holding :
      (m : Server R) (batch current : List ℕ) (outcome : Outcome)
      → Holding P j m
      → Holding P j (end_tick ops m batch current outcome)
  unfolding end_tick record_rows fail_all
  end_tick-Holding m batch current (rows next_ids) (k, p) = (
    subst (λ n. j < n) (sym (abort_each-next_id m.state (casualties batch next_ids))) k,
    record_rows-keeps P kept m.state batch next_ids j p,
  )
  end_tick-Holding m batch current raised (k, p) = (k, fail_all-keeps P m.state j kept.fails p)

  tick_at-Holding : (m : Server R) (p : Phase) → Holding P j m → Holding P j (tick_at ops m p)
  unfolding tick_at
  tick_at-Holding m ready p = begin_tick-Holding m p
  tick_at-Holding m (executing batch current outcome) p = end_tick-Holding m batch current outcome p
  tick_at-Holding m dead p = p

  cancel_at-Holding : (m : Server R) (p : Phase) → Holding P j m → Holding P j (cancel_at ops m p)
  unfolding cancel_at fail_all
  cancel_at-Holding m ready p = p
  cancel_at-Holding m (executing batch current outcome) (k, p) =
      (k, fail_all-keeps P m.state j kept.fails p)
  cancel_at-Holding m dead p = p

  pub step-Holding : (m : Server R) (e : Event) → Holding P j m → Holding P j (step ops m e)
  unfolding step
  step-Holding m ticks p = tick_at-Holding m m.phase p
  step-Holding m loop_cancelled p = cancel_at-Holding m m.phase p
  step-Holding m (submits q) (k, p) =
      (omega (arith, submit-next_id m.state q), subst P (sym (submit-old m.state q j k)) p)
  step-Holding m (gives_up i) (k, p) = elim (Bool-cases (ltb i m.next_id)) [
    | inl known ↦ rw known (
      omega (arith, (abort-running m.state i cancelled).1),
      abort-keeps P m.state i j cancelled (λ s q. kept.aborts cancelled s refl q) p,
    )
    | inr unknown ↦ rw unknown (k, p)
  ]
  step-Holding m (delivers i) (k, p) = elim (Bool-cases (ltb i m.next_id)) [
    | inl known ↦ rw known (k, update-keeps P m.heap i j _ (kept.delivers (m.heap i)) p)
    | inr unknown ↦ rw unknown (k, p)
  ]

  pub run-Holding : (m : Server R) (es : List Event) → Holding P j m → Holding P j (run ops m es)
  unfolding run
  run-Holding m [] p = p
  run-Holding m (e ∷ es) p = run-Holding (step ops m e) es (step-Holding m e p)

record_token-ended :
    (token : ℕ) (s : Sequence) → is_finished s ≡ true → is_finished (record_token s token) ≡ true
unfolding record_token reason_after emit
record_token-ended token s done = ground arith

pub fail_one-ended : (s : Sequence) → is_finished (fail_one s) ≡ true
unfolding fail_one emit
fail_one-ended s = ground arith

-- What is finished stays finished.
pub finished-IsKept : IsKept (λ s. is_finished s ≡ true)
finished-IsKept = record {
  aborts = λ reason s some_reason p. ap is_set (emit-finish_reason _ none) ∙ some_reason;
  records = record_token-ended;
  fails = λ s p. fail_one-ended s;
  delivers = λ s p. ap is_set (deliver-core s).1 ∙ p;
}

-- `ys` begins with `xs`.
abbrev pub Prefix : List ℕ → List ℕ → Type 0
Prefix xs ys = (more : List ℕ) × (ys ≡ xs ++ more)

record_token-output_ids :
    (token : ℕ) (s : Sequence) → (record_token s token).output_ids ≡ s.output_ids ++ token ∷ []
record_token-output_ids token s = ap (λ c. c.output_ids) (record_token-core s token)

fail_one-output_ids : (s : Sequence) → (fail_one s).output_ids ≡ s.output_ids
unfolding fail_one emit
fail_one-output_ids s = ground arith

pub Prefix-IsKept : (seen : List ℕ) → IsKept (λ s. Prefix seen s.output_ids)
Prefix-IsKept seen = record {
  aborts = λ reason s some_reason (more, e). (more, ap (λ c. c.output_ids) (emit-core _ none) ∙ e);
  records = λ token s (more, e). (
    more ++ token ∷ [],
    record_token-output_ids token s
        ∙ ap (λ o. o ++ token ∷ []) e
        ∙ append_assoc seen more (token ∷ []),
  );
  fails = λ s (more, e). (more, fail_one-output_ids s ∙ e);
  delivers = λ s (more, e). (more, ap (λ c. c.output_ids) (deliver-core s).0 ∙ e);
}

-- After any events the output of a request that was there begins with the output that it had.
pub run-Prefix :
    {R : Type 0} (ops : ModelRunner R) (m : Server R) (es : List Event) (i : ℕ)
    → i < m.next_id
    → Prefix (m.heap i).output_ids ((run ops m es).heap i).output_ids
run-Prefix ops m es i k =
    (run-Holding ops _ (Prefix-IsKept (m.heap i).output_ids) i m es
      (k, ([], sym (append-nil (m.heap i).output_ids)))).1
