-- ===== src/Batching/RunLoop/Coherence.antt =====
-- run_loop and a caching runner: when the loop says that a tick is not a prefill.
use nano_kube_llm_server.Prelude.{
  ℕ, ◌<◌, ◌≡◌, ◌≢◌, refl, sym, ap₂, subst, ◌∙◌, ◌⊎◌, inl, inr, true, false, not, List, [], ◌∷◌, map,
  Option, ltb, length, length-map, All, All-map, All-both, IsDistinct, arith, Bool-cases, is_empty,
  ℤ,
}
use nano_kube_llm_server.Runners.Interface.{Outcome, rows, raised, ModelRunner, Extends}
use nano_kube_llm_server.Batching.Sequences.{Sequence, Heap, is_finished, cancelled, deliver}
use nano_kube_llm_server.Batching.Sequences.Heaps.{IsDistinct→Halves}
use nano_kube_llm_server.Batching.Scheduler.{State, schedule, abort, has_work, modify}
use nano_kube_llm_server.Batching.Scheduler.WellFormed.{IsWellFormed}
use nano_kube_llm_server.Batching.Scheduler.WellFormed.Schedules.{schedule-IsWellFormed}
use nano_kube_llm_server.Batching.Scheduler.WellFormed.Submits.{submit-old, submit-next_id}
use nano_kube_llm_server.Batching.Scheduler.WellFormed.Aborts.{abort-running}
use nano_kube_llm_server.Batching.RunLoop.{
  Phase, ready, executing, dead, Server, same_ids, submit, launch, begin_tick, end_tick, tick_at,
  cancel_at, casualties, record_rows, Event, ticks, loop_cancelled, submits, gives_up, delivers,
  step, run, start,
}
use nano_kube_llm_server.Batching.RunLoop.Ticks.{schedule-going}
use nano_kube_llm_server.Batching.RunLoop.Safety.{
  Awaits, PhaseFits, ids-named, step-IsSafe, start-IsSafe,
}
use nano_kube_llm_server.Batching.RunLoop.Rows.{elem_self}
use nano_kube_llm_server.Batching.RunLoop.Grows.{
  abort_each-next_id, Grown, Quiet, SameTokens-Grown, Grown-Extends, SameTokens-map, abort-Quiet,
  deliver-Quiet,
}
use nano_kube_llm_server.Batching.RunLoop.Recorded.{record_rows-OneMore}
use nano_kube_llm_server.Batching.RunLoop.Caching.{
  IsCaching, PhaseKept, IsCoherent, KeptIn, active-known, PhaseKept-Quiet,
}

same_ids-≡ : (is js : List ℕ) → same_ids is js ≡ true → is ≡ js
unfolding same_ids
same_ids-≡ [] [] e = refl
same_ids-≡ [] (j ∷ js) e = cc
same_ids-≡ (i ∷ is) [] e = cc
same_ids-≡ (i ∷ is) (j ∷ js) e =
    let first : i ≡ j = ground arith in
    let rest : same_ids is js ≡ true = ground arith in ap₂ ◌∷◌ first (same_ids-≡ is js rest)

Grown-some : (h : Heap) (ss : List Sequence) (is : List ℕ) → Grown h ss is → is ≢ [] → ss ≢ []
Grown-some h [] [] g e = absurd (e refl)
Grown-some h [] (i ∷ is) g e = absurd g
Grown-some h (s ∷ ss) is g e = λ f. cc

module _ {R : Type 0} (ops : ModelRunner R) (caching : IsCaching ops) where
  open caching use {Kept, execute_keeps}

  started :
      (st : State) (members current : List ℕ) (r : R) (outcome : Outcome)
      → ((tokens : List (Option ℕ))
          → outcome ≡ rows tokens
          → Kept r (map st.heap st.running)
            × caching.Answered (map st.heap st.running) tokens
            × (length tokens ≡ length (map st.heap st.running)))
      → PhaseKept ops caching st members r (executing st.running current outcome)
  started st members current r (rows tokens) k =
      let (kept, answers, n) = k tokens refl in
      (
        map st.heap st.running,
        kept,
        SameTokens-map st.heap st.running,
        answers,
        n ∙ length-map st.running st.heap,
      )
  started st members current r raised k = tt

  -- The members did not change, so the batch extends the one that is kept.
  launch-mode :
      (m : Server R) (st : State) (is : List ℕ)
      → PhaseKept ops caching st m.members m.runner ready
      → All (λ i. (st.heap i).id ≡ i) is
      → All (λ i. is_finished (st.heap i) ≡ false) is
      → is ≢ []
      → (not (same_ids (map (λ i. (st.heap i).id) is) m.members) ≡ true)
        ⊎ ((before : List Sequence) × Kept m.runner before
            × Extends before (map st.heap is)
            × (before ≢ []))
  launch-mode m st is kept named going some_is =
      elim (Bool-cases (same_ids (map (λ i. (st.heap i).id) is) m.members)) [
        | inl same ↦
            let e : is ≡ m.members = sym (ids-named st.heap is named) ∙ same_ids-≡ _ _ same in
            elim kept [
              | inl none_kept ↦ absurd (some_is (e ∙ none_kept))
              | inr (before, k, g, known) ↦
                  let g' = subst (Grown st.heap before) (sym e) g in
                  inr (
                    before,
                    k,
                    Grown-Extends st.heap before is going g',
                    Grown-some st.heap before is g' some_is,
                  )
            ]
        | inr changed ↦ inl (rw changed refl)
      ]

  launch-kept :
      (m : Server R) (st : State)
      → IsWellFormed st
      → PhaseKept ops caching st m.members m.runner ready
      → All (λ i. is_finished (st.heap i) ≡ false) st.running
      → st.running ≢ []
      → KeptIn ops caching (launch ops m st)
  unfolding launch
  launch-kept m st w kept going some_running =
      let named = All-map st.running (λ i a. (w.sound i a.0).named) w.active in
      let current = map (λ i. (st.heap i).id) st.running in
      let is_prefill = not (same_ids current m.members) in
      let (outcome, r) =
        ops.execute m.runner (record { seqs = map st.heap st.running; is_prefill = is_prefill }) in
      started st m.members current r outcome (λ tokens e.
        execute_keeps m.runner _ tokens (launch-mode m st st.running kept named going some_running)
          e)

  begin_tick-kept :
      (m : Server R)
      → m.phase ≡ ready
      → IsCoherent ops caching m
      → KeptIn ops caching (begin_tick ops m)
  unfolding begin_tick schedule
  begin_tick-kept m at_start v =
      let st = schedule m.state in
      let w = schedule-IsWellFormed m.state v.safe.well in
      let going = schedule-going m.state v.safe.well in
      elim (Bool-cases (has_work m.state)) [
        | inl work ↦ rw work (elim (Bool-cases (is_empty (schedule m.state).running)) [
          | inl nothing ↦ rw (nothing, at_start) (inl refl)
          | inr something ↦ rw something (
              launch-kept m st w
                (subst (PhaseKept ops caching m.state m.members m.runner) at_start v.kept)
                (All-map _ (λ i g. g.0) going) (λ e. cc))
        ])
        | inr idle ↦ rw idle v.kept
      ]

  end_tick-kept :
      (m : Server R) (batch current : List ℕ) (outcome : Outcome)
      → IsWellFormed m.state
      → Awaits m.state batch current
      → PhaseKept ops caching m.state m.members m.runner (executing batch current outcome)
      → KeptIn ops caching (end_tick ops m batch current outcome)
  unfolding end_tick record_rows
  end_tick-kept m batch current (rows next_ids) w a (seqs, k, same, answers, n) =
      let distinct =
        subst IsDistinct a.held (IsDistinct→Halves m.running m.waiting w.distinct).left in
      let known = subst (All (λ i. i < m.next_id)) a.held (active-known m.state w) in
      let h' = (record_rows m.state batch next_ids).heap in
      let grown =
        SameTokens-Grown m.heap h' seqs batch
          (All-map batch
            (λ j p. record_rows-OneMore m.state batch next_ids distinct n j (w.sound j p.0) p.1)
            (All-both _ _ batch known (elem_self batch)))
          same in
      inr (
        seqs,
        k,
        subst (Grown h' seqs) (sym a.named) grown,
        subst (All _) (sym a.named) (
            subst (λ next. All (λ i. i < next) batch)
              (sym (abort_each-next_id m.state (casualties batch next_ids))) known),
      )
  end_tick-kept m batch current raised w a kept = tt

  tick_at-kept :
      (m : Server R) (p : Phase)
      → m.phase ≡ p
      → IsCoherent ops caching m
      → KeptIn ops caching (tick_at ops m p)
  unfolding tick_at
  tick_at-kept m ready e v = begin_tick-kept m e v
  tick_at-kept m (executing batch current outcome) e v =
      end_tick-kept m batch current outcome v.safe.well (subst (PhaseFits m.state) e v.safe.fits)
        (subst (PhaseKept ops caching m.state m.members m.runner) e v.kept)
  tick_at-kept m dead e v = v.kept

  cancel_at-kept :
      (m : Server R) (p : Phase) → IsCoherent ops caching m → KeptIn ops caching (cancel_at ops m p)
  unfolding cancel_at
  cancel_at-kept m ready v = tt
  cancel_at-kept m (executing batch current outcome) v = tt
  cancel_at-kept m dead v = v.kept

  pub step-kept :
      (m : Server R) (e : Event) → IsCoherent ops caching m → KeptIn ops caching (step ops m e)
  unfolding step
  step-kept m ticks v = tick_at-kept m m.phase refl v
  step-kept m loop_cancelled v = cancel_at-kept m m.phase v
  step-kept m (submits p) v =
      PhaseKept-Quiet ops caching m.state (submit m.state p) m.members m.runner m.phase v.safe.well
        v.safe.fits (omega (arith, submit-next_id m.state p))
        (λ j k. subst (Quiet (m.heap j)) (sym (submit-old m.state p j k)) (refl, λ f. f)) v.kept
  step-kept m (gives_up i) v = elim (Bool-cases (ltb i m.next_id)) [
    | inl known ↦ rw known (
        PhaseKept-Quiet ops caching m.state (abort m.state i cancelled) m.members m.runner m.phase
          v.safe.well v.safe.fits (omega (arith, (abort-running m.state i cancelled).1))
          (λ j k. abort-Quiet m.state i j cancelled refl) v.kept)
    | inr unknown ↦ rw unknown v.kept
  ]
  step-kept m (delivers i) v = elim (Bool-cases (ltb i m.next_id)) [
    | inl known ↦ rw known (
        PhaseKept-Quiet ops caching m.state (modify m.state i deliver) m.members m.runner m.phase
          v.safe.well v.safe.fits (omega arith) (λ j k. deliver-Quiet m.state i j) v.kept)
    | inr unknown ↦ rw unknown v.kept
  ]

  pub run-IsCoherent :
      (m : Server R) (es : List Event)
      → IsCoherent ops caching m
      → IsCoherent ops caching (run ops m es)
  unfolding run
  run-IsCoherent m [] v = v
  run-IsCoherent m (e ∷ es) v =
      run-IsCoherent (step ops m e) es
        (record { safe = step-IsSafe ops m e v.safe; kept = step-kept m e v })

  -- Whatever happens, in whatever order, from the start: a tick that is not a prefill extends the batch
  -- that the runner keeps, so while a tick's tokens are on their way its batch is kept, they answer it,
  -- there is an entry for each of its rows, and its requests have the tokens that the runner was given.
  pub run-start-IsCoherent :
      (runner : R) (max_batch_size max_batch_tokens : ℤ) (es : List Event)
      → IsCoherent ops caching (run ops (start runner max_batch_size max_batch_tokens) es)
  unfolding start
  run-start-IsCoherent runner max_batch_size max_batch_tokens es =
      run-IsCoherent _ es
        (record { safe = start-IsSafe runner max_batch_size max_batch_tokens; kept = inl refl })
