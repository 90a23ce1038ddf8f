-- ===== src/Batching/RunLoop/Upheld.antt =====
-- Every P event keeps a stable property of requests, with any runner whose tokens may follow.
use nano_kube_llm_server.Prelude.{
  ℕ, ◌<◌, ◌≡◌, refl, sym, subst, inl, inr, List, [], ◌∷◌, Option, ℤ, elem, ltb, length, All,
  All-map, All-both, IsDistinct, Bool-cases, is_empty,
}
use nano_kube_llm_server.Runners.Interface.{Outcome, rows, raised, ModelRunner}
use nano_kube_llm_server.Batching.Sequences.{Sequence, cancelled, deliver}
use nano_kube_llm_server.Batching.Sequences.Heaps.{Core, IsDistinct→Halves}
use nano_kube_llm_server.Batching.Scheduler.{State, schedule, abort, fail_all, modify, has_work}
use nano_kube_llm_server.Batching.Scheduler.WellFormed.{HasBudget, IsWellFormed}
use nano_kube_llm_server.Batching.Scheduler.WellFormed.Schedules.{schedule-IsWellFormed}
use nano_kube_llm_server.Batching.Scheduler.WellFormed.Submits.{submit-old}
use nano_kube_llm_server.Batching.Scheduler.WellFormed.Aborts.{abort-keeps, abort-running}
use nano_kube_llm_server.Batching.RunLoop.{
  Phase, ready, executing, dead, Server, submit, launch, begin_tick, end_tick, tick_at, cancel_at,
  record_rows, casualties, Event, ticks, loop_cancelled, submits, gives_up, delivers, step, run,
  start,
}
use nano_kube_llm_server.Batching.RunLoop.Rows.{All-elem}
use nano_kube_llm_server.Batching.RunLoop.Ticks.{schedule-going}
use nano_kube_llm_server.Batching.RunLoop.Safety.{PhaseFits, step-IsSafe}
use nano_kube_llm_server.Batching.RunLoop.Grows.{SameTokens, abort_each-next_id}
use nano_kube_llm_server.Batching.RunLoop.Entries.{record_rows-EachEntry, record_rows-SameOutside}
use nano_kube_llm_server.Batching.RunLoop.Caching.{IsCaching, PhaseKept, IsCoherent, active-known}
use nano_kube_llm_server.Batching.RunLoop.Coherence.{step-kept, run-start-IsCoherent}
use nano_kube_llm_server.Batching.RunLoop.Outputs.{fail_all-keeps, update-keeps}
use nano_kube_llm_server.Batching.RunLoop.Requests.{Answers, Answers-at, IsStable}
use nano_kube_llm_server.Batching.RunLoop.Opened.{
  PhaseOpen, PhaseOpen-keeps, Every, after_failed, submit-Every,
}

module _ {R : Type 0} (ops : ModelRunner R) (caching : IsCaching ops) (Follows : Core → ℕ → Type 0)
    (answers : (seqs : List Sequence) (tokens : List (Option ℕ))
      → caching.Answered seqs tokens
      → Answers Follows seqs tokens)
    (P Open : Sequence → Type 0) (stable : IsStable Follows P Open) where
  record IsUpheld (m : Server R) : Type 0 where
    coherent : IsCoherent ops caching m
    every : Every P m.state
    opened : PhaseOpen Open m.state m.phase

  record_rows-Every :
      (st : State) (batch : List ℕ) (next_ids : List (Option ℕ)) (seqs : List Sequence)
      → IsWellFormed st
      → IsDistinct batch
      → All (λ i. HasBudget (st.heap i)) batch
      → SameTokens st.heap seqs batch
      → Answers Follows seqs next_ids
      → length next_ids ≡ length batch
      → Every P st
      → All (λ i. Open (st.heap i)) batch
      → Every P (record_rows st batch next_ids)
  unfolding record_rows
  record_rows-Every st batch next_ids seqs w distinct budget same a n every opened i k =
      let known = subst (λ next. i < next) (abort_each-next_id st (casualties batch next_ids)) k in
      elim (Bool-cases (elem i batch)) [
        | inl hit ↦
            elim (Answers-at Follows st.heap _ i seqs batch next_ids same a n
              (record_rows-EachEntry st batch next_ids distinct) hit) [
                | inl dropped ↦
                    subst P (sym dropped) (after_failed stable (st.heap i) (every i known))
                | inr (token, follows, recorded) ↦ subst P (sym recorded) (
                    stable.records i token (st.heap i) (w.sound i known)
                      (All-elem _ i batch budget hit) (every i known)
                      (All-elem _ i batch opened hit) follows)
              ]
        | inr miss ↦
            subst P (sym (record_rows-SameOutside st batch next_ids i miss)) (every i known)
      ]

  end_tick-Every :
      (m : Server R) (batch current : List ℕ) (outcome : Outcome)
      → m.phase ≡ executing batch current outcome
      → IsUpheld m
      → Every P (end_tick ops m batch current outcome).state
  unfolding end_tick fail_all
  end_tick-Every m batch current (rows next_ids) e v i k =
      let w = v.coherent.safe.well in
      let awaits = subst (PhaseFits m.state) e v.coherent.safe.fits in
      let (seqs, kept, same, given, n) =
        subst (PhaseKept ops caching m.state m.members m.runner) e v.coherent.kept in
      let distinct =
        subst IsDistinct awaits.held (IsDistinct→Halves m.running m.waiting w.distinct).left in
      record_rows-Every m.state batch next_ids seqs w distinct awaits.budget same
        (answers seqs next_ids given) n v.every (subst (PhaseOpen Open m.state) e v.opened) i k
  end_tick-Every m batch current raised e v i k =
      fail_all-keeps P m.state i stable.fails (v.every i k)

  begin_tick-Every : (m : Server R) → IsUpheld m → Every P (begin_tick ops m).state
  unfolding begin_tick launch schedule
  begin_tick-Every m v = elim (Bool-cases (has_work m.state)) [
    | inl work ↦ rw work (elim (Bool-cases (is_empty (schedule m.state).running)) [
      | inl nothing ↦ rw nothing v.every
      | inr something ↦ rw something v.every
    ])
    | inr idle ↦ rw idle v.every
  ]

  begin_tick-open :
      (m : Server R)
      → m.phase ≡ ready
      → IsUpheld m
      → PhaseOpen Open (begin_tick ops m).state (begin_tick ops m).phase
  unfolding begin_tick launch schedule
  begin_tick-open m at_start v =
      let going = schedule-going m.state v.coherent.safe.well in
      elim (Bool-cases (has_work m.state)) [
        | inl work ↦ rw work (elim (Bool-cases (is_empty (schedule m.state).running)) [
          | inl nothing ↦ rw (nothing, at_start) tt
          | inr something ↦ rw something (
              All-map _ (λ i q. stable.opens (m.heap i) (v.every i q.0) q.1.0)
                (All-both _ _ _
                  (active-known (schedule m.state)
                    (schedule-IsWellFormed m.state v.coherent.safe.well))
                  going))
        ])
        | inr idle ↦ rw (idle, at_start) tt
      ]

  tick_at-Every :
      (m : Server R) (p : Phase) → m.phase ≡ p → IsUpheld m → Every P (tick_at ops m p).state
  unfolding tick_at
  tick_at-Every m ready e v = begin_tick-Every m v
  tick_at-Every m (executing batch current outcome) e v = end_tick-Every m batch current outcome e v
  tick_at-Every m dead e v = v.every

  end_tick-open :
      (m : Server R) (batch current : List ℕ) (outcome : Outcome)
      → PhaseOpen Open
          (end_tick ops m batch current outcome).state
          (end_tick ops m batch current outcome).phase
  unfolding end_tick
  end_tick-open m batch current (rows next_ids) = tt
  end_tick-open m batch current raised = tt

  tick_at-open :
      (m : Server R) (p : Phase)
      → m.phase ≡ p
      → IsUpheld m
      → PhaseOpen Open (tick_at ops m p).state (tick_at ops m p).phase
  unfolding tick_at
  tick_at-open m ready e v = begin_tick-open m e v
  tick_at-open m (executing batch current outcome) e v = end_tick-open m batch current outcome
  tick_at-open m dead e v = v.opened

  cancel_at-Every : (m : Server R) (p : Phase) → IsUpheld m → Every P (cancel_at ops m p).state
  unfolding cancel_at fail_all
  cancel_at-Every m ready v i k = v.every i k
  cancel_at-Every m (executing batch current outcome) v i k =
      fail_all-keeps P m.state i stable.fails (v.every i k)
  cancel_at-Every m dead v i k = v.every i k

  cancel_at-open :
      (m : Server R) (p : Phase)
      → IsUpheld m
      → PhaseOpen Open (cancel_at ops m p).state (cancel_at ops m p).phase
  unfolding cancel_at
  cancel_at-open m ready v = tt
  cancel_at-open m (executing batch current outcome) v = tt
  cancel_at-open m dead v = v.opened

  step-Every : (m : Server R) (e : Event) → IsUpheld m → Every P (step ops m e).state
  unfolding step
  step-Every m ticks v = tick_at-Every m m.phase refl v
  step-Every m loop_cancelled v = cancel_at-Every m m.phase v
  step-Every m (submits p) v = submit-Every stable m.state p v.every
  step-Every m (gives_up i) v = elim (Bool-cases (ltb i m.next_id)) [
    | inl known ↦ rw known (λ j k.
        abort-keeps P m.state i j cancelled (λ s. stable.aborts cancelled s (inl refl))
          (v.every j (subst (λ n. j < n) (abort-running m.state i cancelled).1 k)))
    | inr unknown ↦ rw unknown v.every
  ]
  step-Every m (delivers i) v = elim (Bool-cases (ltb i m.next_id)) [
    | inl known ↦
        rw known (λ j k. update-keeps P m.heap i j _ (stable.delivers (m.heap i)) (v.every j k))
    | inr unknown ↦ rw unknown v.every
  ]

  step-open :
      (m : Server R) (e : Event)
      → IsUpheld m
      → PhaseOpen Open (step ops m e).state (step ops m e).phase
  unfolding step
  step-open m ticks v = tick_at-open m m.phase refl v
  step-open m loop_cancelled v = cancel_at-open m m.phase v
  step-open m (submits p) v =
      PhaseOpen-keeps Open m.state (submit m.state p) m.phase v.coherent.safe.well
        v.coherent.safe.fits (λ j k. subst Open (sym (submit-old m.state p j k))) v.opened
  step-open m (gives_up i) v = elim (Bool-cases (ltb i m.next_id)) [
    | inl known ↦ rw known (
        PhaseOpen-keeps Open m.state (abort m.state i cancelled) m.phase v.coherent.safe.well
          v.coherent.safe.fits
          (λ j k.
            abort-keeps Open m.state i j cancelled (λ s. stable.open_aborts cancelled s (inl refl)))
          v.opened)
    | inr unknown ↦ rw unknown v.opened
  ]
  step-open m (delivers i) v = elim (Bool-cases (ltb i m.next_id)) [
    | inl known ↦ rw known (
        PhaseOpen-keeps Open m.state (modify m.state i deliver) m.phase v.coherent.safe.well
          v.coherent.safe.fits
          (λ j k. update-keeps Open m.heap i j _ (stable.open_delivers (m.heap i))) v.opened)
    | inr unknown ↦ rw unknown v.opened
  ]

  run-IsUpheld : (m : Server R) (es : List Event) → IsUpheld m → IsUpheld (run ops m es)
  unfolding run
  run-IsUpheld m [] v = v
  run-IsUpheld m (e ∷ es) v = run-IsUpheld (step ops m e) es (record {
    coherent = record {
      safe = step-IsSafe ops m e v.coherent.safe;
      kept = step-kept ops caching m e v.coherent;
    };
    every = step-Every m e v;
    opened = step-open m e v;
  })

  -- From the start, after any events, P holds of every request that was created.
  pub run-start-Every :
      (runner : R) (max_batch_size max_batch_tokens : ℤ) (es : List Event) (i : ℕ)
      → i < (run ops (start runner max_batch_size max_batch_tokens) es).next_id
      → P ((run ops (start runner max_batch_size max_batch_tokens) es).heap i)
  unfolding run start
  run-start-Every runner max_batch_size max_batch_tokens es i k =
      (run-IsUpheld (start runner max_batch_size max_batch_tokens) es (record {
        coherent = run-start-IsCoherent ops caching runner max_batch_size max_batch_tokens [];
        every = λ j none_yet. elim none_yet [ ];
        opened = tt;
      })).every
        i k
