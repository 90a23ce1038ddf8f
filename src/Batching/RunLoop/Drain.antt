-- ===== src/Batching/RunLoop/Drain.antt =====
-- How many iterations run_loop needs to finish the requests that it has.
pub mod Counts
pub mod Bounds
use nano_kube_llm_server.Prelude.{
  ℕ, suc, ◌+◌, ◌*◌, ◌-◌, ◌<◌, ◌≤◌, ◌≡◌, ◌≢◌, refl, sym, ap, subst, ◌∙◌, ◌⊎◌, inl, inr, true, false,
  List, [], ◌∷◌, Option, none, some, ℤ, pos, ◌≤ℤ◌, length, elem, ltb, is_empty, All, All-append,
  All-map, not, ◌||◌, arith, Bool-cases, IsDistinct, ◌==◌, if◌then◌else◌, ◌++◌,
}
use nano_kube_llm_server.Runners.Interface.{ForwardBatch, Outcome, rows, raised, ModelRunner}
use nano_kube_llm_server.Batching.Sequences.{Sequence, Heap, is_finished, cancelled, error, deliver}
use nano_kube_llm_server.Batching.Sequences.Heaps.{IsDistinct→Halves}
use nano_kube_llm_server.Batching.Scheduler.{State, schedule, has_work, abort, fail_all, modify}
use nano_kube_llm_server.Batching.Scheduler.Admission.{schedule_progress}
use nano_kube_llm_server.Batching.Scheduler.WellFormed.{HasBudget, IsWellFormed}
use nano_kube_llm_server.Batching.Scheduler.WellFormed.Aborts.{abort-running}
use nano_kube_llm_server.Batching.Scheduler.WellFormed.Failures.{fail_all-finishes}
use nano_kube_llm_server.Batching.Scheduler.WellFormed.Schedules.{schedule-IsWellFormed}
use nano_kube_llm_server.Batching.RunLoop.{
  Phase, ready, executing, dead, Server, launch, begin_tick, end_tick, tick_at, record_rows,
  casualties, Event, ticks, loop_cancelled, submits, gives_up, delivers, step, run, start,
}
use nano_kube_llm_server.Batching.RunLoop.Rows.{All-elem}
use nano_kube_llm_server.Batching.RunLoop.Ticks.{schedule-going}
use nano_kube_llm_server.Batching.RunLoop.Safety.{Awaits, PhaseFits, IsSafe}
use nano_kube_llm_server.Batching.RunLoop.Grows.{abort_each-next_id}
use nano_kube_llm_server.Batching.RunLoop.Caching.{active-known}
use nano_kube_llm_server.Batching.RunLoop.Entries.{EachEntry, after_entry, record_rows-EachEntry}
use nano_kube_llm_server.Batching.RunLoop.Outputs.{record_rows-keeps, step-Holding}
use nano_kube_llm_server.Batching.RunLoop.Owed.{
  owed_by, owed, owed-fewer, owed-drops, owed-ended, owed-at, owed_by-going, owed_by-ended,
  record_token-owes, failed_row-owes, owed-IsKept,
}
use nano_kube_llm_server.Batching.RunLoop.Owed.Ended.{
  owed_in, all-finished, finished-all, entry-owes,
}

-- The number of ticks after which nothing is owed is at most `n`. A batch on the worker thread counts
-- as half a step where it has an unfinished request.
abbrev pub Within : State → ℕ → Phase → Type 0
Within st n ready = 2 * owed_in st ≤ n
Within st n (executing batch current outcome) =
    (2 * owed_in st + 1 ≤ n)
    ⊎ ((j : ℕ) × (elem j batch ≡ true)
        × (is_finished (st.heap j) ≡ false)
        × (2 * owed_in st ≤ n + 1))
Within st n dead = owed_in st ≡ 0

empty_list : (is : List ℕ) → is_empty is ≡ true → is ≡ []
empty_list [] e = refl
empty_list (i ∷ is) e = cc

nothing_scheduled :
    (st : State)
    → IsWellFormed st
    → pos 1 ≤ℤ st.max_batch_size
    → is_empty (schedule st).running ≡ true
    → owed_in st ≡ 0
unfolding schedule
nothing_scheduled st w room nothing = elim (schedule_progress st room) [
  | inl some_running ↦ absurd (some_running (empty_list _ nothing))
  | inr idle ↦ all-finished (schedule st) (schedule-IsWellFormed st w) idle
]

first_of :
    (P : ℕ → Type 0) (is : List ℕ)
    → is_empty is ≡ false
    → All P is
    → (j : ℕ) × (elem j is ≡ true) × P j
unfolding elem
first_of P [] e a = cc
first_of P (i ∷ is) e a = (i, ground arith, a.0)

record_rows-owes :
    (st : State) (batch : List ℕ) (next_ids : List (Option ℕ)) (i : ℕ)
    → owed_by ((record_rows st batch next_ids).heap i) ≤ owed_by (st.heap i)
record_rows-owes st batch next_ids i =
    record_rows-keeps _ (owed-IsKept (owed_by (st.heap i))) st batch next_ids i (omega arith)

-- A tick's tokens make what is owed less if its batch has an unfinished request.
record_rows-Within :
    (st : State) (n : ℕ) (batch current : List ℕ) (next_ids : List (Option ℕ))
    → IsWellFormed st
    → Awaits st batch current
    → length next_ids ≡ length batch
    → Within st n (executing batch current (rows next_ids))
    → 2 * owed_in (record_rows st batch next_ids) ≤ n - 1
unfolding record_rows
record_rows-Within st n batch current next_ids w a each bound =
    let h' = (record_rows st batch next_ids).heap in
    let same = abort_each-next_id st (casualties batch next_ids) in
    let le : (i : ℕ) → i < st.next_id → owed_by (h' i) ≤ owed_by (st.heap i) =
      λ i k. record_rows-owes st batch next_ids i in
    rw same (elim bound [
      | inl slack ↦ omega (arith, owed-fewer st.heap h' st.next_id le)
      | inr (j, hit, going, slack) ↦
          let distinct = subst IsDistinct a.held (IsDistinct→Halves _ _ w.distinct).left in
          let known = All-elem _ j batch (subst (All _) a.held (active-known st w)) hit in
          let less =
            entry-owes st.heap h' batch next_ids j each
              (record_rows-EachEntry st batch next_ids distinct) hit going
              (All-elem _ j batch a.budget hit) in
          omega (arith, owed-drops st.heap h' st.next_id j le known less)
    ])

module _ {R : Type 0} (ops : ModelRunner R) where
  -- No event makes what is owed more, unless it creates a request.
  pub step-owes :
      (m : Server R) (e : Event)
      → (step ops m e).next_id ≡ m.next_id
      → ((i : ℕ) → i < m.next_id → owed_by ((step ops m e).heap i) ≤ owed_by (m.heap i))
  step-owes m e same i k =
      (step-Holding ops (λ s. owed_by s ≤ owed_by (m.heap i)) (owed-IsKept (owed_by (m.heap i))) i m
        e (k, omega arith)).1

  pub begin_tick-Within :
      (m : Server R) (n : ℕ)
      → m.phase ≡ ready
      → IsSafe m
      → pos 1 ≤ℤ m.max_batch_size
      → 2 * owed_in m.state ≤ n
      → Within (begin_tick ops m).state (n - 1) (begin_tick ops m).phase
  unfolding begin_tick launch schedule
  begin_tick-Within m n at v room bound = elim (Bool-cases (has_work m.state)) [
    | inr idle ↦ rw (idle, at) (omega (arith, all-finished m.state v.well idle))
    | inl work ↦ rw work (elim (Bool-cases (is_empty (schedule m.state).running)) [
      | inl nothing ↦
          rw (nothing, at) (omega (arith, nothing_scheduled m.state v.well room nothing))
      | inr something ↦
          let (j, hit, going) = first_of _ _ something (schedule-going m.state v.well) in
          rw something (inr (j, hit, going.0, omega arith))
    ])
  ]

  pub end_tick-Within :
      (m : Server R) (n : ℕ) (batch : List ℕ) (current : List ℕ) (outcome : Outcome)
      → IsSafe m
      → m.phase ≡ executing batch current outcome
      → ((next_ids : List (Option ℕ)) → outcome ≡ rows next_ids → length next_ids ≡ length batch)
      → Within m.state n (executing batch current outcome)
      → Within
          (end_tick ops m batch current outcome).state
          (n - 1)
          (end_tick ops m batch current outcome).phase
  unfolding end_tick fail_all
  end_tick-Within m n batch current (rows next_ids) v at each bound =
      record_rows-Within m.state n batch current next_ids v.well
        (subst (PhaseFits m.state) at v.fits) (each next_ids refl) bound
  end_tick-Within m n batch current raised v at each bound =
      owed-ended _ _ (fail_all-finishes m.state v.well)
