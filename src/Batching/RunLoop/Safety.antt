-- ===== src/Batching/RunLoop/Safety.antt =====
-- The invariant of the running process, kept by every event.
use nano_kube_llm_server.Prelude.{
  ℕ, ◌<◌, ◌≡◌, refl, sym, ap₂, subst, ◌∙◌, inl, inr, List, [], ◌∷◌, ltb, All, All-map, All-both,
  arith, Bool-cases, map, is_empty, ℤ,
}
use nano_kube_llm_server.Runners.Interface.{Outcome, rows, raised, ModelRunner}
use nano_kube_llm_server.Batching.Sequences.{Heap, cancelled, deliver}
use nano_kube_llm_server.Batching.Scheduler.{
  State, schedule, abort, has_work, modify, new_scheduler,
}
use nano_kube_llm_server.Batching.Scheduler.WellFormed.{HasBudget, IsActive, IsWellFormed}
use nano_kube_llm_server.Batching.Scheduler.WellFormed.Schedules.{schedule-IsWellFormed}
use nano_kube_llm_server.Batching.Scheduler.WellFormed.Submits.{
  submit-IsWellFormed, submit-old, submit-running,
}
use nano_kube_llm_server.Batching.Scheduler.WellFormed.Aborts.{
  abort-IsWellFormed, abort-keeps, abort-running, aborted-HasBudget,
}
use nano_kube_llm_server.Batching.Scheduler.WellFormed.Failures.{fail_all-IsWellFormed}
use nano_kube_llm_server.Batching.Scheduler.WellFormed.Deliveries.{
  deliver-IsWellFormed, deliver-HasBudget,
}
use nano_kube_llm_server.Batching.RunLoop.{
  Phase, ready, executing, dead, Server, submit, launch, begin_tick, end_tick, tick_at, cancel_at,
  Event, ticks, loop_cancelled, submits, gives_up, delivers, step, run, start,
}
use nano_kube_llm_server.Batching.RunLoop.Ticks.{schedule-going, record_rows-IsWellFormed}

-- During a tick the batch is what `running` holds, and each of its requests may still get a token,
-- also one that its client gives up meanwhile.
pub record Awaits (st : State) (batch current : List ℕ) : Type 0 where
  pub held : st.running ≡ batch
  pub named : current ≡ batch
  pub budget : All (λ i. HasBudget (st.heap i)) batch

abbrev pub PhaseFits : State → Phase → Type 0
PhaseFits st ready = Unit {0}
PhaseFits st (executing batch current outcome) = Awaits st batch current
PhaseFits st dead = Unit {0}

pub record IsSafe {R : Type 0} (m : Server R) : Type 0 where
  pub well : IsWellFormed m.state
  pub fits : PhaseFits m.state m.phase

pub ids-named : (h : Heap) (is : List ℕ) → All (λ i. (h i).id ≡ i) is → map (λ i. (h i).id) is ≡ is
ids-named h [] a = refl
ids-named h (i ∷ is) a = ap₂ ◌∷◌ a.0 (ids-named h is a.1)

module _ {R : Type 0} (ops : ModelRunner R) where
  launch-IsSafe :
      (m : Server R) (st : State)
      → IsWellFormed st
      → All (λ i. HasBudget (st.heap i)) st.running
      → IsSafe (launch ops m st)
  unfolding launch
  launch-IsSafe m st w budget = record {
    well = w;
    fits = record {
      held = refl;
      named =
          ids-named st.heap st.running (All-map st.running (λ i a. (w.sound i a.0).named) w.active);
      budget = budget;
    };
  }

  begin_tick-IsSafe : (m : Server R) → m.phase ≡ ready → IsSafe m → IsSafe (begin_tick ops m)
  unfolding begin_tick schedule
  begin_tick-IsSafe m at_start v =
      let st = schedule m.state in
      let w = schedule-IsWellFormed m.state v.well in
      let going = schedule-going m.state v.well in
      elim (Bool-cases (has_work m.state)) [
        | inl work ↦ rw work (elim (Bool-cases (is_empty (schedule m.state).running)) [
          | inl nothing ↦
              rw nothing (record { well = w; fits = subst (PhaseFits st) (sym at_start) tt })
          | inr something ↦ rw something (launch-IsSafe m st w (All-map _ (λ i g. g.1) going))
        ])
        | inr idle ↦ rw idle v
      ]

  end_tick-IsSafe :
      (m : Server R) (batch current : List ℕ) (outcome : Outcome)
      → IsWellFormed m.state
      → Awaits m.state batch current
      → IsSafe (end_tick ops m batch current outcome)
  unfolding end_tick
  end_tick-IsSafe m batch current (rows next_ids) w a = record {
    well = record_rows-IsWellFormed m.state batch next_ids w a.held a.budget;
    fits = tt;
  }
  end_tick-IsSafe m batch current raised w a = record {
    well = fail_all-IsWellFormed m.state w;
    fits = tt;
  }

  tick_at-IsSafe : (m : Server R) (p : Phase) → m.phase ≡ p → IsSafe m → IsSafe (tick_at ops m p)
  unfolding tick_at
  tick_at-IsSafe m ready e v = begin_tick-IsSafe m e v
  tick_at-IsSafe m (executing batch current outcome) e v =
      end_tick-IsSafe m batch current outcome v.well (subst (PhaseFits m.state) e v.fits)
  tick_at-IsSafe m dead e v = v

  pub cancel_at-IsSafe : (m : Server R) (p : Phase) → IsSafe m → IsSafe (cancel_at ops m p)
  unfolding cancel_at
  cancel_at-IsSafe m ready v = record { well = v.well; fits = tt }
  cancel_at-IsSafe m (executing batch current outcome) v = record {
    well = fail_all-IsWellFormed m.state v.well;
    fits = tt;
  }
  cancel_at-IsSafe m dead v = v

-- What a request handler does between two cuts leaves the tick's batch as it needs to be.
pub PhaseFits-keeps :
    (st st' : State) (p : Phase)
    → IsWellFormed st
    → st'.running ≡ st.running
    → ((j : ℕ) → j < st.next_id → HasBudget (st.heap j) → HasBudget (st'.heap j))
    → PhaseFits st p
    → PhaseFits st' p
PhaseFits-keeps st st' ready w same keep f = tt
PhaseFits-keeps st st' (executing batch current outcome) w same keep f = record {
  held = same ∙ f.held;
  named = f.named;
  budget =
      All-map batch (λ j b. keep j b.0 b.1)
        (All-both _ _ batch
          (All-map batch (λ j a. a.0)
            (subst (All (λ j. IsActive st.next_id j (st.heap j))) f.held w.active))
          f.budget);
}
PhaseFits-keeps st st' dead w same keep f = tt

module _ {R : Type 0} (ops : ModelRunner R) where
  pub step-IsSafe : (m : Server R) (e : Event) → IsSafe m → IsSafe (step ops m e)
  unfolding step
  step-IsSafe m ticks v = tick_at-IsSafe ops m m.phase refl v
  step-IsSafe m loop_cancelled v = cancel_at-IsSafe ops m m.phase v
  step-IsSafe m (submits p) v = record {
    well = submit-IsWellFormed m.state p v.well;
    fits =
        PhaseFits-keeps m.state (submit m.state p) m.phase v.well (submit-running m.state p)
          (λ j k b. subst HasBudget (sym (submit-old m.state p j k)) b) v.fits;
  }
  step-IsSafe m (gives_up i) v = elim (Bool-cases (ltb i m.next_id)) [
    | inl known ↦ rw known (record {
      well = abort-IsWellFormed m.state i cancelled refl (ground arith) v.well;
      fits =
          PhaseFits-keeps m.state (abort m.state i cancelled) m.phase v.well
            (abort-running m.state i cancelled).0
            (λ j k b. abort-keeps HasBudget m.state i j cancelled (aborted-HasBudget cancelled) b)
            v.fits;
    })
    | inr unknown ↦ rw unknown v
  ]
  step-IsSafe m (delivers i) v = elim (Bool-cases (ltb i m.next_id)) [
    | inl known ↦ rw known (record {
      well = deliver-IsWellFormed m.state v.well i (ground arith);
      fits =
          PhaseFits-keeps m.state (modify m.state i deliver) m.phase v.well refl
            (λ j k b. deliver-HasBudget m.state v.well i (ground arith) j b) v.fits;
    })
    | inr unknown ↦ rw unknown v
  ]

  -- Whatever happens, in whatever order, the process stays safe.
  pub run-IsSafe : (m : Server R) (es : List Event) → IsSafe m → IsSafe (run ops m es)
  unfolding run
  run-IsSafe m [] v = v
  run-IsSafe m (e ∷ es) v = run-IsSafe (step ops m e) es (step-IsSafe m e v)

-- A process that has just started is safe, whatever its settings.
pub start-IsSafe :
    {R : Type 0} (runner : R) (max_batch_size max_batch_tokens : ℤ)
    → IsSafe (start runner max_batch_size max_batch_tokens)
unfolding start new_scheduler
start-IsSafe runner max_batch_size max_batch_tokens = record {
  well = record {
    distinct = tt;
    queued = tt;
    active = tt;
    sized = inr refl;
    held = λ i k. elim k [ ];
    sound = λ i k. elim k [ ];
  };
  fits = tt;
}

-- In every reachable state: no request is held twice, none is forgotten, the queue holds unfinished
-- requests only, the batch is within its limit, no output is longer than was asked for, and a tick's
-- batch is what the scheduler holds as running.
pub run-start-IsSafe :
    {R : Type 0} (ops : ModelRunner R) (runner : R) (max_batch_size max_batch_tokens : ℤ)
    (es : List Event)
    → IsSafe (run ops (start runner max_batch_size max_batch_tokens) es)
run-start-IsSafe ops runner max_batch_size max_batch_tokens es =
    run-IsSafe ops _ es (start-IsSafe runner max_batch_size max_batch_tokens)
