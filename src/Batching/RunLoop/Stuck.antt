-- ===== src/Batching/RunLoop/Stuck.antt =====
-- A loop with no room for any request, which the settings do not rule out.
use nano_kube_llm_server.Prelude.{
  ℕ, zero, suc, ◌≡◌, ◌≢◌, refl, sym, ap, subst, ◌∙◌, true, [], pos, ◌≤ℤ◌, arith, replicate,
  is_empty,
}
use nano_kube_llm_server.Runners.Interface.{ModelRunner}
use nano_kube_llm_server.Batching.Scheduler.{State, fits, admit, schedule, unfinished, has_work}
use nano_kube_llm_server.Batching.RunLoop.{Server, ready, ticks, begin_tick, tick_at, step, run}

schedule_same :
    (st : State)
    → st.max_batch_size ≤ℤ pos 0
    → st.running ≡ []
    → st.waiting ≢ []
    → (schedule st ≡ st) × (has_work st ≡ true)
unfolding schedule admit fits unfinished has_work
schedule_same st no_room r q = ground arith

module _ {R : Type 0} (ops : ModelRunner R) where
  -- The loop is where an iteration begins, in this state of the scheduler and its requests.
  abbrev pub IsBack : State → Server R → Type 0
  IsBack st m = (m.phase ≡ ready) × (m.state ≡ st) × (has_work m.state ≡ true)

  step-IsBack :
      (st : State) (m : Server R)
      → st.max_batch_size ≤ℤ pos 0
      → st.running ≡ []
      → st.waiting ≢ []
      → IsBack st m
      → IsBack st (step ops m ticks)
  unfolding step tick_at begin_tick
  step-IsBack st m no_room r q (at, e, work) =
      let same = ap schedule e ∙ (schedule_same st no_room r q).0 in
      let none_runs : is_empty (schedule m.state).running ≡ true =
        ap (λ s. is_empty s.running) same ∙ ap is_empty r in
      subst (λ p. IsBack st (tick_at ops m p)) (sym at)
        (rw (work, none_runs) (at, same, ap has_work (same ∙ sym e) ∙ work))

  run-IsBack :
      (st : State) (m : Server R) (n : ℕ)
      → st.max_batch_size ≤ℤ pos 0
      → st.running ≡ []
      → st.waiting ≢ []
      → IsBack st m
      → IsBack st (run ops m (replicate n ticks))
  unfolding run
  run-IsBack st m zero no_room r q back = back
  run-IsBack st m (suc n) no_room r q back =
      run-IsBack st (step ops m ticks) n no_room r q (step-IsBack st m no_room r q back)

  -- For a loop at the begin of an iteration, with room for no request, none running and one waiting:
  -- after any number of iterations it is at the begin of one, no request and no queue of the scheduler
  -- has changed, and it has work.
  pub run_stuck :
      (m : Server R) (n : ℕ)
      → m.phase ≡ ready
      → m.max_batch_size ≤ℤ pos 0
      → m.running ≡ []
      → m.waiting ≢ []
      → IsBack m.state (run ops m (replicate n ticks))
  run_stuck m n at no_room r q =
      run-IsBack m.state m n no_room r q (at, refl, (schedule_same m.state no_room r q).1)
