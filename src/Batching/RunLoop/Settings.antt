-- ===== src/Batching/RunLoop/Settings.antt =====
-- The limit on the batch's size, from event to event.
use nano_kube_llm_server.Prelude.{
  ℕ, ◌≡◌, refl, ◌∙◌, inl, inr, List, [], ◌∷◌, ltb, is_empty, arith, Bool-cases,
}
use nano_kube_llm_server.Runners.Interface.{rows, raised, ModelRunner}
use nano_kube_llm_server.Batching.Sequences.{Finish, Params, cancelled, error}
use nano_kube_llm_server.Batching.Scheduler.{State, schedule, has_work, abort, add, fail_all}
use nano_kube_llm_server.Batching.RunLoop.{
  Phase, ready, executing, dead, Server, launch, begin_tick, end_tick, tick_at, cancel_at, submit,
  abort_each, casualties, record_rows, Event, ticks, loop_cancelled, submits, gives_up, delivers,
  step, run,
}

abort-size :
    (st : State) (i : ℕ) (reason : Finish) → (abort st i reason).max_batch_size ≡ st.max_batch_size
unfolding abort
abort-size st i reason = ground arith

abort_each-size : (st : State) (is : List ℕ) → (abort_each st is).max_batch_size ≡ st.max_batch_size
unfolding abort_each
abort_each-size st [] = refl
abort_each-size st (i ∷ is) = abort_each-size (abort st i error) is ∙ abort-size st i error

submit-size : (st : State) (p : Params) → (submit st p).max_batch_size ≡ st.max_batch_size
unfolding submit add
submit-size st p = ground arith

module _ {R : Type 0} (ops : ModelRunner R) where
  begin_tick-size : (m : Server R) → (begin_tick ops m).max_batch_size ≡ m.max_batch_size
  unfolding begin_tick launch schedule
  begin_tick-size m = elim (Bool-cases (has_work m.state)) [
    | inr idle ↦ rw idle refl
    | inl work ↦ rw work (elim (Bool-cases (is_empty (schedule m.state).running)) [
      | inl nothing ↦ rw nothing refl
      | inr something ↦ rw something refl
    ])
  ]

  tick_at-size : (m : Server R) (p : Phase) → (tick_at ops m p).max_batch_size ≡ m.max_batch_size
  unfolding tick_at end_tick fail_all record_rows
  tick_at-size m ready = begin_tick-size m
  tick_at-size m (executing batch current (rows next_ids)) =
      abort_each-size m.state (casualties batch next_ids)
  tick_at-size m (executing batch current raised) = refl
  tick_at-size m dead = refl

  cancel_at-size :
      (m : Server R) (p : Phase) → (cancel_at ops m p).max_batch_size ≡ m.max_batch_size
  unfolding cancel_at fail_all
  cancel_at-size m ready = refl
  cancel_at-size m (executing batch current outcome) = refl
  cancel_at-size m dead = refl

  pub step-size : (m : Server R) (e : Event) → (step ops m e).max_batch_size ≡ m.max_batch_size
  unfolding step
  step-size m ticks = tick_at-size m m.phase
  step-size m loop_cancelled = cancel_at-size m m.phase
  step-size m (submits p) = submit-size m.state p
  step-size m (gives_up i) = elim (Bool-cases (ltb i m.next_id)) [
    | inl known ↦ rw known (abort-size m.state i cancelled)
    | inr unknown ↦ rw unknown refl
  ]
  step-size m (delivers i) = elim (Bool-cases (ltb i m.next_id)) [
    | inl known ↦ rw known refl
    | inr unknown ↦ rw unknown refl
  ]

  pub run-size : (m : Server R) (es : List Event) → (run ops m es).max_batch_size ≡ m.max_batch_size
  unfolding run
  run-size m [] = refl
  run-size m (e ∷ es) = run-size (step ops m e) es ∙ step-size m e
