-- ===== src/Batching/RunLoop/Drain/Bounds.antt =====
-- How many ticks run_loop takes, whatever the clients do meanwhile but for new requests.
use nano_kube_llm_server.Prelude.{
  ℕ, ◌+◌, ◌*◌, ◌-◌, ◌<◌, ◌≤◌, ◌≡◌, ◌≢◌, refl, sym, ap, subst, ◌∙◌, inl, inr, true, List, [], ◌∷◌,
  Option, ℤ, pos, ◌≤ℤ◌, length, ltb, All, arith, Bool-cases,
}
use nano_kube_llm_server.Runners.Interface.{Outcome, rows, ModelRunner}
use nano_kube_llm_server.Batching.Sequences.{is_finished, cancelled}
use nano_kube_llm_server.Batching.Scheduler.{State}
use nano_kube_llm_server.Batching.Scheduler.WellFormed.{IsWellFormed}
use nano_kube_llm_server.Batching.Scheduler.WellFormed.Aborts.{abort-running}
use nano_kube_llm_server.Batching.RunLoop.{
  Phase, ready, executing, dead, Server, tick_at, Event, ticks, loop_cancelled, submits, gives_up,
  delivers, step, run, start,
}
use nano_kube_llm_server.Batching.RunLoop.Settings.{step-size, run-size}
use nano_kube_llm_server.Batching.RunLoop.Rows.{All-elem}
use nano_kube_llm_server.Batching.RunLoop.Safety.{PhaseFits, IsSafe, step-IsSafe}
use nano_kube_llm_server.Batching.RunLoop.Owed.{
  owed_by, owed-fewer, owed-drops, owed_by-going, owed_by-ended,
}
use nano_kube_llm_server.Batching.RunLoop.Caching.{IsCaching, PhaseKept, IsCoherent, active-known}
use nano_kube_llm_server.Batching.RunLoop.Coherence.{
  step-kept, run-IsCoherent, run-start-IsCoherent,
}
use nano_kube_llm_server.Batching.RunLoop.Owed.Ended.{owed_in, finished-all}
use nano_kube_llm_server.Batching.RunLoop.Drain.{
  Within, step-owes, begin_tick-Within, end_tick-Within,
}
use nano_kube_llm_server.Batching.RunLoop.Drain.Counts.{
  IsDraining, tick_count, left_of, left_of-zero, left_of-cons, IsQuiet, IsRowwise,
}

-- What a handler does between two cuts: what is owed does not become more, and if the batch's request
-- ends, it becomes less.
Within-keeps :
    (st st' : State) (n : ℕ) (p : Phase)
    → IsWellFormed st
    → PhaseFits st p
    → st'.next_id ≡ st.next_id
    → ((i : ℕ) → i < st.next_id → owed_by (st'.heap i) ≤ owed_by (st.heap i))
    → Within st n p
    → Within st' n p
Within-keeps st st' n ready w f same le bound =
    rw same (omega (arith, owed-fewer st.heap st'.heap st.next_id le))
Within-keeps st st' n (executing batch current outcome) w f same le (inl slack) =
    inl (rw same (omega (arith, owed-fewer st.heap st'.heap st.next_id le)))
Within-keeps st st' n (executing batch current outcome) w f same le (inr (j, hit, going, slack)) =
    elim (Bool-cases (is_finished (st'.heap j))) [
      | inl over ↦
          let known = All-elem _ j batch (subst (All _) f.held (active-known st w)) hit in
          let before = owed_by-going (st.heap j) going (All-elem _ j batch f.budget hit) in
          let after = owed_by-ended (st'.heap j) over in
          inl (
            rw same
              (omega (arith, owed-drops st.heap st'.heap st.next_id j le known (omega arith))))
      | inr still ↦
          inr (j, hit, still, rw same (omega (arith, owed-fewer st.heap st'.heap st.next_id le)))
    ]
Within-keeps st st' n dead w f same le bound =
    rw same (omega (arith, owed-fewer st.heap st'.heap st.next_id le))

module _ {R : Type 0} (ops : ModelRunner R) (rowwise : IsRowwise ops) where
  abbrev rowwise_caching : IsCaching ops
  rowwise_caching = record {
    Kept = λ r seqs. Unit {0};
    Answered = λ seqs tokens. Unit {0};
    execute_keeps = λ r batch tokens mode ok. (tt, tt, rowwise r batch tokens ok);
  }

  outcome-rowwise :
      (m : Server R) (batch current : List ℕ) (outcome : Outcome)
      → IsCoherent ops rowwise_caching m
      → m.phase ≡ executing batch current outcome
      → (next_ids : List (Option ℕ)) → outcome ≡ rows next_ids
      → length next_ids ≡ length batch
  outcome-rowwise m batch current outcome v at next_ids e =
      let (seqs, kept, same, given, n) =
        subst (PhaseKept ops rowwise_caching m.state m.members m.runner)
          (at ∙ ap (executing batch current) e) v.kept in
      n

  tick_at-Within :
      (m : Server R) (n : ℕ) (p : Phase)
      → m.phase ≡ p
      → IsCoherent ops rowwise_caching m
      → pos 1 ≤ℤ m.max_batch_size
      → Within m.state n p
      → Within (tick_at ops m p).state (n - 1) (tick_at ops m p).phase
  unfolding tick_at
  tick_at-Within m n ready at v room bound = begin_tick-Within ops m n at v.safe room bound
  tick_at-Within m n (executing batch current outcome) at v room bound =
      end_tick-Within ops m n batch current outcome v.safe at
        (outcome-rowwise m batch current outcome v at) bound
  tick_at-Within m n dead at v room bound = rw at bound

  gives_up-IsQuiet : (m : Server R) (i : ℕ) → IsQuiet m (step ops m (gives_up i))
  unfolding step
  gives_up-IsQuiet m i = elim (Bool-cases (ltb i m.next_id)) [
    | inl known ↦ rw known ((abort-running m.state i cancelled).1, refl)
    | inr unknown ↦ rw unknown (refl, refl)
  ]

  delivers-IsQuiet : (m : Server R) (i : ℕ) → IsQuiet m (step ops m (delivers i))
  unfolding step
  delivers-IsQuiet m i = elim (Bool-cases (ltb i m.next_id)) [
    | inl known ↦ rw known (refl, refl)
    | inr unknown ↦ rw unknown (refl, refl)
  ]

  quiet-Within :
      (m : Server R) (e : Event) (n : ℕ)
      → IsSafe m
      → IsQuiet m (step ops m e)
      → Within m.state n m.phase
      → Within (step ops m e).state n (step ops m e).phase
  quiet-Within m e n v (same, at) bound = subst (Within (step ops m e).state n) (sym at) (
      Within-keeps m.state (step ops m e).state n m.phase v.well v.fits same
        (step-owes ops m e same) bound)

  -- What an event needs, after an event.
  step-IsCoherent :
      (m : Server R) (e : Event)
      → IsCoherent ops rowwise_caching m
      → IsCoherent ops rowwise_caching (step ops m e)
  step-IsCoherent m e v = record {
    safe = step-IsSafe ops m e v.safe;
    kept = step-kept ops rowwise_caching m e v;
  }

  step-Within :
      (m : Server R) (e : Event) (n : ℕ)
      → IsCoherent ops rowwise_caching m
      → pos 1 ≤ℤ m.max_batch_size
      → IsDraining e
      → Within m.state n m.phase
      → Within (step ops m e).state (left_of (e ∷ []) n) (step ops m e).phase
  unfolding step
  step-Within m ticks n v room ok bound = tick_at-Within m n m.phase refl v room bound
  step-Within m loop_cancelled n v room ok bound = absurd ok
  step-Within m (submits p) n v room ok bound = absurd ok
  step-Within m (gives_up i) n v room ok bound =
      quiet-Within m (gives_up i) n v.safe (gives_up-IsQuiet m i) bound
  step-Within m (delivers i) n v room ok bound =
      quiet-Within m (delivers i) n v.safe (delivers-IsQuiet m i) bound

  run-Within :
      (m : Server R) (es : List Event) (n : ℕ)
      → IsCoherent ops rowwise_caching m
      → pos 1 ≤ℤ m.max_batch_size
      → All IsDraining es
      → Within m.state n m.phase
      → Within (run ops m es).state (left_of es n) (run ops m es).phase
  unfolding run
  run-Within m [] n v room ok bound = bound
  run-Within m (e ∷ es) n v room ok bound =
      subst (λ k. Within (run ops m (e ∷ es)).state k (run ops m (e ∷ es)).phase)
        (sym (left_of-cons e es n))
        (run-Within (step ops m e) es (left_of (e ∷ []) n) (step-IsCoherent m e v)
          (subst (λ size. pos 1 ≤ℤ size) (sym (step-size ops m e)) room) ok.1
          (step-Within m e n v room ok.0 bound))

  alive-Within : (m : Server R) (p : Phase) → p ≢ dead → Within m.state (2 * owed_in m.state + 1) p
  alive-Within m ready alive = omega arith
  alive-Within m (executing batch current outcome) alive = inl (omega arith)
  alive-Within m dead alive = absurd (alive refl)

  Within-ended : (st : State) (p : Phase) → Within st 0 p → owed_in st ≡ 0
  Within-ended st ready bound = omega (arith, bound)
  Within-ended st (executing batch current outcome) (inl slack) = absurd (omega (arith, slack))
  Within-ended st (executing batch current outcome) (inr (j, hit, going, slack)) =
      omega (arith, slack)
  Within-ended st dead bound = bound

  -- From the start with room for one request, after any events: while the loop runs, two of its
  -- iterations' halves for each token that the requests may still get, and one more, finish every
  -- request that was created, whatever else happens meanwhile but a new request and the loop's
  -- cancellation.
  pub run-start-finishes :
      (runner : R) (max_batch_size max_batch_tokens : ℤ) (earlier later : List Event)
      → let m = run ops (start runner max_batch_size max_batch_tokens) earlier in
        pos 1 ≤ℤ max_batch_size
        → m.phase ≢ dead
        → All IsDraining later
        → 2 * owed_in m.state + 1 ≤ tick_count later
        → (i : ℕ) → i < (run ops m later).next_id
        → is_finished ((run ops m later).heap i) ≡ true
  unfolding start
  run-start-finishes runner max_batch_size max_batch_tokens earlier later room alive ok enough i k =
      let m = run ops (start runner max_batch_size max_batch_tokens) earlier in
      let v =
        run-start-IsCoherent ops rowwise_caching runner max_batch_size max_batch_tokens earlier in
      let v' = run-IsCoherent ops rowwise_caching m later v in
      let room' =
        subst (λ size. pos 1 ≤ℤ size)
          (sym (run-size ops (start runner max_batch_size max_batch_tokens) earlier)) room in
      let bound =
        subst (λ n. Within (run ops m later).state n (run ops m later).phase)
          (left_of-zero later (2 * owed_in m.state + 1) enough)
          (run-Within m later _ v room' ok (alive-Within m m.phase alive)) in
      finished-all (run ops m later).state v'.safe.well
        (Within-ended (run ops m later).state (run ops m later).phase bound) i k
