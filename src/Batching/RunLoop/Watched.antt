-- ===== src/Batching/RunLoop/Watched.antt =====
-- One request that nobody gives up: it is not finished while it is on the worker thread.
use nano_kube_llm_server.Prelude.{
  ℕ, ◌<◌, ◌≡◌, refl, sym, ap, subst, ◌∙◌, ◌⊎◌, inl, inr, true, false, List, Option, elem, ltb,
  IsDistinct, arith, Bool-cases, is_empty, ◌==◌,
}
use nano_kube_llm_server.Runners.Interface.{Outcome, rows, raised, ModelRunner}
use nano_kube_llm_server.Batching.Sequences.{
  Sequence, is_finished, is_set, cancelled, error, deliver,
}
use nano_kube_llm_server.Batching.Sequences.Heaps.{IsDistinct→Halves, deliver-core}
use nano_kube_llm_server.Batching.Scheduler.{
  State, schedule, abort, fail_all, fail_one, modify, has_work, record_token,
}
use nano_kube_llm_server.Batching.Scheduler.Tokens.{refs, postprocess-Each, postprocess-SameOutside}
use nano_kube_llm_server.Batching.Scheduler.WellFormed.Records.{Each-at}
use nano_kube_llm_server.Batching.Scheduler.WellFormed.Submits.{submit-old, submit-next_id}
use nano_kube_llm_server.Batching.Scheduler.WellFormed.Aborts.{aborted, abort-running, abort-other}
use nano_kube_llm_server.Batching.RunLoop.{
  Phase, ready, executing, dead, Server, submit, launch, begin_tick, end_tick, tick_at, cancel_at,
  record_rows, casualties, survivors, abort_each, Event, ticks, loop_cancelled, submits, gives_up,
  delivers, step,
}
use nano_kube_llm_server.Batching.RunLoop.Rows.{All-elem, survivors-IsDistinct, survivors-missing}
use nano_kube_llm_server.Batching.RunLoop.Ticks.{schedule-going}
use nano_kube_llm_server.Batching.RunLoop.Safety.{PhaseFits, IsSafe}
use nano_kube_llm_server.Batching.RunLoop.Grows.{abort_each-next_id}
use nano_kube_llm_server.Batching.RunLoop.Entries.{
  failed_row, abort_each-All, abort_each-SameOutside, casualties-IsApart, casualties-IsDistinct,
}
use nano_kube_llm_server.Batching.RunLoop.Outputs.{fail_all-keeps, update-keeps}

survivors-in :
    (j : ℕ) (batch : List ℕ) (next_ids : List (Option ℕ))
    → elem j (refs (survivors batch next_ids)) ≡ true
    → elem j batch ≡ true
survivors-in j batch next_ids hit = elim (Bool-cases (elem j batch)) [
  | inl in_it ↦ in_it
  | inr out ↦ let missing = survivors-missing j batch next_ids out in cc
]

-- What a tick's entries do to one request: nothing, or what the entry of its row does.
pub record_rows-cases :
    (st : State) (batch : List ℕ) (next_ids : List (Option ℕ)) (j : ℕ)
    → IsDistinct batch
    → ((record_rows st batch next_ids).heap j ≡ st.heap j)
      ⊎ ((record_rows st batch next_ids).heap j ≡ failed_row (st.heap j))
      ⊎ ((elem j batch ≡ true)
          × ((token : ℕ) × ((record_rows st batch next_ids).heap j
                ≡ record_token (st.heap j) token)))
unfolding record_rows
record_rows-cases st batch next_ids j d =
    let st' = abort_each st (casualties batch next_ids) in
    let tokens = survivors batch next_ids in
    elim (Bool-cases (elem j (casualties batch next_ids))) [
      | inl failed ↦
          let apart = All-elem _ j _ (casualties-IsApart batch next_ids d) failed in
          let e =
            All-elem _ j _ (abort_each-All st _ (casualties-IsDistinct batch next_ids d)) failed in
          inr (inl (postprocess-SameOutside st'.heap tokens j apart ∙ e))
      | inr fine ↦
          let same = abort_each-SameOutside st (casualties batch next_ids) j fine in
          elim (Bool-cases (elem j (refs tokens))) [
            | inl hit ↦
                let (token, e) =
                  Each-at st'.heap _ j tokens
                    (postprocess-Each st'.heap tokens (survivors-IsDistinct batch next_ids d))
                    hit in
                inr (
                  inr (
                    survivors-in j batch next_ids hit,
                    (token, e ∙ ap (λ s. record_token s token) same),
                  ))
            | inr miss ↦ inl (postprocess-SameOutside st'.heap tokens j miss ∙ same)
          ]
    ]

-- What every write to such a request keeps; a token is recorded only while it is not finished.
pub record IsWatched (P : Sequence → Type 0) : Type 0 where
  pub errs : (s : Sequence) → is_finished s ≡ false → P s → P (aborted error s)
  pub records : (token : ℕ) (s : Sequence) → is_finished s ≡ false → P s → P (record_token s token)
  pub fails : (s : Sequence) → P s → P (fail_one s)
  pub delivers : (s : Sequence) → P s → P (deliver s)

-- While `j` is on the worker thread it is not finished.
abbrev pub IsOpenAt : ℕ → State → Phase → Type 0
IsOpenAt j st (executing batch current outcome) =
    elem j batch ≡ true → is_finished (st.heap j) ≡ false
IsOpenAt j st _ = Unit

-- A write to other requests, or one that leaves the reason of `j`.
pub IsOpenAt-keeps :
    (j : ℕ) (st st' : State) (phase : Phase)
    → (is_finished (st.heap j) ≡ false → is_finished (st'.heap j) ≡ false)
    → IsOpenAt j st phase
    → IsOpenAt j st' phase
IsOpenAt-keeps j st st' ready keep o = tt
IsOpenAt-keeps j st st' (executing batch current outcome) keep o = λ hit. keep (o hit)
IsOpenAt-keeps j st st' dead keep o = tt

-- The events but the one that gives `j` up.
abbrev pub Spares : ℕ → Event → Type 0
Spares j (gives_up i) = (i == j) ≡ false
Spares j _ = Unit

module _ (P : Sequence → Type 0) (watched : IsWatched P) (j : ℕ) where
  watched_row : (s : Sequence) → P s → P (failed_row s)
  watched_row s p = elim (Bool-cases (is_finished s)) [
    | inl done ↦ rw done p
    | inr going ↦ rw going (watched.errs s going p)
  ]

  rows-watched :
      (st : State) (batch : List ℕ) (next_ids : List (Option ℕ))
      → IsDistinct batch
      → (elem j batch ≡ true → is_finished (st.heap j) ≡ false)
      → P (st.heap j)
      → P ((record_rows st batch next_ids).heap j)
  rows-watched st batch next_ids d going p = elim (record_rows-cases st batch next_ids j d) [
    | inl same ↦ subst P (sym same) p
    | inr (inl failed) ↦ subst P (sym failed) (watched_row (st.heap j) p)
    | inr (inr (hit, (token, e))) ↦
        subst P (sym e) (watched.records token (st.heap j) (going hit) p)
  ]

  abbrev pub IsWatchedIn : {R : Type 0} → Server R → Type 0
  IsWatchedIn m = (j < m.next_id) × P (m.heap j) × IsOpenAt j m.state m.phase

  module _ {R : Type 0} (ops : ModelRunner R) where
    begin_tick-watched :
        (m : Server R) → m.phase ≡ ready → IsSafe m → IsWatchedIn m → IsWatchedIn (begin_tick ops m)
    unfolding begin_tick launch schedule
    begin_tick-watched m at v (k, p, o) = elim (Bool-cases (has_work m.state)) [
      | inr idle ↦ rw idle (k, p, o)
      | inl work ↦ rw work (elim (Bool-cases (is_empty (schedule m.state).running)) [
        | inl nothing ↦ rw (nothing, at) (k, p, tt)
        | inr something ↦
            rw something (k, p, λ hit. (All-elem _ j _ (schedule-going m.state v.well) hit).0)
      ])
    ]

    end_tick-watched :
        (m : Server R) (batch current : List ℕ) (outcome : Outcome)
        → m.phase ≡ executing batch current outcome
        → IsSafe m
        → IsWatchedIn m
        → IsWatchedIn (end_tick ops m batch current outcome)
    unfolding end_tick fail_all record_rows
    end_tick-watched m batch current (rows next_ids) at v (k, p, o) =
        let a = subst (PhaseFits m.state) at v.fits in
        let d =
          subst IsDistinct a.held (IsDistinct→Halves m.running m.waiting v.well.distinct).left in
        (
          subst (λ n. j < n) (sym (abort_each-next_id m.state (casualties batch next_ids))) k,
          rows-watched m.state batch next_ids d (subst (IsOpenAt j m.state) at o) p,
          tt,
        )
    end_tick-watched m batch current raised at v (k, p, o) =
        (k, fail_all-keeps P m.state j watched.fails p, tt)

    tick_at-watched :
        (m : Server R) (phase : Phase)
        → m.phase ≡ phase
        → IsSafe m
        → IsWatchedIn m
        → IsWatchedIn (tick_at ops m phase)
    unfolding tick_at
    tick_at-watched m ready at v w = begin_tick-watched m at v w
    tick_at-watched m (executing batch current outcome) at v w =
        end_tick-watched m batch current outcome at v w
    tick_at-watched m dead at v w = w

    cancel_at-watched :
        (m : Server R) (phase : Phase) → IsWatchedIn m → IsWatchedIn (cancel_at ops m phase)
    unfolding cancel_at fail_all
    cancel_at-watched m ready (k, p, o) = (k, p, tt)
    cancel_at-watched m (executing batch current outcome) (k, p, o) =
        (k, fail_all-keeps P m.state j watched.fails p, tt)
    cancel_at-watched m dead w = w

    pub step-watched :
        (m : Server R) (e : Event)
        → Spares j e
        → IsSafe m
        → IsWatchedIn m
        → IsWatchedIn (step ops m e)
    unfolding step
    step-watched m ticks spares v w = tick_at-watched m m.phase refl v w
    step-watched m loop_cancelled spares v w = cancel_at-watched m m.phase w
    step-watched m (submits q) spares v (k, p, o) =
        let old = submit-old m.state q j k in
        (
          omega (arith, submit-next_id m.state q),
          subst P (sym old) p,
          IsOpenAt-keeps j m.state (submit m.state q) m.phase
              (λ f. subst (λ s. is_finished s ≡ false) (sym old) f) o,
        )
    step-watched m (gives_up i) spares v (k, p, o) = elim (Bool-cases (ltb i m.next_id)) [
      | inl known ↦
          let other = abort-other m.state i j cancelled spares in
          rw known (
            subst (λ n. j < n) (sym (abort-running m.state i cancelled).1) k,
            subst P (sym other) p,
            IsOpenAt-keeps j m.state (abort m.state i cancelled) m.phase
                (λ f. subst (λ s. is_finished s ≡ false) (sym other) f) o,
          )
      | inr unknown ↦ rw unknown (k, p, o)
    ]
    step-watched m (delivers i) spares v (k, p, o) = elim (Bool-cases (ltb i m.next_id)) [
      | inl known ↦ rw known (
        k,
        update-keeps P m.heap i j _ (watched.delivers (m.heap i)) p,
        IsOpenAt-keeps j m.state (modify m.state i deliver) m.phase
            (update-keeps (λ s. is_finished s ≡ false) m.heap i j _
              (λ f. ap is_set (deliver-core (m.heap i)).1 ∙ f))
            o,
      )
      | inr unknown ↦ rw unknown (k, p, o)
    ]
