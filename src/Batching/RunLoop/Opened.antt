-- ===== src/Batching/RunLoop/Opened.antt =====
-- A property of every request, and one of those on the worker thread.
use nano_kube_llm_server.Prelude.{
  ℕ, ◌<◌, ◌≡◌, refl, sym, subst, inl, inr, ltb, All, All-map, All-both, arith, Bool-cases,
}
use nano_kube_llm_server.Batching.Sequences.{Sequence, Params, is_finished, error}
use nano_kube_llm_server.Batching.Sequences.Heaps.{Core}
use nano_kube_llm_server.Batching.Scheduler.{State}
use nano_kube_llm_server.Batching.Scheduler.WellFormed.{IsWellFormed}
use nano_kube_llm_server.Batching.Scheduler.WellFormed.Submits.{submit-old, submit-next_id}
use nano_kube_llm_server.Batching.RunLoop.{Phase, ready, executing, dead, submit}
use nano_kube_llm_server.Batching.RunLoop.Safety.{PhaseFits}
use nano_kube_llm_server.Batching.RunLoop.Entries.{failed_row}
use nano_kube_llm_server.Batching.RunLoop.Caching.{active-known}
use nano_kube_llm_server.Batching.RunLoop.Requests.{IsStable, submit-cases}

module _ (Open : Sequence → Type 0) where
  abbrev pub PhaseOpen : State → Phase → Type 0
  PhaseOpen st (executing batch current outcome) = All (λ i. Open (st.heap i)) batch
  PhaseOpen st _ = Unit

  pub PhaseOpen-keeps :
      (st st' : State) (p : Phase)
      → IsWellFormed st
      → PhaseFits st p
      → ((j : ℕ) → j < st.next_id → Open (st.heap j) → Open (st'.heap j))
      → PhaseOpen st p
      → PhaseOpen st' p
  PhaseOpen-keeps st st' ready w f keep o = tt
  PhaseOpen-keeps st st' (executing batch current outcome) w f keep o =
      All-map batch (λ j q. keep j q.0 q.1)
        (All-both _ _ batch (subst (All _) f.held (active-known st w)) o)
  PhaseOpen-keeps st st' dead w f keep o = tt

abbrev pub Every : (Sequence → Type 0) → State → Type 0
Every P st = (i : ℕ) → i < st.next_id → P (st.heap i)

module _ {Follows : Core → ℕ → Type 0} {P Open : Sequence → Type 0}
    (stable : IsStable Follows P Open) where
  pub after_failed : (s : Sequence) → P s → P (failed_row s)
  after_failed s p = elim (Bool-cases (is_finished s)) [
    | inl done ↦ rw done p
    | inr going ↦ rw going (stable.aborts error s (inr refl) p)
  ]

  pub submit-Every : (st : State) (p : Params) → Every P st → Every P (submit st p)
  submit-Every st p every i k = elim (Bool-cases (ltb i st.next_id)) [
    | inl old ↦
        let k' : i < st.next_id = ground arith in subst P (sym (submit-old st p i k')) (every i k')
    | inr new ↦
        let e : st.next_id ≡ i = ground (arith, submit-next_id st p) in
        subst (λ j. P ((submit st p).heap j)) e
          (elim (submit-cases st p) [
            | inl waits ↦ subst P (sym waits) (stable.created p st.next_id)
            | inr (nothing, over) ↦ subst P (sym over) (stable.refused p st.next_id nothing)
          ])
  ]
