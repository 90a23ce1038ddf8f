-- ===== src/Batching/RunLoop/Caching.antt =====
-- Runners whose state keeps what they computed for the last batch, and what the loop owes them.
use nano_kube_llm_server.Prelude.{
  ℕ, ◌<◌, ◌≤◌, ◌≡◌, ◌≢◌, subst, ◌⊎◌, inl, inr, true, List, [], Option, length, All, All-map, arith,
}
use nano_kube_llm_server.Runners.Interface.{ForwardBatch, rows, raised, ModelRunner, Extends}
use nano_kube_llm_server.Batching.Sequences.{Sequence}
use nano_kube_llm_server.Batching.Scheduler.{State}
use nano_kube_llm_server.Batching.Scheduler.WellFormed.{IsWellFormed}
use nano_kube_llm_server.Batching.RunLoop.{Phase, ready, executing, dead, Server}
use nano_kube_llm_server.Batching.RunLoop.Safety.{IsSafe, PhaseFits}
use nano_kube_llm_server.Batching.RunLoop.Grows.{
  SameTokens, Grown, Quiet, SameTokens-Quiet, Grown-Quiet,
}

-- A runner whose state keeps what it computed for the last batch: a prefill, or a batch that extends
-- the one that is kept, and that returns tokens, leaves the batch kept, has an entry for each row, and
-- the entries answer the batch.
pub record IsCaching {R : Type 0} (ops : ModelRunner R) : Type 1 where
  pub Kept : R → List Sequence → Type 0
  pub Answered : List Sequence → List (Option ℕ) → Type 0
  pub execute_keeps :
      (r : R) (batch : ForwardBatch) (tokens : List (Option ℕ))
      → (batch.is_prefill ≡ true)
        ⊎ ((before : List Sequence) × Kept r before × Extends before batch.seqs × (before ≢ []))
      → (ops.execute r batch).0 ≡ rows tokens
      → Kept (ops.execute r batch).1 batch.seqs
        × Answered batch.seqs tokens
        × (length tokens ≡ length batch.seqs)

pub active-known : (st : State) → IsWellFormed st → All (λ i. i < st.next_id) st.running
active-known st w = All-map st.running (λ i a. a.0) w.active

module _ {R : Type 0} (ops : ModelRunner R) (caching : IsCaching ops) where
  open caching use {Kept, Answered}

  -- Between ticks nothing is kept, or each member of the kept batch is finished or has one token more;
  -- during a tick that will return tokens, its batch is kept.
  abbrev pub PhaseKept : State → List ℕ → R → Phase → Type 0
  PhaseKept st members r ready =
      (members ≡ [])
      ⊎ ((before : List Sequence) × Kept r before
          × Grown st.heap before members
          × All (λ i. i < st.next_id) members)
  PhaseKept st members r (executing batch current (rows next_ids)) =
      (seqs : List Sequence) × Kept r seqs
      × SameTokens st.heap seqs batch
      × Answered seqs next_ids
      × (length next_ids ≡ length batch)
  PhaseKept st members r _ = Unit

  pub record IsCoherent (m : Server R) : Type 0 where
    pub safe : IsSafe m
    pub kept : PhaseKept m.state m.members m.runner m.phase

  abbrev pub KeptIn : Server R → Type 0
  KeptIn m = PhaseKept m.state m.members m.runner m.phase

  -- What a request handler does between two cuts leaves the tokens of the kept batch.
  pub PhaseKept-Quiet :
      (st st' : State) (members : List ℕ) (r : R) (p : Phase)
      → IsWellFormed st
      → PhaseFits st p
      → st.next_id ≤ st'.next_id
      → ((j : ℕ) → j < st.next_id → Quiet (st.heap j) (st'.heap j))
      → PhaseKept st members r p
      → PhaseKept st' members r p
  PhaseKept-Quiet st st' members r ready w f more quiet (inl none_kept) = inl none_kept
  PhaseKept-Quiet st st' members r ready w f more quiet (inr (before, k, g, known)) = inr (
    before,
    k,
    Grown-Quiet st.heap st'.heap before members (All-map members quiet known) g,
    All-map members (λ i b. omega arith) known,
  )
  PhaseKept-Quiet st st' members r (executing batch current (rows tokens)) w f more quiet
        (seqs, k, same, a, n) =
      (
        seqs,
        k,
        SameTokens-Quiet st.heap st'.heap seqs batch
            (All-map batch quiet (subst (All _) f.held (active-known st w))) same,
        a,
        n,
      )
  PhaseKept-Quiet st st' members r (executing batch current raised) w f more quiet kept = tt
  PhaseKept-Quiet st st' members r dead w f more quiet kept = tt
