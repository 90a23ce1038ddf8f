-- ===== src/Batching/Scheduler/WellFormed.antt =====
-- The invariant of the scheduler and the heap of sequences.
pub mod Schedules
pub mod Submits
pub mod Aborts
pub mod Cancels
pub mod Records
pub mod Failures
pub mod Deliveries
use nano_kube_llm_server.Prelude.{
  ℕ, suc, ◌+◌, ◌<◌, ◌≡◌, refl, ◌⊎◌, inl, inr, true, false, List, [], ◌∷◌, ◌++◌, elem, All,
  IsDistinct, length, pos, ◌≤ℤ◌, ◌<ℤ◌, arith, if◌then◌else◌,
}
use nano_kube_llm_server.Batching.Sequences.{Sequence, Heap, is_finished, stream}
use nano_kube_llm_server.Batching.Sequences.Heaps.{IsDirect}
use nano_kube_llm_server.Batching.Scheduler.{State}

-- Tokens may still be added.
abbrev pub HasBudget : Sequence → Type 0
HasBudget s = pos (length s.output_ids) <ℤ s.max_new_tokens

-- A request in the queue is not finished and has budget left.
abbrev pub IsQueued : ℕ → ℕ → Sequence → Type 0
IsQueued next i s = (i < next) × (is_finished s ≡ false) × HasBudget s

-- A request in the batch is finished or has budget left.
abbrev pub IsActive : ℕ → ℕ → Sequence → Type 0
IsActive next i s = (i < next) × (is_finished s ≡ false → HasBudget s)

-- The id is the reference, and no more tokens were produced than were asked for.
pub record IsSound (i : ℕ) (s : Sequence) : Type 0 where
  pub named : s.id ≡ i
  pub direct : IsDirect s
  pub bounded : (s.output_ids ≡ []) ⊎ (pos (length s.output_ids) ≤ℤ s.max_new_tokens)

pub record IsWellFormed (st : State) : Type 0 where
  -- No request is held twice.
  pub distinct : IsDistinct (st.running ++ st.waiting)
  pub queued : All (λ i. IsQueued st.next_id i (st.heap i)) st.waiting
  pub active : All (λ i. IsActive st.next_id i (st.heap i)) st.running
  pub sized : (pos (length st.running) ≤ℤ st.max_batch_size) ⊎ (st.running ≡ [])
  -- No request is forgotten: each that was created is finished or held.
  pub held :
      (i : ℕ)
      → i < st.next_id
      → (is_finished (st.heap i) ≡ true) ⊎ (elem i (st.running ++ st.waiting) ≡ true)
  pub sound : (i : ℕ) → i < st.next_id → IsSound i (st.heap i)
