-- ===== src/Engines/Turns.antt =====
-- The process stays safe while a handler reads its queue and gives its request up.
use nano_kube_llm_server.Prelude.{ℕ, ◌<◌, ◌≡◌, refl, subst, true, List, Option, arith, ltb}
use nano_kube_llm_server.Runners.Interface.{ModelRunner}
use nano_kube_llm_server.Batching.Sequences.Heaps.{update_self}
use nano_kube_llm_server.Batching.Scheduler.{State}
use nano_kube_llm_server.Batching.Scheduler.WellFormed.{IsWellFormed}
use nano_kube_llm_server.Batching.Scheduler.WellFormed.Deliveries.{
  Silent, silent-IsWellFormed, silent-HasBudget,
}
use nano_kube_llm_server.Batching.RunLoop.{Server, gives_up, step}
use nano_kube_llm_server.Batching.RunLoop.Safety.{IsSafe, PhaseFits-keeps, step-IsSafe}
use nano_kube_llm_server.Engines.{leave, cancel}

pub left_self :
    (st : State) (i : ℕ) (rest : List (Option ℕ))
    → (leave st i rest).heap i ≡ record (st.heap i) { queue = rest }
unfolding leave
left_self st i rest = update_self st.heap i _

read-Silent :
    (st : State) (i : ℕ) (rest : List (Option ℕ))
    → IsWellFormed st
    → i < st.next_id
    → Silent (st.heap i) (record (st.heap i) { queue = rest })
read-Silent st i rest w known = record {
  id = refl;
  output_ids = refl;
  finish_reason = refl;
  max_new_tokens = refl;
  direct = (w.sound i known).direct;
}

pub leave-IsSafe :
    {R : Type 0} (m : Server R) (i : ℕ) (rest : List (Option ℕ))
    → i < m.next_id
    → IsSafe m
    → IsSafe (record m { state = leave m.state i rest })
unfolding leave
leave-IsSafe m i rest known v =
    let silent = read-Silent m.state i rest v.well known in
    record {
      well = silent-IsWellFormed m.state v.well i _ silent;
      fits =
          PhaseFits-keeps m.state (leave m.state i rest) m.phase v.well refl
            (λ j k b. silent-HasBudget m.state v.well i _ silent j b) v.fits;
    }

step-gives_up :
    {R : Type 0} (ops : ModelRunner R) (m : Server R) (i : ℕ)
    → ltb i m.next_id ≡ true
    → step ops m (gives_up i) ≡ record m { state = cancel m.state i }
unfolding step cancel
step-gives_up ops m i known = rw known refl

pub cancel-IsSafe :
    {R : Type 0} (ops : ModelRunner R) (m : Server R) (i : ℕ)
    → i < m.next_id
    → IsSafe m
    → IsSafe (record m { state = cancel m.state i })
cancel-IsSafe ops m i known v =
    subst IsSafe (step-gives_up ops m i (ground arith)) (step-IsSafe ops m (gives_up i) v)
