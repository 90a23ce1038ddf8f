-- ===== src/Batching/Scheduler.antt =====
-- model_server/batching.py, class Scheduler: two deques and an admission rule. The deques hold
-- references into the heap of sequences, so each method takes the heap along.
pub mod Admission
pub mod Limits
pub mod Tokens
pub mod WellFormed
use nano_kube_llm_server.Prelude.{
  ℕ, zero, suc, ◌+◌, ◌==◌, if◌then◌else◌, Bool, true, false, ◌&&◌, ◌||◌, not, List, [], ◌∷◌, ◌++◌,
  Option, none, some, ℤ, pos, ltb_ℤ, leb_ℤ, length, is_empty, elem,
}
use nano_kube_llm_server.Batching.Sequences.{
  Finish, unset, stopped, length_limit, cancelled, error, Sequence, emit, is_finished, seq_len,
  Heap, update,
}

pub record Scheduler : Type 0 where
  pub waiting : List ℕ
  pub running : List ℕ
  pub max_batch_size : ℤ
  pub max_batch_tokens : ℤ

-- The heap, the counter `_next_id`, and the scheduler.
pub record State : Type 0 where
  pub heap : Heap
  pub next_id : ℕ
  pub scheduler : Scheduler
  pub open scheduler use *

-- `__init__`.
unfoldable pub new_scheduler : ℤ → ℤ → Scheduler
new_scheduler size tokens = record {
  waiting = [];
  running = [];
  max_batch_size = size;
  max_batch_tokens = tokens;
}

-- A write to the attributes of sequence `i`.
abbrev pub modify : State → ℕ → (Sequence → Sequence) → State
modify st i f = record st { heap = update st.heap i (f (st.heap i)) }

abbrev pub set_waiting : State → List ℕ → State
set_waiting st is = record st { scheduler = record st.scheduler { waiting = is } }

abbrev pub finish : Finish → Sequence → Sequence
finish reason s = record s { finish_reason = reason }

unfoldable pub add : State → ℕ → State
add st i =
    if leb_ℤ (st.heap i).max_new_tokens (pos 0)
    then modify st i (λ s. emit (finish length_limit s) none)
    else set_waiting st (st.waiting ++ i ∷ [])

-- `s for s in self.running if not s.is_finished`.
unfoldable pub unfinished : Heap → List ℕ → List ℕ
unfinished h [] = []
unfinished h (i ∷ is) = if is_finished (h i) then unfinished h is else i ∷ unfinished h is

-- `sum(len(s) for s in self.running)`.
unfoldable pub total_len : Heap → List ℕ → ℕ
total_len h [] = 0
total_len h (i ∷ is) = seq_len (h i) + total_len h is

-- Whether the two tests that end the loop of `schedule` both pass.
unfoldable pub fits : Heap → ℤ → ℤ → List ℕ → ℕ → Bool
unfolding total_len
fits h size tokens running candidate =
    not (ltb_ℤ size (pos (length running + 1)))
    && not
        (not (is_empty running) && ltb_ℤ tokens (pos (total_len h running + seq_len (h candidate))))

-- The `while self.waiting` loop: the deques `running` and `waiting` that it leaves.
unfoldable pub admit : Heap → ℤ → ℤ → List ℕ → List ℕ → List ℕ × List ℕ
unfolding fits
admit h size tokens running [] = (running, [])
admit h size tokens running (candidate ∷ rest) =
    let admitted = admit h size tokens (running ++ candidate ∷ []) rest in
    if fits h size tokens running candidate then admitted else (running, candidate ∷ rest)

-- The batch that `schedule` returns is the deque `running` that it leaves.
unfoldable pub schedule : State → State
schedule st =
    let (running, waiting) =
      admit st.heap st.max_batch_size st.max_batch_tokens (unfinished st.heap st.running)
        st.waiting in
    record st { scheduler = record st.scheduler { running = running; waiting = waiting } }

-- The reason that the token just appended gives: EOS before the length limit.
unfoldable pub reason_after : Sequence → ℕ → Finish
unfolding elem
reason_after s token =
    if elem token s.eos_token_ids
    then stopped
    else if leb_ℤ s.max_new_tokens (pos (length s.output_ids))
    then length_limit
    else s.finish_reason

-- `if s.is_finished: s.emit(None)`, at the value of the test.
abbrev pub end_if : Bool → Sequence → Sequence
end_if finished s = if finished then emit s none else s

-- `s.output_ids.append(token)`.
abbrev pub append_token : Sequence → ℕ → Sequence
append_token s token = record s { output_ids = s.output_ids ++ token ∷ [] }

-- The body of the loop of `postprocess`.
unfoldable pub record_token : Sequence → ℕ → Sequence
record_token s token =
    let extended = emit (append_token s token) (some token) in
    let s' = finish (reason_after extended token) extended in end_if (is_finished s') s'

-- The loop of `postprocess` over `zip(batch, next_ids)`, with the list that it returns.
unfoldable pub postprocess : Heap → List (ℕ × ℕ) → Heap × List ℕ
postprocess h [] = (h, [])
postprocess h ((i, token) ∷ rest) =
    let s = record_token (h i) token in
    let (h', done) = postprocess (update h i s) rest in
    (h', if is_finished s then i ∷ done else done)

unfoldable pub num_running : State → ℕ
unfolding unfinished
num_running st = length (unfinished st.heap st.running)

unfoldable pub num_waiting : State → ℕ
num_waiting st = length st.waiting

unfoldable pub has_work : State → Bool
has_work st = not (is_empty st.waiting) || not (is_empty st.running)

-- `deque.remove`: the first occurrence; the ValueError of a missing one is swallowed by `abort`.
unfoldable pub remove : ℕ → List ℕ → List ℕ
remove i [] = []
remove i (j ∷ js) = if j == i then js else j ∷ remove i js

unfoldable pub abort : State → ℕ → Finish → State
abort st i reason =
    if is_finished (st.heap i)
    then st
    else modify (set_waiting (modify st i (finish reason)) (remove i st.waiting)) i
        (λ s. emit s none)

-- The body of the loop of `fail_all`.
unfoldable pub fail_one : Sequence → Sequence
fail_one s = emit (if is_finished s then s else finish error s) none

unfoldable pub fail_each : Heap → List ℕ → Heap
fail_each h [] = h
fail_each h (i ∷ is) = fail_each (update h i (fail_one (h i))) is

-- The new state, and the list that `fail_all` returns.
unfoldable pub fail_all : State → State × List ℕ
fail_all st =
    let failed = st.running ++ st.waiting in
    (
      record st {
        heap = fail_each st.heap failed;
        scheduler = record st.scheduler { waiting = []; running = [] };
      },
      failed,
    )
