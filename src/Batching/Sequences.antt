-- ===== src/Batching/Sequences.antt =====
-- model_server/batching.py, class Sequence. Sequences are shared, mutable objects: the scheduler's
-- deques, the batch of a tick and the request handler all hold references to them. A reference is
-- the sequence's `id`, drawn from the process-wide counter, and the objects live in a heap.
pub mod Heaps
use nano_kube_llm_server.Prelude.{
  elem, ◌≡◌, ℕ, ◌+◌, ◌==◌, if◌then◌else◌, Bool, true, false, List, [], ◌∷◌, ◌++◌, Option, ℤ, Float,
  length,
}

-- The values of `finish_reason`: "", "stop", "length", "cancelled", "error".
pub data Finish : Type 0 where
  unset stopped length_limit cancelled error : Finish

pub record Sequence : Type 0 where
  pub prompt_ids : List ℕ
  pub max_new_tokens : ℤ
  pub temperature : Float
  pub top_k : Option ℤ
  pub eos_token_ids : List ℕ
  pub id : ℕ
  pub output_ids : List ℕ
  pub finish_reason : Finish
  -- What the consumer can get now, oldest first; `none` is the sentinel.
  pub queue : List (Option ℕ)
  -- Whether the sequence was created on a running event loop, and the `put_nowait` calls that this
  -- loop has been handed and has not yet run, oldest first.
  pub on_loop : Bool
  pub posted : List (Option ℕ)

-- `call_soon_threadsafe` queues the call behind the earlier ones; with no loop it is made at once.
unfoldable pub emit : Sequence → Option ℕ → Sequence
emit s token =
    if s.on_loop
    then record s { posted = s.posted ++ token ∷ [] }
    else record s { queue = s.queue ++ token ∷ [] }

-- The event loop runs the oldest posted call.
unfoldable pub put_posted : List (Option ℕ) → Sequence → Sequence
put_posted [] s = s
put_posted (token ∷ rest) s = record s { queue = s.queue ++ token ∷ []; posted = rest }

unfoldable pub deliver : Sequence → Sequence
unfolding put_posted
deliver s = put_posted s.posted s

-- All that is still to be read, in the order of the calls of `emit`.
abbrev pub stream : Sequence → List (Option ℕ)
stream s = s.queue ++ s.posted

abbrev pub token_ids : Sequence → List ℕ
token_ids s = s.prompt_ids ++ s.output_ids

abbrev pub is_set : Finish → Bool
is_set unset = false
is_set _ = true

abbrev pub is_finished : Sequence → Bool
is_finished s = is_set s.finish_reason

-- `__len__`.
abbrev pub seq_len : Sequence → ℕ
seq_len s = length s.prompt_ids + length s.output_ids

abbrev pub Heap : Type 0
Heap = ℕ → Sequence

-- A write through the reference `i`.
unfoldable pub update : Heap → ℕ → Sequence → Heap
update h i s j = if i == j then s else h j

-- What a caller gives to `Sequence(...)`; the other fields have their defaults.
pub record Params : Type 0 where
  pub prompt_ids : List ℕ
  pub max_new_tokens : ℤ
  pub temperature : Float
  pub top_k : Option ℤ
  pub eos_token_ids : List ℕ

-- `Sequence(...)`, with `id` from the counter. `on_loop` is `_running_loop() is not None`.
unfoldable pub new_sequence : Params → ℕ → Bool → Sequence
new_sequence p id on_loop = record {
  prompt_ids = p.prompt_ids;
  max_new_tokens = p.max_new_tokens;
  temperature = p.temperature;
  top_k = p.top_k;
  eos_token_ids = p.eos_token_ids;
  id = id;
  output_ids = [];
  finish_reason = unset;
  queue = [];
  on_loop = on_loop;
  posted = [];
}

-- Every id that is not in `is` holds the same sequence in both heaps.
abbrev pub SameOutside : List ℕ → Heap → Heap → Type 0
SameOutside is h h' = (j : ℕ) → elem j is ≡ false → h' j ≡ h j
