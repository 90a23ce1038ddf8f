-- ===== src/Batching/RunLoop/Owed.antt =====
-- The tokens that requests may still get, and what the writes of run_loop leave of them.
pub mod Ended
use nano_kube_llm_server.Prelude.{
  ℕ, zero, suc, ◌+◌, ◌-◌, ◌<◌, ◌≤◌, ◌≡◌, refl, ap, ap₂, subst, ◌∙◌, inl, inr, true, false, [], ◌∷◌,
  ◌==◌, none, length, length-append, pos_part, if◌then◌else◌, arith, Bool-cases,
}
use nano_kube_llm_server.Batching.Sequences.{Sequence, Heap, is_finished, is_set, deliver}
use nano_kube_llm_server.Batching.Sequences.Heaps.{Core, core, emit-finish_reason, deliver-core}
use nano_kube_llm_server.Batching.Scheduler.{record_token, fail_one}
use nano_kube_llm_server.Batching.Scheduler.Tokens.{record_token-core}
use nano_kube_llm_server.Batching.Scheduler.WellFormed.{HasBudget}
use nano_kube_llm_server.Batching.Scheduler.WellFormed.Aborts.{aborted}
use nano_kube_llm_server.Batching.RunLoop.Outputs.{IsKept, finished-IsKept, fail_one-ended}
use nano_kube_llm_server.Batching.RunLoop.Entries.{failed_row}

-- How many tokens a request may still get.
unfoldable pub owed_by : Sequence → ℕ
owed_by s = if is_finished s then 0 else pos_part s.max_new_tokens - length s.output_ids

-- The sum over the ids below `n`.
unfoldable pub owed : Heap → ℕ → ℕ
owed h zero = 0
owed h (suc n) = owed_by (h n) + owed h n

pub owed-fewer :
    (h h' : Heap) (n : ℕ)
    → ((i : ℕ) → i < n → owed_by (h' i) ≤ owed_by (h i))
    → owed h' n ≤ owed h n
unfolding owed
owed-fewer h h' zero le = omega arith
owed-fewer h h' (suc n) le =
    omega (arith, le n (omega arith), owed-fewer h h' n (λ i k. le i (omega arith)))

pub owed-drops :
    (h h' : Heap) (n j : ℕ)
    → ((i : ℕ) → i < n → owed_by (h' i) ≤ owed_by (h i))
    → j < n
    → owed_by (h' j) < owed_by (h j)
    → owed h' n < owed h n
unfolding owed
owed-drops h h' zero j le k lt = omega arith
owed-drops h h' (suc n) j le k lt = elim (Bool-cases (j == n)) [
  | inl last ↦
      let e : j ≡ n = ground arith in
      let lt' = subst (λ i. owed_by (h' i) < owed_by (h i)) e lt in
      omega (arith, lt', owed-fewer h h' n (λ i l. le i (omega arith)))
  | inr before ↦
      omega (
        arith,
        le n (omega arith),
        owed-drops h h' n j (λ i l. le i (omega arith)) (ground arith) lt,
      )
]

pub owed_by-ended : (s : Sequence) → is_finished s ≡ true → owed_by s ≡ 0
unfolding owed_by
owed_by-ended s done = rw done refl

pub owed-ended : (h : Heap) (n : ℕ) → ((i : ℕ) → i < n → is_finished (h i) ≡ true) → owed h n ≡ 0
unfolding owed owed_by
owed-ended h zero ended = refl
owed-ended h (suc n) ended = omega (
  arith,
  owed_by-ended (h n) (ended n (omega arith)),
  owed-ended h n (λ i k. ended i (omega arith)),
)

pub owed-at : (h : Heap) (n i : ℕ) → i < n → owed h n ≡ 0 → owed_by (h i) ≡ 0
unfolding owed
owed-at h zero i k e = omega arith
owed-at h (suc n) i k e = elim (Bool-cases (i == n)) [
  | inl last ↦ let f : i ≡ n = ground arith in let e' : owed_by (h n) ≡ 0 = omega arith in cc
  | inr before ↦ owed-at h n i (ground arith) (omega arith)
]

pub owed_by-going : (s : Sequence) → is_finished s ≡ false → HasBudget s → 0 < owed_by s
unfolding owed_by
owed_by-going s going b = rw going (omega (arith, b))

-- How many tokens may still be added, finished or not.
abbrev room_in : Core → ℕ
room_in c = pos_part c.max_new_tokens - length c.output_ids

owed_by-room : (s : Sequence) → owed_by s ≤ room_in (core s)
unfolding owed_by
owed_by-room s = elim (Bool-cases (is_finished s)) [
  | inl done ↦ rw done (omega arith)
  | inr going ↦ rw going (omega arith)
]

owed_by-unfinished : (s : Sequence) → is_finished s ≡ false → owed_by s ≡ room_in (core s)
unfolding owed_by
owed_by-unfinished s going = rw going refl

room-record_token :
    (s : Sequence) (token : ℕ) → room_in (core (record_token s token)) ≡ room_in (core s) - 1
room-record_token s token =
    ap room_in (record_token-core s token) ∙ omega (arith, length-append s.output_ids (token ∷ []))

-- A token that is recorded in an unfinished request with budget leaves it less than before.
pub record_token-owes :
    (s : Sequence) (token : ℕ)
    → is_finished s ≡ false
    → HasBudget s
    → owed_by (record_token s token) < owed_by s
record_token-owes s token going b = omega (
  arith,
  owed_by-room (record_token s token),
  room-record_token s token,
  owed_by-unfinished s going,
  owed_by-going s going b,
)

record_token-owes_less : (token : ℕ) (s : Sequence) → owed_by (record_token s token) ≤ owed_by s
record_token-owes_less token s = elim (Bool-cases (is_finished s)) [
  | inl done ↦
      omega (arith, owed_by-ended (record_token s token) (finished-IsKept.records token s done))
  | inr going ↦ omega (
    arith,
    owed_by-room (record_token s token),
    room-record_token s token,
    owed_by-unfinished s going,
  )
]

failed_row-ended : (s : Sequence) → is_finished (failed_row s) ≡ true
failed_row-ended s = elim (Bool-cases (is_finished s)) [
  | inl done ↦ rw done done
  | inr going ↦ rw going (ap is_set (emit-finish_reason _ none))
]

pub failed_row-owes :
    (s : Sequence) → is_finished s ≡ false → HasBudget s → owed_by (failed_row s) < owed_by s
failed_row-owes s going b =
    omega (arith, owed_by-ended (failed_row s) (failed_row-ended s), owed_by-going s going b)

same_owed :
    (s s' : Sequence)
    → core s' ≡ core s
    → s'.finish_reason ≡ s.finish_reason
    → owed_by s' ≡ owed_by s
unfolding owed_by
same_owed s s' e f = ap₂ (λ c r. if is_set r then 0 else room_in c) e f

-- No write to a sequence makes it owed more.
pub owed-IsKept : (most : ℕ) → IsKept (λ s. owed_by s ≤ most)
unfolding owed_by
owed-IsKept most = record {
  aborts = λ reason s some_reason p. omega (
    arith,
    owed_by-ended (aborted reason s) (ap is_set (emit-finish_reason _ none) ∙ some_reason),
  );
  records = λ token s p. omega (arith, p, record_token-owes_less token s);
  fails = λ s p. omega (arith, owed_by-ended (fail_one s) (fail_one-ended s));
  delivers = λ s p. omega (arith, p, same_owed s (deliver s) (deliver-core s).0 (deliver-core s).1);
}
