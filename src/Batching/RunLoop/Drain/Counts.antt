-- ===== src/Batching/RunLoop/Drain/Counts.antt =====
-- The events that only drain the loop, and how many ticks are left.
use nano_kube_llm_server.Prelude.{ℕ, suc, ◌-◌, ◌≤◌, ◌≡◌, refl, List, [], ◌∷◌, Option, length, arith}
use nano_kube_llm_server.Runners.Interface.{ForwardBatch, rows, ModelRunner}
use nano_kube_llm_server.Batching.RunLoop.{
  Server, Event, ticks, loop_cancelled, submits, gives_up, delivers,
}

-- The events other than a new request and the cancellation of the loop.
abbrev pub IsDraining : Event → Type 0
IsDraining (submits p) = ⊥
IsDraining loop_cancelled = ⊥
IsDraining _ = Unit

abbrev pub tick_count : List Event → ℕ
tick_count [] = 0
tick_count (ticks ∷ es) = suc (tick_count es)
tick_count (_ ∷ es) = tick_count es

-- The ticks that are left of `n` after the events.
abbrev pub left_of : List Event → ℕ → ℕ
left_of [] n = n
left_of (ticks ∷ es) n = left_of es (n - 1)
left_of (_ ∷ es) n = left_of es n

pub left_of-zero : (es : List Event) (n : ℕ) → n ≤ tick_count es → left_of es n ≡ 0
left_of-zero [] n le = omega arith
left_of-zero (ticks ∷ es) n le = left_of-zero es (n - 1) (omega arith)
left_of-zero (loop_cancelled ∷ es) n le = left_of-zero es n le
left_of-zero (submits p ∷ es) n le = left_of-zero es n le
left_of-zero (gives_up i ∷ es) n le = left_of-zero es n le
left_of-zero (delivers i ∷ es) n le = left_of-zero es n le

pub left_of-cons :
    (e : Event) (es : List Event) (n : ℕ) → left_of (e ∷ es) n ≡ left_of es (left_of (e ∷ []) n)
left_of-cons ticks es n = refl
left_of-cons loop_cancelled es n = refl
left_of-cons (submits p) es n = refl
left_of-cons (gives_up i) es n = refl
left_of-cons (delivers i) es n = refl

-- What a handler's event leaves alone.
abbrev pub IsQuiet : {R : Type 0} → Server R → Server R → Type 0
IsQuiet m m' = (m'.next_id ≡ m.next_id) × (m'.phase ≡ m.phase)

-- Whenever the runner returns tokens, there is an entry for each row.
abbrev pub IsRowwise : {R : Type 0} → ModelRunner R → Type 0
IsRowwise {R} ops =
    (r : R) (batch : ForwardBatch) (tokens : List (Option ℕ))
    → (ops.execute r batch).0 ≡ rows tokens
    → length tokens ≡ length batch.seqs
