-- ===== src/Batching/Scheduler/Admission.antt =====
-- Which waiting requests `schedule` admits.
use nano_kube_llm_server.Prelude.{
  ℕ, ◌+◌, ◌≡◌, refl, sym, ap, ◌∙◌, ◌≢◌, ◌⊎◌, inl, inr, true, false, List, [], ◌∷◌, ◌++◌, ℤ, pos,
  ltb_ℤ, ◌≤ℤ◌, ◌<ℤ◌, length, length-append, append-nil, append_assoc, arith, Bool-cases, not, ◌||◌,
  is_empty,
}
use nano_kube_llm_server.Batching.Sequences.{Heap, seq_len}
use nano_kube_llm_server.Batching.Scheduler.{
  State, total_len, fits, admit, schedule, unfinished, has_work,
}

-- `admitted` is a prefix of the old queue, and joins the batch in its order.
pub record Splits (running waiting running' waiting' : List ℕ) : Type 0 where
  pub admitted : List ℕ
  pub joined : running' ≡ running ++ admitted
  pub taken : waiting ≡ admitted ++ waiting'

module _ (h : Heap) (size tokens : ℤ) where
  admit-Splits :
      (running waiting : List ℕ)
      → Splits running waiting
          (admit h size tokens running waiting).0
          (admit h size tokens running waiting).1
  unfolding admit
  admit-Splits running [] = record {
    admitted = [];
    joined = sym (append-nil running);
    taken = refl;
  }
  admit-Splits running (c ∷ rest) = elim (Bool-cases (fits h size tokens running c)) [
    | inl e ↦
        let r = admit-Splits (running ++ c ∷ []) rest in
        rw e (record {
          admitted = c ∷ r.admitted;
          joined = r.joined ∙ append_assoc running (c ∷ []) r.admitted;
          taken = ap (◌∷◌ c) r.taken;
        })
    | inr e ↦ rw e (record { admitted = []; joined = sym (append-nil running); taken = refl })
  ]

  -- A candidate that passes leaves the batch within both limits, or was admitted to an empty batch.
  pub fits_true :
      (running : List ℕ) (c : ℕ)
      → fits h size tokens running c ≡ true
      → (pos (length running + 1) ≤ℤ size)
        × ((running ≡ []) ⊎ (pos (total_len h running + seq_len (h c)) ≤ℤ tokens))
  unfolding fits
  fits_true [] c e = (ground arith, inl refl)
  fits_true (i ∷ is) c e = (ground arith, inr (ground arith))

  fits_false :
      (running : List ℕ) (c : ℕ)
      → fits h size tokens running c ≡ false
      → (size <ℤ pos (length running + 1))
        ⊎ ((running ≢ []) × (tokens <ℤ pos (total_len h running + seq_len (h c))))
  unfolding fits
  fits_false [] c e = inl (ground arith)
  fits_false (i ∷ is) c e = elim (Bool-cases (ltb_ℤ size (pos (length (i ∷ is) + 1)))) [
    | inl full ↦ inl (ground arith)
    | inr room ↦ inr (λ p. cc, ground arith)
  ]

  pub total_len-append : (xs ys : List ℕ) → total_len h (xs ++ ys) ≡ total_len h xs + total_len h ys
  unfolding total_len
  total_len-append [] ys = omega arith
  total_len-append (x ∷ xs) ys = omega (arith, total_len-append xs ys)

  -- The size limit, kept by the loop.
  admit-size :
      (running waiting : List ℕ)
      → (pos (length running) ≤ℤ size) ⊎ (running ≡ [])
      → (pos (length (admit h size tokens running waiting).0) ≤ℤ size)
        ⊎ ((admit h size tokens running waiting).0 ≡ [])
  unfolding admit
  admit-size running [] k = k
  admit-size running (c ∷ rest) k = elim (Bool-cases (fits h size tokens running c)) [
    | inl e ↦
        let (room, _) = fits_true running c e in
        rw e (
          admit-size (running ++ c ∷ []) rest (inl (omega (arith, length-append running (c ∷ [])))))
    | inr e ↦ rw e k
  ]

  -- What the loop leaves in front of the queue does not fit the batch that it leaves.
  admit-stops :
      (running waiting : List ℕ) (c : ℕ) (rest : List ℕ)
      → (admit h size tokens running waiting).1 ≡ c ∷ rest
      → fits h size tokens (admit h size tokens running waiting).0 c ≡ false
  unfolding admit
  admit-stops running [] c rest = λ k. cc
  admit-stops running (d ∷ ds) c rest = elim (Bool-cases (fits h size tokens running d)) [
    | inl e ↦ rw e (admit-stops (running ++ d ∷ []) ds c rest)
    | inr e ↦ rw e (λ k. ground arith)
  ]

-- The sum of the prompts and outputs in the batch.
abbrev pub batch_tokens : State → ℕ
batch_tokens st = total_len st.heap st.running

-- The batch of `schedule` is the running requests that are not finished, then the requests at the
-- front of the queue, in their order; the queue keeps the others, in their order.
pub schedule-Splits :
    (st : State)
    → Splits (unfinished st.heap st.running) st.waiting (schedule st).running (schedule st).waiting
unfolding schedule
schedule-Splits st =
    admit-Splits st.heap st.max_batch_size st.max_batch_tokens (unfinished st.heap st.running)
      st.waiting

-- `schedule` stops only where it must: the request left at the front of the queue would exceed the
-- size limit, or the batch is not empty and the request would exceed the token budget.
pub schedule_maximal :
    (st : State) (c : ℕ) (rest : List ℕ)
    → (schedule st).waiting ≡ c ∷ rest
    → (st.max_batch_size <ℤ pos (length (schedule st).running + 1))
      ⊎ (((schedule st).running ≢ [])
          × (st.max_batch_tokens <ℤ pos (batch_tokens (schedule st) + seq_len (st.heap c))))
unfolding schedule
schedule_maximal st c rest e =
    fits_false st.heap st.max_batch_size st.max_batch_tokens _ c
      (admit-stops st.heap st.max_batch_size st.max_batch_tokens _ st.waiting c rest e)

-- With room for one request, a scheduler with work has a batch, or its work is done.
pub schedule_progress :
    (st : State)
    → pos 1 ≤ℤ st.max_batch_size
    → ((schedule st).running ≢ []) ⊎ (has_work (schedule st) ≡ false)
unfolding has_work
schedule_progress st room = go (schedule st).running (schedule st).waiting refl refl
  where
    go :
        (running waiting : List ℕ)
        → (schedule st).running ≡ running
        → (schedule st).waiting ≡ waiting
        → ((schedule st).running ≢ [])
          ⊎ ((not (is_empty (schedule st).waiting) || not (is_empty (schedule st).running)) ≡ false)
    go (i ∷ is) waiting e f = inl (λ g. cc)
    go [] [] e f = inr (rw (e, f) refl)
    go [] (c ∷ rest) e f = elim (schedule_maximal st c rest f) [
      | inl full ↦ absurd (omega (arith, ap length e))
      | inr (some_running, _) ↦ absurd (some_running e)
    ]

-- The limit on the batch's size is kept.
pub schedule-size :
    (st : State)
    → (pos (length (unfinished st.heap st.running)) ≤ℤ st.max_batch_size)
      ⊎ (unfinished st.heap st.running ≡ [])
    → (pos (length (schedule st).running) ≤ℤ st.max_batch_size) ⊎ ((schedule st).running ≡ [])
unfolding schedule
schedule-size st = admit-size st.heap st.max_batch_size st.max_batch_tokens _ st.waiting
