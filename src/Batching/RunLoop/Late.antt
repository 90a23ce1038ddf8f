-- ===== src/Batching/RunLoop/Late.antt =====
-- A client that leaves while its request's batch is on the worker thread.
use nano_kube_llm_server.Prelude.{
  ℕ, ◌<◌, ◌≡◌, refl, sym, ap, ◌∙◌, subst, true, false, List, [], ◌∷◌, ◌++◌, Option, some, none,
  elem, append_assoc, IsDistinct, ltb, ◌==◌, if◌then◌else◌, arith, Bool-cases, inl, inr,
}
use nano_kube_llm_server.Runners.Interface.{rows, ModelRunner}
use nano_kube_llm_server.Batching.Sequences.{
  Sequence, Heap, stream, is_finished, cancelled, stopped,
}
use nano_kube_llm_server.Batching.Sequences.Heaps.{Emitted, emit-Emitted, IsDistinct→Halves}
use nano_kube_llm_server.Batching.Scheduler.{abort, record_token, finish}
use nano_kube_llm_server.Batching.Scheduler.Tokens.{Recorded, record_token-Recorded, sentinel_if}
use nano_kube_llm_server.Batching.Scheduler.WellFormed.{IsSound}
use nano_kube_llm_server.Batching.Scheduler.WellFormed.Aborts.{aborted, aborted-IsSound, abort-here}
use nano_kube_llm_server.Batching.Scheduler.WellFormed.Records.{record_token-finished}
use nano_kube_llm_server.Batching.RunLoop.{
  Server, executing, ticks, gives_up, step, tick_at, end_tick,
}
use nano_kube_llm_server.Batching.RunLoop.Rows.{All-elem}
use nano_kube_llm_server.Batching.RunLoop.Safety.{IsSafe, PhaseFits}
use nano_kube_llm_server.Batching.RunLoop.Entries.{EachEntry, after_entry, record_rows-EachEntry}

-- The entry of a row: the one that stands where the row stands in the batch.
unfoldable pub entry_at : ℕ → List ℕ → List (Option ℕ) → Option (Option ℕ)
entry_at i (j ∷ js) (e ∷ es) = let rest = entry_at i js es in if j == i then some e else rest
entry_at i _ _ = none

entry_at-elem :
    (i : ℕ) (batch : List ℕ) (next_ids : List (Option ℕ)) (entry : Option ℕ)
    → entry_at i batch next_ids ≡ some entry
    → elem i batch ≡ true
unfolding entry_at elem
entry_at-elem i [] next_ids entry e = cc
entry_at-elem i (j ∷ js) [] entry e = cc
entry_at-elem i (j ∷ js) (x ∷ xs) entry e = elim (Bool-cases (j == i)) [
  | inl hit ↦ ground arith
  | inr miss ↦ let ih = entry_at-elem i js xs entry (rw miss at e) in ground (arith, ih)
]

EachEntry-at :
    (h h' : Heap) (i : ℕ) (batch : List ℕ) (next_ids : List (Option ℕ)) (entry : Option ℕ)
    → EachEntry h h' batch next_ids
    → entry_at i batch next_ids ≡ some entry
    → h' i ≡ after_entry (h i) entry
unfolding entry_at
EachEntry-at h h' i [] next_ids entry each e = cc
EachEntry-at h h' i (j ∷ js) [] entry each e = cc
EachEntry-at h h' i (j ∷ js) (x ∷ xs) entry each e = elim (Bool-cases (j == i)) [
  | inl hit ↦
      let same : j ≡ i = ground arith in
      let e' : some x ≡ some entry = rw hit at e in
      let f : x ≡ entry = cc in
      subst (λ k. h' k ≡ after_entry (h k) entry) same (each.0 ∙ ap (after_entry (h j)) f)
  | inr miss ↦ EachEntry-at h h' i js xs entry each.1 (rw miss at e)
]

module _ {R : Type 0} (ops : ModelRunner R) (m : Server R) (batch current : List ℕ)
    (next_ids : List (Option ℕ)) (i token : ℕ) where
  -- Sequence `i` after it is given up, and the loop then goes on.
  abbrev pub late : Sequence
  late = (step ops (step ops m (gives_up i)) ticks).heap i

  late_lem :
      IsSafe m
      → m.phase ≡ executing batch current (rows next_ids)
      → entry_at i batch next_ids ≡ some (some token)
      → is_finished (m.heap i) ≡ false
      → (i < m.next_id) × (late ≡ record_token (aborted cancelled (m.heap i)) token)
  unfolding step tick_at end_tick
  late_lem v at entry going =
      let a = subst (PhaseFits m.state) at v.fits in
      let d =
        subst IsDistinct a.held (IsDistinct→Halves m.running m.waiting v.well.distinct).left in
      let hit = entry_at-elem i batch next_ids (some token) entry in
      let active = All-elem _ i m.running v.well.active (ap (elem i) a.held ∙ hit) in
      let known : ltb i m.next_id ≡ true = ground (arith, active.0) in
      let st = abort m.state i cancelled in
      let m' : Server R = record m { state = st } in
      let gone : step ops m (gives_up i) ≡ m' = rw known refl in
      let each = record_rows-EachEntry st batch next_ids d in
      (
        active.0,
        ap (λ n. (step ops n ticks).heap i) gone
            ∙ ap (λ p. (tick_at ops m' p).heap i) at
            ∙ EachEntry-at st.heap _ i batch next_ids (some token) each entry
            ∙ ap (λ t. record_token t token) (abort-here m.state i cancelled going),
      )

  -- For a process that keeps its invariant, with a batch on the worker thread for which it delivers
  -- entries: if an unfinished request of the batch whose own entry is a token is given up, and the loop
  -- then goes on, the token is still appended to its output, it follows the sentinel on the channel, a
  -- second sentinel follows it, and an EOS token turns the reason "cancelled" into "stop".
  pub late_token :
      IsSafe m
      → m.phase ≡ executing batch current (rows next_ids)
      → entry_at i batch next_ids ≡ some (some token)
      → is_finished (m.heap i) ≡ false
      → (late.output_ids ≡ (m.heap i).output_ids ++ token ∷ [])
        × (stream late ≡ stream (m.heap i) ++ none ∷ some token ∷ none ∷ [])
        × (elem token (m.heap i).eos_token_ids ≡ true → late.finish_reason ≡ stopped)
  unfolding elem
  late_token v at entry going =
      let s = m.heap i in
      let gone = aborted cancelled s in
      let (known, here) = late_lem v at entry going in
      let sound_now : IsSound i s = v.well.sound i known in
      let sound = (aborted-IsSound cancelled sound_now).0 in
      let e : Emitted (finish cancelled s) none gone =
        emit-Emitted (finish cancelled s) none sound_now.direct in
      let written =
        subst (Recorded gone token) (sym here) (record_token-Recorded gone token sound.direct) in
      let ended =
        subst (λ t. is_finished t ≡ true) (sym here)
          (record_token-finished i token gone sound (rw e.finish_reason refl)) in
      (
        written.output ∙ ap (λ q. q ++ token ∷ []) e.output_ids,
        written.channel
            ∙ ap (λ b. stream gone ++ some token ∷ sentinel_if b) ended
            ∙ ap (λ q. q ++ some token ∷ none ∷ []) e.channel
            ∙ append_assoc (stream s) (none ∷ []) (some token ∷ none ∷ []),
        λ eos. written.on_eos (subst (λ es. elem token es ≡ true) (sym e.same.eos_token_ids) eos),
      )
