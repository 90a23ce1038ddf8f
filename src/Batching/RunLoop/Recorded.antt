-- ===== src/Batching/RunLoop/Recorded.antt =====
-- What a tick's tokens make of the requests of its batch.
use nano_kube_llm_server.Prelude.{
  ℕ, ◌≡◌, refl, sym, ap, ap₂, ◌∙◌, ◌⊎◌, inl, inr, true, false, List, [], ◌∷◌, ◌++◌, Option, none,
  some, elem, ◌==◌, length, IsDistinct, arith, Bool-cases, append_assoc,
}
use nano_kube_llm_server.Batching.Sequences.{Sequence, error, is_finished, token_ids}
use nano_kube_llm_server.Batching.Sequences.Heaps.{core, core_tokens}
use nano_kube_llm_server.Batching.Scheduler.{State, record_token, postprocess}
use nano_kube_llm_server.Batching.Scheduler.Tokens.{
  refs, record_token-Recorded, postprocess-Each, postprocess-SameOutside,
}
use nano_kube_llm_server.Batching.Scheduler.WellFormed.{IsSound}
use nano_kube_llm_server.Batching.Scheduler.WellFormed.Aborts.{aborted-IsSound}
use nano_kube_llm_server.Batching.Scheduler.WellFormed.Records.{Each-at}
use nano_kube_llm_server.Batching.RunLoop.{casualties, survivors, abort_each, record_rows}
use nano_kube_llm_server.Batching.RunLoop.Rows.{survivors-IsDistinct}
use nano_kube_llm_server.Batching.RunLoop.Grows.{
  OneMore, aborted-Quiet, abort_each-keeps, abort_each-finishes,
}

-- With a token or none for each row of the batch, each request has failed or has a token.
row_of :
    (j : ℕ) (batch : List ℕ) (next_ids : List (Option ℕ))
    → length next_ids ≡ length batch
    → elem j batch ≡ true
    → (elem j (casualties batch next_ids) ≡ true)
      ⊎ (elem j (refs (survivors batch next_ids)) ≡ true)
unfolding casualties survivors elem
row_of j [] next_ids n e = cc
row_of j (i ∷ is) [] n e = cc
row_of j (i ∷ is) (none ∷ ts) n e = elim (Bool-cases (i == j)) [
  | inl hit ↦ inl (ground arith)
  | inr miss ↦ let r = row_of j is ts (ground arith) (ground arith) in ground arith
]
row_of j (i ∷ is) (some t ∷ ts) n e = elim (Bool-cases (i == j)) [
  | inl hit ↦ inr (ground arith)
  | inr miss ↦ let r = row_of j is ts (ground arith) (ground arith) in ground arith
]

record_token-OneMore :
    (i token : ℕ) (s t : Sequence)
    → IsSound i t
    → token_ids t ≡ token_ids s
    → OneMore s (record_token t token)
record_token-OneMore i token s t v e =
    let r = record_token-Recorded t token v.direct in
    (
      token,
      ap₂ ◌++◌ r.same.prompt_ids r.output
          ∙ sym (append_assoc t.prompt_ids t.output_ids (token ∷ []))
          ∙ ap (λ ts. ts ++ token ∷ []) e,
    )

module _ (st : State) (batch : List ℕ) (next_ids : List (Option ℕ)) (distinct : IsDistinct batch)
    (whole : length next_ids ≡ length batch) where
  st' : State
  st' = abort_each st (casualties batch next_ids)

  IsSound-still : (j : ℕ) → IsSound j (st.heap j) → IsSound j (st'.heap j)
  unfolding st'
  IsSound-still j v = abort_each-keeps (IsSound j) st _ j (λ s w. (aborted-IsSound error w).0) v

  core_still : (j : ℕ) → core (st'.heap j) ≡ core (st.heap j)
  unfolding st'
  core_still j =
      abort_each-keeps (λ s. core s ≡ core (st.heap j)) st _ j
        (λ s e. (aborted-Quiet error s refl).0 ∙ e) refl

  -- A request of the batch is finished after the tick, or it has one token more.
  pub record_rows-OneMore :
      (j : ℕ)
      → IsSound j (st.heap j)
      → elem j batch ≡ true
      → is_finished ((record_rows st batch next_ids).heap j) ≡ false
      → OneMore (st.heap j) ((record_rows st batch next_ids).heap j)
  unfolding record_rows st'
  record_rows-OneMore j v e going =
      let rows = survivors batch next_ids in
      let h' = (postprocess st'.heap rows).0 in
      elim (Bool-cases (elem j (refs rows))) [
        | inl hit ↦
            let (token, here) =
              Each-at st'.heap h' j rows
                (postprocess-Each st'.heap rows (survivors-IsDistinct batch next_ids distinct))
                hit in
            let (more, f) =
              record_token-OneMore j token (st.heap j) (st'.heap j) (IsSound-still j v)
                (ap core_tokens (core_still j)) in
            (more, ap token_ids here ∙ f)
        | inr miss ↦ elim (row_of j batch next_ids whole e) [
          | inl failed ↦
              let done = abort_each-finishes st (casualties batch next_ids) j failed in
              let same = postprocess-SameOutside st'.heap rows j miss in
              let still : is_finished (h' j) ≡ true = ap is_finished same ∙ done in cc
          | inr hit ↦ cc
        ]
      ]
