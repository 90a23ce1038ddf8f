-- ===== src/Batching/Scheduler/Tokens.antt =====
-- What `postprocess` writes.
use nano_kube_llm_server.Prelude.{
  ℕ, Bool, ◌+◌, ◌≡◌, refl, true, false, List, [], ◌∷◌, ◌++◌, Option, none, some, elem, All, arith,
  ◌∙◌, append_assoc, append-nil, sym, IsDistinct, if◌then◌else◌, pos, ◌≤ℤ◌, ◌<ℤ◌, length,
  length-append, ap, map,
}
use nano_kube_llm_server.Batching.Sequences.{
  Sequence, Heap, SameOutside, update, emit, stream, is_finished, stopped, length_limit, is_set,
}
use nano_kube_llm_server.Batching.Sequences.Heaps.{
  update_self, update_other, elem-cons_false, IsDirect, SameBut, Emitted, emit-Emitted, core,
  with_token, emit-core,
}
use nano_kube_llm_server.Batching.Scheduler.{
  reason_after, record_token, postprocess, end_if, finish, append_token,
}

-- The sentinel, after the last token.
abbrev pub sentinel_if : Bool → List (Option ℕ)
sentinel_if finished = if finished then none ∷ [] else []

-- What one token does to its sequence: it is appended and emitted; EOS gives "stop", else a used-up
-- budget gives "length", else the reason stays; the sentinel follows if the sequence is finished.
pub record Recorded (s : Sequence) (token : ℕ) (s' : Sequence) : Type 0 where
  pub same : SameBut s s'
  pub output : s'.output_ids ≡ s.output_ids ++ token ∷ []
  pub on_eos : elem token s.eos_token_ids ≡ true → s'.finish_reason ≡ stopped
  pub on_limit :
      elem token s.eos_token_ids ≡ false
      → s.max_new_tokens ≤ℤ pos (length s.output_ids + 1)
      → s'.finish_reason ≡ length_limit
  pub below_limit :
      elem token s.eos_token_ids ≡ false
      → pos (length s.output_ids + 1) <ℤ s.max_new_tokens
      → s'.finish_reason ≡ s.finish_reason
  pub channel : stream s' ≡ stream s ++ some token ∷ sentinel_if (is_finished s')
  pub direct : IsDirect s'

record Ended (s : Sequence) (finished : Bool) (s' : Sequence) : Type 0 where
  same : SameBut s s'
  output : s'.output_ids ≡ s.output_ids
  reason : s'.finish_reason ≡ s.finish_reason
  channel : stream s' ≡ stream s ++ sentinel_if finished
  direct : IsDirect s'

end_if-Ended : (b : Bool) (s : Sequence) → IsDirect s → Ended s b (end_if b s)
end_if-Ended true s direct =
    let r = emit-Emitted s none direct in
    record {
      same = r.same;
      output = r.output_ids;
      reason = r.finish_reason;
      channel = r.channel;
      direct = r.direct;
    }
end_if-Ended false s direct = record {
  same = ground arith;
  output = refl;
  reason = refl;
  channel = sym (append-nil (stream s));
  direct = direct;
}

module _ (s : Sequence) (token : ℕ) (direct : IsDirect s) where
  extended : Sequence
  extended = emit (append_token s token) (some token)

  extended-Emitted : Emitted (append_token s token) (some token) extended
  unfolding extended
  extended-Emitted = emit-Emitted (append_token s token) (some token) direct

  extended-reason :
      (elem token s.eos_token_ids ≡ true → reason_after extended token ≡ stopped)
      × (elem token s.eos_token_ids ≡ false
          → s.max_new_tokens ≤ℤ pos (length s.output_ids + 1)
          → reason_after extended token ≡ length_limit)
      × (elem token s.eos_token_ids ≡ false
          → pos (length s.output_ids + 1) <ℤ s.max_new_tokens
          → reason_after extended token ≡ s.finish_reason)
  unfolding reason_after
  extended-reason =
      let e = extended-Emitted in
      let n = length-append s.output_ids (token ∷ []) in
      (
        λ h. ground (arith, e.same.eos_token_ids),
        λ h k. ground (arith, e.same.eos_token_ids, e.same.max_new_tokens, e.output_ids, n),
        λ h k.
            ground (
              arith, e.same.eos_token_ids, e.same.max_new_tokens, e.output_ids, e.finish_reason, n,
            ),
      )

  pub record_token-Recorded : Recorded s token (record_token s token)
  unfolding record_token extended
  record_token-Recorded =
      let e = extended-Emitted in
      let s' = finish (reason_after extended token) extended in
      let r = end_if-Ended (is_finished s') s' e.direct in
      record {
        same = ground (arith, e.same, r.same);
        output = r.output ∙ e.output_ids;
        on_eos = λ h. r.reason ∙ extended-reason.0 h;
        on_limit = λ h k. r.reason ∙ extended-reason.1 h k;
        below_limit = λ h k. r.reason ∙ extended-reason.2 h k;
        channel =
            r.channel
            ∙ ap (λ q. q ++ sentinel_if (is_finished s')) e.channel
            ∙ append_assoc (stream s) (some token ∷ []) (sentinel_if (is_finished s'))
            ∙ ap (λ f. stream s ++ some token ∷ sentinel_if (is_set f)) (sym r.reason);
        direct = r.direct;
      }

pub record_token-core : (s : Sequence) (t : ℕ) → core (record_token s t) ≡ with_token (core s) t
unfolding record_token
record_token-core s t =
    let extended = emit (append_token s t) (some t) in
    let s' = finish (reason_after extended t) extended in
    ended_core (is_finished s') s' ∙ emit-core (append_token s t) (some t)
  where
    ended_core : (b : Bool) (x : Sequence) → core (end_if b x) ≡ core x
    ended_core true x = emit-core x none
    ended_core false x = refl

abbrev pub refs : List (ℕ × ℕ) → List ℕ
refs rows = map (λ p. p.0) rows

-- The requests of a list that are finished.
pub finished_of : Heap → List ℕ → List ℕ
finished_of h [] = []
finished_of h (i ∷ is) = if is_finished (h i) then i ∷ finished_of h is else finished_of h is

-- Only the sequences of the batch are written,
pub postprocess-SameOutside :
    (h : Heap) (rows : List (ℕ × ℕ)) → SameOutside (refs rows) h (postprocess h rows).0
unfolding postprocess
postprocess-SameOutside h [] j e = refl
postprocess-SameOutside h ((i, token) ∷ rest) j e =
    let (other, apart) = elem-cons_false j i (refs rest) e in
    postprocess-SameOutside (update h i (record_token (h i) token)) rest j apart
    ∙ update_other h i j (record_token (h i) token) other

abbrev pub Each : Heap → Heap → List (ℕ × ℕ) → Type 0
Each h h' rows = All (λ p. h' p.0 ≡ record_token (h p.0) p.1) rows

Each-update :
    (h h' : Heap) (i : ℕ) (s : Sequence) (rows : List (ℕ × ℕ))
    → elem i (refs rows) ≡ false
    → Each (update h i s) h' rows
    → Each h h' rows
unfolding elem
Each-update h h' i s [] e all = tt
Each-update h h' i s ((j, token) ∷ rest) e all = (
  all.0 ∙ ap (λ t. record_token t token) (update_other h i j s (ground arith)),
  Each-update h h' i s rest (elem-cons_false i j (refs rest) e).1 all.1,
)

-- and each of them by its own token.
pub postprocess-Each :
    (h : Heap) (rows : List (ℕ × ℕ)) → IsDistinct (refs rows) → Each h (postprocess h rows).0 rows
unfolding postprocess
postprocess-Each h [] d = tt
postprocess-Each h ((i, token) ∷ rest) d =
    let s = record_token (h i) token in
    let h' = (postprocess (update h i s) rest).0 in
    (
      postprocess-SameOutside (update h i s) rest i d.0 ∙ update_self h i s,
      Each-update h h' i s rest d.0 (postprocess-Each (update h i s) rest d.1),
    )

-- The returned requests are those of the batch that are finished now.
postprocess-returns :
    (h : Heap) (rows : List (ℕ × ℕ))
    → IsDistinct (refs rows)
    → (postprocess h rows).1 ≡ finished_of (postprocess h rows).0 (refs rows)
unfolding postprocess finished_of
postprocess-returns h [] d = refl
postprocess-returns h ((i, token) ∷ rest) d =
    let s = record_token (h i) token in
    let e = postprocess-SameOutside (update h i s) rest i d.0 ∙ update_self h i s in
    let ih = postprocess-returns (update h i s) rest d.1 in rw (e, ih) refl

-- If no request stands twice in the batch, postprocess makes of each sequence of the batch what its own
-- token makes of it, and returns the requests of the batch that are finished then, in order.
pub postprocess_lem :
    (h : Heap) (rows : List (ℕ × ℕ))
    → IsDistinct (refs rows)
    → Each h (postprocess h rows).0 rows
      × ((postprocess h rows).1 ≡ finished_of (postprocess h rows).0 (refs rows))
postprocess_lem h rows d = (postprocess-Each h rows d, postprocess-returns h rows d)
