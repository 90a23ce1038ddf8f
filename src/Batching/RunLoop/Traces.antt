-- ===== src/Batching/RunLoop/Traces.antt =====
-- What each request has been given: tokens that may follow, one after the other, and the reason that
-- they call for.
pub mod Solo
use nano_kube_llm_server.Prelude.{
  ℕ, suc, ◌+◌, ◌≡◌, ◌≢◌, refl, sym, ap, subst, ◌∙◌, ◌⊎◌, inl, inr, true, false, List, [], ◌∷◌, ◌++◌,
  Option, none, some, Bool, ℤ, pos, ◌≤ℤ◌, ◌<ℤ◌, leb_ℤ, elem, length, length-append, append-nil,
  append_assoc, All, All-append, arith, Bool-cases,
}
use nano_kube_llm_server.Batching.Sequences.{
  Sequence, Finish, is_set, unset, stopped, length_limit, cancelled, error, Params, is_finished,
  emit, deliver, put_posted, new_sequence,
}
use nano_kube_llm_server.Batching.Sequences.Heaps.{
  Core, core, with_token, emit-core, emit-finish_reason, deliver-core, reason-unset, IsDirect,
}
use nano_kube_llm_server.Batching.Scheduler.{
  record_token, fail_one, finish, reason_after, append_token, end_if,
}
use nano_kube_llm_server.Batching.Scheduler.Tokens.{
  Recorded, record_token-Recorded, record_token-core,
}
use nano_kube_llm_server.Batching.Scheduler.WellFormed.{IsSound, HasBudget}
use nano_kube_llm_server.Batching.Scheduler.WellFormed.Aborts.{aborted}
use nano_kube_llm_server.Batching.RunLoop.Requests.{IsAbort, IsStable}

-- No token of the output is an EOS token.
abbrev pub NoEos : Core → Type 0
NoEos c = All (λ t. elem t c.eos_token_ids ≡ false) c.output_ids

-- The last token of the output is an EOS token, and no other is.
pub record IsEnded (c : Core) : Type 0 where
  pub before : List ℕ
  pub last : ℕ
  pub output : c.output_ids ≡ before ++ last ∷ []
  pub no_eos : All (λ t. elem t c.eos_token_ids ≡ false) before
  pub eos : elem last c.eos_token_ids ≡ true

-- Each of the tokens may follow the ones before it.
abbrev pub Chain : (Core → ℕ → Type 0) → Core → List ℕ → Type 0
Chain Follows c [] = Unit
Chain Follows c (t ∷ ts) = Follows c t × Chain Follows (with_token c t) ts

abbrev pub at_start : Core → Core
at_start c = record c { output_ids = [] }

-- Each token of the output may follow the prompt and the tokens before it. The reason is "stop" only
-- after a first EOS token, "length" only without one and with the budget used up, and a request that
-- goes on has no EOS token.
pub record IsTraced (Follows : Core → ℕ → Type 0) (c : Core) (reason : Finish) : Type 0 where
  pub chain : Chain Follows (at_start c) c.output_ids
  pub on_stop : reason ≡ stopped → IsEnded c
  pub on_length : reason ≡ length_limit → NoEos c × (c.max_new_tokens ≤ℤ pos (length c.output_ids))
  pub going : reason ≡ unset → NoEos c

abbrev pub with_tokens : Core → List ℕ → Core
with_tokens c ts = record c { output_ids = c.output_ids ++ ts }

module _ (Follows : Core → ℕ → Type 0) where
  Chain-snoc :
      (c : Core) (ts : List ℕ) (t : ℕ)
      → Chain Follows c ts
      → Follows (with_tokens c ts) t
      → Chain Follows c (ts ++ t ∷ [])
  Chain-snoc c [] t chain f =
      (subst (λ o. Follows (record c { output_ids = o }) t) (append-nil c.output_ids) f, tt)
  Chain-snoc c (x ∷ ts) t chain f = (
    chain.0,
    Chain-snoc (with_token c x) ts t chain.1 (
        subst (λ o. Follows (record c { output_ids = o }) t)
          (sym (append_assoc c.output_ids (x ∷ []) ts)) f),
  )

  -- A request that may still get a token.
  abbrev pub IsOpen : Sequence → Type 0
  IsOpen s = NoEos (core s) × ((s.finish_reason ≡ unset) ⊎ IsAbort s.finish_reason)

  abbrev pub TracedSeq : Sequence → Type 0
  TracedSeq s = IsTraced Follows (core s) s.finish_reason

  same-TracedSeq :
      (s t : Sequence)
      → core t ≡ core s
      → t.finish_reason ≡ s.finish_reason
      → TracedSeq s
      → TracedSeq t
  same-TracedSeq s t e f v = rw (e, f) v

  ended-TracedSeq :
      (s t : Sequence) → core t ≡ core s → IsAbort t.finish_reason → TracedSeq s → TracedSeq t
  ended-TracedSeq s t e (inl f) v =
      rw (e, f)
        (record { chain = v.chain; on_stop = λ g. cc; on_length = λ g. cc; going = λ g. cc })
  ended-TracedSeq s t e (inr f) v =
      rw (e, f)
        (record { chain = v.chain; on_stop = λ g. cc; on_length = λ g. cc; going = λ g. cc })

  open_reason-open :
      (reason : Finish)
      → (reason ≡ unset) ⊎ IsAbort reason
      → (reason ≢ stopped) × (reason ≢ length_limit)
  open_reason-open reason (inl e) = (λ g. cc, λ g. cc)
  open_reason-open reason (inr (inl e)) = (λ g. cc, λ g. cc)
  open_reason-open reason (inr (inr e)) = (λ g. cc, λ g. cc)

  -- A token that may follow is recorded in an open request.
  recorded-TracedSeq :
      (s : Sequence) (t : ℕ)
      → IsDirect s
      → TracedSeq s
      → IsOpen s
      → Follows (core s) t
      → TracedSeq (record_token s t)
  recorded-TracedSeq s t direct v (none_yet, open_reason) f =
      rw (record_token-core s t) (elim (Bool-cases (elem t s.eos_token_ids)) [
        | inl eos ↦ rw (r.on_eos eos) (record {
          chain = chain;
          on_stop = λ _. record {
            before = s.output_ids;
            last = t;
            output = refl;
            no_eos = none_yet;
            eos = eos;
          };
          on_length = λ g. cc;
          going = λ g. cc;
        })
        | inr other ↦ elim (Bool-cases (leb_ℤ s.max_new_tokens (pos (length s.output_ids + 1)))) [
          | inl full ↦ rw (r.on_limit other (ground arith)) (record {
            chain = chain;
            on_stop = λ g. cc;
            on_length = λ _. (
              All-append _ s.output_ids (t ∷ []) none_yet (other, tt),
              ground (arith, length-append s.output_ids (t ∷ [])),
            );
            going = λ g. cc;
          })
          | inr room ↦ rw (r.below_limit other (ground arith)) (record {
            chain = chain;
            on_stop = λ g. absurd (closed.0 g);
            on_length = λ g. absurd (closed.1 g);
            going = λ _. All-append _ s.output_ids (t ∷ []) none_yet (other, tt);
          })
        ]
      ])
    where
      r : Recorded s t (record_token s t)
      r = record_token-Recorded s t direct

      closed : (s.finish_reason ≢ stopped) × (s.finish_reason ≢ length_limit)
      closed = open_reason-open s.finish_reason open_reason

      chain : Chain Follows (at_start (core s)) (s.output_ids ++ t ∷ [])
      chain = Chain-snoc (at_start (core s)) s.output_ids t v.chain f

  fail_one-TracedSeq : (s : Sequence) → TracedSeq s → TracedSeq (fail_one s)
  unfolding fail_one
  fail_one-TracedSeq s v = elim (Bool-cases (is_finished s)) [
    | inl done ↦
        rw done (same-TracedSeq s (emit s none) (emit-core s none) (emit-finish_reason s none) v)
    | inr going ↦ rw going (
        ended-TracedSeq s (aborted error s) (emit-core (finish error s) none)
          (inr (emit-finish_reason (finish error s) none)) v)
  ]

  aborted-IsAbort :
      (reason : Finish) (s : Sequence) → IsAbort reason → IsAbort (aborted reason s).finish_reason
  aborted-IsAbort reason s (inl e) = inl (emit-finish_reason (finish reason s) none ∙ e)
  aborted-IsAbort reason s (inr e) = inr (emit-finish_reason (finish reason s) none ∙ e)

  new-TracedSeq : (p : Params) (n : ℕ) → TracedSeq (new_sequence p n true)
  unfolding new_sequence
  new-TracedSeq p n = record { chain = tt; on_stop = λ g. cc; on_length = λ g. cc; going = λ _. tt }

  refused-TracedSeq :
      (p : Params) (n : ℕ)
      → leb_ℤ (new_sequence p n true).max_new_tokens (pos 0) ≡ true
      → TracedSeq (finish length_limit (new_sequence p n true))
  unfolding new_sequence
  refused-TracedSeq p n nothing = record {
    chain = tt;
    on_stop = λ g. cc;
    on_length = λ _. (tt, ground arith);
    going = λ g. cc;
  }

  pub traced-IsStable : IsStable Follows TracedSeq IsOpen
  traced-IsStable = record {
    created = new-TracedSeq;
    refused = λ p n nothing.
        let s = finish length_limit (new_sequence p n true) in
        same-TracedSeq s (emit s none) (emit-core s none) (emit-finish_reason s none)
          (refused-TracedSeq p n nothing);
    aborts = λ reason s a v.
        ended-TracedSeq s (aborted reason s) (emit-core (finish reason s) none)
          (aborted-IsAbort reason s a) v;
    fails = fail_one-TracedSeq;
    delivers = λ s v. let (e, f) = deliver-core s in same-TracedSeq s (deliver s) e f v;
    opens = λ s v going. let e = reason-unset s.finish_reason going in (v.going e, inl e);
    open_aborts = λ reason s a o. (
      subst NoEos (sym (emit-core (finish reason s) none)) o.0,
      inr (aborted-IsAbort reason s a),
    );
    open_delivers = λ s o.
        let (e, f) = deliver-core s in
        (subst NoEos (sym e) o.0, subst (λ r. (r ≡ unset) ⊎ IsAbort r) (sym f) o.1);
    records = λ i token s sound budget v o f. recorded-TracedSeq s token sound.direct v o f;
  }
