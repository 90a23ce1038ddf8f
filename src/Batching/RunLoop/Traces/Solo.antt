-- ===== src/Batching/RunLoop/Traces/Solo.antt =====
-- A request in the shared batch and the same request alone.
use nano_kube_llm_server.Prelude.{
  ℕ, zero, suc, ◌<◌, ◌≤◌, ◌≡◌, ◌≢◌, refl, sym, ap, ap₂, subst, ◌∙◌, ◌⊎◌, inl, inr, true, false,
  List, [], ◌∷◌, ◌++◌, Option, ℤ, pos, negsuc, pos_part, ◌≤ℤ◌, finite, le_float, elem, length,
  length-append, append-nil, append_assoc, All, arith, if◌then◌else◌,
}
use nano_kube_llm_server.Runners.Interface.{ModelRunner}
use nano_kube_llm_server.Batching.Sequences.{Sequence, stopped, length_limit}
use nano_kube_llm_server.Batching.Sequences.Heaps.{Core, core, core_tokens, with_token}
use nano_kube_llm_server.Batching.Scheduler.WellFormed.{IsSound}
use nano_kube_llm_server.Batching.RunLoop.{Event, run, start}
use nano_kube_llm_server.Batching.RunLoop.Safety.{run-start-IsSafe}
use nano_kube_llm_server.Batching.RunLoop.Caching.{IsCaching}
use nano_kube_llm_server.Batching.RunLoop.Requests.{Answers}
use nano_kube_llm_server.Batching.RunLoop.Upheld.{run-start-Every}
use nano_kube_llm_server.Batching.RunLoop.Traces.{
  Chain, at_start, IsTraced, TracedSeq, IsOpen, traced-IsStable,
}

-- Decoding alone, without a batch: the best next token again and again, up to an EOS token or the
-- number of tokens that was asked for.
unfoldable pub solo : (List ℕ → ℕ) → List ℕ → ℕ → List ℕ → List ℕ
solo next eos zero tokens = []
solo next eos (suc n) tokens =
    let token = next tokens in
    let rest = solo next eos n (tokens ++ token ∷ []) in
    if elem token eos then token ∷ [] else token ∷ rest

-- In a greedy request the token is the best one after the request's own tokens.
abbrev pub Greedy : (List ℕ → ℕ) → Core → ℕ → Type 0
Greedy next c token =
    le_float c.temperature (finite (pos 0) 0) ≡ true
    → c.prompt_ids ≢ []
    → token ≡ next (core_tokens c)

pub within_budget :
    (i : ℕ) (s : Sequence) → IsSound i s → length s.output_ids ≤ pos_part s.max_new_tokens
within_budget i s sound = elim sound.bounded [
  | inl e ↦ omega (arith, ap length e)
  | inr b ↦ omega (arith, b)
]

pub used_up : (m : ℤ) (n : ℕ) → n ≤ pos_part m → m ≤ℤ pos n → n ≡ pos_part m
used_up (pos k) n within used = omega arith
used_up (negsuc k) n within used = omega arith

module _ (next : List ℕ → ℕ) where
  next_tokens : (c : Core) (t : ℕ) → core_tokens (with_token c t) ≡ core_tokens c ++ t ∷ []
  next_tokens c t = sym (append_assoc c.prompt_ids c.output_ids (t ∷ []))

  solo_full :
      (c : Core) (ts : List ℕ)
      → le_float c.temperature (finite (pos 0) 0) ≡ true
      → c.prompt_ids ≢ []
      → Chain (Greedy next) c ts
      → All (λ t. elem t c.eos_token_ids ≡ false) ts
      → solo next c.eos_token_ids (length ts) (core_tokens c) ≡ ts
  unfolding solo
  solo_full c [] greedy asked chain none_yet = refl
  solo_full c (t ∷ ts) greedy asked chain none_yet =
      let ih = solo_full (with_token c t) ts greedy asked chain.1 none_yet.1 in
      rw (sym (chain.0 greedy asked), none_yet.0)
        (ap (◌∷◌ t) (ap (solo next c.eos_token_ids (length ts)) (sym (next_tokens c t)) ∙ ih))

  solo_stop :
      (c : Core) (before : List ℕ) (last n : ℕ)
      → le_float c.temperature (finite (pos 0) 0) ≡ true
      → c.prompt_ids ≢ []
      → length before < n
      → Chain (Greedy next) c (before ++ last ∷ [])
      → All (λ t. elem t c.eos_token_ids ≡ false) before
      → elem last c.eos_token_ids ≡ true
      → solo next c.eos_token_ids n (core_tokens c) ≡ before ++ last ∷ []
  unfolding solo
  solo_stop c before last zero greedy asked room chain none_yet eos = elim room [ ]
  solo_stop c [] last (suc n) greedy asked room chain none_yet eos =
      rw (sym (chain.0 greedy asked), eos) refl
  solo_stop c (t ∷ ts) last (suc n) greedy asked room chain none_yet eos =
      let ih =
        solo_stop (with_token c t) ts last n greedy asked (omega (arith, room)) chain.1 none_yet.1
          eos in
      rw (sym (chain.0 greedy asked), none_yet.0)
        (ap (◌∷◌ t) (ap (solo next c.eos_token_ids n) (sym (next_tokens c t)) ∙ ih))

  traced_solo :
      (i : ℕ) (s : Sequence)
      → IsTraced (Greedy next) (core s) s.finish_reason
      → IsSound i s
      → le_float s.temperature (finite (pos 0) 0) ≡ true
      → s.prompt_ids ≢ []
      → (s.finish_reason ≡ stopped) ⊎ (s.finish_reason ≡ length_limit)
      → s.output_ids ≡ solo next s.eos_token_ids (pos_part s.max_new_tokens) s.prompt_ids
  traced_solo i s v sound greedy asked (inl stop) =
      let e = v.on_stop stop in
      let chain = subst (Chain (Greedy next) (at_start (core s))) e.output v.chain in
      let n = ap length e.output ∙ length-append e.before (e.last ∷ []) in
      e.output
      ∙ sym (
          solo_stop (at_start (core s)) e.before e.last (pos_part s.max_new_tokens) greedy asked
            (omega (arith, n, within_budget i s sound)) chain e.no_eos e.eos)
      ∙ ap (solo next s.eos_token_ids (pos_part s.max_new_tokens)) (append-nil s.prompt_ids)
  traced_solo i s v sound greedy asked (inr full) =
      let (none_yet, used) = v.on_length full in
      let n : length s.output_ids ≡ pos_part s.max_new_tokens =
        used_up s.max_new_tokens _ (within_budget i s sound) used in
      sym (solo_full (at_start (core s)) s.output_ids greedy asked v.chain none_yet)
      ∙ ap₂ (λ k toks. solo next s.eos_token_ids k toks) n (append-nil s.prompt_ids)

-- For a runner whose tokens for greedy requests are the best ones after the request's own tokens: from
-- the start, after any events, a greedy request with a prompt that ended with "stop" or "length" has the very output
-- that decoding it alone gives, whatever other requests came, went, failed or were given up.
pub run-start-solo :
    {R : Type 0} (ops : ModelRunner R) (caching : IsCaching ops) (next : List ℕ → ℕ)
    → ((seqs : List Sequence) (tokens : List (Option ℕ))
        → caching.Answered seqs tokens
        → Answers (Greedy next) seqs tokens)
    → (runner : R) (max_batch_size max_batch_tokens : ℤ) (es : List Event) (i : ℕ)
    → i < (run ops (start runner max_batch_size max_batch_tokens) es).next_id
    → let s = (run ops (start runner max_batch_size max_batch_tokens) es).heap i in
      le_float s.temperature (finite (pos 0) 0) ≡ true
      → s.prompt_ids ≢ []
      → (s.finish_reason ≡ stopped) ⊎ (s.finish_reason ≡ length_limit)
      → s.output_ids ≡ solo next s.eos_token_ids (pos_part s.max_new_tokens) s.prompt_ids
run-start-solo ops caching next answers runner max_batch_size max_batch_tokens es i k greedy asked
      over =
    let m = run ops (start runner max_batch_size max_batch_tokens) es in
    traced_solo next i (m.heap i)
      (run-start-Every ops caching (Greedy next) answers (TracedSeq (Greedy next))
        (IsOpen (Greedy next)) (traced-IsStable (Greedy next)) runner max_batch_size
        max_batch_tokens es i k)
      ((run-start-IsSafe ops runner max_batch_size max_batch_tokens es).well.sound i k) greedy asked
      over
