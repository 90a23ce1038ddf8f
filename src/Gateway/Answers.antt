-- ===== src/Gateway/Answers.antt =====
-- /v1/completions over the engine: a reply of `generate`, and the frames of `stream`.
use nano_kube_llm_server.Prelude.{
  ℕ, ℤ, pos, negsuc, ◌<◌, ◌+◌, ◌≡◌, refl, sym, ap, subst, ◌∙◌, ◌⊎◌, inl, inr, true, List, [], ◌∷◌,
  ◌++◌, Option, none, some, arith, length, length-append, ◌≤ℤ◌,
}
use nano_kube_llm_server.Runners.Interface.{ModelRunner}
use nano_kube_llm_server.Batching.Sequences.{
  Sequence, Finish, unset, stopped, length_limit, cancelled, error, is_set,
}
use nano_kube_llm_server.Batching.Sequences.Heaps.{Core}
use nano_kube_llm_server.Batching.RunLoop.{Server, step, submits, prompt_to_sequence}
use nano_kube_llm_server.Batching.RunLoop.Safety.{IsSafe, step-IsSafe}
use nano_kube_llm_server.Engines.{
  Completion, leave, generate_at, Turn, happens, resumes, hangs_up, Call, asking, answered, dropped,
  Caller, open_call, read_at, drop_at, call_turn, call_turns,
}
use nano_kube_llm_server.Engines.Turns.{leave-IsSafe, cancel-IsSafe}
use nano_kube_llm_server.Engines.Calls.{IsServed, open_call-IsServed, call_turn-IsServed}
use nano_kube_llm_server.Engines.Calls.Moments.{IsReturned, IsAccounted, open_call-IsAccounted}
use nano_kube_llm_server.Engines.Asked.{asked_of}
use nano_kube_llm_server.Gateway.{
  CompletionRequest, validate, Reply, failure, success, generation_failed, is_fatal,
  completions_end,
}
use nano_kube_llm_server.Gateway.Requests.{validate-IsValid}

module _ {R : Type 0} (ops : ModelRunner R) where
  generate_at-IsSafe :
      (m : Server R) (i : ℕ) (queue : List (Option ℕ))
      → i < m.next_id
      → IsSafe m
      → IsSafe (record m { state = (generate_at ops m.runner m.state i queue).0 })
  unfolding generate_at leave
  generate_at-IsSafe m i [] k v = v
  generate_at-IsSafe m i (some token ∷ rest) k v = leave-IsSafe m i rest k v
  generate_at-IsSafe m i (none ∷ rest) k v =
      cancel-IsSafe ops (record m { state = leave m.state i rest }) i k (leave-IsSafe m i rest k v)

  read_at-IsSafe :
      (i : ℕ) (c : Caller ops) (call : Call ops)
      → i < c.server.next_id
      → IsSafe c.server
      → IsSafe (read_at ops c i call).server
  unfolding read_at
  read_at-IsSafe i c asking k v = generate_at-IsSafe c.server i (c.server.heap i).queue k v
  read_at-IsSafe i c (answered r) k v = v
  read_at-IsSafe i c dropped k v = v

  drop_at-IsSafe :
      (i : ℕ) (c : Caller ops) (call : Call ops)
      → i < c.server.next_id
      → IsSafe c.server
      → IsSafe (drop_at ops c i call).server
  unfolding drop_at
  drop_at-IsSafe i c asking k v = cancel-IsSafe ops c.server i k v
  drop_at-IsSafe i c (answered r) k v = v
  drop_at-IsSafe i c dropped k v = v

  call_turn-IsSafe :
      (i : ℕ) (c : Caller ops) (t : Turn ops)
      → i < c.server.next_id
      → IsSafe c.server
      → IsSafe (call_turn ops i c t).server
  unfolding call_turn
  call_turn-IsSafe i c (happens e) k v = step-IsSafe ops c.server e v
  call_turn-IsSafe i c resumes k v = read_at-IsSafe i c c.call k v
  call_turn-IsSafe i c hangs_up k v = drop_at-IsSafe i c c.call k v

  pub call_turns-IsSafe :
      (q : Core) (i : ℕ) (c : Caller ops) (ts : List (Turn ops))
      → IsServed ops q i c
      → IsSafe c.server
      → IsSafe (call_turns ops i c ts).server
  unfolding call_turns
  call_turns-IsSafe q i c [] s v = v
  call_turns-IsSafe q i c (t ∷ ts) s v =
      call_turns-IsSafe q i (call_turn ops i c t) ts (call_turn-IsServed ops q i c t s)
        (call_turn-IsSafe i c t s.known v)

-- What a client gets that asked for no stream, for a request as it is at one moment.
module _ {R : Type 0} (ops : ModelRunner R) (first : R) (body : CompletionRequest) (later : R)
    (s : Sequence) where
  -- A failure has status 500, and names the request's own reason, which is a fatal one. A success has the
  -- request's own reason, stop or length, the text of its output, the number of tokens of the prompt,
  -- that of its output, which is no more than was asked for, and their sum.
  abbrev pub IsAnswer : Reply → Type 0
  IsAnswer (failure e) =
      (e.status ≡ 500)
      × (((s.finish_reason ≡ cancelled) × (e.message ≡ generation_failed cancelled))
          ⊎ ((s.finish_reason ≡ error) × (e.message ≡ generation_failed error)))
  IsAnswer (success b) =
      (((s.finish_reason ≡ stopped) × (b.finish_reason ≡ stopped))
        ⊎ ((s.finish_reason ≡ length_limit) × (b.finish_reason ≡ length_limit)))
      × (b.text ≡ ops.decode later s.output_ids)
      × (b.prompt_tokens ≡ length (ops.encode first body.prompt))
      × (b.completion_tokens ≡ length s.output_ids)
      × (pos b.completion_tokens ≤ℤ body.max_tokens)
      × (b.total_tokens ≡ b.prompt_tokens + b.completion_tokens)

  completions_end-IsAnswer :
      (result : Completion) (reason : Finish)
      → s.finish_reason ≡ reason
      → is_set reason ≡ true
      → result.finish_reason ≡ reason
      → result.text ≡ ops.decode later s.output_ids
      → result.prompt_tokens ≡ length (ops.encode first body.prompt)
      → result.completion_tokens ≡ length s.output_ids
      → pos (length s.output_ids) ≤ℤ body.max_tokens
      → IsAnswer (completions_end result)
  unfolding completions_end is_fatal
  completions_end-IsAnswer result unset e ended f text prompt output bound = cc
  completions_end-IsAnswer result stopped e ended f text prompt output bound = rw f (
    inl (e, refl),
    text,
    prompt,
    output,
    subst (λ n. pos n ≤ℤ body.max_tokens) (sym output) bound,
    refl,
  )
  completions_end-IsAnswer result length_limit e ended f text prompt output bound = rw f (
    inr (e, refl),
    text,
    prompt,
    output,
    subst (λ n. pos n ≤ℤ body.max_tokens) (sym output) bound,
    refl,
  )
  completions_end-IsAnswer result cancelled e ended f text prompt output bound =
      rw f (refl, inl (e, refl))
  completions_end-IsAnswer result error e ended f text prompt output bound =
      rw f (refl, inr (e, refl))

below :
    (xs ys more : List ℕ) (z : ℤ)
    → ys ≡ xs ++ more
    → pos 0 ≤ℤ z
    → (ys ≡ []) ⊎ (pos (length ys) ≤ℤ z)
    → pos (length xs) ≤ℤ z
below xs ys more (pos n) e some_tokens bound = elim bound [
  | inl nothing ↦ omega (arith, length-append xs more, ap length e, ap length nothing)
  | inr le ↦ omega (arith, length-append xs more, ap length e, le)
]
below xs ys more (negsuc n) e some_tokens bound = absurd (omega (arith, some_tokens))

module _ {R : Type 0} (ops : ModelRunner R) (m : Server R) (raw body : CompletionRequest) where
  abbrev pub generating : Caller ops
  generating = open_call ops m body.prompt body.max_tokens body.temperature body.top_k

  abbrev pub asked_body : Core
  asked_body =
      asked_of
        (prompt_to_sequence ops m.runner body.prompt body.max_tokens body.temperature body.top_k)

  -- `generate` returned at one of the turns, and the reply is the answer for its request at that turn.
  pub record IsReplied (ts : List (Turn ops)) (result : Completion) : Type 0 where
    pub returned : IsReturned ops asked_body m.next_id generating ts result
    pub answer :
        let c = returned.moment in
        IsAnswer ops m.runner body c.server.runner
          (c.server.heap m.next_id)
          (completions_end result)

  -- For a process that keeps its invariant and a body that was accepted: whatever `generate` returned
  -- for it, after any turns, it returned at one of the turns, when its request was finished, and the
  -- reply is the answer for the request at that turn: a failure with status 500 that names its reason,
  -- if this is cancelled or error; and else a success with its reason, stop or length, the text of its
  -- output, and the numbers of tokens of the prompt and of its output, which is no longer than was asked
  -- for, and their sum.
  pub call_turns-IsReplied :
      (ts : List (Turn ops)) (result : Completion)
      → validate raw ≡ some body
      → IsSafe m
      → (call_turns ops m.next_id generating ts).call ≡ answered result
      → IsReplied ts result
  unfolding open_call prompt_to_sequence step call_turns
  call_turns-IsReplied ts result accepted v returned =
      let c = call_turns ops m.next_id generating ts in
      let p =
        prompt_to_sequence ops m.runner body.prompt body.max_tokens body.temperature body.top_k in
      let served =
        open_call-IsServed ops m body.prompt body.max_tokens body.temperature body.top_k in
      let accounted =
        open_call-IsAccounted ops m body.prompt body.max_tokens body.temperature body.top_k ts in
      let safe =
        call_turns-IsSafe ops (asked_of p) m.next_id generating ts (served [])
          (step-IsSafe ops m (submits p) v) in
      let now = c.server.heap m.next_id in
      let a = subst (IsAccounted ops (asked_of p) m.next_id generating ts) returned accounted.1 in
      let s = a.moment.server.heap m.next_id in
      let (more, f) = a.grows in
      let bounded =
        subst (λ c. (now.output_ids ≡ []) ⊎ (pos (length now.output_ids) ≤ℤ c.max_new_tokens))
          (served ts).same (safe.well.sound m.next_id (served ts).known).bounded in
      record {
        returned = a;
        answer =
            completions_end-IsAnswer ops m.runner body a.moment.server.runner s result
              s.finish_reason refl a.over a.finish_reason a.text
              (a.prompt_tokens ∙ ap (λ c. length c.prompt_ids) a.same) a.completion_tokens
              (below s.output_ids now.output_ids more body.max_tokens f
                (validate-IsValid raw body accepted).1.some_tokens bounded);
      }
