-- ===== src/Engines/Calls/Moments.antt =====
-- The turn at which a call of `generate` returned, and what it returned.
use nano_kube_llm_server.Prelude.{
  ℕ, ℤ, Float, ◌≡◌, refl, sym, ap, subst, ◌∙◌, inl, inr, true, List, [], ◌∷◌, ◌++◌, Option, none,
  append-nil, length,
}
use nano_kube_llm_server.Runners.Interface.{Text, ModelRunner}
use nano_kube_llm_server.Batching.Sequences.{is_finished}
use nano_kube_llm_server.Batching.Sequences.Heaps.{Core}
use nano_kube_llm_server.Batching.RunLoop.{Server}
use nano_kube_llm_server.Batching.RunLoop.Outputs.{Prefix}
use nano_kube_llm_server.Engines.{
  Completion, complete, Turn, happens, resumes, hangs_up, Call, asking, answered, dropped, Caller,
  open_call, drop_at, call_turn, call_turns,
}
use nano_kube_llm_server.Engines.Sentinels.{has_sentinel}
use nano_kube_llm_server.Engines.Asked.{asked, asked_of}
use nano_kube_llm_server.Engines.Delivery.{leave-keeps}
use nano_kube_llm_server.Engines.Calls.{
  IsServed, AtCall, call_turn-IsServed, called, called_params, open_call-IsServed,
}
use nano_kube_llm_server.Engines.Calls.Settled.{
  turns-IsSettled, dropped_turns, read_sentinel, read_cases,
}

module _ {R : Type 0} (ops : ModelRunner R) (q : Core) (i : ℕ) where
  -- Between two of the turns the call waited, its request was finished and the sentinel was the next
  -- item on its channel; at the next turn the handler was resumed. What the call returned is the text
  -- of the request's output then, the numbers of tokens of its prompt and of this output, and its
  -- reason.
  pub record IsReturned (c : Caller ops) (ts : List (Turn ops)) (completion : Completion)
      : Type 0 where
    pub before : List (Turn ops)
    pub later : List (Turn ops)
    pub split : ts ≡ before ++ resumes ∷ later
    pub moment : Caller ops
    pub moment_lem : moment ≡ call_turns ops i c before
    pub waiting : moment.call ≡ asking
    pub rest : List (Option ℕ)
    pub item : (moment.server.heap i).queue ≡ none ∷ rest
    pub over : is_finished (moment.server.heap i) ≡ true
    pub same : asked (moment.server.heap i) ≡ q
    pub text : completion.text ≡ ops.decode moment.server.runner (moment.server.heap i).output_ids
    pub prompt_tokens : completion.prompt_tokens ≡ length (moment.server.heap i).prompt_ids
    pub completion_tokens : completion.completion_tokens ≡ length (moment.server.heap i).output_ids
    pub finish_reason : completion.finish_reason ≡ (moment.server.heap i).finish_reason
    pub grows :
        Prefix (moment.server.heap i).output_ids ((call_turns ops i c ts).server.heap i).output_ids

  -- What is known of the call once it returned.
  abbrev pub IsAccounted : Caller ops → List (Turn ops) → Call ops → Type 0
  IsAccounted c ts asking = Unit
  IsAccounted c ts (answered completion) = IsReturned c ts completion
  IsAccounted c ts dropped = Unit

  -- One more turn before the others.
  earlier :
      (c : Caller ops) (t : Turn ops) (ts : List (Turn ops)) (call : Call ops)
      → IsAccounted (call_turn ops i c t) ts call
      → IsAccounted c (t ∷ ts) call
  unfolding call_turns
  earlier c t ts asking a = tt
  earlier c t ts (answered completion) a = record {
    before = t ∷ a.before;
    later = a.later;
    split = ap (λ us. t ∷ us) a.split;
    moment = a.moment;
    moment_lem = a.moment_lem;
    waiting = a.waiting;
    rest = a.rest;
    item = a.item;
    over = a.over;
    same = a.same;
    text = a.text;
    prompt_tokens = a.prompt_tokens;
    completion_tokens = a.completion_tokens;
    finish_reason = a.finish_reason;
    grows = a.grows;
  }
  earlier c t ts dropped a = tt

  sentinel-IsReturned :
      (c : Caller ops) (ts : List (Turn ops)) (rest : List (Option ℕ))
      → c.call ≡ asking
      → IsServed ops q i c
      → (c.server.heap i).queue ≡ none ∷ rest
      → IsAccounted c (resumes ∷ ts) (call_turns ops i c (resumes ∷ ts)).call
  unfolding call_turns complete
  sentinel-IsReturned c ts rest waits v item =
      let s = c.server.heap i in
      let signal = subst (AtCall ops q s) waits v.at in
      let over : is_finished s ≡ true =
        sym signal.signalled ∙ ap (λ q. has_sentinel (q ++ s.posted)) item in
      let c' = call_turn ops i c resumes in
      let (returned, left) = read_sentinel ops i c rest waits item over in
      let kept =
        leave-keeps ops (λ t. Prefix s.output_ids t.output_ids) c.server.state i rest (λ s q. q)
          ([], sym (append-nil s.output_ids)) in
      let (at, k, grows) =
        turns-IsSettled ops i c' ts (complete ops c.server.runner s) s.output_ids (
          returned,
          (call_turn-IsServed ops q i c resumes v).known,
          subst (λ st. Prefix s.output_ids (st.heap i).output_ids) (sym left) kept,
        ) in
      subst (IsAccounted c (resumes ∷ ts)) (sym at) (record {
        before = [];
        later = ts;
        split = refl;
        moment = c;
        moment_lem = refl;
        waiting = waits;
        rest = rest;
        item = item;
        over = over;
        same = v.same;
        text = refl;
        prompt_tokens = refl;
        completion_tokens = refl;
        finish_reason = refl;
        grows = grows;
      })

  dropped-IsAccounted :
      (c c' : Caller ops) (ts us : List (Turn ops))
      → c'.call ≡ dropped
      → IsAccounted c ts (call_turns ops i c' us).call
  dropped-IsAccounted c c' ts us at =
      subst (IsAccounted c ts) (sym (dropped_turns ops i c' us at)) tt

  turns-IsAccounted :
      (c : Caller ops) (ts : List (Turn ops))
      → c.call ≡ asking
      → IsServed ops q i c
      → IsAccounted c ts (call_turns ops i c ts).call
  unfolding call_turns call_turn drop_at
  turns-IsAccounted c [] waits v = subst (IsAccounted c []) (sym waits) tt
  turns-IsAccounted c (happens e ∷ ts) waits v =
      let c' = call_turn ops i c (happens e) in
      earlier c (happens e) ts (call_turns ops i c' ts).call
        (turns-IsAccounted c' ts waits (call_turn-IsServed ops q i c (happens e) v))
  turns-IsAccounted c (resumes ∷ ts) waits v =
      let c' = call_turn ops i c resumes in
      elim (read_cases ops i c (c.server.heap i).queue waits refl) [
        | inl still ↦
            earlier c resumes ts (call_turns ops i c' ts).call
              (turns-IsAccounted c' ts still (call_turn-IsServed ops q i c resumes v))
        | inr (rest, item) ↦ sentinel-IsReturned c ts rest waits v item
      ]
  turns-IsAccounted c (hangs_up ∷ ts) waits v =
      dropped-IsAccounted c (call_turn ops i c hangs_up) (hangs_up ∷ ts) ts
        (subst (λ call. (drop_at ops c i call).call ≡ dropped) (sym waits) refl)

module _ {R : Type 0} (ops : ModelRunner R) (m : Server R) (prompt : Text) (max_tokens : ℤ)
    (temperature : Float) (top_k : Option ℤ) where
  -- From the call of `generate` on, after any turns: the request asks for what the call asked for; while
  -- the call waits, there is a sentinel for it to read exactly if its request is finished; once it
  -- returned or was cancelled the request is finished. If it returned, it was at a turn that resumed the
  -- handler when its request was finished and the sentinel was the next item on its channel: it returned
  -- the text of the request's output at that turn, the numbers of tokens of its prompt and of this
  -- output, and its reason, and this output is a beginning of its output now.
  pub open_call-IsAccounted :
      (ts : List (Turn ops))
      → let c = called ops m prompt max_tokens temperature top_k in
        let q = asked_of (called_params ops m prompt max_tokens temperature top_k) in
        let c' = call_turns ops m.next_id c ts in
        IsServed ops q m.next_id c' × IsAccounted ops q m.next_id c ts c'.call
  unfolding call_turns open_call
  open_call-IsAccounted ts =
      let q = asked_of (called_params ops m prompt max_tokens temperature top_k) in
      let served = open_call-IsServed ops m prompt max_tokens temperature top_k in
      (
        served ts,
        turns-IsAccounted ops q m.next_id (called ops m prompt max_tokens temperature top_k) ts refl
            (served []),
      )
