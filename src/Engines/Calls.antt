-- ===== src/Engines/Calls.antt =====
-- A call of `generate`: what it waits for, and its request.
pub mod Returns
pub mod Completes
pub mod Settled
pub mod Moments
use nano_kube_llm_server.Prelude.{
  ℕ, zero, suc, ℤ, Float, ◌+◌, ◌<◌, ◌≤◌, ◌≡◌, refl, sym, ap, subst, ◌∙◌, ◌⊎◌, inl, inr, Bool-cases,
  true, false, List, [], ◌∷◌, ◌++◌, Option, none, some, append-nil, arith, length,
}
use nano_kube_llm_server.Runners.Interface.{Text, ModelRunner}
use nano_kube_llm_server.Batching.Sequences.{
  Sequence, Params, new_sequence, emit, error, is_finished, stream,
}
use nano_kube_llm_server.Batching.Scheduler.{State, abort, fail_one, finish}
use nano_kube_llm_server.Batching.Scheduler.Tokens.{record_token-core}
use nano_kube_llm_server.Batching.RunLoop.Requests.{submit-cases}
use nano_kube_llm_server.Batching.Sequences.Heaps.{Core, core, update_self, emit-core, deliver-core}
use nano_kube_llm_server.Batching.RunLoop.{
  Server, Event, delivers, step, prompt_to_sequence, submit,
}
use nano_kube_llm_server.Batching.Scheduler.WellFormed.Submits.{submit-next_id}
use nano_kube_llm_server.Batching.RunLoop.Outputs.{
  Prefix, IsKept, Prefix-IsKept, finished-IsKept, step-Holding, update-keeps,
}
use nano_kube_llm_server.Engines.{
  Completion, leave, cancel, complete, generate_at, Turn, happens, resumes, hangs_up, Call, asking,
  answered, dropped, Caller, open_call, read_at, drop_at, call_turn, call_turns, call_after,
}
use nano_kube_llm_server.Engines.Sentinels.{
  has_sentinel, IsSignalled, IsSignalled-IsKept, submit-IsSignalled, read-IsSignalled,
}
use nano_kube_llm_server.Engines.Asked.{asked, asked-IsKept, asked_of, submit-asked}
use nano_kube_llm_server.Engines.Turns.{left_self}
use nano_kube_llm_server.Engines.Delivery.{leave-keeps, cancel-keeps, cancel-known, cancel-ended}

module _ {R : Type 0} (ops : ModelRunner R) where
  -- The sentinel is read: `cancel` does nothing, and the completion is that of the request as it was.
  pub sentinel-read :
      (i : ℕ) (runner : R) (st : State) (rest : List (Option ℕ))
      → is_finished (st.heap i) ≡ true
      → generate_at ops runner st i (none ∷ rest)
        ≡ (leave st i rest, some (complete ops runner (st.heap i)))
  unfolding generate_at cancel abort complete
  sentinel-read i runner st rest over =
      let done = ap is_finished (left_self st i rest) ∙ over in rw (done, left_self st i rest) refl

module _ {R : Type 0} (ops : ModelRunner R) (q : Core) where
  -- While the call waits, the sentinel is on its channel exactly if the request is finished; and
  -- the request is finished once the call is over.
  abbrev pub AtCall : Sequence → Call ops → Type 0
  AtCall s asking = IsSignalled s
  AtCall s (answered completion) = is_finished s ≡ true
  AtCall s dropped = is_finished s ≡ true

  pub record IsServed (i : ℕ) (c : Caller ops) : Type 0 where
    pub known : i < c.server.next_id
    pub same : asked (c.server.heap i) ≡ q
    pub at : AtCall (c.server.heap i) c.call

  step-AtCall :
      (i : ℕ) (m : Server R) (call : Call ops) (e : Event)
      → i < m.next_id
      → AtCall (m.heap i) call
      → AtCall ((step ops m e).heap i) call
  step-AtCall i m asking e k v = (step-Holding ops IsSignalled IsSignalled-IsKept i m e (k, v)).1
  step-AtCall i m (answered r) e k v = (step-Holding ops _ finished-IsKept i m e (k, v)).1
  step-AtCall i m dropped e k v = (step-Holding ops _ finished-IsKept i m e (k, v)).1

  step-IsServed :
      (i : ℕ) (m : Server R) (call : Call ops) (e : Event)
      → i < m.next_id
      → asked (m.heap i) ≡ q
      → AtCall (m.heap i) call
      → (i < (step ops m e).next_id)
        × (asked ((step ops m e).heap i) ≡ q)
        × AtCall ((step ops m e).heap i) call
  step-IsServed i m call e k same v =
      let (k', same') = step-Holding ops _ (asked-IsKept q) i m e (k, same) in
      (k', same', step-AtCall i m call e k v)

  generate_at-IsServed :
      (i : ℕ) (runner : R) (st : State) (queue : List (Option ℕ))
      → (st.heap i).queue ≡ queue
      → i < st.next_id
      → asked (st.heap i) ≡ q
      → IsSignalled (st.heap i)
      → let (st', result) = generate_at ops runner st i queue in
        (i < st'.next_id) × (asked (st'.heap i) ≡ q) × AtCall (st'.heap i) (call_after ops result)
  unfolding generate_at leave
  generate_at-IsServed i runner st [] item k same v = (k, same, v)
  generate_at-IsServed i runner st (some token ∷ rest) item k same v = (
    k,
    leave-keeps ops (λ s. asked s ≡ q) st i rest (λ s e. e) same,
    update-keeps IsSignalled st.heap i i _ (read-IsSignalled (st.heap i) token rest item) v,
  )
  generate_at-IsServed i runner st (none ∷ rest) item k same v =
      let over : is_finished (st.heap i) ≡ true =
        sym v.signalled ∙ ap (λ q. has_sentinel (q ++ (st.heap i).posted)) item in
      subst
        (λ p.
          (i < p.0.next_id) × (asked (p.0.heap i) ≡ q) × AtCall (p.0.heap i) (call_after ops p.1))
        (sym (sentinel-read ops i runner st rest over))
        (
          k,
          leave-keeps ops (λ s. asked s ≡ q) st i rest (λ s e. e) same,
          leave-keeps ops (λ s. is_finished s ≡ true) st i rest (λ s q. q) over,
        )

  read_at-IsServed :
      (i : ℕ) (c : Caller ops) (call : Call ops)
      → c.call ≡ call
      → IsServed i c
      → IsServed i (read_at ops c i call)
  unfolding read_at
  read_at-IsServed i c asking e v =
      let (known, same, at) =
        generate_at-IsServed i c.server.runner c.server.state (c.server.heap i).queue refl v.known
          v.same (subst (AtCall (c.server.heap i)) e v.at) in
      record { known = known; same = same; at = at }
  read_at-IsServed i c (answered r) e v = v
  read_at-IsServed i c dropped e v = v

  drop_at-IsServed :
      (i : ℕ) (c : Caller ops) (call : Call ops) → IsServed i c → IsServed i (drop_at ops c i call)
  unfolding drop_at
  drop_at-IsServed i c asking v = record {
    known = omega (arith, cancel-known ops c.server.state i, v.known);
    same = cancel-keeps ops _ c.server.state i (asked-IsKept q) v.same;
    at = cancel-ended ops c.server.state i;
  }
  drop_at-IsServed i c (answered r) v = v
  drop_at-IsServed i c dropped v = v

  pub call_turn-IsServed :
      (i : ℕ) (c : Caller ops) (t : Turn ops) → IsServed i c → IsServed i (call_turn ops i c t)
  unfolding call_turn
  call_turn-IsServed i c (happens e) v =
      let (known, same, at) = step-IsServed i c.server c.call e v.known v.same v.at in
      record { known = known; same = same; at = at }
  call_turn-IsServed i c resumes v = read_at-IsServed i c c.call refl v
  call_turn-IsServed i c hangs_up v = drop_at-IsServed i c c.call v

  call_turns-IsServed :
      (i : ℕ) (c : Caller ops) (ts : List (Turn ops))
      → IsServed i c
      → IsServed i (call_turns ops i c ts)
  unfolding call_turns
  call_turns-IsServed i c [] v = v
  call_turns-IsServed i c (t ∷ ts) v =
      call_turns-IsServed i (call_turn ops i c t) ts (call_turn-IsServed i c t v)

module _ {R : Type 0} (ops : ModelRunner R) (m : Server R) (prompt : Text) (max_tokens : ℤ)
    (temperature : Float) (top_k : Option ℤ) where
  abbrev pub called : Caller ops
  called = open_call ops m prompt max_tokens temperature top_k

  abbrev pub called_params : Params
  called_params = prompt_to_sequence ops m.runner prompt max_tokens temperature top_k

  -- From the call of `generate` on, after any turns: the request asks for what the call asked for; while
  -- the call waits, there is a sentinel for it to read exactly if its request is finished; and
  -- once it returned or was cancelled the request is finished.
  pub open_call-IsServed :
      (ts : List (Turn ops))
      → IsServed ops (asked_of called_params) m.next_id (call_turns ops m.next_id called ts)
  unfolding open_call
  open_call-IsServed ts =
      call_turns-IsServed ops (asked_of called_params) m.next_id called ts (record {
        known = omega (arith, submit-next_id m.state called_params);
        same = submit-asked m.state called_params;
        at = submit-IsSignalled m.state called_params;
      })
