-- ===== src/Engines/Calls/Completes.antt =====
-- model_server/engines.py, `generate` on model_server/batching.py, run_loop: when a call returns.
use nano_kube_llm_server.Prelude.{
  ℕ, ℤ, Float, ◌+◌, ◌*◌, ◌≤◌, ◌≡◌, ◌≢◌, refl, sym, ap, subst, ◌∙◌, true, List, [], ◌∷◌, ◌++◌, map,
  Option, length, All, pos, ◌≤ℤ◌, ◌<◌,
}
use nano_kube_llm_server.Runners.Interface.{Text, ModelRunner}
use nano_kube_llm_server.Batching.Sequences.{is_finished, stream}
use nano_kube_llm_server.Batching.RunLoop.{
  Server, Event, submits, step, run, start, dead, prompt_to_sequence,
}
use nano_kube_llm_server.Batching.RunLoop.Owed.Ended.{owed_in}
use nano_kube_llm_server.Batching.RunLoop.Drain.Bounds.{run-start-finishes}
use nano_kube_llm_server.Batching.RunLoop.Drain.Counts.{IsDraining, tick_count, IsRowwise}
use nano_kube_llm_server.Engines.{Turn, happens, Caller, open_call, call_turn, call_turns}
use nano_kube_llm_server.Engines.Calls.{open_call-IsServed}
use nano_kube_llm_server.Engines.Calls.Returns.{rounds, HasReturned, rounds-HasReturned}

module _ {R : Type 0} (ops : ModelRunner R) where
  run-append :
      (m : Server R) (es fs : List Event) → run ops m (es ++ fs) ≡ run ops (run ops m es) fs
  unfolding run
  run-append m [] fs = refl
  run-append m (e ∷ es) fs = run-append (step ops m e) es fs

  call_turns-append :
      (i : ℕ) (c : Caller ops) (ts us : List (Turn ops))
      → call_turns ops i c (ts ++ us) ≡ call_turns ops i (call_turns ops i c ts) us
  unfolding call_turns
  call_turns-append i c [] us = refl
  call_turns-append i c (t ∷ ts) us = call_turns-append i (call_turn ops i c t) ts us

  call_turns-happens :
      (i : ℕ) (c : Caller ops) (es : List Event)
      → call_turns ops i c (map happens es) ≡ record c { server = run ops c.server es }
  unfolding call_turns call_turn run
  call_turns-happens i c [] = refl
  call_turns-happens i c (e ∷ es) =
      call_turns-happens i (record c { server = step ops c.server e }) es

  module _ (rowwise : IsRowwise ops) (runner : R) (max_batch_size max_batch_tokens : ℤ)
      (earlier : List Event) (prompt : Text) (max_tokens : ℤ) (temperature : Float)
      (top_k : Option ℤ) where
    abbrev pub before : Server R
    before = run ops (start runner max_batch_size max_batch_tokens) earlier

    abbrev pub calling : Caller ops
    calling = open_call ops before prompt max_tokens temperature top_k

    -- The call is a request submitted.
    as_event :
        calling.server
        ≡ run ops (start runner max_batch_size max_batch_tokens) (
            earlier
            ++ submits (prompt_to_sequence ops before.runner prompt max_tokens temperature top_k)
              ∷ [])
    unfolding open_call run step
    as_event = sym (run-append (start runner max_batch_size max_batch_tokens) earlier _)

    pub request_finishes :
        (later : List Event) (i : ℕ)
        → pos 1 ≤ℤ max_batch_size
        → All IsDraining later
        → 2 * owed_in calling.server.state + 1 ≤ tick_count later
        → calling.server.phase ≢ dead
        → i < (run ops calling.server later).next_id
        → is_finished ((run ops calling.server later).heap i) ≡ true
    request_finishes later i room draining =
        subst
          (λ m.
            2 * owed_in m.state + 1 ≤ tick_count later
            → m.phase ≢ dead
            → i < (run ops m later).next_id
            → is_finished ((run ops m later).heap i) ≡ true)
          (sym as_event)
          (λ enough alive k.
            run-start-finishes ops rowwise runner max_batch_size max_batch_tokens _ later room alive
              draining enough i k)

    -- From the start with room for one request, after any events: on a loop that runs, a call of `generate`
    -- returns, if the loop goes on for two ticks for each token that the requests may still get and
    -- one more, whatever else happens meanwhile but a new request and the loop's cancellation, and the
    -- event loop then moves the items on its channel to the handler.
    pub open_call-HasReturned :
        (later : List Event) (n : ℕ)
        → pos 1 ≤ℤ max_batch_size
        → before.phase ≢ dead
        → All IsDraining later
        → 2 * owed_in calling.server.state + 1 ≤ tick_count later
        → length (stream ((run ops calling.server later).heap before.next_id)) ≤ n
        → HasReturned ops (
            call_turns ops before.next_id calling
              (map happens later ++ rounds ops before.next_id n))
    unfolding open_call
    open_call-HasReturned later n room alive draining enough short =
        let i = before.next_id in
        let c = call_turns ops i calling (map happens later) in
        let e = call_turns-happens i calling later in
        let served =
          open_call-IsServed ops before prompt max_tokens temperature top_k (map happens later) in
        subst (HasReturned ops)
          (sym (call_turns-append i calling (map happens later) (rounds ops i n)))
          (rounds-HasReturned ops _ i n c (record {
            served = served;
            waits = ap (λ c. c.call) e;
            over =
                ap (λ c. is_finished (c.server.heap i)) e
                ∙ request_finishes later i room draining enough alive
                    (subst (λ c. i < c.server.next_id) e served.known);
            short = subst (λ c. length (stream (c.server.heap i)) ≤ n) (sym e) short;
          }))
