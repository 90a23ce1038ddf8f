-- ===== src/Gateway/Streams/Completes.antt =====
-- /v1/completions on model_server/batching.py, run_loop: when a stream comes to its end.
use nano_kube_llm_server.Prelude.{
  ℕ, zero, suc, ◌<◌, ℤ, ◌+◌, ◌*◌, ◌≤◌, ◌≡◌, ◌≢◌, refl, sym, ap, subst, ◌∙◌, List, [], ◌∷◌, ◌++◌,
  map, length, All, All-append, pos, ◌≤ℤ◌,
}
use nano_kube_llm_server.Runners.Interface.{ModelRunner}
use nano_kube_llm_server.Batching.Sequences.{stream, is_finished}
use nano_kube_llm_server.Batching.RunLoop.{Server, Event, step, run, start, dead}
use nano_kube_llm_server.Batching.RunLoop.Safety.{run-start-IsSafe}
use nano_kube_llm_server.Batching.RunLoop.Watched.{Spares}
use nano_kube_llm_server.Batching.RunLoop.Owed.Ended.{owed_in}
use nano_kube_llm_server.Batching.RunLoop.Drain.Counts.{IsDraining, tick_count, IsRowwise}
use nano_kube_llm_server.Engines.{
  Turn, happens, ended, Client, open_stream, open_call, take_turn, take_turns,
}
use nano_kube_llm_server.Engines.Calls.Returns.{rounds}
use nano_kube_llm_server.Engines.Calls.Completes.{request_finishes}
use nano_kube_llm_server.Engines.Delivery.{IsMonotone}
use nano_kube_llm_server.Engines.Streaming.{open_stream-IsDelivered}
use nano_kube_llm_server.Engines.Streaming.Attended.{IsAttentive}
use nano_kube_llm_server.Engines.Streaming.Stays.{take_turns-IsAttended, opened-IsAttended}
use nano_kube_llm_server.Engines.Streaming.Ends.{rounds-HasEnded}
use nano_kube_llm_server.Gateway.{CompletionRequest}
use nano_kube_llm_server.Gateway.Streams.{IsStreamed, streaming, take_turns-IsStreamed}

module _ {R : Type 0} (ops : ModelRunner R) where
  take_turns-append :
      (i : ℕ) (c : Client ops) (ts us : List (Turn ops))
      → take_turns ops i c (ts ++ us) ≡ take_turns ops i (take_turns ops i c ts) us
  unfolding take_turns
  take_turns-append i c [] us = refl
  take_turns-append i c (t ∷ ts) us = take_turns-append i (take_turn ops i c t) ts us

  take_turns-happens :
      (i : ℕ) (c : Client ops) (es : List Event)
      → take_turns ops i c (map happens es) ≡ record c { server = run ops c.server es }
  unfolding take_turns take_turn run
  take_turns-happens i c [] = refl
  take_turns-happens i c (e ∷ es) =
      take_turns-happens i (record c { server = step ops c.server e }) es

  module _ (monotone : IsMonotone ops) (i : ℕ) where
    happens-IsAttentive :
        (es : List Event) → All (Spares i) es → All (IsAttentive ops monotone i) (map happens es)
    happens-IsAttentive [] all = tt
    happens-IsAttentive (e ∷ es) (spares, all) = (spares, happens-IsAttentive es all)

    rounds-IsAttentive : (n : ℕ) → All (IsAttentive ops monotone i) (rounds ops i n)
    rounds-IsAttentive zero = tt
    rounds-IsAttentive (suc n) = (tt, (tt, rounds-IsAttentive n))

  module _ (rowwise : IsRowwise ops) (monotone : IsMonotone ops) (runner : R)
      (max_batch_size max_batch_tokens : ℤ) (earlier : List Event) (body : CompletionRequest) where
    abbrev pub before : Server R
    before = run ops (start runner max_batch_size max_batch_tokens) earlier

    -- The turns: the events, and then the event loop moves an item, and resumes the handler, so many times.
    abbrev pub streamed : List Event → ℕ → Client ops
    streamed later n =
        take_turns ops before.next_id (streaming ops monotone before body)
          (map happens later ++ rounds ops before.next_id n)

    ended-place :
        (later : List Event) (n : ℕ)
        → pos 1 ≤ℤ max_batch_size
        → before.phase ≢ dead
        → All IsDraining later
        → All (Spares before.next_id) later
        → 2 * owed_in (streaming ops monotone before body).server.state + 1 ≤ tick_count later
        → length (
            stream
              ((run ops (streaming ops monotone before body).server later).heap before.next_id))
          ≤ n
        → (streamed later n).place ≡ ended
    unfolding open_stream open_call take_turns
    ended-place later n room alive draining spares enough short =
        let i = before.next_id in
        let c = streaming ops monotone before body in
        let w = run-start-IsSafe ops runner max_batch_size max_batch_tokens earlier in
        let ts = map happens later in
        let e = take_turns-happens i c later in
        let attended =
          take_turns-IsAttended ops monotone i c ts (happens-IsAttentive monotone i later spares)
            (open_stream-IsDelivered ops monotone before body.prompt body.max_tokens
              body.temperature body.top_k [])
            (opened-IsAttended ops monotone before body.prompt body.max_tokens body.temperature
              body.top_k w) in
        subst (λ c. c.place ≡ ended) (sym (take_turns-append i c ts (rounds ops i n)))
          (rounds-HasEnded ops monotone i n (take_turns ops i c ts) (record {
            delivered =
                open_stream-IsDelivered ops monotone before body.prompt body.max_tokens
                  body.temperature body.top_k ts;
            attended = attended;
            waits = (0, ap (λ c. c.place) e);
            over =
                ap (λ c. is_finished (c.server.heap i)) e
                ∙ request_finishes ops rowwise runner max_batch_size max_batch_tokens earlier
                    body.prompt body.max_tokens body.temperature body.top_k later i room draining
                    enough alive (subst (λ c. i < c.server.next_id) e attended.known);
            short = subst (λ c. length (stream (c.server.heap i)) ≤ n) (sym e) short;
          }))

    -- For a runner that answers each row whenever it returns tokens and whose text of a longer output begins
    -- with the text that was there: from the start with room for one request, after any events, a stream
    -- that is opened on a loop that runs comes to its end, and its client has received the whole of it,
    -- if the loop goes on for two ticks for each token that the requests may still get and one more,
    -- whatever else happens meanwhile but a new request, the loop's cancellation and the request being
    -- given up, and the event loop then moves the items on its channel to the handler.
    pub streamed-IsStreamed :
        (later : List Event) (n : ℕ)
        → pos 1 ≤ℤ max_batch_size
        → before.phase ≢ dead
        → All IsDraining later
        → All (Spares before.next_id) later
        → 2 * owed_in (streaming ops monotone before body).server.state + 1 ≤ tick_count later
        → length (
            stream
              ((run ops (streaming ops monotone before body).server later).heap before.next_id))
          ≤ n
        → ((streamed later n).place ≡ ended)
          × IsStreamed ops
              ((streamed later n).server.heap before.next_id)
              (streamed later n).received
    streamed-IsStreamed later n room alive draining spares enough short =
        let i = before.next_id in
        let over = ended-place later n room alive draining spares enough short in
        (
          over,
          take_turns-IsStreamed ops monotone before body (map happens later ++ rounds ops i n)
              (run-start-IsSafe ops runner max_batch_size max_batch_tokens earlier)
              (All-append _ (map happens later) (rounds ops i n)
                (happens-IsAttentive monotone i later spares) (rounds-IsAttentive monotone i n))
              over,
        )
