-- ===== src/Tests/StreamExamples.antt =====
-- A stream on the mock runner among other requests, to its end.
use nano_kube_llm_server.Prelude.{
  ℕ, zero, suc, ◌≤◌, ◌≡◌, refl, true, List, ◌∷◌, none, pos, finite, length, replicate, All, arith,
}
use nano_kube_llm_server.Runners.Mock.{mock_runner, mock_decode, mock_encode, repeat}
use nano_kube_llm_server.Batching.Sequences.{stream}
use nano_kube_llm_server.Batching.RunLoop.{Event, ticks, gives_up, run, prompt_to_sequence}
use nano_kube_llm_server.Batching.RunLoop.Watched.{Spares}
use nano_kube_llm_server.Batching.RunLoop.Owed.{owed, owed_by}
use nano_kube_llm_server.Batching.RunLoop.Owed.Ended.{owed_in}
use nano_kube_llm_server.Engines.{Client, ended, open_stream}
use nano_kube_llm_server.Gateway.{CompletionRequest}
use nano_kube_llm_server.Gateway.Streams.{IsStreamed, streaming}
use nano_kube_llm_server.Gateway.Streams.Completes.{streamed, streamed-IsStreamed}
use nano_kube_llm_server.Tests.Samples.{program}
use nano_kube_llm_server.Tests.CallExamples.{
  mock-IsRowwise, arrivals, busy, busy-alive, ticks-IsDraining, prompt,
}
use nano_kube_llm_server.Tests.EngineExamples.{mock_runner-IsMonotone}

abbrev body : CompletionRequest
body = record {
  prompt = prompt;
  max_tokens = pos 2;
  temperature = finite (pos 0) 0;
  top_k = none;
  stream = true;
}

-- Another client leaves, and the loop goes on.
abbrev later : List Event
later = gives_up 1 ∷ replicate 15 ticks

-- What the run computes with.
streams : Unit {0}
unfolding program prompt_to_sequence mock_decode mock_encode repeat open_stream owed owed_by
streams = tt

abbrev opened : Client mock_runner
opened = streaming mock_runner mock_runner-IsMonotone busy body

opened-owed : owed_in opened.server.state ≡ 7
unfolding streams
opened-owed = refl

busy-next_id : busy.next_id ≡ 2
unfolding streams
busy-next_id = refl

ticks-Spares : (j n : ℕ) → All (Spares j) (replicate n ticks)
ticks-Spares j zero = tt
ticks-Spares j (suc n) = (tt, ticks-Spares j n)

later-Spares : All (Spares busy.next_id) later
later-Spares = rw busy-next_id (refl, ticks-Spares 2 15)

opened-short : length (stream ((run mock_runner opened.server later).heap busy.next_id)) ≤ 3
unfolding streams
opened-short = omega arith

abbrev final : Client mock_runner
final =
    streamed mock_runner mock-IsRowwise mock_runner-IsMonotone tt (pos 1) (pos 100) arrivals body
      later 3

streamed-IsStreamed_example :
    (final.place ≡ ended) × IsStreamed mock_runner (final.server.heap busy.next_id) final.received
streamed-IsStreamed_example =
    streamed-IsStreamed mock_runner mock-IsRowwise mock_runner-IsMonotone tt (pos 1) (pos 100)
      arrivals body later 3 (omega arith) busy-alive (tt, ticks-IsDraining 15) later-Spares
      (omega (arith, opened-owed)) opened-short
