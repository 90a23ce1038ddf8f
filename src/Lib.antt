-- ===== src/Lib.antt =====
-- The model server of nano-kube-llm-server: continuous batching of completion requests.
--
-- The program's parts. model_server/main.py is the HTTP gateway, model_server/engines.py gives each
-- request a view of the shared loop, model_server/batching.py decides what runs, and
-- model_server/runners.py how it runs. A request becomes a Sequence; Scheduler.add queues it;
-- run_loop calls Scheduler.schedule, hands the batch to a ModelRunner on a worker thread, and records
-- the tokens with Scheduler.postprocess; each token goes to the queue of its own sequence.
--
-- Which file models which part.
--   Batching/Sequences.antt: class Sequence. Sequences are shared mutable objects, so they live in a
--     heap, a function from ids to sequences, and a reference is an id from the counter _next_id.
--     A sequence's channel is its asyncio.Queue (`queue`) and the put_nowait calls that
--     call_soon_threadsafe has handed to the event loop (`posted`).
--   Batching/Scheduler.antt: class Scheduler, a function for each method (`schedule` with its loop
--     `admit`, `postprocess` with its body `record_token`, `abort`, `fail_all`). Below it,
--     Admission and Limits are about `schedule`, Tokens about `postprocess`, WellFormed has the
--     invariant, and a file for each operation that keeps it.
--   Batching/RunLoop.antt: run_loop, cut at its awaits into `begin_tick` and `end_tick`, with the
--     events that other coroutines can bring about between the cuts; `run` goes through any list of
--     events. Rows, Ticks and Safety are about the invariant of the process; Grows, Recorded,
--     Caching and Coherence about what a runner that keeps its last batch can rely on; Outputs about
--     what no event undoes; Entries about what a tick does to each row; Requests, Opened and Upheld
--     about properties of single requests that every event keeps, which Traces and Solo apply to the
--     outputs; Watched about a request that nobody gives up, Late about a client that leaves during a
--     tick, and Stuck about a loop that has no room. Owed and Drain are about the tokens that requests may still get, Settings about the limit
--     on the batch's size.
--   Runners/Interface.antt: ForwardBatch and ModelRunner, a record of operations that the loop takes
--     as a parameter. Runners/Mock.antt: MockRunner, with Lengths about what it serves.
--   Runners/Qwen.antt: class QwenRunner, over a record of the operations of torch, the model and the
--     tokenizer. Padding is about the rows of _pad_and_stack, Cache about the key-value cache from
--     tick to tick, Sampling about the failures of single rows, Executed about a tick that returns
--     tokens; Served, Model and Greedy are about the runner in the loop. Runners/Weights.antt: qwen.py and
--     load_qwen_runner, over a record of the operations of the model hub.
--   Engines.antt: BatchingEngine. `generate` and `stream` are cut where they await the queue, and
--     `take_turns` mixes the turns of a streaming client with the events of the process. `call_turns`
--     does so for a call of `generate`. Chunks, Delivery and Streaming are about what the client of a
--     stream receives, with Order, Whole, Attended, Stays and Ends about one that stays to the
--     end; Sentinels, Asked and Calls are about a call of `generate`, with Calls/Settled and
--     Calls/Moments about the turn at which it returned, and Turns about the process under
--     both.
--   Gateway.antt: main.py. Requests is about the validation of a request, Frames about the frames of a
--     streamed reply, Swaps about the loop when the mock runner is replaced,
--     Outages about what the endpoints answer after a tick that raised, Answers and Streams about the
--     replies of /v1/completions, with Streams/Completes about when a stream ends.
--     Gateway/Wire.antt has the texts of a streamed reply and of /metrics, with readers in
--     Events, Json and Gauges, and Payloads about what they get from a streamed reply;
--     Gateway/Loading.antt has the lifespan with `_load`; Fitting is about what it serves, and Readiness
--     about what /health says of it.
--   Bench.antt: bench.py, in a monad of state and failure, with what `model` and `enc` are bound to,
--     whether an `except` clause runs, and a log of what was done. Bench/Measure.antt has the
--     loads and the timing, Bench/Suites.antt the benchmarks; Triples has the rules for conditions before and after a run; Holding and Frugal are
--     about what the names are bound to, Marks and Scaling about what bench_batch prints.
--   Prelude: Booleans, lists over the native numbers, integers, floats as exact binary fractions, and
--     texts.
--   Tests: small runs, and the theorems at concrete inputs.
--
-- Bounds and fuel. Token ids, lengths and ids are natural numbers without a bound, settings that
-- Python reads as int are integers, floats are exact. The loop of `schedule` recurs on the
-- queue, and the endless loop of run_loop is a step for each event. Only the digits of a printed number
-- take fuel, the number's successor, of which each digit but the first divides by ten.
--
-- Hypotheses. A runner is any record of operations, and so are torch and the model under it; TorchLaws,
-- CacheLaws and ModelLaws name what is documented of them: a causal model whose cached columns keep
-- their meaning while the mask only adds columns. Where a theorem needs more of it, a record names
-- what: IsCaching and IsRowwise what `execute` keeps and answers, IsMonotone that the text of a longer
-- output begins with the text that was there. The mock has it; a tokenizer that gives U+FFFD for a
-- part of a character does not, and a test shows what its stream sends.
--
-- Not modelled: the time that a sleep or a forward pass takes, the weights and the tensor library
-- (a cache is a value, which a forward pass that raises leaves as it was), HTTP parsing, the JSON
-- of the replies that are not streamed, the reading of the environment's settings, the command line
-- and the number formats of the benchmark harness, and the Kubernetes operator (written in Go).
pub mod Prelude
pub mod Runners
pub mod Batching
pub mod Engines
pub mod Gateway
pub mod Bench
mod Tests
