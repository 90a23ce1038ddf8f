-- ===== src/Gateway/Streams.antt =====
-- /v1/completions over the engine: the frames of a stream that came to its end.
pub mod Completes
use nano_kube_llm_server.Prelude.{
  ◌≡◌, refl, sym, subst, inl, inr, true, false, List, [], ◌∷◌, ◌++◌, map, none, All, if◌then◌else◌,
  Bool-cases,
}
use nano_kube_llm_server.Runners.Interface.{ModelRunner}
use nano_kube_llm_server.Batching.Sequences.{
  Sequence, Finish, unset, stopped, length_limit, cancelled, error, is_finished, is_set,
}
use nano_kube_llm_server.Batching.RunLoop.{Server}
use nano_kube_llm_server.Batching.RunLoop.Safety.{IsSafe}
use nano_kube_llm_server.Engines.{StreamChunk, Client, Turn, ended, open_stream, take_turns}
use nano_kube_llm_server.Engines.Chunks.{IsText}
use nano_kube_llm_server.Engines.Delivery.{IsMonotone, terminal_chunk}
use nano_kube_llm_server.Engines.Streaming.Order.{HoldsText}
use nano_kube_llm_server.Engines.Streaming.Whole.{IsWhole}
use nano_kube_llm_server.Engines.Streaming.Attended.{IsAttentive}
use nano_kube_llm_server.Engines.Streaming.Stays.{open_stream-IsWhole}
use nano_kube_llm_server.Gateway.{CompletionRequest, chunk, done, frames, piece_is_fatal, is_fatal}

text_is_fine : (p : StreamChunk) → p.finish_reason ≡ none → piece_is_fatal p ≡ false
unfolding piece_is_fatal
text_is_fine p no_reason = rw no_reason refl

-- Pieces of text, and then one more.
frames-last :
    (pieces : List StreamChunk) (last : StreamChunk)
    → All IsText pieces
    → frames (pieces ++ last ∷ []) ≡ (
        if piece_is_fatal last
        then (map chunk pieces, false)
        else (map chunk (pieces ++ last ∷ []) ++ done ∷ [], true))
unfolding frames
frames-last [] last all_text = refl
frames-last (p ∷ ps) last ((some_text, no_reason), all_text) =
    let fine = text_is_fine p no_reason in
    let rest = frames-last ps last all_text in
    elim (Bool-cases (piece_is_fatal last)) [
      | inl fatal ↦ let e = rw fatal at rest in rw (fine, fatal, e) refl
      | inr good ↦ let e = rw good at rest in rw (fine, good, e) refl
    ]

module _ {R : Type 0} (ops : ModelRunner R) where
  -- With the reason stop or length: a frame for each piece and the terminator. Cancelled or failed: a
  -- frame for each piece before the last, and no terminator.
  abbrev pub HasFrames : Finish → List StreamChunk → List StreamChunk → Type 0
  HasFrames unset pieces received = ⊥
  HasFrames stopped pieces received = frames received ≡ (map chunk received ++ done ∷ [], true)
  HasFrames length_limit pieces received = frames received ≡ (map chunk received ++ done ∷ [], true)
  HasFrames cancelled pieces received = frames received ≡ (map chunk pieces, false)
  HasFrames error pieces received = frames received ≡ (map chunk pieces, false)

  -- The request is over. With the reason stop or length the client has a frame for each piece and the
  -- terminator; else it has a frame for each piece but the last, and the reply breaks off. The pieces
  -- hold the whole text, or there is no text and no output.
  pub record IsStreamed (s : Sequence) (received : List StreamChunk) : Type 0 where
    pub over : is_finished s ≡ true
    pub whole : HoldsText ops received s.output_ids
    pub pieces : List StreamChunk
    pub terminated : received ≡ pieces ++ terminal_chunk ops s.finish_reason ∷ []
    pub sent : HasFrames s.finish_reason pieces received

  last-HasFrames :
      (reason : Finish) (pieces : List StreamChunk)
      → is_set reason ≡ true
      → All IsText pieces
      → HasFrames reason pieces (pieces ++ terminal_chunk ops reason ∷ [])
  unfolding piece_is_fatal is_fatal
  last-HasFrames unset pieces over all_text = cc
  last-HasFrames stopped pieces over all_text =
      frames-last pieces (terminal_chunk ops stopped) all_text
  last-HasFrames length_limit pieces over all_text =
      frames-last pieces (terminal_chunk ops length_limit) all_text
  last-HasFrames cancelled pieces over all_text =
      frames-last pieces (terminal_chunk ops cancelled) all_text
  last-HasFrames error pieces over all_text = frames-last pieces (terminal_chunk ops error) all_text

  whole-IsStreamed :
      (s : Sequence) (received : List StreamChunk) → IsWhole ops received s → IsStreamed s received
  whole-IsStreamed s received v = record {
    over = v.over;
    whole = v.whole;
    pieces = v.pieces;
    terminated = v.terminated;
    sent =
        subst (HasFrames s.finish_reason v.pieces) (sym v.terminated)
          (last-HasFrames s.finish_reason v.pieces v.over v.all_text);
  }

  module _ (monotone : IsMonotone ops) (m : Server R) (body : CompletionRequest) where
    abbrev pub streaming : Client ops
    streaming = open_stream ops m body.prompt body.max_tokens body.temperature body.top_k

    -- For a runner whose text of a longer output begins with the text that was there, and a process that
    -- keeps its invariant: when a stream is over whose client did not go away and whose request nobody
    -- else gave up, after any turns, the request is finished; the pieces of the engine hold the text
    -- of its whole output, or there is no text and no output, and the last piece has its reason; and
    -- the client has a frame for each of them and then the terminator if the reason is stop or length,
    -- and else a frame for each piece but the last, and no terminator.
    pub take_turns-IsStreamed :
        (ts : List (Turn ops))
        → IsSafe m
        → All (IsAttentive ops monotone m.next_id) ts
        → (take_turns ops m.next_id streaming ts).place ≡ ended
        → IsStreamed
            ((take_turns ops m.next_id streaming ts).server.heap m.next_id)
            (take_turns ops m.next_id streaming ts).received
    take_turns-IsStreamed ts safe all over = whole-IsStreamed _ _ (
        open_stream-IsWhole ops monotone m body.prompt body.max_tokens body.temperature body.top_k
          safe ts all over)
