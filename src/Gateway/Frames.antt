-- ===== src/Gateway/Frames.antt =====
-- The frames of a streamed reply.
use nano_kube_llm_server.Prelude.{
  ◌≡◌, refl, ap, ◌⊎◌, inl, inr, Bool, true, false, List, [], ◌∷◌, ◌++◌, map, All, Bool-cases,
  if◌then◌else◌,
}
use nano_kube_llm_server.Engines.{StreamChunk}
use nano_kube_llm_server.Gateway.{piece_is_fatal, Frame, chunk, done, frames}

-- The pieces before the first fatal one are sent, and then the terminator exactly if there is none.
pub record IsFramed (pieces : List StreamChunk) (sent : List Frame) (complete : Bool) : Type 0 where
  pub before : List StreamChunk
  pub after : List StreamChunk
  pub joined : pieces ≡ before ++ after
  pub harmless : All (λ p. piece_is_fatal p ≡ false) before
  pub sent_before : sent ≡ map chunk before ++ (if complete then done ∷ [] else [])
  pub stopped_at :
      ((complete ≡ true) × (after ≡ []))
      ⊎ ((complete ≡ false)
          × ((p : StreamChunk) × (ps : List StreamChunk) × (after ≡ p ∷ ps)
              × (piece_is_fatal p ≡ true)))

-- Of a stream, every piece before the first with a fatal reason is sent, in order; the terminator
-- follows, and the stream ends well, exactly if there is no fatal piece; else it raises there.
pub frames-IsFramed :
    (pieces : List StreamChunk) → IsFramed pieces (frames pieces).0 (frames pieces).1
unfolding frames
frames-IsFramed [] = record {
  before = [];
  after = [];
  joined = refl;
  harmless = tt;
  sent_before = refl;
  stopped_at = inl (refl, refl);
}
frames-IsFramed (p ∷ ps) = elim (Bool-cases (piece_is_fatal p)) [
  | inl fatal ↦ rw fatal (record {
    before = [];
    after = p ∷ ps;
    joined = refl;
    harmless = tt;
    sent_before = refl;
    stopped_at = inr (refl, (p, ps, refl, fatal));
  })
  | inr fine ↦
      let r = frames-IsFramed ps in
      rw fine (record {
        before = p ∷ r.before;
        after = r.after;
        joined = ap (◌∷◌ p) r.joined;
        harmless = (fine, r.harmless);
        sent_before = ap (◌∷◌ (chunk p)) r.sent_before;
        stopped_at = r.stopped_at;
      })
]
