-- ===== src/Engines/Streaming/Whole.antt =====
-- What the client of a stream has received once it read the sentinel.
use nano_kube_llm_server.Prelude.{◌≡◌, sym, ap, subst, ◌∙◌, true, List, [], ◌∷◌, ◌++◌, none, All}
use nano_kube_llm_server.Runners.Interface.{ModelRunner}
use nano_kube_llm_server.Batching.Sequences.{Sequence, is_finished, is_set, deliver}
use nano_kube_llm_server.Batching.Sequences.Heaps.{deliver-core, emit-finish_reason, emit-core}
use nano_kube_llm_server.Batching.Scheduler.{fail_one}
use nano_kube_llm_server.Batching.RunLoop.Watched.{IsWatched}
use nano_kube_llm_server.Engines.{StreamChunk}
use nano_kube_llm_server.Engines.Chunks.{IsText}
use nano_kube_llm_server.Engines.Delivery.{terminal_chunk}
use nano_kube_llm_server.Engines.Streaming.Order.{HoldsText}

module _ {R : Type 0} (ops : ModelRunner R) (chunks : List StreamChunk) where
  -- The request is over, and the client has its text and its reason.
  pub record IsWhole (s : Sequence) : Type 0 where
    pub over : is_finished s ≡ true
    pub pieces : List StreamChunk
    pub all_text : All IsText pieces
    pub terminated : chunks ≡ pieces ++ terminal_chunk ops s.finish_reason ∷ []
    pub whole : HoldsText ops chunks s.output_ids

  pub same-IsWhole :
      (s s' : Sequence)
      → s'.finish_reason ≡ s.finish_reason
      → s'.output_ids ≡ s.output_ids
      → IsWhole s
      → IsWhole s'
  same-IsWhole s s' e f v = record {
    over = ap is_set e ∙ v.over;
    pieces = v.pieces;
    all_text = v.all_text;
    terminated = subst (λ r. chunks ≡ v.pieces ++ terminal_chunk ops r ∷ []) (sym e) v.terminated;
    whole = subst (HoldsText ops chunks) (sym f) v.whole;
  }

  fail_one-ended_same :
      (s : Sequence)
      → is_finished s ≡ true
      → ((fail_one s).finish_reason ≡ s.finish_reason) × ((fail_one s).output_ids ≡ s.output_ids)
  unfolding fail_one
  fail_one-ended_same s over =
      rw over (emit-finish_reason s none, ap (λ c. c.output_ids) (emit-core s none))

  -- Nothing is written to it any more but sentinels.
  pub IsWhole-IsWatched : IsWatched IsWhole
  IsWhole-IsWatched = record {
    errs = λ s going v. let over = v.over in cc;
    records = λ token s going v. let over = v.over in cc;
    fails = λ s v. let (e, f) = fail_one-ended_same s v.over in same-IsWhole s (fail_one s) e f v;
    delivers = λ s v.
        same-IsWhole s (deliver s) (deliver-core s).1 (ap (λ c. c.output_ids) (deliver-core s).0) v;
  }
