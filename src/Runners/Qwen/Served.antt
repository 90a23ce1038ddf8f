-- ===== src/Runners/Qwen/Served.antt =====
-- QwenRunner under run_loop: the cache in every reachable state.
use nano_kube_llm_server.Prelude.{
  ℕ, ◌≡◌, refl, sym, ap, ap₂, subst, ◌∙◌, List, [], ◌∷◌, map, Option, ℤ, length,
}
use nano_kube_llm_server.Runners.Interface.{rows}
use nano_kube_llm_server.Batching.Sequences.{Sequence, Heap, seq_len, token_ids}
use nano_kube_llm_server.Batching.Sequences.Heaps.{core_tokens}
use nano_kube_llm_server.Batching.RunLoop.{executing, Event, run, start}
use nano_kube_llm_server.Batching.RunLoop.Grows.{SameTokens}
use nano_kube_llm_server.Batching.RunLoop.Caching.{IsCaching, PhaseKept}
use nano_kube_llm_server.Batching.RunLoop.Coherence.{run-start-IsCoherent}
use nano_kube_llm_server.Runners.Qwen.{Backend, Qwen, width, pad_row, pad_id, padded, qwen_runner}
use nano_kube_llm_server.Runners.Qwen.Cache.{CacheLaws, Holds, execute-Holds, seq_len-token_ids}
use nano_kube_llm_server.Runners.Qwen.Executed.{qwen_execute-length}

module _ (b : Backend) where
  abbrev pub qwen_caching : CacheLaws b → IsCaching (qwen_runner b)
  qwen_caching laws = record {
    Kept = Holds b laws;
    Answered = λ seqs tokens. Unit {0};
    execute_keeps = λ r batch tokens mode ok.
        (execute-Holds b laws r batch tokens mode ok, tt, qwen_execute-length b r batch tokens ok);
  }

width-SameTokens :
    (h : Heap) (ss : List Sequence) (is : List ℕ) → SameTokens h ss is → width (map h is) ≡ width ss
unfolding width
width-SameTokens h [] [] e = refl
width-SameTokens h [] (i ∷ is) e = absurd e
width-SameTokens h (s ∷ ss) [] e = absurd e
width-SameTokens h (s ∷ ss) (i ∷ is) e =
    let n : seq_len (h i) ≡ seq_len s =
      seq_len-token_ids (h i) ∙ ap (λ c. length (core_tokens c)) e.0 ∙ sym (seq_len-token_ids s) in
    rw (n, width-SameTokens h ss is e.1) refl

module _ (b : Backend) where
  rows-SameTokens :
      (w : ℕ) (h : Heap) (ss : List Sequence) (is : List ℕ)
      → SameTokens h ss is
      → map (λ s. pad_row (pad_id b) w (token_ids s)) (map h is)
        ≡ map (λ s. pad_row (pad_id b) w (token_ids s)) ss
  rows-SameTokens w h [] [] e = refl
  rows-SameTokens w h [] (i ∷ is) e = absurd e
  rows-SameTokens w h (s ∷ ss) [] e = absurd e
  rows-SameTokens w h (s ∷ ss) (i ∷ is) e =
      ap₂ ◌∷◌ (ap (λ c. pad_row (pad_id b) w (core_tokens c)) e.0) (rows-SameTokens w h ss is e.1)

  -- The padded batch depends on the tokens only.
  padded-SameTokens :
      (h : Heap) (ss : List Sequence) (is : List ℕ)
      → SameTokens h ss is
      → padded b (map h is) ≡ padded b ss
  unfolding padded
  padded-SameTokens h ss is e =
      rw (width-SameTokens h ss is e) (rows-SameTokens (width ss) h ss is e)

  -- With a model that adds the columns it is fed to its cache, from the start and after any events: while
  -- a tick's tokens are on their way from the worker thread, the cache stands for the whole padded batch
  -- with the tokens that its requests have, and there is a token or none for each of them.
  pub run-start-Holds :
      (laws : CacheLaws b) (runner : Qwen b) (max_batch_size max_batch_tokens : ℤ) (es : List Event)
      (batch current : List ℕ) (next_ids : List (Option ℕ))
      → (run (qwen_runner b) (start runner max_batch_size max_batch_tokens) es).phase
        ≡ executing batch current (rows next_ids)
      → Holds b laws
          (run (qwen_runner b) (start runner max_batch_size max_batch_tokens) es).runner
          (map (run (qwen_runner b) (start runner max_batch_size max_batch_tokens) es).heap batch)
        × (length next_ids ≡ length batch)
  unfolding Holds
  run-start-Holds laws runner max_batch_size max_batch_tokens es batch current next_ids e =
      let m = run (qwen_runner b) (start runner max_batch_size max_batch_tokens) es in
      let v =
        run-start-IsCoherent (qwen_runner b) (qwen_caching b laws) runner max_batch_size
          max_batch_tokens es in
      let (seqs, (c, at, whole), same, answers, n) =
        subst (PhaseKept (qwen_runner b) (qwen_caching b laws) m.state m.members m.runner) e
          v.kept in
      ((c, at, whole ∙ sym (padded-SameTokens m.heap seqs batch same)), n)
