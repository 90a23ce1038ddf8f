-- ===== src/Runners/Mock/Lengths.antt =====
-- What the mock serves: every request runs to its length.
use nano_kube_llm_server.Prelude.{
  ℕ, ◌<◌, ◌≡◌, ◌≢◌, refl, sym, ap, ap₂, subst, ◌∙◌, List, [], ◌∷◌, Option, some, ℤ, pos_part,
  length, length-replicate, replicate, elem,
}
use nano_kube_llm_server.Runners.Interface.{ForwardBatch, rows}
use nano_kube_llm_server.Runners.Mock.{mock_runner, mock_execute}
use nano_kube_llm_server.Batching.Sequences.{Sequence, stopped, length_limit}
use nano_kube_llm_server.Batching.Sequences.Heaps.{Core, with_token}
use nano_kube_llm_server.Batching.RunLoop.{Event, run, start}
use nano_kube_llm_server.Batching.RunLoop.Safety.{run-start-IsSafe}
use nano_kube_llm_server.Batching.RunLoop.Caching.{IsCaching}
use nano_kube_llm_server.Batching.RunLoop.Requests.{Answers}
use nano_kube_llm_server.Batching.RunLoop.Upheld.{run-start-Every}
use nano_kube_llm_server.Batching.RunLoop.Traces.{Chain, TracedSeq, IsOpen, traced-IsStable}
use nano_kube_llm_server.Batching.RunLoop.Traces.Solo.{within_budget, used_up}

-- The mock's only token.
abbrev pub IsZero : Core → ℕ → Type 0
IsZero c token = token ≡ 0

zeros-Answers : (seqs : List Sequence) → Answers IsZero seqs (replicate (length seqs) (some 0))
zeros-Answers [] = tt
zeros-Answers (s ∷ ss) = (refl, zeros-Answers ss)

pub mock_execute-keeps :
    (batch : ForwardBatch) (tokens : List (Option ℕ))
    → mock_execute batch ≡ rows tokens
    → Unit {0} × Answers IsZero batch.seqs tokens × (length tokens ≡ length batch.seqs)
unfolding mock_execute
mock_execute-keeps batch tokens e =
    let f : replicate (length batch.seqs) (some 0) ≡ tokens = cc in
    (
      tt,
      subst (Answers IsZero batch.seqs) f (zeros-Answers batch.seqs),
      ap length (sym f) ∙ length-replicate (length batch.seqs) (some 0),
    )

abbrev pub mock_caching : IsCaching mock_runner
mock_caching = record {
  Kept = λ r seqs. Unit {0};
  Answered = Answers IsZero;
  execute_keeps = λ r batch tokens mode ok. mock_execute-keeps batch tokens ok;
}

Chain-zeros : (c : Core) (ts : List ℕ) → Chain IsZero c ts → ts ≡ replicate (length ts) 0
Chain-zeros c [] chain = refl
Chain-zeros c (t ∷ ts) chain = ap₂ ◌∷◌ chain.0 (Chain-zeros (with_token c t) ts chain.1)

-- With the mock, from the start and after any events: a request without EOS tokens never ends with
-- "stop", and if it ended with "length" its output is a 0 for each token that was asked for.
pub run-start-zeros :
    (max_batch_size max_batch_tokens : ℤ) (es : List Event) (i : ℕ)
    → i < (run mock_runner (start tt max_batch_size max_batch_tokens) es).next_id
    → let s = (run mock_runner (start tt max_batch_size max_batch_tokens) es).heap i in
      s.eos_token_ids ≡ []
      → (s.finish_reason ≢ stopped)
        × (s.finish_reason ≡ length_limit → s.output_ids ≡ replicate (pos_part s.max_new_tokens) 0)
unfolding elem
run-start-zeros max_batch_size max_batch_tokens es i k none_given =
    let m = run mock_runner (start tt max_batch_size max_batch_tokens) es in
    let s = m.heap i in
    let v =
      run-start-Every mock_runner mock_caching IsZero (λ seqs tokens a. a) (TracedSeq IsZero)
        (IsOpen IsZero) (traced-IsStable IsZero) tt max_batch_size max_batch_tokens es i k in
    let sound =
      (run-start-IsSafe mock_runner tt max_batch_size max_batch_tokens es).well.sound i k in
    (
      λ stop. let e = v.on_stop stop in let eos = rw none_given at e.eos in cc,
      λ full.
          let n = used_up s.max_new_tokens _ (within_budget i s sound) (v.on_length full).1 in
          Chain-zeros _ s.output_ids v.chain ∙ ap (λ n. replicate n 0) n,
    )
