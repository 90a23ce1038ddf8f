-- ===== src/Bench/Marks.antt =====
-- The rows of `bench_batch` that were printed so far.
use nano_kube_llm_server.Prelude.{
  ℤ, ◌≡◌, refl, sym, ap, ◌∙◌, List, [], ◌∷◌, ◌++◌, append-nil, append_assoc,
}
use nano_kube_llm_server.Runners.Qwen.{returned}
use nano_kube_llm_server.Bench.{
  Rig, of_batch, Act, builds, generates, prints, collects, Entry, Line, row, oom, Desk, noted, free,
}
use nano_kube_llm_server.Bench.Measure.{make_batch}
use nano_kube_llm_server.Bench.Suites.{build_enc}
use nano_kube_llm_server.Bench.Triples.{
  Triple, bind-Triple, pure-Triple, change-Triple, call-Triple, call-Triple_returned, IsSteady,
}

-- What is documented of the three calls of `free`: none of them raises.
pub record FreeReturns (rig : Rig) : Type 0 where
  pub gc_returns : (w : rig.World) → (rig.gc_collect w).0 ≡ returned tt
  pub empty_returns : (w : rig.World) → (rig.empty_cache w).0 ≡ returned tt
  pub reset_returns : (w : rig.World) → (rig.reset_peak_memory_stats w).0 ≡ returned tt

-- A row for a size, or the "OOM" of a size.
pub data Mark : Type 0 where
  shown ran_out : ℤ → Mark

abbrev mark_of_line : {N : Type 0} → Line N → List Mark
mark_of_line (row (of_batch bs) ttft rate peak extra) = shown bs ∷ []
mark_of_line (oom bs) = ran_out bs ∷ []
mark_of_line line = []

abbrev mark_of : {N : Type 0} → Act N → List Mark
mark_of (prints line) = mark_of_line line
mark_of act = []

-- The rows and the "OOM"s that were printed, in order.
abbrev pub marks : {N : Type 0} → List (Entry N) → List Mark
marks [] = []
marks (x ∷ xs) = mark_of x.act ++ marks xs

pub marks-append : {N : Type 0} (xs ys : List (Entry N)) → marks (xs ++ ys) ≡ marks xs ++ marks ys
marks-append [] ys = refl
marks-append (x ∷ xs) ys =
    ap (λ ms. mark_of x.act ++ ms) (marks-append xs ys)
    ∙ sym (append_assoc (mark_of x.act) (marks xs) (marks ys))

-- The sizes that were not reached: the first of them ran out of memory.
abbrev pub rest_marks : List ℤ → List Mark
rest_marks [] = []
rest_marks (bs ∷ sizes) = ran_out bs ∷ []

module _ {rig : Rig} where
  abbrev pub Shown : List Mark → Desk rig → Type 0
  Shown ms d = marks d.log ≡ ms

  pub noted-Shown :
      (act : Act rig.Number) (ms : List Mark) (d : Desk rig)
      → Shown ms d
      → Shown (ms ++ mark_of act) (noted rig act d)
  noted-Shown act ms d e =
      marks-append d.log _
      ∙ ap (λ ms. ms ++ (mark_of act ++ [])) e
      ∙ ap (λ xs. ms ++ xs) (append-nil (mark_of act))

  pub silent-Shown :
      (act : Act rig.Number) (ms : List Mark) (d : Desk rig)
      → mark_of act ≡ []
      → Shown ms d
      → Shown ms (noted rig act d)
  silent-Shown act ms d silent e =
      noted-Shown act ms d e ∙ ap (λ xs. ms ++ xs) silent ∙ append-nil ms

  pub Shown-IsSteady : (ms : List Mark) → IsSteady (Shown ms)
  Shown-IsSteady ms = record {
    inner = λ d w e. e;
    generating = λ d g e. silent-Shown (generates g) ms d refl e;
  }

  pub build_enc-Shown :
      (ms : List Mark) (batch_size prompt_tokens : ℤ)
      → Triple (Shown ms) (build_enc rig batch_size prompt_tokens) (Shown ms) (Shown ms) (Shown ms)
  unfolding make_batch
  build_enc-Shown ms batch_size prompt_tokens =
      bind-Triple
        (bind-Triple
          (change-Triple {R = Shown ms} _
            λ d e. silent-Shown (builds batch_size prompt_tokens) ms d refl e)
          λ _. call-Triple _ λ d w e. e)
        λ enc. bind-Triple (change-Triple _ λ d e. e) λ _. pure-Triple enc

  pub free-Shown :
      {O F : Desk rig → Type 0}
      → FreeReturns rig
      → (ms : List Mark) → Triple (Shown ms) (free rig) (Shown ms) O F
  unfolding free
  free-Shown quiet ms =
      bind-Triple (change-Triple {R = Shown ms} _ λ d e. silent-Shown collects ms d refl e) λ _.
        bind-Triple (call-Triple_returned _ quiet.gc_returns λ d w e. e) λ _.
          bind-Triple (call-Triple_returned _ quiet.empty_returns λ d w e. e)
            λ _. call-Triple_returned _ quiet.reset_returns λ d w e. e
