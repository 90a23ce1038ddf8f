-- ===== src/Bench/Scaling.antt =====
-- What `bench_batch` prints: a row for each size up to the first that runs out of memory.
use nano_kube_llm_server.Prelude.{
  ℤ, ◌≡◌, refl, sym, ap, ◌∙◌, List, [], ◌∷◌, ◌++◌, map, append-nil, append_assoc, Option, none,
  some,
}
use nano_kube_llm_server.Runners.Qwen.{Attempt, returned, out_of_memory, failed}
use nano_kube_llm_server.Bench.{
  batch_title, bfloat16, sdpa, Rig, loads, prints, collects, header, Desk, Run, pure, call, free,
}
use nano_kube_llm_server.Bench.Measure.{load}
use nano_kube_llm_server.Bench.Suites.{
  Args, load_model, batch_trial, give_up_batch, caught, batch_loop, batch_sizes, bench_batch,
}
use nano_kube_llm_server.Bench.Triples.{
  Ends, Triple, bind-Triple, pure-Triple, change-Triple, attempt-Triple, call-Triple_returned,
  weaker-Triple, measure-Triple, peak_gb-Triple, weaker-Ends,
}
use nano_kube_llm_server.Bench.Marks.{
  FreeReturns, Mark, shown, ran_out, marks, rest_marks, Shown, noted-Shown, silent-Shown,
  Shown-IsSteady, build_enc-Shown, free-Shown,
}

module _ {rig : Rig} (quiet : FreeReturns rig) where
  -- The row is printed last: a trial that raises has printed nothing.
  batch_trial-Shown :
      (args : Args) (model : rig.Model) (base : Option rig.Number) (bs : ℤ) (ms : List Mark)
      → Triple
          (Shown ms)
          (batch_trial rig args model base bs)
          (Shown (ms ++ shown bs ∷ []))
          (Shown ms)
          (Shown ms)
  unfolding batch_trial
  batch_trial-Shown args model base bs ms =
      let ms' = ms ++ shown bs ∷ [] in
      bind-Triple (build_enc-Shown ms _ _) λ enc.
        bind-Triple (measure-Triple (Shown-IsSteady ms) model enc _ _) λ (ttft, dec, total).
          bind-Triple (peak_gb-Triple (Shown-IsSteady ms)) λ peak.
            bind-Triple (attempt-Triple _) λ ratio.
              bind-Triple (change-Triple {R = Shown ms'} _ λ d e. noted-Shown _ ms d e) λ _.
                bind-Triple (change-Triple {R = Shown ms'} _ λ d e. e)
                  λ _. bind-Triple (free-Shown quiet ms') λ _. pure-Triple _

  give_up_batch-Shown :
      {O F : Desk rig → Type 0} (bs : ℤ) (ms : List Mark)
      → Triple (Shown ms) (give_up_batch rig bs) (Shown (ms ++ ran_out bs ∷ [])) O F
  unfolding give_up_batch
  give_up_batch-Shown bs ms =
      let ms' = ms ++ ran_out bs ∷ [] in
      bind-Triple (change-Triple {R = Shown ms} _ λ d e. e) λ _.
        bind-Triple (change-Triple {R = Shown ms'} _ λ d e. noted-Shown _ ms d e) λ _.
          bind-Triple (change-Triple {R = Shown ms'} _ λ d e. e)
            λ _. bind-Triple (free-Shown quiet ms') λ _. change-Triple _ λ d e. e

  -- A row for each of the sizes that were reached, and "OOM" for the next one if there is one.
  abbrev pub Finished : List Mark → List ℤ → Desk rig → Type 0
  Finished ms sizes d =
      (reached : List ℤ) × (rest : List ℤ) × (sizes ≡ reached ++ rest)
      × Shown (ms ++ (map shown reached ++ rest_marks rest)) d

  -- A row for each of the sizes that were reached.
  abbrev pub Broken : List Mark → List ℤ → Desk rig → Type 0
  Broken ms sizes d =
      (reached : List ℤ) × (rest : List ℤ) × (sizes ≡ reached ++ rest)
      × Shown (ms ++ map shown reached) d

  longer-Finished :
      (ms : List Mark) (bs : ℤ) (sizes : List ℤ) (d : Desk rig)
      → Finished (ms ++ shown bs ∷ []) sizes d
      → Finished ms (bs ∷ sizes) d
  longer-Finished ms bs sizes d (reached, rest, e, s) =
      (bs ∷ reached, rest, ap (◌∷◌ bs) e, s ∙ append_assoc ms (shown bs ∷ []) _)

  longer-Broken :
      (ms : List Mark) (bs : ℤ) (sizes : List ℤ) (d : Desk rig)
      → Broken (ms ++ shown bs ∷ []) sizes d
      → Broken ms (bs ∷ sizes) d
  longer-Broken ms bs sizes d (reached, rest, e, s) =
      (bs ∷ reached, rest, ap (◌∷◌ bs) e, s ∙ append_assoc ms (shown bs ∷ []) _)

  nothing-Broken : (ms : List Mark) (sizes : List ℤ) (d : Desk rig) → Shown ms d → Broken ms sizes d
  nothing-Broken ms sizes d s = ([], sizes, refl, s ∙ sym (append-nil ms))

  caught-Shown :
      (ms : List Mark) (bs : ℤ) (sizes : List ℤ) (next : rig.Number → Run rig (Unit {0}))
      (x : Attempt rig.Number × Desk rig)
      → Ends (Shown (ms ++ shown bs ∷ [])) (Shown ms) (Shown ms) x
      → ((total : rig.Number)
          → Triple
              (Shown (ms ++ shown bs ∷ []))
              (next total)
              (Finished (ms ++ shown bs ∷ []) sizes)
              (λ d. ⊥)
              (Broken (ms ++ shown bs ∷ []) sizes))
      → Ends
          (Finished ms (bs ∷ sizes))
          (λ d. ⊥)
          (Broken ms (bs ∷ sizes))
          (caught rig next (give_up_batch rig bs) x)
  caught-Shown ms bs sizes next (returned total, d) h t =
      weaker-Ends {O = λ d. ⊥} (next total d) (longer-Finished ms bs sizes) (λ d o. o)
        (longer-Broken ms bs sizes) ((t total).ends d h)
  caught-Shown ms bs sizes next (out_of_memory, d) h t =
      weaker-Ends (give_up_batch rig bs d) (λ d s. ([], bs ∷ sizes, refl, s)) (λ d o. o) (λ d f. f)
        ((give_up_batch-Shown {O = λ d. ⊥} {F = Broken ms (bs ∷ sizes)} bs ms).ends d h)
  caught-Shown ms bs sizes next (failed, d) h t = nothing-Broken ms (bs ∷ sizes) d h

  batch_loop-Shown :
      (args : Args) (model : rig.Model) (base : Option rig.Number) (sizes : List ℤ) (ms : List Mark)
      → Triple
          (Shown ms)
          (batch_loop rig args model base sizes)
          (Finished ms sizes)
          (λ d. ⊥)
          (Broken ms sizes)
  unfolding batch_loop pure
  batch_loop-Shown args model base [] ms = record {
    ends = λ d s. ([], [], refl, s ∙ sym (append-nil ms));
  }
  batch_loop-Shown args model base (bs ∷ sizes) ms = record {
    ends = λ d s.
        caught-Shown ms bs sizes _ (batch_trial rig args model base bs d)
          ((batch_trial-Shown args model base bs ms).ends d s)
          (λ total. batch_loop-Shown args model (some total) sizes (ms ++ shown bs ∷ []));
  }

  -- The load ran out of memory, in the world as it was.
  abbrev pub Unloaded : List Mark → rig.World → Desk rig → Type 0
  Unloaded ms w d = Shown ms d × ((rig.from_pretrained bfloat16 sdpa w).0 ≡ out_of_memory)

  loaded-Ends :
      (ms : List Mark) (w : rig.World) (x : Attempt rig.Model) (d : Desk rig)
      → (rig.from_pretrained bfloat16 sdpa w).0 ≡ x
      → Shown ms d
      → Ends (Shown ms) (Unloaded ms w) (Broken ms batch_sizes) (x, d)
  loaded-Ends ms w (returned model) d e s = s
  loaded-Ends ms w out_of_memory d e s = (s, e)
  loaded-Ends ms w failed d e s = nothing-Broken ms batch_sizes d s

  abbrev At : List Mark → rig.World → Desk rig → Type 0
  At ms w d = Shown ms d × (d.world ≡ w)

  call_load-Shown :
      (ms : List Mark) (w : rig.World)
      → Triple
          (At ms w)
          (call (rig.from_pretrained bfloat16 sdpa))
          (Shown ms)
          (Unloaded ms w)
          (Broken ms batch_sizes)
  unfolding call
  call_load-Shown ms w = record {
    ends = λ d (s, e).
        loaded-Ends ms w (rig.from_pretrained bfloat16 sdpa d.world).0 _
          (ap (λ w. (rig.from_pretrained bfloat16 sdpa w).0) (sym e)) s;
  }

  load_model-Shown :
      (ms : List Mark) (w : rig.World)
      → Triple
          (At ms w)
          (load_model rig bfloat16 sdpa)
          (Shown ms)
          (Unloaded ms w)
          (Broken ms batch_sizes)
  unfolding load
  load_model-Shown ms w =
      bind-Triple
        (bind-Triple
          (change-Triple {R = At ms w} _
            λ d (s, e). (silent-Shown (loads bfloat16 sdpa) ms d refl s, e))
          λ _. call_load-Shown ms w)
        λ model. bind-Triple (change-Triple {R = Shown ms} _ λ d s. s) λ _. pure-Triple model

  free-Finished :
      {O F : Desk rig → Type 0} (ms : List Mark) (sizes : List ℤ)
      → Triple (Finished ms sizes) (free rig) (Finished ms sizes) O F
  unfolding free
  free-Finished ms sizes =
      bind-Triple
        (change-Triple {R = Finished ms sizes} _
          λ d (reached, rest, e, s). (reached, rest, e, silent-Shown collects _ d refl s))
        λ _. bind-Triple (call-Triple_returned _ quiet.gc_returns λ d w h. h) λ _.
          bind-Triple (call-Triple_returned _ quiet.empty_returns λ d w h. h)
            λ _. call-Triple_returned _ quiet.reset_returns λ d w h. h

  bench_batch-Shown :
      (args : Args) (ms : List Mark) (w : rig.World)
      → Triple
          (At ms w)
          (bench_batch rig args)
          (Finished ms batch_sizes)
          (Unloaded ms w)
          (Broken ms batch_sizes)
  unfolding bench_batch
  bench_batch-Shown args ms w =
      bind-Triple {Q = At ms w}
        (change-Triple _ λ d (s, e). (silent-Shown (prints (header batch_title)) ms d refl s, e))
        λ _. bind-Triple (load_model-Shown ms w) λ model.
          bind-Triple
            (weaker-Triple (batch_loop-Shown args model none batch_sizes ms) (λ d o. absurd o)
              (λ d f. f))
            λ _.
              bind-Triple (change-Triple {R = Finished ms batch_sizes} _ λ d h. h)
                λ _. free-Finished ms batch_sizes

  -- If none of the calls of `free` raises, whatever else torch does: if bench_batch returns, it printed a row for each of some first sizes, and then
  -- "OOM" for the next size if there is one; it runs out of memory only when the load of the model does
  -- so, and then has printed neither; and if it fails otherwise it printed a row for each of some first
  -- sizes.
  pub bench_batch-Ends :
      (args : Args) (d : Desk rig)
      → Ends
          (Finished (marks d.log) batch_sizes)
          (Unloaded (marks d.log) d.world)
          (Broken (marks d.log) batch_sizes)
          (bench_batch rig args d)
  bench_batch-Ends args d = (bench_batch-Shown args (marks d.log) d.world).ends d (refl, refl)
