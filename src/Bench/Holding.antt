-- ===== src/Bench/Holding.antt =====
-- What the names of a benchmark are bound to when it loads, builds, generates and collects.
use nano_kube_llm_server.Prelude.{ℤ, ◌≡◌, refl, Bool, true, false, All, All-append}
use nano_kube_llm_server.Runners.Qwen.{Attempt}
use nano_kube_llm_server.Bench.{
  Precision, Attention, Options, Rig, Act, loads, builds, generates, prints, collects, Line, Desk,
  attempt, is_bound, noted, free,
}
use nano_kube_llm_server.Bench.Measure.{load, make_batch, measure, print, peak_gb, clock}
use nano_kube_llm_server.Bench.Suites.{load_model, build_enc, clear}
use nano_kube_llm_server.Bench.Triples.{
  Triple, bind-Triple, pure-Triple, change-Triple, attempt-Triple, call-Triple, weaker-Triple,
  IsSteady, measure-Triple, peak_gb-Triple,
}

-- A model is loaded while neither name is bound, a batch is built while `model` alone is bound, both are
-- bound in a call of `generate`, and no exception is being handled then; memory is collected while
-- `enc` is not bound.
abbrev pub Allowed : {N : Type 0} → Act N → (model_bound enc_bound handling : Bool) → Type 0
Allowed (loads precision attention) m e h = (m ≡ false) × (e ≡ false) × (h ≡ false)
Allowed (builds batch_size prompt_tokens) m e h = (m ≡ true) × (e ≡ false) × (h ≡ false)
Allowed (generates g) m e h = (m ≡ true) × (e ≡ true) × (h ≡ false)
Allowed (prints line) m e h = Unit
Allowed collects m e h = e ≡ false

module _ {rig : Rig} where
  abbrev pub Frugal : Desk rig → Type 0
  Frugal d = All (λ x. Allowed x.act x.model_bound x.enc_bound x.handling) d.log

  -- So far it was frugal, whether the names are bound, and whether an exception is being handled.
  abbrev pub Held : Bool → Bool → Bool → Desk rig → Type 0
  Held h m e d = Frugal d × (is_bound d.model ≡ m) × (is_bound d.enc ≡ e) × (d.handling ≡ h)

  abbrev pub Holds : Bool → Bool → Desk rig → Type 0
  Holds m e = Held false m e

  -- So far it was frugal, the model is bound, and whether an exception is being handled.
  abbrev pub WithModel : Bool → Desk rig → Type 0
  WithModel h d = Frugal d × (is_bound d.model ≡ true) × (d.handling ≡ h)

  pub noted-Frugal :
      (act : Act rig.Number) (d : Desk rig)
      → Frugal d
      → Allowed act (is_bound d.model) (is_bound d.enc) d.handling
      → Frugal (noted rig act d)
  noted-Frugal act d f allowed = All-append _ d.log _ f (allowed, tt)

  pub measuring-IsSteady : IsSteady (Holds true true)
  measuring-IsSteady = record {
    inner = λ d w h. h;
    generating = λ d g (f, m, e, h). (noted-Frugal (generates g) d f (m, e, h), m, e, h);
  }

  pub print-Triple :
      {m e : Bool} {O F : Desk rig → Type 0} (line : Line rig.Number)
      → Triple (Holds m e) (print rig line) (Holds m e) O F
  print-Triple line = change-Triple _ λ d (f, m, e, h). (noted-Frugal (prints line) d f tt, m, e, h)

  -- Wherever `free` raises, it has bound nothing.
  pub free-Triple :
      {h m : Bool}
      → Triple (Held h m false) (free rig) (Held h m false) (Held h m false) (Held h m false)
  unfolding free
  free-Triple {h = h} {m = m} =
      bind-Triple
        (change-Triple {R = Held h m false} _
          λ d (f, m, e, h). (noted-Frugal collects d f e, m, e, h))
        λ _.
          bind-Triple (call-Triple _ λ d w v. v)
            λ _. bind-Triple (call-Triple _ λ d w v. v) λ _. call-Triple _ λ d w v. v

  pub clear-Triple : {m e : Bool} → Triple (Holds m e) (clear rig) (Holds false false) Frugal Frugal
  clear-Triple {e = e} =
      bind-Triple (change-Triple {R = Holds false e} _ λ d (f, m, e, h). (f, refl, e, h)) λ _.
        bind-Triple (change-Triple {R = Holds false false} _ λ d (f, m, e, h). (f, m, refl, h))
          λ _. weaker-Triple free-Triple (λ d v. v.0) (λ d v. v.0)

  pub load_model-Triple :
      (precision : Precision) (attention : Attention)
      → Triple
          (Holds false false)
          (load_model rig precision attention)
          (Holds true false)
          Frugal
          Frugal
  unfolding load
  load_model-Triple precision attention =
      bind-Triple
        (bind-Triple
          (change-Triple {R = Holds false false} _
            λ d (f, m, e, h). (noted-Frugal (loads precision attention) d f (m, e, h), m, e, h))
          λ _. weaker-Triple (call-Triple _ λ d w h. h) (λ d h. h.0) (λ d h. h.0))
        λ model.
          bind-Triple (change-Triple _ λ d (f, m, e, h). (f, refl, e, h)) λ _. pure-Triple model

  pub build_enc-Triple :
      (batch_size prompt_tokens : ℤ)
      → Triple
          (Holds true false)
          (build_enc rig batch_size prompt_tokens)
          (Holds true true)
          (WithModel false)
          (WithModel false)
  unfolding make_batch
  build_enc-Triple batch_size prompt_tokens =
      bind-Triple
        (bind-Triple
          (change-Triple {R = Holds true false} _ λ d (f, m, e, h).
            (noted-Frugal (builds batch_size prompt_tokens) d f (m, e, h), m, e, h))
          λ _.
            weaker-Triple (call-Triple _ λ d w h. h) (λ d (f, m, e, h). (f, m, h))
              (λ d (f, m, e, h). (f, m, h)))
        λ enc. bind-Triple (change-Triple _ λ d (f, m, e, h). (f, m, refl, h)) λ _. pure-Triple enc

  pub built-Triple :
      (batch_size prompt_tokens : ℤ)
      → Triple
          (Holds true false)
          (build_enc rig batch_size prompt_tokens)
          (Holds true true)
          Frugal
          Frugal
  built-Triple batch_size prompt_tokens =
      weaker-Triple (build_enc-Triple batch_size prompt_tokens) (λ d h. h.0) (λ d h. h.0)

  pub measured-Triple :
      (model : rig.Model) (enc : rig.Batch) (new_tokens : ℤ) (options : Options)
      → Triple
          (Holds true true)
          (measure rig model enc new_tokens options)
          (Holds true true)
          Frugal
          Frugal
  measured-Triple model enc new_tokens options =
      weaker-Triple (measure-Triple measuring-IsSteady model enc new_tokens options) (λ d h. h.0)
        (λ d h. h.0)

  pub peaked-Triple : Triple (Holds true true) (peak_gb rig) (Holds true true) Frugal Frugal
  peaked-Triple = weaker-Triple (peak_gb-Triple measuring-IsSteady) (λ d h. h.0) (λ d h. h.0)

  pub divided-Triple :
      (x : Attempt rig.Number)
      → Triple (Holds true true) (attempt x) (Holds true true) Frugal Frugal
  divided-Triple x = weaker-Triple (attempt-Triple x) (λ d h. h.0) (λ d h. h.0)

  pub clocked-Triple : Triple (Holds true true) (clock rig) (Holds true true) Frugal Frugal
  clocked-Triple = weaker-Triple (call-Triple _ λ d w h. h) (λ d h. h.0) (λ d h. h.0)
