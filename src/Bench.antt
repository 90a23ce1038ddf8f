-- ===== src/Bench.antt =====
-- model_server/bench.py: the benchmark harness. Torch, transformers, the clock and the arithmetic of
-- floats are a record of operations. The state of a benchmark is the outside world, what its local
-- names `model` and `enc` are bound to, whether an `except` clause runs, and a log of what it did. While
-- an `except` clause runs its exception is alive, and with it the frames of its traceback and all that
-- their names are bound to. A printed line is a value.
pub mod Measure
pub mod Suites
pub mod Triples
pub mod Holding
pub mod Frugal
pub mod Marks
pub mod Scaling
use nano_kube_llm_server.Prelude.{
  ℕ, ℤ, Bool, true, false, List, [], ◌∷◌, ◌++◌, Option, none, some, if◌then◌else◌,
}
use nano_kube_llm_server.Runners.Qwen.{Attempt, returned, out_of_memory, failed}

-- `torch.float32`, `torch.float16` and `torch.bfloat16`.
pub data Precision : Type 0 where
  float32 float16 bfloat16 : Precision

-- `attn_implementation`.
pub data Attention : Type 0 where
  eager sdpa : Attention

-- The keyword arguments that `measure` hands on to `generate`.
pub record Options : Type 0 where
  pub static_cache : Bool
  pub disable_compile : Bool
  pub reduce_overhead : Bool

-- The arguments of a call of `generate`, less the constant ones.
pub record Generation : Type 0 where
  pub min_new_tokens : ℤ
  pub max_new_tokens : ℤ
  pub options : Options

pub record Rig : Type 1 where
  -- All that is outside: the GPU, the allocator, the clock.
  pub World : Type 0
  pub Model : Type 0
  pub Batch : Type 0
  -- A Python float.
  pub Number : Type 0
  -- `AutoModelForCausalLM.from_pretrained(MODEL_ID, ...).eval()` on "cuda".
  pub from_pretrained : Precision → Attention → World → Attempt Model × World
  -- `tokenizer.encode("the")[0]`.
  pub token_of_the : ℕ
  -- `torch.full((batch_size, prompt_tokens), token, device="cuda")` with its `ones_like`.
  pub full : ℤ → ℤ → ℕ → World → Attempt Batch × World
  -- `enc["input_ids"].shape[0]`.
  pub batch_size_of : Batch → ℕ
  pub generate : Model → Batch → Generation → World → Attempt (Unit {0}) × World
  pub synchronize : World → Attempt (Unit {0}) × World
  pub perf_counter : World → Number × World
  pub max_memory_allocated : World → ℕ
  -- `gc.collect()`, `torch.cuda.empty_cache()` and `torch.cuda.reset_peak_memory_stats()`.
  pub gc_collect : World → Attempt (Unit {0}) × World
  pub empty_cache : World → Attempt (Unit {0}) × World
  pub reset_peak_memory_stats : World → Attempt (Unit {0}) × World
  -- `numel()` and `element_size()` of each of `model.parameters()`.
  pub parameters : Model → List (ℕ × ℕ)
  -- The float of an int, `+`, `-`, `*`, `/`, `<`, and whether a float is true. A division may raise.
  pub of_int : ℤ → Number
  pub plus : Number → Number → Number
  pub minus : Number → Number → Number
  pub times : Number → Number → Number
  pub divide : Number → Number → Attempt Number
  pub less : Number → Number → Bool
  pub is_true : Number → Bool

-- What is printed: a header, a row, "OOM", and a line of the report of `bench_roofline`.
pub data Title : Type 0 where
  dtype_title attn_long_title batch_title compile_title roofline_title : Title
  attn_title : ℤ → Title

pub data Label : Type 0 where
  of_precision : Precision → Label
  of_attention : Attention → Label
  of_batch : ℤ → Label
  dynamic_cache static_cache_alone static_cuda_graphs : Label

pub data Figure : Type 0 where
  weights_read spec_bandwidth theoretical_ceiling measured_rate bandwidth_utilisation : Figure

pub data Extra (N : Type 0) : Type 0 where
  no_extra : Extra N
  weights_gb times_base compile_seconds : N → Extra N

pub data Line (N : Type 0) : Type 0 where
  header : Title → Line N
  row : Label → (ttft rate peak : N) → Extra N → Line N
  oom : ℤ → Line N
  figure : Figure → N → Line N

pub data Act (N : Type 0) : Type 0 where
  loads : Precision → Attention → Act N
  builds : (batch_size prompt_tokens : ℤ) → Act N
  generates : Generation → Act N
  prints : Line N → Act N
  collects : Act N

-- An act, and whether `model` and `enc` were bound and an `except` clause ran when it was done.
pub record Entry (N : Type 0) : Type 0 where
  pub act : Act N
  pub model_bound : Bool
  pub enc_bound : Bool
  pub handling : Bool

pub record Desk (rig : Rig) : Type 0 where
  pub world : rig.World
  pub model : Option rig.Model
  pub enc : Option rig.Batch
  pub handling : Bool
  pub log : List (Entry rig.Number)

-- A run returns or raises, and changes the state either way.
abbrev pub Run : Rig → Type 0 → Type 0
Run rig A = Desk rig → Attempt A × Desk rig

module _ {rig : Rig} where
  abbrev pub after : {A B : Type 0} → (A → Run rig B) → Attempt A × Desk rig → Attempt B × Desk rig
  after f (returned a, d) = f a d
  after f (out_of_memory, d) = (out_of_memory, d)
  after f (failed, d) = (failed, d)

  infixl 5 ◌>>=◌ ◌>>◌
  unfoldable pub ◌>>=◌ : {A B : Type 0} → Run rig A → (A → Run rig B) → Run rig B
  ◌>>=◌ m f d = after f (m d)

  abbrev pub ◌>>◌ : {B : Type 0} → Run rig (Unit {0}) → Run rig B → Run rig B
  m >> k = m >>= λ _. k

  unfoldable pub pure : {A : Type 0} → A → Run rig A
  pure a d = (returned a, d)

  unfoldable pub change : (Desk rig → Desk rig) → Run rig (Unit {0})
  change f d = (returned tt, f d)

  -- A call of an operation of the outside world.
  unfoldable pub call : {A : Type 0} → (rig.World → Attempt A × rig.World) → Run rig A
  call f d = let (result, world) = f d.world in (result, record d { world = world })

  unfoldable pub attempt : {A : Type 0} → Attempt A → Run rig A
  attempt result d = (result, d)

abbrev pub is_bound : {A : Type 0} → Option A → Bool
is_bound none = false
is_bound (some a) = true

module _ (rig : Rig) where
  open rig use {Model, Batch, Number, gc_collect, empty_cache, reset_peak_memory_stats}

  abbrev pub noted : Act Number → Desk rig → Desk rig
  noted act d = record d {
    log =
        d.log
        ++ record {
          act = act;
          model_bound = is_bound d.model;
          enc_bound = is_bound d.enc;
          handling = d.handling;
        }
          ∷ [];
  }

  abbrev pub note : Act Number → Run rig (Unit {0})
  note act = change (noted act)

  abbrev pub bind_model : Option Model → Desk rig → Desk rig
  bind_model m d = record d { model = m }

  abbrev pub bind_enc : Option Batch → Desk rig → Desk rig
  bind_enc e d = record d { enc = e }

  abbrev pub handle : Bool → Desk rig → Desk rig
  handle clause d = record d { handling = clause }

  unfoldable pub free : Run rig (Unit {0})
  free = do note collects; call gc_collect; call empty_cache; call reset_peak_memory_stats
