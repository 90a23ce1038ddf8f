-- ===== src/Runners/Weights.antt =====
-- model_server/qwen.py, and load_qwen_runner of model_server/runners.py. Torch and transformers are a
-- record of operations; a download or a load of weights may raise.
pub mod Fresh
use nano_kube_llm_server.Prelude.{
  ◌≡◌, refl, inl, inr, Bool, true, false, if◌then◌else◌, List, [], ◌∷◌, Option, none, some, text_of,
  starts_with, Bool-cases,
}
use nano_kube_llm_server.Runners.Interface.{Text}
use nano_kube_llm_server.Runners.Qwen.{
  Attempt, returned, out_of_memory, failed, ◌>>=◌, Backend, Qwen,
}

-- `torch.bfloat16` and `torch.float32`.
pub data Dtype : Type 0 where
  bfloat16 float32 : Dtype

unfoldable pub pick_dtype : Text → Dtype
unfolding starts_with
pick_dtype device = if starts_with device (text_of "cuda") then bfloat16 else float32

-- `device or default`.
unfoldable pub device_or : Option Text → Text → Text
device_or none default = default
device_or (some []) default = default
device_or (some (c ∷ cs)) default = c ∷ cs

pub record Hub : Type 1 where
  -- A loaded model, and a tokenizer.
  pub Weights : Type 0
  pub Tokenizer : Type 0
  -- `torch.cuda.is_available()`.
  pub cuda_is_available : Bool
  -- `AutoTokenizer.from_pretrained(id)`.
  pub tokenizer_from : Text → Attempt Tokenizer
  -- `AutoModelForCausalLM.from_pretrained(id, dtype, device_map)`, and `model.eval()`.
  pub weights_from : Text → Dtype → Text → Attempt Weights
  pub eval : Weights → Weights
  -- The operations of a runner with this model and tokenizer, and torch's generator.
  pub backend : Weights → Tokenizer → Backend
  pub generator : (w : Weights) (t : Tokenizer) → Backend.Rng (backend w t)

module _ (hub : Hub) where
  open hub use {
    Weights, Tokenizer, cuda_is_available, tokenizer_from, weights_from, eval, backend, generator,
  }

  -- The device that is used if none is given.
  unfoldable pub default_device : Text
  default_device = if cuda_is_available then text_of "cuda" else text_of "cpu"

  unfoldable pub load_qwen : Text → Option Text → Attempt (Weights × Tokenizer)
  unfolding pick_dtype device_or default_device
  load_qwen model_id device =
      let chosen = device_or device default_device in
      do
        tokenizer ← tokenizer_from model_id
        model ← weights_from model_id (pick_dtype chosen) chosen
        returned (eval model, tokenizer)

  -- A runner, with the operations that it runs on.
  abbrev pub Loaded : Type 1
  Loaded = (b : Backend) × Qwen b

  unfoldable pub new_qwen : Weights → Tokenizer → Bool → Loaded
  new_qwen model tokenizer enable_thinking = (
    backend model tokenizer,
    record { enable_thinking = enable_thinking; cache = none; rng = generator model tokenizer },
  )

  unfoldable pub load_qwen_runner : Text → Bool → Attempt Loaded
  unfolding load_qwen new_qwen
  load_qwen_runner model_id enable_thinking = do
    (model, tokenizer) ← load_qwen model_id none
    returned (new_qwen model tokenizer enable_thinking)
