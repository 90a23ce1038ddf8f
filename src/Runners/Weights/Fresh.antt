-- ===== src/Runners/Weights/Fresh.antt =====
-- What load_qwen_runner returns.
use nano_kube_llm_server.Prelude.{
  ◌≡◌, refl, sym, ◌∙◌, subst, inl, inr, Bool, if◌then◌else◌, none, text_of, starts_with, Bool-cases,
}
use nano_kube_llm_server.Runners.Interface.{Text}
use nano_kube_llm_server.Runners.Qwen.{Attempt, returned, out_of_memory, failed}
use nano_kube_llm_server.Runners.Weights.{
  bfloat16, float32, pick_dtype, device_or, Hub, default_device, load_qwen, Loaded, new_qwen,
  load_qwen_runner,
}

module _ (hub : Hub) where
  open hub use {Weights, Tokenizer, cuda_is_available, tokenizer_from, weights_from, eval}

  -- The weights are in bfloat16 on "cuda" if there is a GPU, else in float32 on "cpu"; the runner has
  -- nothing cached and thinks as it was asked to.
  pub record IsFresh (model_id : Text) (enable_thinking : Bool) (loaded : Loaded hub) : Type 1 where
    pub tokenizer : Tokenizer
    pub weights : Weights
    pub tokenizer_loaded : tokenizer_from model_id ≡ returned tokenizer
    pub weights_loaded :
        (if cuda_is_available
          then weights_from model_id bfloat16 (text_of "cuda")
          else weights_from model_id float32 (text_of "cpu"))
        ≡ returned weights
    pub runs : loaded.0 ≡ hub.backend (eval weights) tokenizer
    pub empty : loaded.1.cache ≡ none
    pub thinks : loaded.1.enable_thinking ≡ enable_thinking

  -- The call that loads the weights.
  weights_call :
      (model_id : Text)
      → weights_from model_id (pick_dtype (default_device hub)) (default_device hub) ≡ (
          if cuda_is_available
          then weights_from model_id bfloat16 (text_of "cuda")
          else weights_from model_id float32 (text_of "cpu"))
  unfolding default_device pick_dtype starts_with
  weights_call model_id = elim (Bool-cases cuda_is_available) [
    | inl gpu ↦ rw gpu refl
    | inr none_there ↦ rw none_there refl
  ]

  loaded-IsFresh :
      (model_id : Text) (enable_thinking : Bool) (loaded : Loaded hub) (tokenizer : Tokenizer)
      (weights : Weights)
      → tokenizer_from model_id ≡ returned tokenizer
      → weights_from model_id (pick_dtype (default_device hub)) (default_device hub)
        ≡ returned weights
      → new_qwen hub (eval weights) tokenizer enable_thinking ≡ loaded
      → IsFresh model_id enable_thinking loaded
  unfolding new_qwen
  loaded-IsFresh model_id enable_thinking loaded tokenizer weights t w e =
      subst (IsFresh model_id enable_thinking) e (record {
        tokenizer = tokenizer;
        weights = weights;
        tokenizer_loaded = t;
        weights_loaded = sym (weights_call model_id) ∙ w;
        runs = refl;
        empty = refl;
        thinks = refl;
      })

  -- If load_qwen_runner returns, the tokenizer and the weights were loaded, the weights in bfloat16 on
  -- "cuda" if there is a GPU and else in float32 on "cpu", and the runner runs on them, has nothing
  -- cached, and thinks as it was asked to.
  pub load_qwen_runner-IsFresh :
      (model_id : Text) (enable_thinking : Bool) (loaded : Loaded hub)
      → load_qwen_runner hub model_id enable_thinking ≡ returned loaded
      → IsFresh model_id enable_thinking loaded
  unfolding load_qwen_runner load_qwen device_or
  load_qwen_runner-IsFresh model_id enable_thinking loaded =
      go (tokenizer_from model_id)
        (weights_from model_id (pick_dtype (default_device hub)) (default_device hub)) refl refl
    where
      go :
          (t : Attempt Tokenizer) (w : Attempt Weights)
          → tokenizer_from model_id ≡ t
          → weights_from model_id (pick_dtype (default_device hub)) (default_device hub) ≡ w
          → load_qwen_runner hub model_id enable_thinking ≡ returned loaded
          → IsFresh model_id enable_thinking loaded
      go (returned t) (returned w) e f =
          rw (e, f)
            (λ ok.
              let made : new_qwen hub (eval w) t enable_thinking ≡ loaded = cc in
              loaded-IsFresh model_id enable_thinking loaded t w e f made)
      go (returned t) out_of_memory e f = rw (e, f) (λ g. cc)
      go (returned t) failed e f = rw (e, f) (λ g. cc)
      go out_of_memory w e f = rw e (λ g. cc)
      go failed w e f = rw e (λ g. cc)
