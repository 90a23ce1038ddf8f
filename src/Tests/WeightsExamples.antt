-- ===== src/Tests/WeightsExamples.antt =====
-- Loading a runner on a machine without a GPU.
use nano_kube_llm_server.Prelude.{◌≡◌, refl, false, true, [], none, some, text_of, starts_with}
use nano_kube_llm_server.Runners.Interface.{Text}
use nano_kube_llm_server.Runners.Qwen.{Attempt, returned, failed}
use nano_kube_llm_server.Runners.Weights.{
  Dtype, bfloat16, float32, pick_dtype, device_or, Hub, default_device, load_qwen, Loaded, new_qwen,
  load_qwen_runner,
}
use nano_kube_llm_server.Runners.Weights.Fresh.{IsFresh, load_qwen_runner-IsFresh}
use nano_kube_llm_server.Tests.QwenExamples.{successor}

-- Half precision does not load here; the weights are what was asked for.
abbrev weights_of : Dtype → Text → Attempt (Dtype × Text)
weights_of bfloat16 device = failed
weights_of float32 device = returned (float32, device)

abbrev laptop : Hub
laptop = record {
  Weights = Dtype × Text;
  Tokenizer = Text;
  cuda_is_available = false;
  tokenizer_from = λ id. returned id;
  weights_from = λ id dtype device. weights_of dtype device;
  eval = λ w. w;
  backend = λ w t. successor;
  generator = λ w t. 0;
}

abbrev name : Text
name = text_of "Qwen/Qwen3-0.6B"

-- What loading computes with.
loading : Unit {0}
unfolding pick_dtype device_or default_device load_qwen new_qwen load_qwen_runner starts_with
loading = tt

second_gpu : pick_dtype (text_of "cuda:1") ≡ bfloat16
unfolding loading
second_gpu = refl

on_gpu : load_qwen laptop name (some (text_of "cuda")) ≡ failed
unfolding loading
on_gpu = refl

on_cpu : load_qwen laptop name (some []) ≡ returned ((float32, text_of "cpu"), name)
unfolding loading
on_cpu = refl

abbrev fresh : Loaded laptop
fresh = (successor, record { enable_thinking = true; cache = none; rng = 0 })

fresh-loaded : load_qwen_runner laptop name true ≡ returned fresh
unfolding loading
fresh-loaded = refl

load_qwen_runner-IsFresh_example : IsFresh laptop name true fresh
load_qwen_runner-IsFresh_example = load_qwen_runner-IsFresh laptop name true fresh fresh-loaded
