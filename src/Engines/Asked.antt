-- ===== src/Engines/Asked.antt =====
-- What a request asks for, from its submission on.
use nano_kube_llm_server.Prelude.{◌≡◌, refl, ap, ◌∙◌, inl, inr, Bool-cases, [], none}
use nano_kube_llm_server.Batching.Sequences.{
  Sequence, Params, new_sequence, emit, error, is_finished,
}
use nano_kube_llm_server.Batching.Scheduler.{State, fail_one, finish}
use nano_kube_llm_server.Batching.Scheduler.Tokens.{record_token-core}
use nano_kube_llm_server.Batching.RunLoop.Requests.{submit-cases}
use nano_kube_llm_server.Batching.Sequences.Heaps.{Core, core, emit-core, deliver-core}
use nano_kube_llm_server.Batching.RunLoop.{submit}
use nano_kube_llm_server.Batching.RunLoop.Outputs.{IsKept}

-- What a request asked for: all but its output.
abbrev pub asked : Sequence → Core
asked s = record (core s) { output_ids = [] }

pub asked-IsKept : (c : Core) → IsKept (λ s. asked s ≡ c)
unfolding fail_one
asked-IsKept c = record {
  aborts = λ reason s some_reason e. ap forget (emit-core (finish reason s) none) ∙ e;
  records = λ token s e. ap forget (record_token-core s token) ∙ e;
  fails = λ s e. elim (Bool-cases (is_finished s)) [
    | inl over ↦ rw over (ap forget (emit-core s none) ∙ e)
    | inr going ↦ rw going (ap forget (emit-core (finish error s) none) ∙ e)
  ];
  delivers = λ s e. ap forget (deliver-core s).0 ∙ e;
}
  where
    forget : Core → Core
    forget c = record c { output_ids = [] }

-- What a submission asks for.
abbrev pub asked_of : Params → Core
asked_of p = record {
  prompt_ids = p.prompt_ids;
  output_ids = [];
  max_new_tokens = p.max_new_tokens;
  temperature = p.temperature;
  top_k = p.top_k;
  eos_token_ids = p.eos_token_ids;
}

pub submit-asked : (st : State) (p : Params) → asked ((submit st p).heap st.next_id) ≡ asked_of p
unfolding new_sequence emit
submit-asked st p = elim (submit-cases st p) [
  | inl waits ↦ rw waits refl
  | inr (nothing, over) ↦ rw over refl
]
