-- ===== src/Gateway/Wire/Gauges.antt =====
-- A reader of /metrics.
use nano_kube_llm_server.Prelude.{
  ℕ, ◌≡◌, refl, sym, ap, ap₂, ◌∙◌, false, ◌==◌, if◌then◌else◌, List, [], ◌∷◌, ◌++◌, elem, text_of,
  starts_with, IsLine, append-IsLine, str_ℕ, str_ℕ-IsLine, last_number, last_number-str_ℕ,
  last_number-append, append_assoc, append-nil, arith,
}
use nano_kube_llm_server.Runners.Interface.{Text}
use nano_kube_llm_server.Gateway.Wire.{gauge_text, metrics_text}
use nano_kube_llm_server.Gateway.Wire.Events.{lines, lines-line, concat_from-IsLine}

-- A metric's name: what stands before its labels.
unfoldable pub metric_name : Text → Text
metric_name [] = []
metric_name (c ∷ cs) = let rest = metric_name cs in if c == 123 then [] else c ∷ rest

metric_name-append :
    (metric rest : Text) → elem 123 metric ≡ false → metric_name (metric ++ 123 ∷ rest) ≡ metric
unfolding metric_name elem
metric_name-append [] rest e = refl
metric_name-append (c ∷ cs) rest e = ground (arith, metric_name-append cs rest)

-- The metrics and their values, in the lines that are not comments.
unfoldable pub samples : List Text → List (Text × ℕ)
samples [] = []
samples (l ∷ ls) =
    let rest = samples ls in
    if starts_with l (text_of "#") then rest else (metric_name l, last_number 0 l) ∷ rest

-- A gauge is three lines.
gauge-lines :
    (metric help name : Text) (value : ℕ) (rest : Text)
    → gauge_text metric help name value ++ rest
      ≡ (text_of "# HELP " ++ metric ++ text_of " " ++ help)
        ++ 10
          ∷ ((text_of "# TYPE " ++ metric ++ text_of " gauge")
              ++ 10
                ∷ ((metric ++ text_of "{model_name=\"" ++ name ++ text_of "\"} " ++ str_ℕ value)
                    ++ 10 ∷ rest))
unfolding gauge_text
gauge-lines metric help name value rest = simp append_assoc

-- The metric's name begins with a character other than the one that begins a comment.
module _ (first : ℕ) (metric help name : Text) (other : (first == 35) ≡ false)
    (unbraced : elem 123 (first ∷ metric) ≡ false) (plain : IsLine (first ∷ metric))
    (helped : IsLine help) (named : IsLine name) where
  abbrev sample_front : Text
  sample_front = (first ∷ metric) ++ text_of "{model_name=\"" ++ name ++ text_of "\"} "

  front-IsLine : IsLine sample_front
  unfolding elem
  front-IsLine =
      concat_from-IsLine (first ∷ metric) (text_of "{model_name=\"" ∷ name ∷ text_of "\"} " ∷ [])
        plain (refl, (named, (refl, tt)))

  sample-value : (value : ℕ) → last_number 0 (sample_front ++ str_ℕ value) ≡ value
  unfolding last_number
  sample-value value =
      let named_part = (first ∷ metric) ++ text_of "{model_name=\"" ++ name in
      last_number-append 0 sample_front (str_ℕ value)
      ∙ ap (λ n. last_number n (str_ℕ value)) (last_number-append 0 named_part (text_of "\"} "))
      ∙ last_number-str_ℕ value

  sample-name : (value : ℕ) → metric_name (sample_front ++ str_ℕ value) ≡ first ∷ metric
  sample-name value =
      let labels = text_of "model_name=\"" ++ name ++ text_of "\"} " ++ str_ℕ value in
      let e : sample_front ++ str_ℕ value ≡ (first ∷ metric) ++ 123 ∷ labels = simp append_assoc in
      ap metric_name e ∙ metric_name-append (first ∷ metric) labels unbraced

  gauge-samples :
      (value : ℕ) (rest : Text)
      → samples (lines (gauge_text (first ∷ metric) help name value ++ rest))
        ≡ (first ∷ metric, value) ∷ samples (lines rest)
  unfolding samples starts_with elem
  gauge-samples value rest =
      let l₁ = text_of "# HELP " ++ (first ∷ metric) ++ text_of " " ++ help in
      let l₂ = text_of "# TYPE " ++ (first ∷ metric) ++ text_of " gauge" in
      let l₃ = sample_front ++ str_ℕ value in
      ap (λ t. samples (lines t)) (gauge-lines (first ∷ metric) help name value rest)
      ∙ ap samples (
          lines-line l₁ (l₂ ++ 10 ∷ (l₃ ++ 10 ∷ rest)) (
            concat_from-IsLine (text_of "# HELP ") ((first ∷ metric) ∷ text_of " " ∷ help ∷ []) refl
              (plain, (refl, (helped, tt)))))
      ∙ ap samples (
          lines-line l₂ (l₃ ++ 10 ∷ rest) (
            concat_from-IsLine (text_of "# TYPE ") ((first ∷ metric) ∷ text_of " gauge" ∷ []) refl
              (plain, (refl, tt))))
      ∙ ap samples (
          lines-line l₃ rest
            (append-IsLine sample_front (str_ℕ value) front-IsLine (str_ℕ-IsLine value)))
      ∙ rw other
          (ap₂ (λ m n. (m, n) ∷ samples (lines rest)) (sample-name value) (sample-value value))

  gauge-last :
      (value : ℕ)
      → samples (lines (gauge_text (first ∷ metric) help name value)) ≡ (first ∷ metric, value) ∷ []
  unfolding samples lines
  gauge-last value =
      ap (λ t. samples (lines t)) (sym (append-nil (gauge_text (first ∷ metric) help name value)))
      ∙ gauge-samples value []

-- For a model's name without a line break: a reader of /metrics that skips the comments gets two
-- metrics: vllm:num_requests_running with the number of running requests, and
-- vllm:num_requests_waiting with the number of waiting ones.
pub metrics-read :
    (name : Text) (running waiting : ℕ)
    → IsLine name
    → samples (lines (metrics_text name running waiting))
      ≡ (text_of "vllm:num_requests_running", running)
        ∷ (text_of "vllm:num_requests_waiting", waiting)
        ∷ []
unfolding metrics_text elem
metrics-read name running waiting named =
    gauge-samples 118 (text_of "llm:num_requests_running")
      (text_of "Number of requests currently running on GPU.") name refl refl refl refl named
      running _
    ∙ ap (λ ns. (text_of "vllm:num_requests_running", running) ∷ ns)
        (gauge-last 118 (text_of "llm:num_requests_waiting")
          (text_of "Number of requests waiting to be processed.") name refl refl refl refl named
          waiting)
