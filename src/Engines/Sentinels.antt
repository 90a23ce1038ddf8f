-- ===== src/Engines/Sentinels.antt =====
-- When the sentinel is on the channel of a request.
use nano_kube_llm_server.Prelude.{
  ℕ, ◌≡◌, refl, sym, ap, ap₂, subst, ◌∙◌, inl, inr, Bool, true, false, ◌||◌, List, [], ◌∷◌, ◌++◌,
  Option, none, some, arith, Bool-cases,
}
use nano_kube_llm_server.Batching.Sequences.{
  Sequence, error, length_limit, is_set, is_finished, emit, stream, Params, new_sequence,
}
use nano_kube_llm_server.Batching.Sequences.Heaps.{IsDirect, emit-Emitted, deliver-core}
use nano_kube_llm_server.Batching.Scheduler.{State, record_token, fail_one, finish}
use nano_kube_llm_server.Batching.Scheduler.Tokens.{sentinel_if, record_token-Recorded}
use nano_kube_llm_server.Batching.Scheduler.WellFormed.Deliveries.{stream-deliver, deliver-IsDirect}
use nano_kube_llm_server.Batching.RunLoop.{submit}
use nano_kube_llm_server.Batching.RunLoop.Requests.{submit-cases}
use nano_kube_llm_server.Batching.RunLoop.Outputs.{IsKept, finished-IsKept}

abbrev pub has_sentinel : List (Option ℕ) → Bool
has_sentinel [] = false
has_sentinel (none ∷ q) = true
has_sentinel (some token ∷ q) = has_sentinel q

pub has_sentinel-append :
    (p q : List (Option ℕ)) → has_sentinel (p ++ q) ≡ (has_sentinel p || has_sentinel q)
has_sentinel-append [] q = refl
has_sentinel-append (none ∷ p) q = refl
has_sentinel-append (some token ∷ p) q = has_sentinel-append p q

or_true : (b : Bool) → (b || true) ≡ true
or_true b = ground arith

has_sentinel_if : (b : Bool) → has_sentinel (sentinel_if b) ≡ b
has_sentinel_if true = refl
has_sentinel_if false = refl

-- There is a sentinel to be read exactly if the request is finished.
pub record IsSignalled (s : Sequence) : Type 0 where
  pub direct : IsDirect s
  pub signalled : has_sentinel (stream s) ≡ is_finished s

-- Whatever is emitted with the sentinel ends the request.
ended-IsSignalled : (s : Sequence) → IsDirect s → is_finished s ≡ true → IsSignalled (emit s none)
ended-IsSignalled s direct ended =
    let e = emit-Emitted s none direct in
    record {
      direct = e.direct;
      signalled =
          ap has_sentinel e.channel
          ∙ has_sentinel-append (stream s) (none ∷ [])
          ∙ or_true (has_sentinel (stream s))
          ∙ sym (ap is_set e.finish_reason ∙ ended);
    }

or_later : (b c : Bool) → (b ≡ true → c ≡ true) → (b || c) ≡ c
or_later true c keep = sym (keep refl)
or_later false c keep = refl

record_token-IsSignalled :
    (token : ℕ) (s : Sequence) → IsSignalled s → IsSignalled (record_token s token)
record_token-IsSignalled token s v =
    let r = record_token-Recorded s token v.direct in
    record {
      direct = r.direct;
      signalled =
          ap has_sentinel r.channel
          ∙ has_sentinel-append (stream s)
              (some token ∷ sentinel_if (is_finished (record_token s token)))
          ∙ ap₂ ◌||◌ v.signalled (has_sentinel_if (is_finished (record_token s token)))
          ∙ or_later (is_finished s) (is_finished (record_token s token))
              (finished-IsKept.records token s);
    }

pub IsSignalled-IsKept : IsKept IsSignalled
unfolding fail_one
IsSignalled-IsKept = record {
  aborts = λ reason s some_reason v. ended-IsSignalled (finish reason s) v.direct some_reason;
  records = record_token-IsSignalled;
  fails = λ s v. elim (Bool-cases (is_finished s)) [
    | inl over ↦ rw over (ended-IsSignalled s v.direct over)
    | inr going ↦ rw going (ended-IsSignalled (finish error s) v.direct refl)
  ];
  delivers = λ s v. record {
    direct = deliver-IsDirect s v.direct;
    signalled =
        ap has_sentinel (stream-deliver s) ∙ v.signalled ∙ sym (ap is_set (deliver-core s).1);
  };
}

created-IsSignalled : (p : Params) (n : ℕ) → IsSignalled (new_sequence p n true)
unfolding new_sequence
created-IsSignalled p n = record { direct = λ e. refl; signalled = refl }

-- A request that was just created is signalled, whether it waits or asked for no token.
pub submit-IsSignalled : (st : State) (p : Params) → IsSignalled ((submit st p).heap st.next_id)
submit-IsSignalled st p =
    let created = created-IsSignalled p st.next_id in
    elim (submit-cases st p) [
      | inl waits ↦ subst IsSignalled (sym waits) created
      | inr (nothing, over) ↦ subst IsSignalled (sym over) (
          ended-IsSignalled (finish length_limit (new_sequence p st.next_id true)) created.direct
            refl)
    ]

-- Reading a token leaves the sentinel where it is.
pub read-IsSignalled :
    (s : Sequence) (token : ℕ) (rest : List (Option ℕ))
    → s.queue ≡ some token ∷ rest
    → IsSignalled s
    → IsSignalled (record s { queue = rest })
read-IsSignalled s token rest item v = record {
  direct = v.direct;
  signalled = sym (ap (λ q. has_sentinel (q ++ s.posted)) item) ∙ v.signalled;
}
