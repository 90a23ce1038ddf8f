-- ===== src/Engines/Streaming/Order.antt =====
-- The order of tokens and sentinels on the channel of a request that nobody gives up.
use nano_kube_llm_server.Prelude.{
  ℕ, ◌≡◌, refl, sym, ap, subst, ◌∙◌, ◌⊎◌, inl, inr, Bool, true, false, ◌||◌, List, [], ◌∷◌, ◌++◌,
  Option, none, some, arith, Bool-cases,
}
use nano_kube_llm_server.Runners.Interface.{ModelRunner}
use nano_kube_llm_server.Batching.Sequences.{Sequence, error, is_finished, stream, deliver}
use nano_kube_llm_server.Batching.Sequences.Heaps.{IsDirect, emit-Emitted, deliver-core}
use nano_kube_llm_server.Batching.Scheduler.{record_token, fail_one, finish}
use nano_kube_llm_server.Batching.Scheduler.Tokens.{sentinel_if, record_token-Recorded}
use nano_kube_llm_server.Batching.Scheduler.WellFormed.Aborts.{aborted}
use nano_kube_llm_server.Batching.Scheduler.WellFormed.Deliveries.{stream-deliver}
use nano_kube_llm_server.Batching.RunLoop.Watched.{IsWatched}
use nano_kube_llm_server.Engines.{StreamChunk}
use nano_kube_llm_server.Engines.Chunks.{texts}
use nano_kube_llm_server.Engines.Sentinels.{has_sentinel, IsSignalled, IsSignalled-IsKept}

-- Whether there is a token.
abbrev pub has_token : List (Option ℕ) → Bool
has_token [] = false
has_token (none ∷ q) = has_token q
has_token (some token ∷ q) = true

-- No token follows a sentinel.
abbrev pub InOrder : List (Option ℕ) → Type 0
InOrder [] = Unit {0}
InOrder (none ∷ q) = has_token q ≡ false
InOrder (some token ∷ q) = InOrder q

has_token-append : (p q : List (Option ℕ)) → has_token (p ++ q) ≡ (has_token p || has_token q)
has_token-append [] q = refl
has_token-append (none ∷ p) q = has_token-append p q
has_token-append (some token ∷ p) q = refl

-- A sentinel may always follow,
append_none-InOrder : (q : List (Option ℕ)) → InOrder q → InOrder (q ++ none ∷ [])
append_none-InOrder [] o = refl
append_none-InOrder (none ∷ q) o = ground (arith, o, has_token-append q (none ∷ []))
append_none-InOrder (some token ∷ q) o = append_none-InOrder q o

-- and a token as long as there is no sentinel.
append_token-InOrder :
    (q r : List (Option ℕ)) → has_sentinel q ≡ false → InOrder r → InOrder (q ++ r)
append_token-InOrder [] r e o = o
append_token-InOrder (none ∷ q) r e o = cc
append_token-InOrder (some token ∷ q) r e o = append_token-InOrder q r e o

sentinel_if-InOrder : (b : Bool) → InOrder (sentinel_if b)
sentinel_if-InOrder true = refl
sentinel_if-InOrder false = tt

or_true : (b : Bool) → (b || true) ≡ true
or_true b = ground arith

fail_one-channel :
    (s : Sequence)
    → IsDirect s
    → (stream (fail_one s) ≡ stream s ++ none ∷ []) × ((fail_one s).output_ids ≡ s.output_ids)
unfolding fail_one
fail_one-channel s direct = elim (Bool-cases (is_finished s)) [
  | inl over ↦ let e = emit-Emitted s none direct in rw over (e.channel, e.output_ids)
  | inr going ↦
      let e = emit-Emitted (finish error s) none direct in rw going (e.channel, e.output_ids)
]

pub record IsOrdered (s : Sequence) : Type 0 where
  pub signalled : IsSignalled s
  pub order : InOrder (stream s)

module _ {R : Type 0} (ops : ModelRunner R) (chunks : List StreamChunk) where
  -- The chunks hold the whole text of the output.
  abbrev pub HoldsText : List ℕ → Type 0
  HoldsText ids =
      ((texts chunks ≡ []) × (ids ≡ [])) ⊎ ((runner : R) × (texts chunks ≡ ops.decode runner ids))

  -- There is a token to be read, or the client has the whole text.
  pub record IsFollowed (s : Sequence) : Type 0 where
    pub ordered : IsOrdered s
    pub caught_up : (has_token (stream s) ≡ true) ⊎ HoldsText s.output_ids

  -- The channel gains a sentinel, or nothing.
  silent-IsFollowed :
      (s s' : Sequence)
      → IsSignalled s'
      → (stream s' ≡ stream s ++ none ∷ []) ⊎ (stream s' ≡ stream s)
      → s'.output_ids ≡ s.output_ids
      → IsFollowed s
      → IsFollowed s'
  silent-IsFollowed s s' signalled (inl more) same v = record {
    ordered = record {
      signalled = signalled;
      order = subst InOrder (sym more) (append_none-InOrder (stream s) v.ordered.order);
    };
    caught_up = elim v.caught_up [
      | inl unread ↦
          inl (ap has_token more ∙ has_token-append (stream s) (none ∷ []) ∙ ground (arith, unread))
      | inr holds ↦ inr (subst HoldsText (sym same) holds)
    ];
  }
  silent-IsFollowed s s' signalled (inr equal) same v = record {
    ordered = record { signalled = signalled; order = subst InOrder (sym equal) v.ordered.order };
    caught_up = elim v.caught_up [
      | inl unread ↦ inl (ap has_token equal ∙ unread)
      | inr holds ↦ inr (subst HoldsText (sym same) holds)
    ];
  }

  recorded-IsFollowed :
      (token : ℕ) (s : Sequence)
      → is_finished s ≡ false
      → IsFollowed s
      → IsFollowed (record_token s token)
  recorded-IsFollowed token s going v =
      let r = record_token-Recorded s token v.ordered.signalled.direct in
      let rest = sentinel_if (is_finished (record_token s token)) in
      record {
        ordered = record {
          signalled = IsSignalled-IsKept.records token s v.ordered.signalled;
          order = subst InOrder (sym r.channel) (
              append_token-InOrder (stream s) (some token ∷ rest)
                (v.ordered.signalled.signalled ∙ going) (sentinel_if-InOrder _));
        };
        caught_up = inl (
            ap has_token r.channel
            ∙ has_token-append (stream s) (some token ∷ rest)
            ∙ or_true (has_token (stream s)));
      }

  failed-IsFollowed : (s : Sequence) → IsFollowed s → IsFollowed (fail_one s)
  failed-IsFollowed s v =
      let (channel, output) = fail_one-channel s v.ordered.signalled.direct in
      silent-IsFollowed s (fail_one s) (IsSignalled-IsKept.fails s v.ordered.signalled)
        (inl channel) output v

  pub IsFollowed-IsWatched : IsWatched IsFollowed
  IsFollowed-IsWatched = record {
    errs = λ s going v.
        let e = emit-Emitted (finish error s) none v.ordered.signalled.direct in
        silent-IsFollowed s (aborted error s)
          (IsSignalled-IsKept.aborts error s refl v.ordered.signalled) (inl e.channel) e.output_ids
          v;
    records = recorded-IsFollowed;
    fails = failed-IsFollowed;
    delivers = λ s v.
        silent-IsFollowed s (deliver s) (IsSignalled-IsKept.delivers s v.ordered.signalled)
          (inr (stream-deliver s)) (ap (λ c. c.output_ids) (deliver-core s).0) v;
  }
