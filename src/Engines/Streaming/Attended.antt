-- ===== src/Engines/Streaming/Attended.antt =====
-- A stream whose client stays, and whose request nobody gives up.
use nano_kube_llm_server.Prelude.{
  ℕ, ◌<◌, ◌≡◌, refl, sym, ap, subst, ◌∙◌, inl, inr, true, List, [], ◌∷◌, ◌++◌, Option, none, some,
  append-nil, All,
}
use nano_kube_llm_server.Runners.Interface.{ModelRunner}
use nano_kube_llm_server.Batching.Sequences.{Sequence, is_finished}
use nano_kube_llm_server.Batching.Scheduler.{State, abort}
use nano_kube_llm_server.Batching.RunLoop.{Server, Event, step}
use nano_kube_llm_server.Batching.RunLoop.Safety.{IsSafe}
use nano_kube_llm_server.Batching.RunLoop.Watched.{IsOpenAt, IsOpenAt-keeps, Spares, step-watched}
use nano_kube_llm_server.Engines.{
  StreamChunk, leave, cancel, Reading, reading, ended, send, stream_at, Client, Turn, happens,
  resumes, hangs_up,
}
use nano_kube_llm_server.Engines.Chunks.{IsText}
use nano_kube_llm_server.Engines.Sentinels.{has_sentinel, read-IsSignalled}
use nano_kube_llm_server.Engines.Delivery.{IsMonotone, IsDelivered, terminal_chunk, texts-terminal}
use nano_kube_llm_server.Engines.Turns.{left_self, leave-IsSafe}
use nano_kube_llm_server.Engines.Streaming.{token-IsDelivered}
use nano_kube_llm_server.Engines.Streaming.Order.{
  has_token, InOrder, HoldsText, IsFollowed, IsFollowed-IsWatched,
}
use nano_kube_llm_server.Engines.Streaming.Whole.{IsWhole, same-IsWhole, IsWhole-IsWatched}

module _ {R : Type 0} (ops : ModelRunner R) (monotone : IsMonotone ops) (i : ℕ) where
  abbrev pub AtStage : Sequence → Reading → List StreamChunk → Type 0
  AtStage s (reading sent) chunks = IsFollowed ops chunks s
  AtStage s ended chunks = IsWhole ops chunks s

  pub record IsAttended (c : Client ops) : Type 0 where
    pub safe : IsSafe c.server
    pub known : i < c.server.next_id
    pub opened_at : IsOpenAt i c.server.state c.server.phase
    pub at : AtStage (c.server.heap i) c.place c.received

  -- The turns in which neither the client nor anyone else gives the request up.
  abbrev pub IsAttentive : Turn ops → Type 0
  IsAttentive (happens e) = Spares i e
  IsAttentive resumes = Unit
  IsAttentive hangs_up = ⊥

  pub happens-IsAttended :
      (m : Server R) (place : Reading) (chunks : List StreamChunk) (e : Event)
      → Spares i e
      → IsSafe m
      → i < m.next_id
      → IsOpenAt i m.state m.phase
      → AtStage (m.heap i) place chunks
      → (i < (step ops m e).next_id)
        × AtStage ((step ops m e).heap i) place chunks
        × IsOpenAt i (step ops m e).state (step ops m e).phase
  happens-IsAttended m (reading sent) chunks e spares v k o a =
      step-watched _ (IsFollowed-IsWatched ops chunks) i ops m e spares v (k, a, o)
  happens-IsAttended m ended chunks e spares v k o a =
      step-watched _ (IsWhole-IsWatched ops chunks) i ops m e spares v (k, a, o)

  -- The request is over: giving it up does nothing.
  cancel-over : (st : State) → is_finished (st.heap i) ≡ true → cancel st i ≡ st
  unfolding cancel abort
  cancel-over st over = rw over refl

  -- A token is read, and the client has the whole text.
  token-IsFollowed :
      (s : Sequence) (token : ℕ) (rest : List (Option ℕ)) (chunks more : List StreamChunk)
      → s.queue ≡ some token ∷ rest
      → HoldsText ops more s.output_ids
      → IsFollowed ops chunks s
      → IsFollowed ops more (record s { queue = rest })
  token-IsFollowed s token rest chunks more item holds v = record {
    ordered = record {
      signalled = read-IsSignalled s token rest item v.ordered.signalled;
      order = subst (λ q. InOrder (q ++ s.posted)) item v.ordered.order;
    };
    caught_up = inr holds;
  }

  -- The sentinel is read, and no token is left.
  sentinel-IsWhole :
      (s : Sequence) (rest : List (Option ℕ)) (chunks : List StreamChunk)
      → s.queue ≡ none ∷ rest
      → All IsText chunks
      → IsFollowed ops chunks s
      → IsWhole ops (chunks ++ terminal_chunk ops s.finish_reason ∷ []) s
  sentinel-IsWhole s rest chunks item all_text v =
      let read_all =
        ap (λ q. has_token (q ++ s.posted)) item
        ∙ subst (λ q. InOrder (q ++ s.posted)) item v.ordered.order in
      record {
        over = sym v.ordered.signalled.signalled ∙ ap (λ q. has_sentinel (q ++ s.posted)) item;
        pieces = chunks;
        all_text = all_text;
        terminated = refl;
        whole =
            rw (texts-terminal ops chunks s.finish_reason)
              (elim v.caught_up [ inl unread ↦ absurd cc | inr holds ↦ holds ]);
      }

  pub read-IsAttended :
      (m : Server R) (sent : ℕ) (chunks : List StreamChunk) (queue : List (Option ℕ))
      → (m.heap i).queue ≡ queue
      → IsDelivered ops i m.state (reading sent) chunks
      → IsAttended (record { server = m; place = reading sent; received = chunks })
      → let (st, place, more) = stream_at ops m.runner m.state i sent queue in
        IsAttended
          (record { server = record m { state = st }; place = place; received = chunks ++ more })
  unfolding stream_at leave
  read-IsAttended m sent chunks [] item d v =
      subst (λ cs. IsAttended (record { server = m; place = reading sent; received = cs }))
        (sym (append-nil chunks)) v
  read-IsAttended m sent chunks (some token ∷ rest) item d v =
      let r = token-IsDelivered ops monotone i m.state sent chunks m.runner d in
      let s = m.heap i in
      let text = ops.decode m.runner s.output_ids in
      record {
        safe = leave-IsSafe m i rest v.known v.safe;
        known = v.known;
        opened_at =
            IsOpenAt-keeps i m.state (leave m.state i rest) m.phase
              (λ f. ap (λ s. is_finished s) (left_self m.state i rest) ∙ f) v.opened_at;
        at =
            subst
              (λ place.
                AtStage ((leave m.state i rest).heap i) place (chunks ++ (send sent text).1))
              (sym r.counted)
              (subst (IsFollowed ops (chunks ++ (send sent text).1))
                (sym (left_self m.state i rest))
                (token-IsFollowed s token rest chunks (chunks ++ (send sent text).1) item
                  (inr (m.runner, r.whole)) v.at));
      }
  read-IsAttended m sent chunks (none ∷ rest) item d v =
      let w = sentinel-IsWhole (m.heap i) rest chunks item d.placed.1 v.at in
      let left = left_self m.state i rest in
      rw (cancel-over (leave m.state i rest) (ap (λ s. is_finished s) left ∙ w.over)) (record {
        safe = leave-IsSafe m i rest v.known v.safe;
        known = v.known;
        opened_at =
            IsOpenAt-keeps i m.state (leave m.state i rest) m.phase
              (λ f. ap (λ s. is_finished s) left ∙ f) v.opened_at;
        at =
            same-IsWhole ops _ (m.heap i) ((leave m.state i rest).heap i)
              (ap (λ s. s.finish_reason) left) (ap (λ s. s.output_ids) left) w;
      })
