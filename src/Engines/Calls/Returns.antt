-- ===== src/Engines/Calls/Returns.antt =====
-- model_server/engines.py: a call of `generate` whose request is finished.
use nano_kube_llm_server.Prelude.{
  ℕ, zero, suc, ◌<◌, ◌≤◌, ◌≡◌, ◌≢◌, refl, sym, ap, subst, ◌∙◌, ◌⊎◌, inl, inr, true, List, [], ◌∷◌,
  ◌++◌, Option, none, some, arith, length, length-append, ltb,
}
use nano_kube_llm_server.Runners.Interface.{ModelRunner}
use nano_kube_llm_server.Batching.Sequences.{
  Sequence, is_finished, is_set, stream, deliver, put_posted,
}
use nano_kube_llm_server.Batching.Sequences.Heaps.{Core, update_self, deliver-core}
use nano_kube_llm_server.Batching.Scheduler.WellFormed.Deliveries.{stream-deliver}
use nano_kube_llm_server.Batching.RunLoop.{Server, delivers, step}
use nano_kube_llm_server.Engines.{
  Completion, Turn, happens, resumes, hangs_up, asking, answered, Caller, read_at, drop_at,
  generate_at, call_turn, call_turns,
}
use nano_kube_llm_server.Engines.Sentinels.{has_sentinel, IsSignalled}
use nano_kube_llm_server.Engines.Calls.{IsServed, AtCall, call_turn-IsServed}
use nano_kube_llm_server.Engines.Turns.{left_self}

put_posted-queue :
    (q : List (Option ℕ)) (s : Sequence)
    → s.posted ≡ q
    → stream s ≢ []
    → (put_posted q s).queue ≢ []
unfolding put_posted
put_posted-queue [] s e some_item = λ f. some_item (rw (f, e) refl)
put_posted-queue (token ∷ rest) s e some_item =
    λ f. omega (arith, ap length f, length-append s.queue (token ∷ []))

-- Something is on the channel: after `deliver`, it is on the queue.
pub deliver-queue : (s : Sequence) → stream s ≢ [] → (deliver s).queue ≢ []
unfolding deliver
deliver-queue s some_item = put_posted-queue s.posted s refl some_item

pub empty_list : (q : List (Option ℕ)) → length q ≤ 0 → q ≡ []
empty_list [] le = refl
empty_list (x ∷ q) le = absurd (omega (arith, le))

pub signalled-some : (s : Sequence) → IsSignalled s → is_finished s ≡ true → stream s ≢ []
signalled-some s v over = λ e. let f = sym v.signalled ∙ ap has_sentinel e in cc

module _ {R : Type 0} (ops : ModelRunner R) where
  -- The event loop moves an item, and resumes the handler, so many times.
  abbrev pub rounds : ℕ → ℕ → List (Turn ops)
  rounds i zero = []
  rounds i (suc n) = happens (delivers i) ∷ resumes ∷ rounds i n

  pub step-deliver :
      (m : Server R) (i : ℕ) → i < m.next_id → (step ops m (delivers i)).heap i ≡ deliver (m.heap i)
  unfolding step
  step-deliver m i k =
      let known : ltb i m.next_id ≡ true = ground arith in rw known (update_self m.heap i _)

  -- The call waits for a finished request, with at most `n` items still to be read.
  pub record IsPending (q : Core) (i n : ℕ) (c : Caller ops) : Type 0 where
    pub served : IsServed ops q i c
    pub waits : c.call ≡ asking
    pub over : is_finished (c.server.heap i) ≡ true
    pub short : length (stream (c.server.heap i)) ≤ n

  abbrev pub HasReturned : Caller ops → Type 0
  HasReturned c = (completion : Completion) × (c.call ≡ answered completion)

  pending-IsSignalled :
      (q : Core) (i n : ℕ) (c : Caller ops) → IsPending q i n c → IsSignalled (c.server.heap i)
  pending-IsSignalled q i n c p = subst (AtCall ops q (c.server.heap i)) p.waits p.served.at

  delivered-IsPending :
      (q : Core) (i n : ℕ) (c : Caller ops)
      → IsPending q i n c
      → IsPending q i n (call_turn ops i c (happens (delivers i)))
        × (((call_turn ops i c (happens (delivers i))).server.heap i).queue ≢ [])
  unfolding call_turn
  delivered-IsPending q i n c p =
      let here = step-deliver c.server i p.served.known in
      let s = c.server.heap i in
      (
        record {
          served = call_turn-IsServed ops q i c (happens (delivers i)) p.served;
          waits = p.waits;
          over = ap is_finished here ∙ ap is_set (deliver-core s).1 ∙ p.over;
          short = subst (λ q. length q ≤ n) (sym (ap stream here ∙ stream-deliver s)) p.short;
        },
        λ e.
            deliver-queue s (signalled-some s (pending-IsSignalled q i n c p) p.over)
              (sym (ap (λ s. s.queue) here) ∙ e),
      )

  read-none :
      (i : ℕ) (c : Caller ops) (rest : List (Option ℕ))
      → c.call ≡ asking
      → (c.server.heap i).queue ≡ none ∷ rest
      → HasReturned (call_turn ops i c resumes)
  unfolding call_turn read_at generate_at
  read-none i c rest waits item =
      subst (λ call. HasReturned (read_at ops c i call)) (sym waits) (rw item (_, refl))

  read-some :
      (i : ℕ) (c : Caller ops) (token : ℕ) (rest : List (Option ℕ))
      → c.call ≡ asking
      → (c.server.heap i).queue ≡ some token ∷ rest
      → ((call_turn ops i c resumes).call ≡ asking)
        × ((call_turn ops i c resumes).server.heap i ≡ record (c.server.heap i) { queue = rest })
  unfolding call_turn read_at generate_at
  read-some i c token rest waits item =
      subst
        (λ call.
          ((read_at ops c i call).call ≡ asking)
          × ((read_at ops c i call).server.heap i ≡ record (c.server.heap i) { queue = rest }))
        (sym waits) (rw item (refl, left_self c.server.state i rest))

  read-IsPending :
      (q : Core) (i n : ℕ) (c : Caller ops) (queue : List (Option ℕ))
      → (c.server.heap i).queue ≡ queue
      → queue ≢ []
      → IsPending q i (suc n) c
      → HasReturned (call_turn ops i c resumes) ⊎ IsPending q i n (call_turn ops i c resumes)
  read-IsPending q i n c [] item some_item p = absurd (some_item refl)
  read-IsPending q i n c (none ∷ rest) item some_item p = inl (read-none i c rest p.waits item)
  read-IsPending q i n c (some token ∷ rest) item some_item p =
      let (waits, here) = read-some i c token rest p.waits item in
      let shorter = ap (λ q. length (q ++ (c.server.heap i).posted)) item in
      inr (record {
        served = call_turn-IsServed ops q i c resumes p.served;
        waits = waits;
        over = ap is_finished here ∙ p.over;
        short = subst (λ q. length q ≤ n) (sym (ap stream here)) (omega (arith, p.short, shorter));
      })

  turn-stays :
      (i : ℕ) (c : Caller ops) (t : Turn ops) → HasReturned c → HasReturned (call_turn ops i c t)
  unfolding call_turn read_at drop_at
  turn-stays i c (happens e) r = r
  turn-stays i c resumes (completion, e) =
      subst (λ call. HasReturned (read_at ops c i call)) (sym e) (completion, e)
  turn-stays i c hangs_up (completion, e) =
      subst (λ call. HasReturned (drop_at ops c i call)) (sym e) (completion, e)

  turns-stay :
      (i : ℕ) (c : Caller ops) (ts : List (Turn ops))
      → HasReturned c
      → HasReturned (call_turns ops i c ts)
  unfolding call_turns
  turns-stay i c [] r = r
  turns-stay i c (t ∷ ts) r = turns-stay i (call_turn ops i c t) ts (turn-stays i c t r)

  pub rounds-HasReturned :
      (q : Core) (i n : ℕ) (c : Caller ops)
      → IsPending q i n c
      → HasReturned (call_turns ops i c (rounds i n))
  unfolding call_turns
  rounds-HasReturned q i zero c p = absurd (
      signalled-some (c.server.heap i) (pending-IsSignalled q i 0 c p) p.over
        (empty_list (stream (c.server.heap i)) p.short))
  rounds-HasReturned q i (suc n) c p =
      let (pending, some_item) = delivered-IsPending q i (suc n) c p in
      let c' = call_turn ops i c (happens (delivers i)) in
      elim (read-IsPending q i n c' _ refl some_item pending) [
        | inl returned ↦ turns-stay i (call_turn ops i c' resumes) (rounds i n) returned
        | inr shorter ↦ rounds-HasReturned q i n (call_turn ops i c' resumes) shorter
      ]
