-- ===== src/Engines/Streaming/Ends.antt =====
-- model_server/engines.py: a stream whose request is finished comes to its end.
use nano_kube_llm_server.Prelude.{
  ℕ, zero, suc, ◌≤◌, ◌≡◌, ◌≢◌, refl, sym, ap, subst, ◌∙◌, ◌⊎◌, inl, inr, true, List, [], ◌∷◌, ◌++◌,
  Option, none, some, arith, length, ltb, Bool-cases,
}
use nano_kube_llm_server.Runners.Interface.{Text, ModelRunner}
use nano_kube_llm_server.Batching.Sequences.{is_finished, is_set, stream}
use nano_kube_llm_server.Batching.Sequences.Heaps.{deliver-core}
use nano_kube_llm_server.Batching.Scheduler.WellFormed.Deliveries.{stream-deliver}
use nano_kube_llm_server.Batching.RunLoop.{delivers}
use nano_kube_llm_server.Engines.{
  happens, resumes, reading, ended, send, stream_at, Client, resume_at, take_turn, take_turns,
}
use nano_kube_llm_server.Engines.Sentinels.{IsSignalled}
use nano_kube_llm_server.Engines.Turns.{left_self}
use nano_kube_llm_server.Engines.Calls.Returns.{
  rounds, step-deliver, deliver-queue, empty_list, signalled-some,
}
use nano_kube_llm_server.Engines.Delivery.{IsMonotone}
use nano_kube_llm_server.Engines.Streaming.{Delivered, take_turn-IsDelivered}
use nano_kube_llm_server.Engines.Streaming.Attended.{AtStage, IsAttended}
use nano_kube_llm_server.Engines.Streaming.Stays.{take_turn-IsAttended}

module _ {R : Type 0} (ops : ModelRunner R) (monotone : IsMonotone ops) (i : ℕ) where
  abbrev HasEnded : Client ops → Type 0
  HasEnded c = c.place ≡ ended

  abbrev IsReading : Client ops → Type 0
  IsReading c = (sent : ℕ) × (c.place ≡ reading sent)

  -- The stream awaits an item of a finished request, with at most `n` items still to be read.
  pub record IsAwaiting (n : ℕ) (c : Client ops) : Type 0 where
    pub delivered : Delivered ops monotone i c
    pub attended : IsAttended ops monotone i c
    pub waits : IsReading c
    pub over : is_finished (c.server.heap i) ≡ true
    pub short : length (stream (c.server.heap i)) ≤ n

  awaiting-IsSignalled : (n : ℕ) (c : Client ops) → IsAwaiting n c → IsSignalled (c.server.heap i)
  awaiting-IsSignalled n c p =
      (subst (λ place. AtStage ops monotone i (c.server.heap i) place c.received) p.waits.1
        p.attended.at).ordered.signalled

  delivered-IsAwaiting :
      (n : ℕ) (c : Client ops)
      → IsAwaiting n c
      → IsAwaiting n (take_turn ops i c (happens (delivers i)))
        × (((take_turn ops i c (happens (delivers i))).server.heap i).queue ≢ [])
  unfolding take_turn
  delivered-IsAwaiting n c p =
      let here = step-deliver ops c.server i p.attended.known in
      let s = c.server.heap i in
      (
        record {
          delivered = take_turn-IsDelivered ops monotone i c (happens (delivers i)) p.delivered;
          attended =
              take_turn-IsAttended ops monotone i c (happens (delivers i)) tt p.delivered
                p.attended;
          waits = p.waits;
          over = ap is_finished here ∙ ap is_set (deliver-core s).1 ∙ p.over;
          short = subst (λ q. length q ≤ n) (sym (ap stream here ∙ stream-deliver s)) p.short;
        },
        λ e.
            deliver-queue s (signalled-some s (awaiting-IsSignalled n c p) p.over)
              (sym (ap (λ s. s.queue) here) ∙ e),
      )

  read-none :
      (c : Client ops) (rest : List (Option ℕ))
      → IsReading c
      → (c.server.heap i).queue ≡ none ∷ rest
      → HasEnded (take_turn ops i c resumes)
  unfolding take_turn resume_at stream_at
  read-none c rest (sent, waits) item = rw (waits, item) refl

  send-reading : (sent : ℕ) (text : Text) → (place : ℕ) × ((send sent text).0 ≡ reading place)
  unfolding send
  send-reading sent text = elim (Bool-cases (ltb sent (length text))) [
    | inl longer ↦ rw longer (_, refl)
    | inr nothing_new ↦ rw nothing_new (_, refl)
  ]

  read-some :
      (c : Client ops) (token : ℕ) (rest : List (Option ℕ))
      → IsReading c
      → (c.server.heap i).queue ≡ some token ∷ rest
      → IsReading (take_turn ops i c resumes)
        × ((take_turn ops i c resumes).server.heap i ≡ record (c.server.heap i) { queue = rest })
  unfolding take_turn resume_at stream_at
  read-some c token rest (sent, waits) item =
      rw (waits, item)
        (
          send-reading sent (ops.decode c.server.runner (c.server.heap i).output_ids),
          left_self c.server.state i rest,
        )

  read-IsAwaiting :
      (n : ℕ) (c : Client ops) (queue : List (Option ℕ))
      → (c.server.heap i).queue ≡ queue
      → queue ≢ []
      → IsAwaiting (suc n) c
      → HasEnded (take_turn ops i c resumes) ⊎ IsAwaiting n (take_turn ops i c resumes)
  read-IsAwaiting n c [] item some_item p = absurd (some_item refl)
  read-IsAwaiting n c (none ∷ rest) item some_item p = inl (read-none c rest p.waits item)
  read-IsAwaiting n c (some token ∷ rest) item some_item p =
      let (waits, here) = read-some c token rest p.waits item in
      let shorter = ap (λ q. length (q ++ (c.server.heap i).posted)) item in
      inr (record {
        delivered = take_turn-IsDelivered ops monotone i c resumes p.delivered;
        attended = take_turn-IsAttended ops monotone i c resumes tt p.delivered p.attended;
        waits = waits;
        over = ap is_finished here ∙ p.over;
        short = subst (λ q. length q ≤ n) (sym (ap stream here)) (omega (arith, p.short, shorter));
      })

  rounds-stay :
      (n : ℕ) (c : Client ops) → HasEnded c → HasEnded (take_turns ops i c (rounds ops i n))
  unfolding take_turns take_turn resume_at
  rounds-stay zero c e = e
  rounds-stay (suc n) c e = rounds-stay n _ (rw e refl)

  pub rounds-HasEnded :
      (n : ℕ) (c : Client ops) → IsAwaiting n c → HasEnded (take_turns ops i c (rounds ops i n))
  unfolding take_turns
  rounds-HasEnded zero c p = absurd (
      signalled-some (c.server.heap i) (awaiting-IsSignalled 0 c p) p.over
        (empty_list (stream (c.server.heap i)) p.short))
  rounds-HasEnded (suc n) c p =
      let (awaiting, some_item) = delivered-IsAwaiting (suc n) c p in
      let c' = take_turn ops i c (happens (delivers i)) in
      elim (read-IsAwaiting n c' _ refl some_item awaiting) [
        | inl over ↦ rounds-stay n (take_turn ops i c' resumes) over
        | inr shorter ↦ rounds-HasEnded n (take_turn ops i c' resumes) shorter
      ]
