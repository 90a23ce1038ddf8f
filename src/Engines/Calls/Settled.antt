-- ===== src/Engines/Calls/Settled.antt =====
-- A call of `generate` that is over stays as it is, and what a turn of its handler does to one that waits.
use nano_kube_llm_server.Prelude.{
  ℕ, ◌<◌, ◌≡◌, refl, sym, ap, subst, ◌∙◌, ◌⊎◌, inl, inr, true, List, [], ◌∷◌, Option, none, some,
}
use nano_kube_llm_server.Runners.Interface.{ModelRunner}
use nano_kube_llm_server.Batching.Sequences.{is_finished}
use nano_kube_llm_server.Batching.RunLoop.Outputs.{Prefix, Prefix-IsKept, step-Holding}
use nano_kube_llm_server.Engines.{
  Completion, leave, complete, generate_at, Turn, happens, resumes, hangs_up, asking, answered,
  dropped, Caller, call_after, read_at, drop_at, call_turn, call_turns,
}
use nano_kube_llm_server.Engines.Calls.{sentinel-read}

module _ {R : Type 0} (ops : ModelRunner R) (i : ℕ) where
  -- A call that returned.
  abbrev pub IsSettled : Completion → List ℕ → Caller ops → Type 0
  IsSettled completion output c =
      (c.call ≡ answered completion)
      × (i < c.server.next_id)
      × Prefix output (c.server.heap i).output_ids

  turn-IsSettled :
      (c : Caller ops) (t : Turn ops) (completion : Completion) (output : List ℕ)
      → IsSettled completion output c
      → IsSettled completion output (call_turn ops i c t)
  unfolding call_turn read_at drop_at
  turn-IsSettled c (happens e) completion output (at, k, p) =
      let (k', p') = step-Holding ops _ (Prefix-IsKept output) i c.server e (k, p) in (at, k', p')
  turn-IsSettled c resumes completion output (at, k, p) =
      subst (λ call. IsSettled completion output (read_at ops c i call)) (sym at) (at, k, p)
  turn-IsSettled c hangs_up completion output (at, k, p) =
      subst (λ call. IsSettled completion output (drop_at ops c i call)) (sym at) (at, k, p)

  pub turns-IsSettled :
      (c : Caller ops) (ts : List (Turn ops)) (completion : Completion) (output : List ℕ)
      → IsSettled completion output c
      → IsSettled completion output (call_turns ops i c ts)
  unfolding call_turns
  turns-IsSettled c [] completion output v = v
  turns-IsSettled c (t ∷ ts) completion output v =
      turns-IsSettled (call_turn ops i c t) ts completion output
        (turn-IsSettled c t completion output v)

  dropped_turn :
      (c : Caller ops) (t : Turn ops) → c.call ≡ dropped → (call_turn ops i c t).call ≡ dropped
  unfolding call_turn read_at drop_at
  dropped_turn c (happens e) at = at
  dropped_turn c resumes at = subst (λ call. (read_at ops c i call).call ≡ dropped) (sym at) at
  dropped_turn c hangs_up at = subst (λ call. (drop_at ops c i call).call ≡ dropped) (sym at) at

  pub dropped_turns :
      (c : Caller ops) (ts : List (Turn ops))
      → c.call ≡ dropped
      → (call_turns ops i c ts).call ≡ dropped
  unfolding call_turns
  dropped_turns c [] at = at
  dropped_turns c (t ∷ ts) at = dropped_turns (call_turn ops i c t) ts (dropped_turn c t at)

  -- The handler is resumed with the sentinel before it.
  pub read_sentinel :
      (c : Caller ops) (rest : List (Option ℕ))
      → c.call ≡ asking
      → (c.server.heap i).queue ≡ none ∷ rest
      → is_finished (c.server.heap i) ≡ true
      → ((call_turn ops i c resumes).call
          ≡ answered (complete ops c.server.runner (c.server.heap i)))
        × ((call_turn ops i c resumes).server.state ≡ leave c.server.state i rest)
  unfolding call_turn read_at
  read_sentinel c rest waits item over =
      let m = c.server in
      let read =
        ap (generate_at ops m.runner m.state i) item
        ∙ sentinel-read ops i m.runner m.state rest over in
      subst
        (λ call.
          ((read_at ops c i call).call ≡ answered (complete ops m.runner (m.heap i)))
          × ((read_at ops c i call).server.state ≡ leave m.state i rest))
        (sym waits) (ap (λ p. call_after ops p.1) read, ap (λ p. p.0) read)

  -- The handler that is resumed still waits, or the sentinel was there.
  pub read_cases :
      (c : Caller ops) (queue : List (Option ℕ))
      → c.call ≡ asking
      → (c.server.heap i).queue ≡ queue
      → ((call_turn ops i c resumes).call ≡ asking)
        ⊎ ((rest : List (Option ℕ)) × (queue ≡ none ∷ rest))
  unfolding call_turn read_at generate_at
  read_cases c [] waits item =
      inl (subst (λ call. (read_at ops c i call).call ≡ asking) (sym waits) (rw item refl))
  read_cases c (some token ∷ rest) waits item =
      inl (subst (λ call. (read_at ops c i call).call ≡ asking) (sym waits) (rw item refl))
  read_cases c (none ∷ rest) waits item = inr (rest, refl)
