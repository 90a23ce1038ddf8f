-- ===== src/Engines/Chunks.antt =====
-- The chunks of a stream.
use nano_kube_llm_server.Prelude.{
  ◌+◌, ◌≡◌, ◌≢◌, refl, sym, ap, ◌∙◌, ◌⊎◌, inl, inr, List, [], ◌∷◌, ◌++◌, none, some, append-nil,
  append_assoc, ltb, arith, Bool-cases, length, length-append, drop, drop-append, All, All-append,
}
use nano_kube_llm_server.Runners.Interface.{Text}
use nano_kube_llm_server.Batching.Sequences.{Finish}
use nano_kube_llm_server.Engines.{StreamChunk, Reading, reading, send}

-- All the text of the chunks.
unfoldable pub texts : List StreamChunk → Text
texts [] = []
texts (c ∷ cs) = c.text ++ texts cs

pub texts-append : (cs ds : List StreamChunk) → texts (cs ++ ds) ≡ texts cs ++ texts ds
unfolding texts
texts-append [] ds = refl
texts-append (c ∷ cs) ds =
    ap (λ t. c.text ++ t) (texts-append cs ds) ∙ sym (append_assoc c.text (texts cs) (texts ds))

-- A chunk of text: some text, and no reason.
abbrev pub IsText : StreamChunk → Type 0
IsText c = (c.text ≢ []) × (c.finish_reason ≡ none)

-- The chunks of a stream that is over: text, and, unless the client went away, one terminal chunk.
pub record IsTerminated (chunks : List StreamChunk) : Type 0 where
  pub pieces : List StreamChunk
  pub terminal : List StreamChunk
  pub joined : chunks ≡ pieces ++ terminal
  pub all_text : All IsText pieces
  pub at_most_one :
      (terminal ≡ [])
      ⊎ ((reason : Finish) × (terminal ≡ record { text = []; finish_reason = some reason } ∷ []))

pub length_zero : (xs : Text) → length xs ≡ 0 → xs ≡ []
length_zero [] e = refl
length_zero (x ∷ xs) e = absurd (omega (arith, e))

-- A turn of `send` on a text that begins with what was sent sends the rest of it.
pub record IsSent (chunks : List StreamChunk) (text : Text) (place : Reading)
    (more : List StreamChunk) : Type 0 where
  pub whole : texts (chunks ++ more) ≡ text
  pub counted : place ≡ reading (length text)
  pub all_text : All IsText (chunks ++ more)

pub send-IsSent :
    (chunks : List StreamChunk) (text more : Text)
    → All IsText chunks
    → text ≡ texts chunks ++ more
    → IsSent chunks text (send (length (texts chunks)) text).0 (send (length (texts chunks)) text).1
unfolding send texts
send-IsSent chunks text more a e = elim (Bool-cases (ltb (length (texts chunks)) (length text))) [
  | inl longer ↦ rw longer (record {
    whole =
        texts-append chunks (record { text = suffix; finish_reason = none } ∷ [])
        ∙ ap (λ t. texts chunks ++ t) (append-nil suffix ∙ same)
        ∙ sym e;
    counted = refl;
    all_text =
        All-append _ chunks (record { text = suffix; finish_reason = none } ∷ []) a
          ((λ f. let g = ap length (sym same ∙ f) in ground (arith, total, g), refl), tt);
  })
  | inr done ↦
      let nothing = length_zero more (ground (arith, total)) in
      let e' : text ≡ texts chunks =
        e ∙ ap (λ t. texts chunks ++ t) nothing ∙ append-nil (texts chunks) in
      rw done (record {
        whole = ap texts (append-nil chunks) ∙ sym e';
        counted = ap (λ t. reading (length t)) (sym e');
        all_text = All-append _ chunks [] a tt;
      })
]
  where
    suffix : Text
    suffix = drop (length (texts chunks)) text

    same : suffix ≡ more
    same = ap (drop (length (texts chunks))) e ∙ drop-append (texts chunks) more

    total : length text ≡ length (texts chunks) + length more
    total = ap length e ∙ length-append (texts chunks) more
