-- ===== src/Splitting/Pack/Packed.antt =====
-- src/interactions.rs: what the packing of content into chunks gives, and when it fails.
use inf_splitter.Prelude.{
  All, Bool-cases, Has, List, Result, [], ap, append-nil, append_assoc, arith, concat,
  concat-append, err, false, inl, inr, leb, leb→le, le→leb, ltb, ok, refl, suc, sym, zero, ℕ, ◌++◌,
  ◌<◌, ◌∙◌, ◌∷◌, ◌≡◌, ◌≤◌, ◌⊎◌,
}
use inf_splitter.Splitting.Pack.{
  PackError, envelope_for, item_too_large, none_yet, pack_content_into_chunks, pack_loop,
}

module _ {Content : Type 0} (first subsequent : List Content → ℕ) (limit : ℕ) where
  -- no chunk is empty; the first one fits its envelope, and the others fit theirs
  abbrev pub Fits : List (List Content) → Type 0
  Fits [] = Unit {0}
  Fits (chunk ∷ chunks) =
      ((none_yet chunk ≡ false) × (first chunk ≤ limit))
      × All (λ c. (none_yet c ≡ false) × (subsequent c ≤ limit)) chunks

  -- an item that alone leaves the limit, in one of the envelopes
  abbrev pub TooLarge : List Content → ℕ → Type 0
  TooLarge contents size =
      (c : Content) × Has c contents
      × (limit < size)
      × ((size ≡ first (c ∷ [])) ⊎ (size ≡ subsequent (c ∷ [])))

  -- the answer of the packing of the contents
  abbrev pub IsPacked : List Content → Result PackError (List (List Content)) → Type 0
  IsPacked contents (ok chunks) = Fits chunks × (concat chunks ≡ contents)
  IsPacked contents (err (item_too_large size l)) = (l ≡ limit) × TooLarge contents size

  All-append_last :
      (chunks : List (List Content)) (c : List Content)
      → All (λ x. (none_yet x ≡ false) × (subsequent x ≤ limit)) chunks
      → (none_yet c ≡ false) × (subsequent c ≤ limit)
      → All (λ x. (none_yet x ≡ false) × (subsequent x ≤ limit)) (chunks ++ c ∷ [])
  All-append_last [] c a p = (p, tt)
  All-append_last (x ∷ chunks) c (q, a) p = (q, All-append_last chunks c a p)

  Fits-append :
      (chunks : List (List Content)) (c : List Content)
      → Fits chunks
      → none_yet c ≡ false
      → envelope_for first subsequent chunks c ≤ limit
      → Fits (chunks ++ c ∷ [])
  Fits-append [] c f some_c fit = ((some_c, fit), tt)
  Fits-append (x ∷ chunks) c (p, a) some_c fit = (p, All-append_last chunks c a (some_c, fit))

  envelope_for-append :
      (chunks : List (List Content)) (c x : List Content)
      → envelope_for first subsequent (chunks ++ c ∷ []) x ≡ subsequent x
  envelope_for-append [] c x = refl
  envelope_for-append (y ∷ chunks) c x = refl

  alone :
      (chunks : List (List Content)) (c : Content)
      → (envelope_for first subsequent chunks (c ∷ []) ≡ first (c ∷ []))
        ⊎ (envelope_for first subsequent chunks (c ∷ []) ≡ subsequent (c ∷ []))
  alone [] c = inl refl
  alone (x ∷ chunks) c = inr refl

  concat-last :
      (chunks : List (List Content)) (c : List Content) (rest : List Content)
      → concat (chunks ++ c ∷ []) ++ rest ≡ concat chunks ++ (c ++ rest)
  concat-last chunks c rest =
      ap (λ r. r ++ rest)
        (concat-append chunks (c ∷ []) ∙ ap (λ r. concat chunks ++ r) (append-nil c))
      ∙ append_assoc (concat chunks) c rest

  -- The state of the loop: its chunks fit, and so does the current one if it is not empty.
  pack_loop-IsPacked :
      (all_contents : List Content) (chunks : List (List Content)) (current contents : List Content)
      → Fits chunks
      → (none_yet current ≡ false → envelope_for first subsequent chunks current ≤ limit)
      → concat chunks ++ (current ++ contents) ≡ all_contents
      → ((c : Content) → Has c contents → Has c all_contents)
      → IsPacked all_contents (pack_loop first subsequent limit chunks current contents)
  unfolding pack_loop
  pack_loop-IsPacked all_contents chunks [] [] f fit same within =
      (f, sym (append-nil (concat chunks)) ∙ same)
  pack_loop-IsPacked all_contents chunks (x ∷ xs) [] f fit same within = (
    Fits-append chunks (x ∷ xs) f refl (fit refl),
    sym (append-nil (concat (chunks ++ (x ∷ xs) ∷ []))) ∙ concat-last chunks (x ∷ xs) [] ∙ same,
  )
  pack_loop-IsPacked all_contents chunks [] (c ∷ cs) f fit same within =
      elim (Bool-cases (ltb limit (envelope_for first subsequent chunks (c ∷ [])))) [
        | inl over ↦
            rw (over, pack_loop) (refl, (c, within c (zero, refl), ground arith, alone chunks c))
        | inr fits ↦
            rw (fits, le→leb _ limit (not_over fits), pack_loop)
              (pack_loop-IsPacked all_contents chunks (c ∷ []) cs f (λ _. not_over fits) same
                (λ x (n, e). within x (suc n, e)))
      ]
    where
      not_over :
          ltb limit (envelope_for first subsequent chunks (c ∷ [])) ≡ false
          → envelope_for first subsequent chunks (c ∷ []) ≤ limit
      not_over h = ground arith
  pack_loop-IsPacked all_contents chunks (x ∷ xs) (c ∷ cs) f fit same within =
      elim (Bool-cases (leb (envelope_for first subsequent chunks ((x ∷ xs) ++ c ∷ [])) limit)) [
        | inl fits ↦
            rw (fits, pack_loop)
              (pack_loop-IsPacked all_contents chunks ((x ∷ xs) ++ c ∷ []) cs f
                (λ _. leb→le _ limit fits)
                (ap (λ r. concat chunks ++ r) (append_assoc (x ∷ xs) (c ∷ []) cs) ∙ same) below)
        | inr full ↦ elim (Bool-cases (ltb limit (subsequent (c ∷ [])))) [
          | inl over ↦
              rw (full, envelope_for-append chunks (x ∷ xs) (c ∷ []), over, pack_loop)
                (
                  refl,
                  (
                    c,
                    within c (zero, refl),
                    ground (arith, over, envelope_for-append chunks (x ∷ xs) (c ∷ [])),
                    inr (envelope_for-append chunks (x ∷ xs) (c ∷ [])),
                  ),
                )
          | inr alone_fits ↦
              rw (full, envelope_for-append chunks (x ∷ xs) (c ∷ []), alone_fits, pack_loop)
                (pack_loop-IsPacked all_contents (chunks ++ (x ∷ xs) ∷ []) (c ∷ []) cs
                  (Fits-append chunks (x ∷ xs) f refl (fit refl))
                  (λ _. rw (envelope_for-append chunks (x ∷ xs) (c ∷ [])) (ground arith))
                  (concat-last chunks (x ∷ xs) (c ∷ cs) ∙ same) below)
        ]
      ]
    where
      below : (y : Content) → Has y cs → Has y all_contents
      below y (n, e) = within y (suc n, e)

-- The packing of contents either gives chunks that are the contents in order, none of them empty, each within the limit in its envelope (the first chunk in the first one, every other in the subsequent one), or it fails with the size of an item of the contents that alone leaves the limit in one of the two envelopes. So it succeeds where every item fits both envelopes alone.
pub pack_content_into_chunks-IsPacked :
    {Content : Type 0} (first subsequent : List Content → ℕ) (contents : List Content) (limit : ℕ)
    → IsPacked first subsequent limit contents
        (pack_content_into_chunks first subsequent contents limit)
unfolding pack_content_into_chunks
pack_content_into_chunks-IsPacked first subsequent contents limit =
    pack_loop-IsPacked first subsequent limit contents [] [] contents tt (λ h. absurd (cc h)) refl
      (λ c there. there)
