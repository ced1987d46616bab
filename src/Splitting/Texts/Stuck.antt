-- ===== src/Splitting/Texts/Stuck.antt =====
-- src/interactions_handler.rs: when `split_by_best_delimiter` leaves a chunk that is too large.
use inf_splitter.Prelude.{
  ℕ_eq, All, Bool-cases, List, [], ap, arith, concat, false, inl, inr, leb, length, ltb, refl, sym,
  true, ℕ, ◌++◌, ◌<◌, ◌==◌, ◌∙◌, ◌∷◌, ◌≡◌, ◌≤◌, ◌⊎◌,
}
use inf_splitter.Splitting.Texts.{
  Cut, add_part, add_parts, candidate, front, join_parts, last_of, push_chunk,
  split_by_best_delimiter, split_on, start_chunk, take_finer,
}
use inf_splitter.Prelude.Text.{Text, contains}
use inf_splitter.Splitting.Texts.Kept.{IsDelimiter, split_by_best_delimiter-keeps, unmarked}
use inf_splitter.Splitting.Texts.Parts.{
  Inside, Inside-self, Inside-trans, IsPart, Parts-All, contains-Inside, split_on-Parts,
}

-- a piece of the text above the limit that no delimiter cuts, or of which delimiters take all
pub record HasUncut (ds : List Text) (limit : ℕ) (text : Text) : Type 0 where
  pub piece : Text
  pub inside : Inside piece text
  pub large : limit < length piece
  pub uncut : All (λ d. contains d piece ≡ false) ds ⊎ (unmarked piece ≡ [])

-- the chunk fits, or there is such a piece
abbrev pub FitsOr : Type 0 → ℕ → Text → Type 0
FitsOr Big limit c = (length c ≤ limit) ⊎ Big

All-big : {Big : Type 0} (limit : ℕ) (cs : List Text) → Big → All (FitsOr Big limit) cs
All-big limit [] big = tt
All-big limit (c ∷ cs) big = (inr big, All-big limit cs big)

All-append : (P : Text → Type 0) (xs ys : List Text) → All P xs → All P ys → All P (xs ++ ys)
All-append P [] ys a b = b
All-append P (x ∷ xs) ys (h, a) b = (h, All-append P xs ys a b)

All-lift : {P Q : Text → Type 0} (xs : List Text) → ((x : Text) → P x → Q x) → All P xs → All Q xs
All-lift [] f a = tt
All-lift (x ∷ xs) f (h, a) = (f x h, All-lift xs f a)

module _ (Big : Type 0) (finer : Text → List Text) (limit : ℕ) (delim : Text) where
  -- a part that is cut further, or cannot be
  abbrev CutsOr : Text → Type 0
  CutsOr part = All (FitsOr Big limit) (finer part) × (finer part ≡ [] → limit < length part → Big)

  abbrev CutFits : Cut → Type 0
  CutFits (result, current) = All (FitsOr Big limit) result × FitsOr Big limit current

  push_chunk-Fits :
      (result : List Text) (current : Text)
      → CutFits (result, current)
      → All (FitsOr Big limit) (push_chunk finer limit result current)
  unfolding push_chunk
  push_chunk-Fits result [] (a, fits) = a
  push_chunk-Fits result (c ∷ current) (a, inr big) =
      All-big limit (push_chunk finer limit result (c ∷ current)) big
  push_chunk-Fits result (c ∷ current) (a, inl fits) =
      elim (Bool-cases (ltb limit (length (c ∷ current)))) [
        | inl large ↦ absurd (ground (arith, large, fits))
        | inr small ↦
            rw (small, push_chunk)
              (All-append (FitsOr Big limit) result ((c ∷ current) ∷ []) a (inl fits, tt))
      ]

  front-last-Fits :
      (s : Text) (sub : List Text)
      → All (FitsOr Big limit) (s ∷ sub)
      → All (FitsOr Big limit) (front (s ∷ sub)) × FitsOr Big limit (last_of (s ∷ sub))
  front-last-Fits s [] (h, a) = (tt, h)
  front-last-Fits s (t ∷ sub) (h, a) = let (b, l) = front-last-Fits t sub a in ((h, b), l)

  take_finer-Fits :
      (result : List Text) (part : Text) (sub : List Text)
      → All (FitsOr Big limit) result
      → All (FitsOr Big limit) sub
      → (sub ≡ [] → Big)
      → CutFits (take_finer result part sub)
  take_finer-Fits result part [] a b none_left = (
    All-append (FitsOr Big limit) result (part ∷ []) a (inr (none_left refl), tt),
    inl (omega arith),
  )
  take_finer-Fits result part (s ∷ sub) a b none_left =
      let (f, l) = front-last-Fits s sub b in
      (All-append (FitsOr Big limit) result (front (s ∷ sub)) a f, l)

  start_chunk-Fits :
      (result : List Text) (part : Text)
      → All (FitsOr Big limit) result
      → CutsOr part
      → CutFits (start_chunk finer limit result part)
  unfolding start_chunk
  start_chunk-Fits result part a (cuts, stuck) = elim (Bool-cases (leb (length part) limit)) [
    | inl fits ↦ rw (fits, start_chunk) (a, inl (ground arith))
    | inr large ↦
        rw (large, start_chunk)
          (take_finer-Fits result part (finer part) a cuts (λ e. stuck e (ground arith)))
  ]

  add_part-Fits :
      (cut : Cut) (part : Text)
      → CutFits cut
      → CutsOr part
      → CutFits (add_part finer limit delim cut part)
  unfolding add_part
  add_part-Fits (result, current) part (a, fits) cuts =
      elim (Bool-cases (leb (length (candidate delim current part)) limit)) [
        | inl joined ↦ rw (joined, add_part) (a, inl (ground arith))
        | inr large ↦
            rw (large, add_part)
              (start_chunk-Fits (push_chunk finer limit result current) part
                (push_chunk-Fits result current (a, fits)) cuts)
      ]

  add_parts-Fits :
      (cut : Cut) (parts : List Text)
      → CutFits cut
      → All CutsOr parts
      → CutFits (add_parts finer limit delim cut parts)
  unfolding add_parts
  add_parts-Fits cut [] fits cuts = fits
  add_parts-Fits cut (part ∷ parts) fits (h, cuts) =
      add_parts-Fits (add_part finer limit delim cut part) parts (add_part-Fits cut part fits h)
        cuts

  join_parts-Fits :
      (parts : List Text)
      → All CutsOr parts
      → All (FitsOr Big limit) (join_parts finer limit delim parts)
  unfolding join_parts
  join_parts-Fits parts cuts =
      let cut = add_parts finer limit delim ([], []) parts in
      push_chunk-Fits cut.0 cut.1 (add_parts-Fits ([], []) parts (tt, inl (omega arith)) cuts)

HasUncut-part :
    (d : Text) (ds : List Text) (limit : ℕ) (part text : Text)
    → IsPart d text part
    → HasUncut ds limit part
    → HasUncut (d ∷ ds) limit text
HasUncut-part d ds limit part text (i, free) v = record {
  piece = v.piece;
  inside = Inside-trans v.piece part text v.inside i;
  large = v.large;
  uncut = elim v.uncut [
    | inl none_of ↦ inl (contains-Inside d v.piece part v.inside free, none_of)
    | inr marks ↦ inr marks
  ];
}

FitsOr-part :
    (d : Text) (ds : List Text) (limit : ℕ) (part text : Text)
    → IsPart d text part
    → (c : Text) → FitsOr (HasUncut ds limit part) limit c
    → FitsOr (HasUncut (d ∷ ds) limit text) limit c
FitsOr-part d ds limit part text is c (inl fits) = inl fits
FitsOr-part d ds limit part text is c (inr v) = inr (HasUncut-part d ds limit part text is v)

-- a text that is cut to nothing is all of delimiters
pub HasUncut-marks :
    (ds' ds : List Text) (limit : ℕ) (part text : Text)
    → All IsDelimiter ds
    → Inside part text
    → split_by_best_delimiter ds limit part ≡ []
    → limit < length part
    → HasUncut ds' limit text
unfolding unmarked
HasUncut-marks ds' ds limit part text a i nothing large = record {
  piece = part;
  inside = i;
  large = large;
  uncut = inr (
      sym (split_by_best_delimiter-keeps ds limit part a)
      ∙ ap (λ cs. unmarked (concat cs)) nothing);
}

pub split_by_best_delimiter-Fits :
    (ds : List Text) (limit : ℕ) (text : Text)
    → All IsDelimiter ds
    → All (FitsOr (HasUncut ds limit text) limit) (split_by_best_delimiter ds limit text)
unfolding split_by_best_delimiter
split_by_best_delimiter-Fits [] limit text a = elim (Bool-cases (leb (length text) limit)) [
  | inl fits ↦ (inl (ground arith), tt)
  | inr large ↦ (
    inr (record { piece = text; inside = Inside-self text; large = ground arith; uncut = inl tt }),
    tt,
  )
]
split_by_best_delimiter-Fits ([] ∷ ds) limit text ((some_d, marks), a) = absurd (omega arith)
split_by_best_delimiter-Fits ((x ∷ d) ∷ ds) limit text (del, a) =
    let v = split_on-Parts x d 0 text in
    let finer = split_by_best_delimiter ds limit in
    elim (Bool-cases (length (split_on (x ∷ d) 0 text) == 1)) [
      | inl single ↦
          rw (single, split_by_best_delimiter)
            (All-lift (split_by_best_delimiter ds limit text)
              (FitsOr-part (x ∷ d) ds limit text text (
                Inside-self text,
                v.single (one_part v.first v.more (ap (λ l. length l == 1) (sym v.is) ∙ single)),
              ))
              (split_by_best_delimiter-Fits ds limit text a))
      | inr several ↦
          rw (several, split_by_best_delimiter)
            (join_parts-Fits (HasUncut ((x ∷ d) ∷ ds) limit text) finer limit (x ∷ d)
              (split_on (x ∷ d) 0 text)
              (All-lift (split_on (x ∷ d) 0 text)
                (λ part is. (
                  All-lift (finer part) (FitsOr-part (x ∷ d) ds limit part text is)
                      (split_by_best_delimiter-Fits ds limit part a),
                  HasUncut-marks ((x ∷ d) ∷ ds) ds limit part text a is.0,
                ))
                (Parts-All (x ∷ d) text (split_on (x ∷ d) 0 text) v)))
    ]
  where
    one_part : (p : Text) (more : List Text) → (length (p ∷ more) == 1) ≡ true → more ≡ []
    one_part p [] h = refl
    one_part p (q ∷ more) h = absurd (ground arith)
