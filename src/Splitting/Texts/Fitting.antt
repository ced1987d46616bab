-- ===== src/Splitting/Texts/Fitting.antt =====
-- src/interactions_handler.rs: the answer of `split_text_for_limit`.
use inf_splitter.Prelude.{
  ℕ_eq, All, Bool-cases, List, Result, [], any, ap, append-nil, arith, concat, err, false, inl, inr,
  leb, length, ltb, ok, refl, true, ℕ, ◌+◌, ◌-◌, ◌<◌, ◌==◌, ◌||◌, ◌∷◌, ◌≡◌, ◌≤◌,
}
use inf_splitter.Prelude.Text.{Text_eq, Text}
use inf_splitter.Splitting.Texts.{
  SplitError, delimiters, no_chunks, overhead_exceeds, split_by_best_delimiter,
  split_text_for_limit, unable_to_split,
}
use inf_splitter.Splitting.Texts.Kept.{IsDelimiter, split_by_best_delimiter-keeps, unmarked}
use inf_splitter.Splitting.Texts.Stuck.{
  FitsOr, HasUncut, HasUncut-marks, split_by_best_delimiter-Fits,
}
use inf_splitter.Splitting.Texts.Parts.{Inside-self}

-- the answer for a text, a limit and the bytes that the envelope takes of it
abbrev pub IsSplit : Text → ℕ → ℕ → Result SplitError (List Text) → Type 0
IsSplit text limit overhead (ok chunks) =
    (overhead < limit)
    × (no_chunks chunks ≡ false)
    × All (λ c. overhead + length c ≤ limit) chunks
    × (unmarked (concat chunks) ≡ unmarked text)
IsSplit text limit overhead (err (overhead_exceeds o l)) =
    (limit ≤ overhead) × (o ≡ overhead) × (l ≡ limit)
IsSplit text limit overhead (err (unable_to_split l effective o)) =
    (overhead < limit)
    × (effective ≡ limit - overhead)
    × (o ≡ overhead)
    × (l ≡ limit)
    × (limit < overhead + length text)
    × HasUncut delimiters (limit - overhead) text

small_chunks :
    (limit overhead : ℕ) (chunks : List Text)
    → overhead < limit
    → any (λ c. ltb (limit - overhead) (length c)) chunks ≡ false
    → All (λ c. overhead + length c ≤ limit) chunks
small_chunks limit overhead [] room h = tt
small_chunks limit overhead (c ∷ chunks) room h =
    (ground arith, small_chunks limit overhead chunks room (ground arith))

delimiters-IsDelimiter : All IsDelimiter delimiters
delimiters-IsDelimiter = (
  (omega arith, refl),
  (
    (omega arith, refl),
    (
      (omega arith, refl),
      (
        (omega arith, refl),
        (
          (omega arith, refl),
          ((omega arith, refl), ((omega arith, refl), ((omega arith, refl), tt))),
        ),
      ),
    ),
  ),
)

stuck :
    (limit : ℕ) (text : Text) (chunks : List Text)
    → split_by_best_delimiter delimiters limit text ≡ chunks
    → limit < length text
    → (no_chunks chunks || any (λ c. ltb limit (length c)) chunks) ≡ true
    → All (FitsOr (HasUncut delimiters limit text) limit) chunks
    → HasUncut delimiters limit text
stuck limit text [] nothing long bad fits =
    HasUncut-marks delimiters delimiters limit text text delimiters-IsDelimiter (Inside-self text)
      nothing long
stuck limit text (c ∷ chunks) is long bad fits = one_large (c ∷ chunks) bad fits
  where
    one_large :
        (cs : List Text)
        → any (λ c. ltb limit (length c)) cs ≡ true
        → All (FitsOr (HasUncut delimiters limit text) limit) cs
        → HasUncut delimiters limit text
    one_large [] h a = absurd (ground arith)
    one_large (c ∷ cs) h (inr big, a) = big
    one_large (c ∷ cs) h (inl fits, a) = one_large cs (ground (arith, fits)) a

-- The splitting of a system instruction either gives at least one chunk, each within the limit together with the envelope's bytes, that keep the whole text in order but for bytes of delimiters (line breaks, spaces and the marks . ! ? , ;), or it fails, reporting the sizes. It fails where the envelope alone reaches the limit, or else only on a text that does not fit as it is and that contains a piece of more bytes than the envelope leaves in which no delimiter occurs, or which is all of bytes of delimiters.
pub split_text_for_limit-IsSplit :
    (text : Text) (limit overhead : ℕ)
    → IsSplit text limit overhead (split_text_for_limit text limit overhead)
unfolding split_text_for_limit
split_text_for_limit-IsSplit text limit overhead = elim (Bool-cases (limit - overhead == 0)) [
  | inl none_left ↦ rw (none_left, split_text_for_limit) (ground arith, refl, refl)
  | inr room ↦ elim (Bool-cases (leb (length text) (limit - overhead))) [
    | inl whole ↦
        rw (room, whole, split_text_for_limit)
          (ground arith, refl, (ground arith, tt), ap unmarked (append-nil text))
    | inr long ↦
        let chunks = split_by_best_delimiter delimiters (limit - overhead) text in
        elim (Bool-cases
          (no_chunks chunks || any (λ c. ltb (limit - overhead) (length c)) chunks)) [
            | inl bad ↦
                rw (room, long, bad, split_text_for_limit)
                  (
                    ground arith,
                    refl,
                    refl,
                    refl,
                    ground arith,
                    stuck (limit - overhead) text chunks refl (ground arith) bad (
                        split_by_best_delimiter-Fits delimiters (limit - overhead) text
                          delimiters-IsDelimiter),
                  )
            | inr good ↦
                rw (room, long, good, split_text_for_limit)
                  (
                    ground arith,
                    ground arith,
                    small_chunks limit overhead chunks (ground arith) (ground arith),
                    split_by_best_delimiter-keeps delimiters (limit - overhead) text
                        delimiters-IsDelimiter,
                  )
          ]
  ]
]
