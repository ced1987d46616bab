-- ===== src/Splitting/Texts/Kept.antt =====
-- src/interactions_handler.rs: what the splitting of a system instruction keeps of its text.
use inf_splitter.Prelude.{
  ℕ_eq, All, Bool, Bool-cases, List, [], all, ap, append-nil, append_assoc, arith, concat,
  concat-append, drop, if◌then◌else◌, inl, inr, leb, length, ltb, refl, suc, sym, true, zero, ℕ,
  ◌++◌, ◌-◌, ◌<◌, ◌==◌, ◌||◌, ◌∙◌, ◌∷◌, ◌≡◌,
}
use inf_splitter.Prelude.Text.{Text_eq, Text, starts_with}
use inf_splitter.Splitting.Texts.{
  Cut, add_part, add_parts, candidate, front, join_parts, last_of, onto_first, push_chunk,
  split_by_best_delimiter, split_on, start_chunk, take_finer,
}

-- the bytes of the delimiters
abbrev pub is_mark : ℕ → Bool
is_mark c = c == 10 || c == b'.' || c == b'!' || c == b'?' || c == b',' || c == b';' || c == b' '

-- the text without the bytes of delimiters
unfoldable pub unmarked : Text → Text
unmarked [] = []
unmarked (c ∷ s) = let rest = unmarked s in if is_mark c then rest else c ∷ rest

unmarked-append : (s t : Text) → unmarked (s ++ t) ≡ unmarked s ++ unmarked t
unfolding unmarked
unmarked-append [] t = refl
unmarked-append (c ∷ s) t = elim (Bool-cases (is_mark c)) [
  | inl mark ↦ rw (mark, unmarked) (unmarked-append s t)
  | inr other ↦ rw (other, unmarked) (ap (λ r. c ∷ r) (unmarked-append s t))
]

unmarked-marks : (d : Text) → all is_mark d ≡ true → unmarked d ≡ []
unfolding unmarked
unmarked-marks [] h = refl
unmarked-marks (c ∷ d) h = ground (arith, unmarked-marks d)

pub starts_with-drop : (p s : Text) → starts_with p s ≡ true → s ≡ p ++ drop (length p) s
unfolding starts_with
starts_with-drop [] s h = refl
starts_with-drop (a ∷ p) [] h = absurd (ground arith)
starts_with-drop (a ∷ p) (c ∷ s) h = ground (arith, starts_with-drop p s)

onto_first-concat : (c : ℕ) (parts : List Text) → concat (onto_first c parts) ≡ c ∷ concat parts
onto_first-concat c [] = refl
onto_first-concat c (part ∷ parts) = refl

-- the delimiter is not empty and of delimiter bytes
abbrev pub IsDelimiter : Text → Type 0
IsDelimiter d = (0 < length d) × (all is_mark d ≡ true)

-- what follows a match, without marks
unmarked-after :
    (d : Text) (c : ℕ) (s : Text)
    → IsDelimiter d
    → starts_with d (c ∷ s) ≡ true
    → unmarked (c ∷ s) ≡ unmarked (drop (length d - 1) s)
unmarked-after [] c s (some_d, marks) match = absurd (omega arith)
unmarked-after (a ∷ d) c s (some_d, marks) match =
    ap unmarked (starts_with-drop (a ∷ d) (c ∷ s) match)
    ∙ unmarked-append (a ∷ d) (drop (length d) s)
    ∙ ap (λ r. r ++ unmarked (drop (length d) s)) (unmarked-marks (a ∷ d) marks)
    ∙ ap (λ n. unmarked (drop n s)) pred
  where
    pred : length d ≡ length (a ∷ d) - 1
    pred = omega arith

split_on-unmarked :
    (d : Text) (skip : ℕ) (s : Text)
    → IsDelimiter d
    → unmarked (concat (split_on d skip s)) ≡ unmarked (drop skip s)
unfolding split_on
split_on-unmarked d zero [] del = refl
split_on-unmarked d (suc skip) [] del = refl
split_on-unmarked d (suc skip) (c ∷ s) del = split_on-unmarked d skip s del
split_on-unmarked d zero (c ∷ s) del = elim (Bool-cases (starts_with d (c ∷ s))) [
  | inl match ↦
      rw (match, split_on)
        (split_on-unmarked d (length d - 1) s del ∙ sym (unmarked-after d c s del match))
  | inr other ↦
      rw (other, split_on)
        (ap unmarked (onto_first-concat c (split_on d 0 s))
          ∙ unmarked-append (c ∷ []) (concat (split_on d 0 s))
          ∙ ap (λ r. unmarked (c ∷ []) ++ r) (split_on-unmarked d 0 s del)
          ∙ sym (unmarked-append (c ∷ []) s))
]

unmarked-push :
    (result : List Text) (chunk : Text)
    → unmarked (concat (result ++ chunk ∷ [])) ≡ unmarked (concat result) ++ unmarked chunk
unmarked-push result chunk =
    ap unmarked
      (concat-append result (chunk ∷ []) ∙ ap (λ r. concat result ++ r) (append-nil chunk))
    ∙ unmarked-append (concat result) chunk

unmarked-join :
    (result more : List Text)
    → unmarked (concat (result ++ more)) ≡ unmarked (concat result) ++ unmarked (concat more)
unmarked-join result more =
    ap unmarked (concat-append result more) ∙ unmarked-append (concat result) (concat more)

front-last :
    (s : Text) (sub : List Text) → concat (front (s ∷ sub)) ++ last_of (s ∷ sub) ≡ concat (s ∷ sub)
front-last s [] = sym (append-nil s)
front-last s (t ∷ sub) =
    append_assoc s (concat (front (t ∷ sub))) (last_of (t ∷ sub))
    ∙ ap (λ r. s ++ r) (front-last t sub)

-- what a state of the loop has kept
abbrev kept_by : Cut → Text
kept_by (result, current) = unmarked (concat result) ++ unmarked current

module _ (finer : Text → List Text)
    (finer_keeps : (t : Text) → unmarked (concat (finer t)) ≡ unmarked t) (limit : ℕ) (delim : Text)
    (del : IsDelimiter delim) where
  push_chunk-keeps :
      (result : List Text) (current : Text)
      → unmarked (concat (push_chunk finer limit result current)) ≡ kept_by (result, current)
  unfolding push_chunk unmarked
  push_chunk-keeps result [] = sym (append-nil (unmarked (concat result)))
  push_chunk-keeps result (c ∷ current) = elim (Bool-cases (ltb limit (length (c ∷ current)))) [
    | inl large ↦
        rw (large, push_chunk)
          (unmarked-join result (finer (c ∷ current))
            ∙ ap (λ r. unmarked (concat result) ++ r) (finer_keeps (c ∷ current)))
    | inr fits ↦ rw (fits, push_chunk) (unmarked-push result (c ∷ current))
  ]

  take_finer-keeps :
      (result : List Text) (part : Text) (sub : List Text)
      → unmarked (concat sub) ≡ unmarked part
      → kept_by (take_finer result part sub) ≡ kept_by (result, part)
  unfolding unmarked
  take_finer-keeps result part [] same = append-nil _ ∙ unmarked-push result part
  take_finer-keeps result part (s ∷ sub) same =
      ap (λ r. r ++ unmarked (last_of (s ∷ sub))) (unmarked-join result (front (s ∷ sub)))
      ∙ append_assoc (unmarked (concat result)) (unmarked (concat (front (s ∷ sub))))
          (unmarked (last_of (s ∷ sub)))
      ∙ ap (λ r. unmarked (concat result) ++ r)
          (sym (unmarked-append (concat (front (s ∷ sub))) (last_of (s ∷ sub)))
            ∙ ap unmarked (front-last s sub)
            ∙ same)

  start_chunk-keeps :
      (result : List Text) (part : Text)
      → kept_by (start_chunk finer limit result part) ≡ kept_by (result, part)
  unfolding start_chunk
  start_chunk-keeps result part = elim (Bool-cases (leb (length part) limit)) [
    | inl fits ↦ rw (fits, start_chunk) refl
    | inr large ↦
        rw (large, start_chunk) (take_finer-keeps result part (finer part) (finer_keeps part))
  ]

  candidate-keeps :
      (current part : Text)
      → unmarked (candidate delim current part) ≡ unmarked current ++ unmarked part
  unfolding unmarked
  candidate-keeps [] part = refl
  candidate-keeps (c ∷ current) part =
      unmarked-append (c ∷ current) (delim ++ part)
      ∙ ap (λ r. unmarked (c ∷ current) ++ r)
          (unmarked-append delim part ∙ ap (λ r. r ++ unmarked part) (unmarked-marks delim del.1))

  add_part-keeps :
      (cut : Cut) (part : Text)
      → kept_by (add_part finer limit delim cut part) ≡ kept_by cut ++ unmarked part
  unfolding add_part
  add_part-keeps (result, current) part =
      elim (Bool-cases (leb (length (candidate delim current part)) limit)) [
        | inl fits ↦
            rw (fits, add_part)
              (ap (λ r. unmarked (concat result) ++ r) (candidate-keeps current part)
                ∙ sym (append_assoc (unmarked (concat result)) (unmarked current) (unmarked part)))
        | inr large ↦
            rw (large, add_part)
              (start_chunk-keeps (push_chunk finer limit result current) part
                ∙ ap (λ r. r ++ unmarked part) (push_chunk-keeps result current))
      ]

  add_parts-keeps :
      (cut : Cut) (parts : List Text)
      → kept_by (add_parts finer limit delim cut parts) ≡ kept_by cut ++ unmarked (concat parts)
  unfolding add_parts unmarked
  add_parts-keeps cut [] = sym (append-nil (kept_by cut))
  add_parts-keeps cut (part ∷ parts) =
      add_parts-keeps (add_part finer limit delim cut part) parts
      ∙ ap (λ r. r ++ unmarked (concat parts)) (add_part-keeps cut part)
      ∙ append_assoc (kept_by cut) (unmarked part) (unmarked (concat parts))
      ∙ ap (λ r. kept_by cut ++ r) (sym (unmarked-append part (concat parts)))

  join_parts-keeps :
      (parts : List Text)
      → unmarked (concat (join_parts finer limit delim parts)) ≡ unmarked (concat parts)
  unfolding join_parts unmarked
  join_parts-keeps parts =
      let cut = add_parts finer limit delim ([], []) parts in
      push_chunk-keeps cut.0 cut.1 ∙ add_parts-keeps ([], []) parts

pub split_by_best_delimiter-keeps :
    (ds : List Text) (limit : ℕ) (text : Text)
    → All IsDelimiter ds
    → unmarked (concat (split_by_best_delimiter ds limit text)) ≡ unmarked text
unfolding split_by_best_delimiter
split_by_best_delimiter-keeps [] limit text a = ap unmarked (append-nil text)
split_by_best_delimiter-keeps (d ∷ ds) limit text (del, a) =
    elim (Bool-cases (length (split_on d 0 text) == 1)) [
      | inl single ↦
          rw (single, split_by_best_delimiter) (split_by_best_delimiter-keeps ds limit text a)
      | inr parts ↦
          rw (parts, split_by_best_delimiter)
            (join_parts-keeps (split_by_best_delimiter ds limit)
                (λ t. split_by_best_delimiter-keeps ds limit t a) limit d del (split_on d 0 text)
              ∙ split_on-unmarked d 0 text del)
    ]
