-- ===== src/Sse/Substitute.antt =====
-- src/sse.rs, `MemSseBuffer::substitute_id`: what the replacement of identifiers does to the bytes
-- and to the count.
use inf_splitter.Prelude.{
  ℕ_eq, Bool-cases, List, [], ap, arith, drop, false, inl, inr, length, length-append, map, refl,
  some, subst, suc, sym, true, zero, ℕ, ◌++◌, ◌-◌, ◌<◌, ◌==◌, ◌∙◌, ◌∷◌, ◌≡◌, ◌≤◌,
}
use inf_splitter.Sse.{MemSseBuffer, replace, substitute_id}
use inf_splitter.Sse.Buffer.{Ascending, IsBuffer, bytes_of, total_bytes}
use inf_splitter.Prelude.Text.{starts_with}
use inf_splitter.Splitting.Texts.Kept.{starts_with-drop}

length-starts_with : (p s : List ℕ) → starts_with p s ≡ true → length p ≤ length s
unfolding starts_with
length-starts_with [] s h = omega arith
length-starts_with (a ∷ p) [] h = absurd (ground arith)
length-starts_with (a ∷ p) (c ∷ s) h = ground (arith, length-starts_with p s)

length-replace :
    (from to : List ℕ) (skip : ℕ) (s : List ℕ)
    → 0 < length from
    → length to ≡ length from
    → length (replace from to skip s) ≡ length s - skip
unfolding replace
length-replace from to skip [] some_from same = omega arith
length-replace from to (suc skip) (c ∷ s) some_from same =
    omega (arith, length-replace from to skip s some_from same)
length-replace from to zero (c ∷ s) some_from same = elim (Bool-cases (starts_with from (c ∷ s))) [
  | inl match ↦
      rw (match, replace)
        (length-append to (replace from to (length from - 1) s)
          ∙ omega (
            arith,
            length-replace from to (length from - 1) s some_from same,
            length-starts_with from (c ∷ s) match,
          ))
  | inr other ↦ rw (other, replace) (omega (arith, length-replace from to 0 s some_from same))
]

-- the second text is the first with every occurrence replaced, found from the left
pub data Replaced (from to : List ℕ) : List ℕ → List ℕ → Type 0 where
  finished : Replaced from to [] []
  here : (s s' : List ℕ) → Replaced from to s s' → Replaced from to (from ++ s) (to ++ s')
  passed :
      (c : ℕ) (s s' : List ℕ)
      → starts_with from (c ∷ s) ≡ false
      → Replaced from to s s'
      → Replaced from to (c ∷ s) (c ∷ s')

replace-drop :
    (from to : List ℕ) (skip : ℕ) (s : List ℕ)
    → replace from to skip s ≡ replace from to 0 (drop skip s)
unfolding replace
replace-drop from to zero s = refl
replace-drop from to (suc skip) [] = refl
replace-drop from to (suc skip) (c ∷ s) = replace-drop from to skip s

length-drop : (n : ℕ) (s : List ℕ) → length (drop n s) ≤ length s
length-drop zero s = omega arith
length-drop (suc n) [] = omega arith
length-drop (suc n) (c ∷ s) = omega (arith, length-drop n s)

-- the number bounds the length of the text
replace-Replaced :
    (bound a : ℕ) (from to s : List ℕ)
    → length s ≤ bound
    → Replaced (a ∷ from) to s (replace (a ∷ from) to 0 s)
unfolding replace
replace-Replaced bound a from to [] fits = finished
replace-Replaced zero a from to (c ∷ s) fits = absurd (omega arith)
replace-Replaced (suc bound) a from to (c ∷ s) fits =
    elim (Bool-cases (starts_with (a ∷ from) (c ∷ s))) [
      | inl match ↦
          let rest = drop (length from) s in
          let split : (c ∷ s) ≡ (a ∷ from) ++ rest = starts_with-drop (a ∷ from) (c ∷ s) match in
          let same : replace (a ∷ from) to (length (a ∷ from) - 1) s
              ≡ replace (a ∷ from) to 0 rest =
            ap (λ n. replace (a ∷ from) to n s) (omega arith)
            ∙ replace-drop (a ∷ from) to (length from) s in
          rw (match, replace, same)
            (subst (λ t. Replaced (a ∷ from) to t (to ++ replace (a ∷ from) to 0 rest)) (sym split)
              (here rest (replace (a ∷ from) to 0 rest) (
                replace-Replaced bound a from to rest
                  (omega (arith, length-drop (length from) s)))))
      | inr other ↦
          rw (other, replace)
            (passed c s (replace (a ∷ from) to 0 s) other
              (replace-Replaced bound a from to s (omega arith)))
    ]

module _ (from to : List ℕ) (some_from : 0 < length from) (same : length to ≡ length from) where
  abbrev replaced : List (ℕ × List ℕ) → List (ℕ × List ℕ)
  replaced pieces = map (λ p. (p.0, replace from to 0 p.1)) pieces

  total_bytes-replaced :
      (pieces : List (ℕ × List ℕ)) → total_bytes (replaced pieces) ≡ total_bytes pieces
  total_bytes-replaced [] = refl
  total_bytes-replaced ((idx, data') ∷ pieces) =
      omega (arith, total_bytes-replaced pieces, length-replace from to 0 data' some_from same)

  Ascending-replaced :
      (bound : ℕ) (pieces : List (ℕ × List ℕ))
      → Ascending bound pieces
      → Ascending bound (replaced pieces)
  Ascending-replaced bound [] a = tt
  Ascending-replaced bound ((idx, data') ∷ pieces) (low, a) =
      (low, Ascending-replaced (suc idx) pieces a)

-- Replacing an identifier by one of the same length, neither of them empty, replaces every occurrence that is found from the left in the bytes of each piece and nothing else, and keeps the buffer well-formed, so that the count is still the bytes there.
pub substitute_id-IsBuffer :
    (b : MemSseBuffer) (c : ℕ) (from to : List ℕ)
    → IsBuffer b
    → length to ≡ length (c ∷ from)
    → (b' : MemSseBuffer) × (substitute_id (c ∷ from) to b ≡ some b')
      × IsBuffer b'
      × ((j : ℕ) → Replaced (c ∷ from) to (bytes_of j b.pieces) (bytes_of j b'.pieces))
unfolding substitute_id
substitute_id-IsBuffer b c from to v same = (
  record b { pieces = map (λ p. (p.0, replace (c ∷ from) to 0 p.1)) b.pieces },
  refl,
  record {
    ordered = Ascending-replaced (c ∷ from) to (omega arith) same 0 b.pieces v.ordered;
    counted = v.counted ∙ sym (total_bytes-replaced (c ∷ from) to (omega arith) same b.pieces);
    bounded = v.bounded;
  },
  λ j. each j b.pieces,
)
  where
    each :
        (j : ℕ) (pieces : List (ℕ × List ℕ))
        → Replaced
            (c ∷ from)
            to
            (bytes_of j pieces)
            (bytes_of j (map (λ p. (p.0, replace (c ∷ from) to 0 p.1)) pieces))
    each j [] = finished
    each j ((idx, data') ∷ pieces) = elim (Bool-cases (idx == j)) [
      | inl found ↦ rw found (replace-Replaced (length data') c from to data' (omega arith))
      | inr other ↦ rw other (each j pieces)
    ]
