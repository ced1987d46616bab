-- ===== src/Config/Sizes/RoundTrip.antt =====
-- src/config.rs: a printed number with a suffix is read back, and no size leaves 64 bits.
use mathlib.Core.List.{reverse, reverse-append, reverse-reverse}
use inf_splitter.Prelude.{
  Bool, Bool-cases, String, [], ap, arith, err, false, if◌then◌else◌, inl, inr, leb, ltb, none, ok,
  refl, some, suc, sym, true, zero, ℕ, ◌%◌, ◌*◌, ◌++◌, ◌+◌, ◌-◌, ◌/◌, ◌<◌, ◌^◌, ◌∙◌, ◌∷◌, ◌≡◌, ◌≢◌,
  ◌≤◌,
}
use inf_splitter.Prelude.Text.{
  Text, digits_value, drop_while, is_digit, is_whitespace, parse_u64, strip_last, trim, trim_end,
  u64_max,
}
use inf_splitter.Config.Sizes.{
  checked_mul, duration_of, is_empty, number_before, parse_byte_size, parse_duration, size_of,
  size_with,
}

print_from : ℕ → ℕ → Text
print_from zero n = (48 + n % 10) ∷ []
print_from (suc fuel) n =
    let front = print_from fuel (n / 10) in
    if ltb n 10 then (48 + n) ∷ [] else front ++ (48 + n % 10) ∷ []

-- The decimal digits of a number; it has no more than its value and one.
pub print : ℕ → Text
unfolding print_from
print n = print_from n n

-- A text of digits with at least one.
abbrev IsNumeral : Text → Type 0
IsNumeral s = (c : ℕ) × (rest : Text) × (s ≡ c ∷ rest) × (is_digit c ≡ true)

print_from-IsNumeral : (fuel n : ℕ) → IsNumeral (print_from fuel n)
unfolding print_from is_digit
print_from-IsNumeral zero n = (48 + n % 10, [], refl, ground arith)
print_from-IsNumeral (suc fuel) n = elim (Bool-cases (ltb n 10)) [
  | inl small ↦ (48 + n, [], rw (small, print_from) refl, ground arith)
  | inr big ↦
      let (c, rest, e, d) = print_from-IsNumeral fuel (n / 10) in
      (c, rest ++ (48 + n % 10) ∷ [], rw (big, print_from, e) refl, d)
]

digits_value-concat :
    (acc v d : ℕ) (s : Text)
    → digits_value acc s ≡ some v
    → d < 10
    → digits_value acc (s ++ (48 + d) ∷ []) ≡ some (v * 10 + d)
unfolding digits_value
digits_value-concat acc v d [] e h = ground arith
digits_value-concat acc v d (c ∷ s) e h =
    ground (arith, digits_value-concat (acc * 10 + (c - 48)) v d s)

digits_value-print_from : (fuel n : ℕ) → n ≤ fuel → digits_value 0 (print_from fuel n) ≡ some n
unfolding print_from digits_value
digits_value-print_from zero n h = ground arith
digits_value-print_from (suc fuel) n h = elim (Bool-cases (ltb n 10)) [
  | inl small ↦ rw (small, print_from) (ground arith)
  | inr big ↦
      rw (big, print_from)
        (digits_value-concat 0 (n / 10) (n % 10) (print_from fuel (n / 10))
            (digits_value-print_from fuel (n / 10) (ground arith)) (omega arith)
          ∙ ap some (omega arith))
]

parse_u64-print : (n : ℕ) → n ≤ u64_max → parse_u64 (print n) ≡ some n
unfolding print parse_u64
parse_u64-print n h =
    let (c, rest, e, d) = print_from-IsNumeral n n in
    ground (arith, e, digits_value-print_from n n (omega arith), d)

strip_last-concat : (s : Text) (c : ℕ) → strip_last c (s ++ c ∷ []) ≡ some s
unfolding strip_last
strip_last-concat [] c = ground arith
strip_last-concat (x ∷ []) c = ground arith
strip_last-concat (x ∷ y ∷ s) c = ground (arith, strip_last-concat (y ∷ s) c)

strip_last-other : (s : Text) (c d : ℕ) → d ≢ c → strip_last c (s ++ d ∷ []) ≡ none
unfolding strip_last
strip_last-other [] c d h = ground arith
strip_last-other (x ∷ []) c d h = ground arith
strip_last-other (x ∷ y ∷ s) c d h = ground (arith, strip_last-other (y ∷ s) c d h)

digit-not-whitespace : (c : ℕ) → is_digit c ≡ true → is_whitespace c ≡ false
unfolding is_digit is_whitespace
digit-not-whitespace c h = ground arith

drop_while-keep : (p : ℕ → Bool) (c : ℕ) (s : Text) → p c ≡ false → drop_while p (c ∷ s) ≡ c ∷ s
unfolding drop_while
drop_while-keep p c s h = rw (h, drop_while)

pub trim_end-concat :
    (p : ℕ → Bool) (s : Text) (c : ℕ) → p c ≡ false → trim_end p (s ++ c ∷ []) ≡ s ++ c ∷ []
unfolding trim_end
trim_end-concat p s c h =
    let back : reverse (s ++ c ∷ []) ≡ c ∷ reverse s = reverse-append s (c ∷ []) in
    ap (λ r. reverse (drop_while p r)) back
    ∙ ap reverse (drop_while-keep p c (reverse s) h)
    ∙ ap reverse (sym back)
    ∙ reverse-reverse (s ++ c ∷ [])

trim-concat :
    (a : ℕ) (s : Text) (c : ℕ)
    → is_whitespace a ≡ false
    → is_whitespace c ≡ false
    → trim (a ∷ s ++ c ∷ []) ≡ a ∷ s ++ c ∷ []
unfolding trim
trim-concat a s c ha hc =
    ap (trim_end is_whitespace) (drop_while-keep is_whitespace a (s ++ c ∷ []) ha)
    ∙ trim_end-concat is_whitespace (a ∷ s) c hc

trim-print : (n c : ℕ) → is_whitespace c ≡ false → trim (print n ++ c ∷ []) ≡ print n ++ c ∷ []
unfolding print
trim-print n c h =
    let (a, rest, e, d) = print_from-IsNumeral n n in
    rw e (trim-concat a rest c (digit-not-whitespace a d) h)

printed : (n : ℕ) {s : Text} → print_from n n ≡ s → print n ≡ s
unfolding print
printed n e = e

not_empty : (n c : ℕ) → is_empty (print n ++ c ∷ []) ≡ false
not_empty n c = let (a, rest, e, d) = print_from-IsNumeral n n in rw (printed n e) refl

number_before-print :
    (n : ℕ) (message : String) → n ≤ u64_max → number_before (print n) message ≡ ok n
unfolding number_before
number_before-print n message h =
    let (a, rest, e, d) = print_from-IsNumeral n n in
    ground (arith, printed n e, parse_u64-print n h)

duration_of-print :
    (n : ℕ)
    → n ≤ u64_max
    → (duration_of (print n ++ b's' ∷ []) ≡ ok n)
      × (duration_of (print n ++ b'm' ∷ [])
          ≡ (if leb (n * 60) u64_max then ok (n * 60) else err "duration overflow"))
unfolding duration_of checked_mul
duration_of-print n h = (
  ground (
    arith,
    not_empty n b's',
    strip_last-concat (print n) b's',
    number_before-print n "expected integer before 's'" h,
  ),
  ground (
    arith,
    not_empty n b'm',
    strip_last-other (print n) b's' b'm' (omega arith),
    strip_last-concat (print n) b'm',
    number_before-print n "expected integer before 'm'" h,
  ),
)

-- A number of seconds or minutes that fits in 64 bits is read back as it is printed; a number of
-- minutes whose seconds do not fit is refused.
pub parse_duration-print :
    (n : ℕ)
    → n ≤ u64_max
    → (parse_duration (print n ++ b's' ∷ []) ≡ ok n)
      × (parse_duration (print n ++ b'm' ∷ [])
          ≡ (if leb (n * 60) u64_max then ok (n * 60) else err "duration overflow"))
unfolding parse_duration is_whitespace
parse_duration-print n h = (
  ap duration_of (trim-print n b's' refl) ∙ (duration_of-print n h).0,
  ap duration_of (trim-print n b'm' refl) ∙ (duration_of-print n h).1,
)

pub data SizeUnit : Type 0 where
  kib mib gib : SizeUnit

abbrev pub suffix_of : SizeUnit → ℕ
suffix_of kib = b'k'
suffix_of mib = b'm'
suffix_of gib = b'g'

abbrev pub bytes_in : SizeUnit → ℕ
bytes_in kib = 2 ^ 10
bytes_in mib = 2 ^ 20
bytes_in gib = 2 ^ 30

size_of-print :
    (u : SizeUnit) (n : ℕ)
    → n ≤ u64_max
    → size_of (print n ++ suffix_of u ∷ [])
      ≡ (if leb (n * bytes_in u) u64_max then ok (n * bytes_in u) else err "size overflow")
unfolding size_of size_with checked_mul
size_of-print kib n h = ground (
  arith,
  not_empty n b'k',
  strip_last-concat (print n) b'k',
  number_before-print n "expected integer before 'k'" h,
)
size_of-print mib n h = ground (
  arith,
  not_empty n b'm',
  strip_last-other (print n) b'k' b'm' (omega arith),
  strip_last-concat (print n) b'm',
  number_before-print n "expected integer before 'm'" h,
)
size_of-print gib n h = ground (
  arith,
  not_empty n b'g',
  strip_last-other (print n) b'k' b'g' (omega arith),
  strip_last-other (print n) b'm' b'g' (omega arith),
  strip_last-concat (print n) b'g',
  number_before-print n "expected integer before 'g'" h,
)

suffix-not-whitespace : (u : SizeUnit) → is_whitespace (suffix_of u) ≡ false
unfolding is_whitespace
suffix-not-whitespace kib = refl
suffix-not-whitespace mib = refl
suffix-not-whitespace gib = refl

-- A printed number with the suffix of a unit is read as that many units, and refused exactly if
-- the product leaves 64 bits.
pub parse_byte_size-print :
    (u : SizeUnit) (n : ℕ)
    → n ≤ u64_max
    → parse_byte_size (print n ++ suffix_of u ∷ [])
      ≡ (if leb (n * bytes_in u) u64_max then ok (n * bytes_in u) else err "size overflow")
unfolding parse_byte_size
parse_byte_size-print u n h =
    ap size_of (trim-print n (suffix_of u) (suffix-not-whitespace u)) ∙ size_of-print u n h
