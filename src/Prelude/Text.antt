-- ===== src/Prelude/Text.antt =====
-- `str` operations of the Rust standard library on texts as lists: of code points where the
-- program asks for white space, of UTF-8 bytes where it measures lengths.
use mathlib.Core.List.{reverse}
use inf_splitter.Prelude.Tests.{ℕ_eq, HashKey, if◌then◌else◌, leb, nat_eq}
use inf_splitter.Prelude.Bytes.{chars}
use Prim.Native.Nat.{ℕ, ◌+◌, ◌-◌, ◌*◌, ◌^◌}
use mathlib.Core.Path.{◌≡◌, refl}
use mathlib.Core.Logic.{◌↔◌}
use mathlib.Core.Bool.{Bool, true, false, ◌&&◌, ◌||◌}
use mathlib.Core.Option.{Option, none, some}
use mathlib.Core.List.{List, [], ◌∷◌}
use native.Mathlib.Omega.{arith}

abbrev pub Text : Type 0
Text = List ℕ

abbrev pub text_eq : Text → Text → Bool
text_eq [] [] = true
text_eq (a ∷ s) (b ∷ t) = nat_eq a b && text_eq s t
text_eq _ _ = false

pub text_eq_iff : (s t : Text) → (text_eq s t ≡ true) ↔ (s ≡ t)
text_eq_iff [] [] = (λ _. refl, λ _. refl)
text_eq_iff [] (b ∷ t) = (λ h. cc, λ h. cc)
text_eq_iff (a ∷ s) [] = (λ h. cc, λ h. cc)
text_eq_iff (a ∷ s) (b ∷ t) =
    (λ h. ground (arith, (text_eq_iff s t).0), λ h. ground (arith, (text_eq_iff s t).1))

instance abbrev pub Text_eq : HashKey Text
Text_eq = record { same = text_eq; agrees = text_eq_iff }

-- char::is_whitespace, the Unicode property White_Space
unfoldable pub is_whitespace : ℕ → Bool
is_whitespace c =
    leb 9 c && leb c 13
    || nat_eq c 32
    || nat_eq c 133
    || nat_eq c 160
    || nat_eq c 5760
    || leb 8192 c && leb c 8202
    || nat_eq c 8232
    || nat_eq c 8233
    || nat_eq c 8239
    || nat_eq c 8287
    || nat_eq c 12288

unfoldable pub drop_while : (ℕ → Bool) → Text → Text
drop_while p [] = []
drop_while p (c ∷ s) = let rest = drop_while p s in if p c then rest else c ∷ s

-- s.trim_end_matches(p)
unfoldable pub trim_end : (ℕ → Bool) → Text → Text
unfolding drop_while
trim_end p s = reverse (drop_while p (reverse s))

unfoldable pub trim : Text → Text
unfolding trim_end is_whitespace
trim s = trim_end is_whitespace (drop_while is_whitespace s)

-- s.strip_suffix(c) for one character
unfoldable pub strip_last : ℕ → Text → Option Text
strip_last c [] = none
strip_last c (x ∷ []) = if nat_eq x c then some [] else none
strip_last c (x ∷ y ∷ s) = elim (strip_last c (y ∷ s)) [ none ↦ none | some r ↦ some (x ∷ r) ]

-- s.strip_prefix(p)
unfoldable pub strip_prefix : Text → Text → Option Text
strip_prefix [] s = some s
strip_prefix (a ∷ p) [] = none
strip_prefix (a ∷ p) (c ∷ s) = if nat_eq a c then strip_prefix p s else none

unfoldable pub starts_with : Text → Text → Bool
starts_with [] s = true
starts_with (a ∷ p) [] = false
starts_with (a ∷ p) (c ∷ s) = nat_eq a c && starts_with p s

-- s.contains(p)
unfoldable pub contains : Text → Text → Bool
unfolding starts_with
contains p [] = starts_with p []
contains p (c ∷ s) = starts_with p (c ∷ s) || contains p s

abbrev pub u64_max : ℕ
u64_max = 2 ^ 64 - 1

abbrev pub u32_max : ℕ
u32_max = 2 ^ 32 - 1

unfoldable pub is_digit : ℕ → Bool
is_digit c = leb 48 c && leb c 57

-- the value of a text of digits
unfoldable pub digits_value : ℕ → Text → Option ℕ
unfolding is_digit
digits_value acc [] = some acc
digits_value acc (c ∷ s) =
    let rest = digits_value (acc * 10 + (c - 48)) s in if is_digit c then rest else none

abbrev pub below_max : Option ℕ → Option ℕ
below_max none = none
below_max (some n) = if leb n u64_max then some n else none

-- what follows an optional plus sign
unfoldable pub after_plus : Text → Text
after_plus [] = []
after_plus (c ∷ s) = if nat_eq c b'+' then s else c ∷ s

unfoldable pub some_digits : Text → Option ℕ
unfolding digits_value
some_digits [] = none
some_digits (c ∷ s) = digits_value 0 (c ∷ s)

-- s.parse::<u64>(): digits after an optional plus sign, no overflow
unfoldable pub parse_u64 : Text → Option ℕ
unfolding after_plus some_digits
parse_u64 s = below_max (some_digits (after_plus s))

parse_u64_runs :
    (parse_u64 (chars "+042") ≡ some 42)
    × (parse_u64 (chars "+") ≡ none)
    × (parse_u64 (chars "18446744073709551616") ≡ none)
    × (parse_u64 (chars "18446744073709551615") ≡ some u64_max)
unfolding parse_u64
parse_u64_runs = (refl, refl, refl, refl)

trim_runs : trim (chars "  a b ") ≡ chars "a b"
unfolding trim
trim_runs = refl
