-- ===== src/Prelude/Bytes.antt =====
-- Texts as lists of code points, where the program looks into them, and their order. Rust orders
-- a `String` by its UTF-8 bytes, which is the order of the code points.
use Prim.Native.Nat.{ℕ, zero, suc, ◌/◌, ◌%◌}
use Prim.Native.String
use Prim.Native.Char.{code}
use Prim.Native.String.{String}
use mathlib.Core.Path.{◌≡◌, refl}
use mathlib.Core.Bool.{Bool, true, false}
use mathlib.Core.List.{List, [], ◌∷◌}
use inf_splitter.Prelude.Tests.{if◌then◌else◌, ltb, nat_eq}

-- `String` has its own `[]` and `∷`.
abbrev pub chars : String → List ℕ
chars String.[] = []
chars (String.◌∷◌ c s) = code c ∷ chars s

unfoldable pub lt_chars : List ℕ → List ℕ → Bool
lt_chars [] [] = false
lt_chars [] (_ ∷ _) = true
lt_chars (_ ∷ _) [] = false
lt_chars (a ∷ as') (b ∷ bs) = if nat_eq a b then lt_chars as' bs else ltb a b

-- s < t on strings
unfoldable pub lt_string : String → String → Bool
unfolding lt_chars
lt_string s t = lt_chars (chars s) (chars t)

-- decimal digits, as `format!` prints a number
unfoldable pub digit : ℕ → String
digit d =
    if nat_eq d 0
    then "0"
    else if nat_eq d 1
    then "1"
    else if nat_eq d 2
    then "2"
    else if nat_eq d 3
    then "3"
    else if nat_eq d 4
    then "4"
    else if nat_eq d 5
    then "5"
    else if nat_eq d 6
    then "6"
    else if nat_eq d 7
    then "7"
    else if nat_eq d 8
    then "8"
    else "9"

decimal_from : ℕ → ℕ → String
decimal_from zero n = ""
decimal_from (suc fuel) n =
    let front = decimal_from fuel (n / 10) in
    if ltb n 10 then digit n else String.◌++◌ front (digit (n % 10))

-- a number below 10 ^ k has at most k digits, so its successor is fuel enough
unfoldable pub decimal : ℕ → String
unfolding decimal_from digit
decimal n = decimal_from (suc n) n

decimal_runs : decimal 1718 ≡ "1718"
unfolding decimal
decimal_runs = refl
