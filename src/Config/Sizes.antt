-- ===== src/Config/Sizes.antt =====
-- src/config.rs: `parse_duration`, `parse_byte_size` and `cap_numeric_field`'s limit. A `Duration`
-- is its number of seconds; `usize` has 64 bits, so the last conversion of a size never fails.
pub mod RoundTrip
use inf_splitter.Prelude.{
  Bool, Option, Option-cases, Result, String, [], arith, err, false, if◌then◌else◌, inl, inr, leb,
  none, ok, refl, some, true, ℕ, ◌*◌, ◌>>=◌, ◌∷◌, ◌≡◌, ◌≤◌,
}
use inf_splitter.Prelude.Bytes.{chars}
use inf_splitter.Prelude.Text.{Text, parse_u64, strip_last, trim, u64_max}

-- n.checked_mul(k) on u64
unfoldable pub checked_mul : ℕ → ℕ → Option ℕ
checked_mul n k = if leb (n * k) u64_max then some (n * k) else none

abbrev pub ok_or {ℓ κ} : {E : Type ℓ} {A : Type κ} → Option A → E → Result E A
ok_or none e = err e
ok_or (some a) e = ok a

abbrev pub is_empty : Text → Bool
is_empty [] = true
is_empty (_ ∷ _) = false

-- the number before a suffix
unfoldable pub number_before : Text → String → Result String ℕ
number_before s message = if is_empty s then err message else ok_or (parse_u64 s) message

-- the branches for 's' and 'm', after `trim`
unfoldable pub duration_of : Text → Result String ℕ
duration_of raw = if is_empty raw then err "must not be empty" else elim (strip_last b's' raw) [
  | some secs ↦ number_before secs "expected integer before 's'"
  | none ↦ elim (strip_last b'm' raw) [
    | some mins ↦ do
      n ← number_before mins "expected integer before 'm'"
      ok_or (checked_mul n 60) "duration overflow"
    | none ↦ err "expected suffix 's' or 'm' (e.g. 15s, 1m)"
  ]
]

unfoldable pub parse_duration : Text → Result String ℕ
parse_duration raw = duration_of (trim raw)

-- `none` where the suffix does not fit, and the loop goes on
unfoldable pub size_with : ℕ → ℕ → String → Text → Option (Result String ℕ)
size_with suffix multiplier message raw = elim (strip_last suffix raw) [
  | none ↦ none
  | some val ↦
      some (do n ← number_before val message; ok_or (checked_mul n multiplier) "size overflow")
]

abbrev pub or_else {ℓ} : {A : Type ℓ} → Option A → A → A
or_else none a = a
or_else (some a) _ = a

unfoldable pub size_of : Text → Result String ℕ
size_of raw =
    if is_empty raw
    then err "must not be empty"
    else or_else (size_with b'k' 1024 "expected integer before 'k'" raw) (
        or_else (size_with b'm' (1024 * 1024) "expected integer before 'm'" raw) (
          or_else (size_with b'g' (1024 * 1024 * 1024) "expected integer before 'g'" raw)
            (err "expected suffix 'k', 'm', or 'g' (e.g. 512k, 2m, 1g)")))

unfoldable pub parse_byte_size : Text → Result String ℕ
parse_byte_size raw = size_of (trim raw)

-- src/config.rs and the README: `15s`, `1m`, `512k`, `2m`
documented_sizes :
    (parse_duration (chars " 15s ") ≡ ok 15)
    × (parse_duration (chars "1m") ≡ ok 60)
    × (parse_duration (chars "15") ≡ err "expected suffix 's' or 'm' (e.g. 15s, 1m)")
    × (parse_duration (chars "307445734561825861m") ≡ err "duration overflow")
    × (parse_byte_size (chars "512k") ≡ ok (512 * 1024))
    × (parse_byte_size (chars "2m") ≡ ok (2 * 1024 * 1024))
    × (parse_byte_size (chars "") ≡ err "must not be empty")
unfolding parse_duration parse_byte_size duration_of size_of size_with number_before checked_mul
    trim strip_last parse_u64
documented_sizes = (refl, refl, refl, refl, refl, refl, refl)

digits_value-le : (s : Text) (n : ℕ) → parse_u64 s ≡ some n → n ≤ u64_max
unfolding parse_u64
digits_value-le s n e = ground arith

number_before-le :
    (s : Text) (message : String) (n : ℕ) → number_before s message ≡ ok n → n ≤ u64_max
unfolding number_before
number_before-le s message n e = elim (Option-cases (parse_u64 s)) [
  | inl bad ↦ ground (arith, bad)
  | inr (m, good) ↦ ground (arith, good, digits_value-le s m good)
]
