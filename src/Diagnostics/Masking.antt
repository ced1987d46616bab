-- ===== src/Diagnostics/Masking.antt =====
-- src/diagnostics.rs: bodies and headers of a dump. A header's value is what `to_str` gives of it,
-- and `none` where it gives an error; `Codec` is UTF-8 and base64 of the libraries.
use inf_splitter.Prelude.{
  Bool, List, Option, [], if◌then◌else◌, leb, length, ltb, map, none, some, take, ℕ, ◌&&◌, ◌+◌,
  ◌==◌, ◌||◌, ◌∷◌,
}
use inf_splitter.Prelude.Text.{Text_eq, Text}
use inf_splitter.Diagnostics.{DumpBody, base64, utf8}
use inf_splitter.Prelude.Bytes.{chars}

pub record Codec : Type 0 where
  pub from_utf8 : List ℕ → Option Text
  pub encode : List ℕ → Text

abbrev pub max_non_utf8_dump_len : ℕ
max_non_utf8_dump_len = 65536

-- a prefix of the body, of at most the limit
unfoldable pub truncated : List ℕ → List ℕ
truncated body =
    if ltb max_non_utf8_dump_len (length body) then take max_non_utf8_dump_len body else body

unfoldable pub dump_body_from_bytes : Codec → List ℕ → DumpBody
dump_body_from_bytes codec body = elim (codec.from_utf8 body) [
  | some s ↦ utf8 s
  | none ↦ base64 (codec.encode (truncated body))
]

-- u8::to_ascii_lowercase
abbrev pub lower : ℕ → ℕ
lower c = if leb 65 c && leb c 90 then c + 32 else c

unfoldable pub to_ascii_lowercase : Text → Text
to_ascii_lowercase s = map lower s

unfoldable pub is_sensitive_header : Text → Bool
is_sensitive_header name =
    to_ascii_lowercase name == chars "x-goog-api-key"
    || to_ascii_lowercase name == chars "authorization"
    || to_ascii_lowercase name == chars "x-api-key"

-- the value that a dump shows
abbrev pub shown : Text → Text → Text
shown name value = if is_sensitive_header name then chars "***" else value

-- a header whose value is no text is left out
unfoldable pub header_pairs_with_masking : List (Text × Option Text) → List (Text × Text)
header_pairs_with_masking [] = []
header_pairs_with_masking ((name, none) ∷ headers) = header_pairs_with_masking headers
header_pairs_with_masking ((name, some value) ∷ headers) =
    (name, shown name value) ∷ header_pairs_with_masking headers

unfoldable pub mask_header_values : List (Text × Text) → List (Text × Text)
mask_header_values [] = []
mask_header_values ((name, value) ∷ headers) = (name, shown name value) ∷ mask_header_values headers
