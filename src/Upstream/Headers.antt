-- ===== src/Upstream/Headers.antt =====
-- The headers of an upstream's answer that are passed on: `relay_response_headers` of src/openai.rs
-- and `copy_response_headers` of src/anthropic.rs.
use inf_splitter.Prelude.{
  Bool, List, Option, [], any, if◌then◌else◌, none, some, ◌++◌, ◌==◌, ◌||◌, ◌∷◌,
}
use inf_splitter.Prelude.Text.{Text_eq, Text, starts_with}
use inf_splitter.Diagnostics.Masking.{to_ascii_lowercase}
use inf_splitter.Prelude.Bytes.{chars}
use inf_splitter.Upstream.{AnswerHeaders}
use inf_splitter.Auth.{or_empty}

-- the pairs of a dump, with the empty text for a value that is none
unfoldable pub all_pairs : AnswerHeaders → List (Text × Text)
all_pairs [] = []
all_pairs ((name, value) ∷ headers) = (name, or_empty value) ∷ all_pairs headers

-- filter_map by the name, of the values that are texts
unfoldable pub kept_headers : (Text → Bool) → AnswerHeaders → List (Text × Text)
kept_headers keep [] = []
kept_headers keep ((name, none) ∷ headers) = kept_headers keep headers
kept_headers keep ((name, some value) ∷ headers) =
    let rest = kept_headers keep headers in if keep name then (name, value) ∷ rest else rest

-- the first of the pairs whose name passes
unfoldable pub find_pair : (Text → Bool) → List (Text × Text) → Option Text
find_pair test [] = none
find_pair test ((name, value) ∷ pairs) =
    let rest = find_pair test pairs in if test name then some value else rest

-- a header is added under a name that is not there, with the value of a header that is
unfoldable pub mirror : Text → (Text → Bool) → List (Text × Text) → List (Text × Text)
mirror target source pairs =
    if any (λ (p : Text × Text). p.0 == target) pairs
    then pairs
    else elim (find_pair source pairs) [ none ↦ pairs | some value ↦ pairs ++ (target, value) ∷ [] ]

abbrev session_header : Text
session_header = chars "x-claude-code-session-id"

unfoldable pub openai_keeps : Text → Bool
openai_keeps name =
    let lower = to_ascii_lowercase name in
    lower == chars "content-type"
    || starts_with (chars "x-ratelimit-") lower
    || lower == chars "x-request-id"
    || lower == chars "request-id"
    || lower == session_header
    || starts_with (chars "openai-") lower

unfoldable pub relay_response_headers : AnswerHeaders → List (Text × Text)
relay_response_headers headers =
    mirror session_header (λ n. n == chars "x-request-id" || n == chars "request-id")
      (kept_headers openai_keeps headers)

abbrev pub anthropic_kept : List Text
anthropic_kept =
    chars "content-type"
    ∷ chars "request-id"
    ∷ chars "x-request-id"
    ∷ session_header
    ∷ chars "anthropic-ratelimit-requests-limit"
    ∷ chars "anthropic-ratelimit-requests-remaining"
    ∷ chars "anthropic-ratelimit-requests-reset"
    ∷ chars "anthropic-ratelimit-tokens-limit"
    ∷ chars "anthropic-ratelimit-tokens-remaining"
    ∷ chars "anthropic-ratelimit-tokens-reset"
    ∷ []

unfoldable pub copy_response_headers : AnswerHeaders → List (Text × Text)
copy_response_headers headers =
    mirror (chars "x-request-id") (λ n. n == session_header)
      (kept_headers (λ name. any (λ k. name == k) anthropic_kept) headers)
