-- ===== src/Auth.antt =====
-- src/auth.rs: which headers of a request reach an upstream. `HeaderMap` is the operations of the
-- http crate's map that the source uses, with its documented law: names are compared without regard
-- to case, and an insertion replaces. `from_str` is the check of a header value.
pub mod Forwarded
pub mod Samples
mod Tests
use inf_splitter.Prelude.{
  Bool, List, Option, [], any, false, if◌then◌else◌, none, not, some, true, ◌&&◌, ◌++◌, ◌==◌, ◌||◌,
  ◌∷◌, ◌≡◌,
}
use inf_splitter.Prelude.Text.{Text_eq, Text}
use inf_splitter.Prelude.Bytes.{chars}
use inf_splitter.Diagnostics.Masking.{to_ascii_lowercase}
use inf_splitter.Router.{Protocol, anthropic, open_ai}

abbrev pub same_name : Text → Text → Bool
same_name a b = to_ascii_lowercase a == to_ascii_lowercase b

pub record HeaderMap (M : Type 0) : Type 0 where
  pub empty_map : M
  pub get : M → Text → Option Text
  pub insert : M → Text → Text → M
  pub entries : M → List (Text × Text)
  pub from_str : Text → Option Text
  -- the documented laws
  pub get-empty : (n : Text) → get empty_map n ≡ none
  pub get-insert :
      (m : M) (k n v : Text) → get (insert m k v) n ≡ (if same_name k n then some v else get m n)

unfoldable pub is_auth_header : Text → Bool
is_auth_header name =
    to_ascii_lowercase name == chars "x-api-key" || to_ascii_lowercase name == chars "authorization"

abbrev pub hop_by_hop : List Text
hop_by_hop =
    chars "host"
    ∷ chars "connection"
    ∷ chars "content-length"
    ∷ chars "content-type"
    ∷ chars "transfer-encoding"
    ∷ chars "te"
    ∷ chars "trailers"
    ∷ chars "upgrade"
    ∷ chars "keep-alive"
    ∷ []

unfoldable pub should_forward_request_header : Text → Bool
should_forward_request_header name = not (any (λ h. to_ascii_lowercase name == h) hop_by_hop)

abbrev pub has_key : Option Text → Bool
has_key none = false
has_key (some _) = true

-- the three `continue`s of the loop
unfoldable pub passes : Option Text → Text → Bool
passes api_key name =
    should_forward_request_header name
    && not (has_key api_key && is_auth_header name)
    && not (same_name name (chars "x-request-id") || same_name name (chars "x-client-request-id"))

abbrev pub or_empty : Option Text → Text
or_empty none = []
or_empty (some v) = v

abbrev pub first_of : Option Text → Option Text → Option Text
first_of none b = b
first_of (some a) b = some a

module _ {M : Type 0} (h : HeaderMap M) where
  unfoldable pub with_key : Option Text → M
  with_key none = h.empty_map
  with_key (some key) =
      h.insert (h.insert h.empty_map (chars "x-api-key") (or_empty (h.from_str key)))
        (chars "Authorization") (or_empty (h.from_str (chars "Bearer " ++ key)))

  unfoldable pub copy_headers : Option Text → List (Text × Text) → M → M
  copy_headers api_key [] out = out
  copy_headers api_key ((name, value) ∷ headers) out = elim (passes api_key name) [
    | true ↦ copy_headers api_key headers (h.insert out name value)
    | false ↦ copy_headers api_key headers out
  ]

  unfoldable pub target_key : Protocol → Text
  target_key anthropic = chars "x-claude-code-session-id"
  target_key open_ai = chars "X-Client-Request-Id"

  abbrev pub insert_source : Protocol → Option Text → M → M
  insert_source protocol none out = out
  insert_source protocol (some val) out = h.insert out (target_key protocol) val

  unfoldable pub forward_request_headers_map : Option Text → M → Protocol → M
  forward_request_headers_map api_key headers protocol =
      let out = copy_headers api_key (h.entries headers) (with_key api_key) in
      insert_source protocol
        (first_of (h.get out (chars "x-claude-code-session-id")) (
          first_of (h.get headers (chars "X-Client-Request-Id"))
            (h.get headers (chars "x-request-id"))))
        out
