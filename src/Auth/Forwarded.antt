-- ===== src/Auth/Forwarded.antt =====
-- src/auth.rs: the headers that the forwarding blocks.
use inf_splitter.Prelude.{
  All, Bool-cases, List, Option, [], any, ap, false, if◌then◌else◌, inl, inr, none, not, refl, some,
  true, ◌&&◌, ◌++◌, ◌==◌, ◌||◌, ◌∙◌, ◌∷◌, ◌≡◌,
}
use inf_splitter.Prelude.Text.{Text_eq, Text, text_eq_iff}
use inf_splitter.Auth.{
  HeaderMap, copy_headers, forward_request_headers_map, has_key, hop_by_hop, insert_source,
  is_auth_header, or_empty, passes, same_name, should_forward_request_header, target_key, with_key,
}
use inf_splitter.Diagnostics.Masking.{to_ascii_lowercase}
use inf_splitter.Router.{Protocol, anthropic, open_ai}
use inf_splitter.Prelude.Bytes.{chars}

-- two names that differ at most in case are treated alike
passes-same :
    (api_key : Option Text) (a b : Text)
    → same_name a b ≡ true
    → passes api_key a ≡ passes api_key b
unfolding passes should_forward_request_header is_auth_header
passes-same api_key a b same =
    let is = (text_eq_iff (to_ascii_lowercase a) (to_ascii_lowercase b)).0 same in
    ap
      (λ (x : Text).
        not (any (λ name. x == name) hop_by_hop)
        && not (has_key api_key && (x == chars "x-api-key" || x == chars "authorization"))
        && not (
            x == to_ascii_lowercase (chars "x-request-id")
            || x == to_ascii_lowercase (chars "x-client-request-id")))
      is

module _ {M : Type 0} (h : HeaderMap M) where
  copy_headers-blocked :
      (api_key : Option Text) (headers : List (Text × Text)) (out : M) (n : Text)
      → passes api_key n ≡ false
      → h.get (copy_headers h api_key headers out) n ≡ h.get out n
  unfolding copy_headers
  copy_headers-blocked api_key [] out n blocked = refl
  copy_headers-blocked api_key ((name, value) ∷ headers) out n blocked =
      elim (Bool-cases (passes api_key name)) [
        | inr stays ↦ rw (stays, copy_headers) (copy_headers-blocked api_key headers out n blocked)
        | inl goes ↦ elim (Bool-cases (same_name name n)) [
          | inl same ↦ absurd (cc (passes-same api_key name n same, goes, blocked))
          | inr differ ↦
              rw (goes, copy_headers)
                (copy_headers-blocked api_key headers (h.insert out name value) n blocked
                  ∙ (rw (h.get-insert out name n value, differ) refl))
        ]
      ]

  insert_source-other :
      (protocol : Protocol) (source : Option Text) (out : M) (n : Text)
      → same_name (target_key h protocol) n ≡ false
      → h.get (insert_source h protocol source out) n ≡ h.get out n
  insert_source-other protocol none out n differ = refl
  insert_source-other protocol (some val) out n differ =
      rw (h.get-insert out (target_key h protocol) n val, differ) refl

  -- Of a blocked header, the upstream sees what the proxy itself set, never the client's value: a header that is hop-by-hop, or describes the body, or is a request id, or, where the section has a key, carries authorization, has in the forwarded map the value it has in the map of the section's key alone. The one exception is the header that the correlation id is mapped to.
  pub forward_request_headers_map-blocked :
      (api_key : Option Text) (headers : M) (protocol : Protocol) (n : Text)
      → passes api_key n ≡ false
      → same_name (target_key h protocol) n ≡ false
      → h.get (forward_request_headers_map h api_key headers protocol) n
        ≡ h.get (with_key h api_key) n
  unfolding forward_request_headers_map
  forward_request_headers_map-blocked api_key headers protocol n blocked other =
      insert_source-other protocol _
        (copy_headers h api_key (h.entries headers) (with_key h api_key)) n other
      ∙ copy_headers-blocked api_key (h.entries headers) (with_key h api_key) n blocked

  -- the map of the key alone
  with_key-get :
      (key n : Text)
      → h.get (with_key h (some key)) n ≡ (
          if same_name (chars "Authorization") n
          then some (or_empty (h.from_str (chars "Bearer " ++ key)))
          else if same_name (chars "x-api-key") n
          then some (or_empty (h.from_str key))
          else none)
  unfolding with_key
  with_key-get key n =
      h.get-insert _ (chars "Authorization") n _
      ∙ ap
          (λ o.
            if same_name (chars "Authorization") n
            then some (or_empty (h.from_str (chars "Bearer " ++ key)))
            else o)
          (h.get-insert h.empty_map (chars "x-api-key") n _
            ∙ ap
                (λ o.
                  if same_name (chars "x-api-key") n then some (or_empty (h.from_str key)) else o)
                (h.get-empty n))

  target-other :
      (protocol : Protocol) (n : Text)
      → same_name (chars "x-claude-code-session-id") n ≡ false
      → same_name (chars "X-Client-Request-Id") n ≡ false
      → same_name (target_key h protocol) n ≡ false
  unfolding target_key
  target-other anthropic n claude client = claude
  target-other open_ai n claude client = client

  set_by_key :
      (key : Text) (headers : M) (protocol : Protocol) (n : Text) {v : Option Text}
      → passes (some key) n ≡ false
      → same_name (chars "x-claude-code-session-id") n ≡ false
      → same_name (chars "X-Client-Request-Id") n ≡ false
      → h.get (with_key h (some key)) n ≡ v
      → h.get (forward_request_headers_map h (some key) headers protocol) n ≡ v
  set_by_key key headers protocol n blocked claude client is =
      forward_request_headers_map-blocked (some key) headers protocol n blocked
        (target-other protocol n claude client)
      ∙ is

  own_name :
      (key : Text) (headers : M) (protocol : Protocol) (n : Text)
      → passes (some key) n ≡ false
      → same_name (chars "x-claude-code-session-id") n ≡ false
      → same_name (chars "X-Client-Request-Id") n ≡ false
      → same_name (chars "Authorization") n ≡ false
      → same_name (chars "x-api-key") n ≡ false
      → h.get (forward_request_headers_map h (some key) headers protocol) n ≡ none
  own_name key headers protocol n blocked claude client auth api =
      set_by_key key headers protocol n blocked claude client
        (with_key-get key n ∙ (rw (auth, api) refl))

  pub forward_request_headers_map-key :
      (key : Text) (headers : M) (protocol : Protocol)
      → let out = forward_request_headers_map h (some key) headers protocol in
        (h.get out (chars "x-api-key") ≡ some (or_empty (h.from_str key)))
        × (h.get out (chars "authorization")
            ≡ some (or_empty (h.from_str (chars "Bearer " ++ key))))
        × (h.get out (chars "x-request-id") ≡ none)
        × All (λ name. h.get out name ≡ none) hop_by_hop
  unfolding passes should_forward_request_header is_auth_header to_ascii_lowercase
  forward_request_headers_map-key key headers protocol =
      let absent = own_name key headers protocol in
      (
        set_by_key key headers protocol (chars "x-api-key") refl refl refl
            (with_key-get key (chars "x-api-key")),
        set_by_key key headers protocol (chars "authorization") refl refl refl
            (with_key-get key (chars "authorization")),
        absent (chars "x-request-id") refl refl refl refl refl,
        (
          absent (chars "host") refl refl refl refl refl,
          (
            absent (chars "connection") refl refl refl refl refl,
            (
              absent (chars "content-length") refl refl refl refl refl,
              (
                absent (chars "content-type") refl refl refl refl refl,
                (
                  absent (chars "transfer-encoding") refl refl refl refl refl,
                  (
                    absent (chars "te") refl refl refl refl refl,
                    (
                      absent (chars "trailers") refl refl refl refl refl,
                      (
                        absent (chars "upgrade") refl refl refl refl refl,
                        (absent (chars "keep-alive") refl refl refl refl refl, tt),
                      ),
                    ),
                  ),
                ),
              ),
            ),
          ),
        ),
      )
