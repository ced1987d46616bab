-- ===== src/Auth/Tests.antt =====
-- The theorems on the forwarding of headers with a map of lower-case names.
use inf_splitter.Prelude.{All, none, some, ◌++◌, ◌≡◌}
use inf_splitter.Prelude.Text.{Text_eq}
use inf_splitter.Auth.{forward_request_headers_map, hop_by_hop, or_empty}
use inf_splitter.Prelude.Bytes.{chars}
use inf_splitter.Router.{open_ai}
use inf_splitter.Auth.Forwarded.{forward_request_headers_map-key}
use inf_splitter.Auth.Samples.{client_headers, lower_map}

forward_request_headers_map-key_example :
    let out = forward_request_headers_map lower_map (some (chars "k")) client_headers open_ai in
    (lower_map.get out (chars "x-api-key") ≡ some (or_empty (lower_map.from_str (chars "k"))))
    × (lower_map.get out (chars "authorization")
        ≡ some (or_empty (lower_map.from_str (chars "Bearer " ++ chars "k"))))
    × (lower_map.get out (chars "x-request-id") ≡ none)
    × All (λ name. lower_map.get out name ≡ none) hop_by_hop
forward_request_headers_map-key_example =
    forward_request_headers_map-key lower_map (chars "k") client_headers open_ai
