-- ===== src/Auth/Samples.antt =====
-- A map of headers with lower-case names, for the tests.
use inf_splitter.Prelude.{[], refl, some, ◌∷◌}
use inf_splitter.Prelude.Dict
use inf_splitter.Prelude.Text.{Text_eq, Text}
use inf_splitter.Prelude.Dict.{HashMap}
use inf_splitter.Auth.{HeaderMap}
use inf_splitter.Diagnostics.Masking.{to_ascii_lowercase}
use inf_splitter.Prelude.Bytes.{chars}

pub lower_map : HeaderMap (HashMap Text Text)
unfolding Dict.get Dict.lookup
lower_map = record {
  empty_map = Dict.empty;
  get = λ m n. Dict.get m (to_ascii_lowercase n);
  insert = λ m k v. Dict.insert m (to_ascii_lowercase k) v;
  entries = λ m. m.entries;
  from_str = λ v. some v;
  get-empty = λ n. refl;
  get-insert = λ m k n v. Dict.get-insert m (to_ascii_lowercase k) (to_ascii_lowercase n) v;
}

abbrev pub client_headers : HashMap Text Text
client_headers = record {
  entries =
      (chars "authorization", chars "Bearer mine")
      ∷ (chars "host", chars "proxy")
      ∷ (chars "accept", chars "any")
      ∷ [];
}
