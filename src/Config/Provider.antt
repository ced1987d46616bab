-- ===== src/Config/Provider.antt =====
-- src/config.rs: one provider section, from its raw form to the checked one. `Host` is what the
-- section's secrets are read from and checked by: the environment, the files under `secrets/`, the
-- legality of a header value and the parser of socket addresses. A `usize` limit has 64 bits.
use Prim.Native.String
use inf_splitter.Prelude.{
  ℕ_eq, Bool, List, Option, Result, String, [], any, err, false, if◌then◌else◌, map_err, none, ok,
  some, true, ℕ, ◌==◌, ◌>>=◌, ◌∷◌,
}
use inf_splitter.Prelude.Dict
use inf_splitter.Prelude.Sets
use inf_splitter.Prelude.Sets.{HashSet}
use inf_splitter.Prelude.Text.{Text_eq, Text, strip_last, strip_prefix, trim, trim_end}
use inf_splitter.Config.Fields.{DropFields, per_model}
use inf_splitter.Config.Sizes.{parse_byte_size, parse_duration}
use inf_splitter.Prelude.Bytes.{chars}

pub data ModelsField : Type 0 where
  single : Text → ModelsField
  list : List Text → ModelsField

pub record ProviderConfigRaw : Type 0 where
  pub endpoint_openai : Option Text
  pub endpoint_anthropic : Option Text
  pub endpoint_interactions : Option Text
  pub models : ModelsField
  pub api_key : Option Text
  pub max_tokens : Option ℕ
  pub max_output_tokens : Option ℕ
  pub max_completion_tokens : Option ℕ
  pub drop_fields : DropFields
  pub proxy : Option Text
  pub proxy_limit : Option Text
  pub control_clean_all : Option Text
  pub control_extend_lifetime : Option Text

pub record ProviderSection : Type 0 where
  pub name : Text
  pub endpoint_openai : Option Text
  pub endpoint_anthropic : Option Text
  pub endpoint_interactions : Option Text
  pub api_key : Option Text
  pub max_tokens : Option ℕ
  pub max_output_tokens : Option ℕ
  pub max_completion_tokens : Option ℕ
  pub model_names : HashSet Text
  pub drop_fields : DropFields
  pub proxy : Option Text
  pub proxy_limit : Option ℕ
  pub control_clean_all : Option Text
  pub control_extend_lifetime : Option Text

pub data ConfigError : Type 0 where
  io : String → ConfigError
  provider : (name : Text) → (message : String) → ConfigError
  duplicate_model : (model first second : Text) → ConfigError
  multiple_defaults : (first second : Text) → ConfigError
  unknown_drop_model : (section model : Text) → ConfigError
  unroutable_model : Text → ConfigError
  secret_not_found : Text → ConfigError
  no_providers : ConfigError
  port : String → ConfigError
  invalid_duration : (value : Text) → (message : String) → ConfigError
  invalid_byte_size : (value : Text) → (message : String) → ConfigError
  invalid_api_key : (section : Text) → (message : String) → ConfigError

-- the process around the loader
pub record Host : Type 0 where
  -- env::var(name)
  pub env_var : Text → Option Text
  -- the file secrets/name, where it is one, and the error of reading it
  pub secret_file : Text → Option (Result String Text)
  -- HeaderValue::from_str, with the message of its error
  pub header_value : Text → Result String (Unit {0})
  -- "host:port" as a socket address, with the error of its parser
  pub socket_addr : Text → Result String Text

abbrev pub empty_text : Text → Bool
empty_text [] = true
empty_text (_ ∷ _) = false

abbrev pub empty_list {ℓ} : {A : Type ℓ} → List A → Bool
empty_list [] = true
empty_list (_ ∷ _) = false

unfoldable pub parse_duration_field : Text → Result ConfigError ℕ
parse_duration_field raw = map_err (invalid_duration raw) (parse_duration raw)

unfoldable pub parse_byte_size_field : Text → Result ConfigError ℕ
parse_byte_size_field raw = map_err (invalid_byte_size raw) (parse_byte_size raw)

-- e.trim().trim_end_matches('/'), kept where it is not empty
unfoldable pub clean_endpoint : Option Text → Option Text
clean_endpoint none = none
clean_endpoint (some e) =
    if empty_text (trim_end (λ c. c == b'/') (trim e))
    then none
    else some (trim_end (λ c. c == b'/') (trim e))

-- what `resolve_var` does once the environment has no value for it
unfoldable pub secret_from_file : Text → Option (Result String Text) → Result ConfigError Text
secret_from_file name none = err (secret_not_found name)
secret_from_file name (some (err message)) = err (io message)
secret_from_file name (some (ok content)) =
    if empty_text (trim content) then err (secret_not_found name) else ok (trim content)

unfoldable pub resolve_var : Host → Text → Result ConfigError Text
resolve_var host name = elim (host.env_var name) [
  | none ↦ secret_from_file name (host.secret_file name)
  | some value ↦
      if empty_text (trim value)
      then secret_from_file name (host.secret_file name)
      else ok (trim value)
]

-- the name inside `${` and `}`
unfoldable pub placeholder : Text → Option Text
placeholder value = elim (strip_prefix (chars "${") value) [
  | none ↦ none
  | some rest ↦ strip_last b'}' rest
]

unfoldable pub resolve_secret : Host → Text → Result ConfigError Text
resolve_secret host value = elim (placeholder value) [
  | none ↦ ok value
  | some var ↦ resolve_var host var
]

unfoldable pub check_api_key : Host → Text → Text → Result ConfigError (Option Text)
check_api_key host name resolved =
    if empty_text resolved
    then err (invalid_api_key name "api_key must not be empty")
    else elim (host.header_value resolved) [
      | err e ↦
          err (invalid_api_key name (String.◌++◌ "api_key contains invalid HTTP header bytes: " e))
      | ok _ ↦ ok (some resolved)
    ]

unfoldable pub parse_api_key : Host → Text → Option Text → Result ConfigError (Option Text)
parse_api_key host name none = ok none
parse_api_key host name (some value) = do
  resolved ← resolve_secret host value
  check_api_key host name resolved

unfoldable pub parse_proxy_limit : Option Text → Result ConfigError (Option ℕ)
parse_proxy_limit none = ok none
parse_proxy_limit (some val) = do limit ← parse_byte_size_field val; ok (some limit)

-- whether the section is the default one, and its models
unfoldable pub parse_models : Text → ModelsField → Result ConfigError (Bool × HashSet Text)
parse_models name (single value) =
    if value == chars "default"
    then ok (true, Dict.empty)
    else if empty_text (trim value)
    then err (provider name "models must not be empty")
    else ok (false, Sets.collect (value ∷ []))
parse_models name (list values) =
    if empty_list values
    then err (provider name "models list must not be empty")
    else if any (λ model. model == chars "default") values
    then err (provider name "use models = \"default\" instead of listing default in an array")
    else if any (λ model. empty_text (trim model)) values
    then err (provider name "model name must not be empty")
    else ok (false, Sets.collect values)

-- the keys of a per-model table that are no models of the section, the first one
unfoldable pub first_unknown : HashSet Text → List Text → Option Text
first_unknown model_names [] = none
first_unknown model_names (key ∷ keys) =
    let rest = first_unknown model_names keys in
    if Sets.holds model_names key then rest else some key

unfoldable pub check_drop_fields :
    Text → Bool → HashSet Text → DropFields → Result ConfigError (Unit {0})
check_drop_fields name false model_names (per_model _ by_model) =
    elim (first_unknown model_names (Dict.keys by_model)) [
      | none ↦ ok tt
      | some key ↦ err (unknown_drop_model name key)
    ]
check_drop_fields name _ model_names _ = ok tt

unfoldable pub has_endpoint : Option Text → Option Text → Option Text → Bool
has_endpoint none none none = false
has_endpoint _ _ _ = true

abbrev pub no_endpoint : String
no_endpoint =
    "at least one of endpoint_openai, endpoint_anthropic, or endpoint_interactions must be set"
