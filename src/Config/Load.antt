-- ===== src/Config/Load.antt =====
-- src/config.rs: `from_file_config`, the loop over the provider sections. The sections come in the
-- order of the iteration over the file's map, whose keys are distinct.
pub mod Loaded
pub mod Loop
use inf_splitter.Prelude.{
  Bool, List, Option, Result, [], err, false, map_err, none, not, ok, some, true, ℕ, ◌++◌, ◌>>=◌,
  ◌∷◌,
}
use inf_splitter.Prelude.Dict
use inf_splitter.Prelude.Sets
use inf_splitter.Prelude.Text.{Text_eq, Text}
use inf_splitter.Config.Provider.{
  ConfigError, Host, ProviderConfigRaw, ProviderSection, check_drop_fields, clean_endpoint,
  duplicate_model, has_endpoint, multiple_defaults, no_endpoint, no_providers, parse_api_key,
  parse_byte_size_field, parse_duration_field, parse_models, parse_proxy_limit, port, provider,
}
use inf_splitter.Prelude.Dict.{HashMap}
use inf_splitter.Prelude.Sets.{HashSet}
use inf_splitter.Prelude.Bytes.{chars, decimal}
use inf_splitter.Config.Outputs.{DiagnosticsConfig, DiagnosticsConfigRaw, load_diagnostics}

-- the three variables that the loop over the sections builds
pub record Building : Type 0 where
  pub sections : HashMap Text ProviderSection
  pub model_routes : HashMap Text Text
  pub default_section : Option Text

abbrev pub nothing_built : Building
nothing_built = record { sections = Dict.empty; model_routes = Dict.empty; default_section = none }

-- `for model in &model_names`: an entry that was there is an error
unfoldable pub add_routes :
    Text → List Text → HashMap Text Text → Result ConfigError (HashMap Text Text)
add_routes name [] routes = ok routes
add_routes name (model ∷ models) routes = elim (Dict.get routes model) [
  | some existing ↦ err (duplicate_model model existing name)
  | none ↦ add_routes name models (Dict.insert routes model name)
]

unfoldable pub claim_default : Text → Option Text → Result ConfigError (Option Text)
claim_default name (some existing) = err (multiple_defaults existing name)
claim_default name none = ok (some name)

-- `if is_default { … } else { … }`
unfoldable pub register : Text → Bool → HashSet Text → Building → Result ConfigError Building
register name true model_names b = do
  default_section ← claim_default name b.default_section
  ok (record b { default_section = default_section })
register name false model_names b = do
  model_routes ← add_routes name (Dict.keys model_names) b.model_routes
  ok (record b { model_routes = model_routes })

abbrev pub section_of :
    Text → ProviderConfigRaw → Option Text → HashSet Text → Option ℕ → ProviderSection
section_of name raw api_key model_names proxy_limit = record {
  name = name;
  endpoint_openai = clean_endpoint raw.endpoint_openai;
  endpoint_anthropic = clean_endpoint raw.endpoint_anthropic;
  endpoint_interactions = clean_endpoint raw.endpoint_interactions;
  api_key = api_key;
  max_tokens = raw.max_tokens;
  max_output_tokens = raw.max_output_tokens;
  max_completion_tokens = raw.max_completion_tokens;
  model_names = model_names;
  drop_fields = raw.drop_fields;
  proxy = raw.proxy;
  proxy_limit = proxy_limit;
  control_clean_all = raw.control_clean_all;
  control_extend_lifetime = raw.control_extend_lifetime;
}

abbrev pub require : Bool → ConfigError → Result ConfigError (Unit {0})
require true e = ok tt
require false e = err e

-- one round of the loop
unfoldable pub add_section :
    Host → Text → ProviderConfigRaw → Building → Result ConfigError Building
add_section host name raw b = do
  _ ←
      require
        (has_endpoint (clean_endpoint raw.endpoint_openai) (clean_endpoint raw.endpoint_anthropic)
          (clean_endpoint raw.endpoint_interactions))
        (provider name no_endpoint)
  proxy_limit ← parse_proxy_limit raw.proxy_limit
  api_key ← parse_api_key host name raw.api_key
  models ← parse_models name raw.models
  _ ← check_drop_fields name models.0 models.1 raw.drop_fields
  registered ← register name models.0 models.1 b
  ok (record registered {
    sections =
        Dict.insert registered.sections name (section_of name raw api_key models.1 proxy_limit);
  })

unfoldable pub add_sections :
    Host → List (Text × ProviderConfigRaw) → Building → Result ConfigError Building
add_sections host [] b = ok b
add_sections host ((name, raw) ∷ rest) b = do
  next ← add_section host name raw b
  add_sections host rest next

pub record ErrorTranslationRule : Type 0 where
  pub status : ℕ
  pub ingress : Option Text
  pub egress : Text

pub record DefaultConfig : Type 0 where
  pub max_tokens : Option ℕ
  pub max_output_tokens : Option ℕ
  pub max_completion_tokens : Option ℕ

pub record FileConfig : Type 0 where
  pub listen_host : Option Text
  pub listen_port : Option ℕ
  pub upstream_timeout : Option Text
  pub max_request_body : Option Text
  pub defaults : Option DefaultConfig
  pub error_translation : List ErrorTranslationRule
  pub interactions_session_store : Option Text
  pub diagnostics : Option DiagnosticsConfigRaw
  pub providers : List (Text × ProviderConfigRaw)

pub record Config : Type 0 where
  pub listen_addr : Text
  pub upstream_timeout : ℕ
  pub max_request_body : ℕ
  pub error_translation : List ErrorTranslationRule
  pub interactions_session_store : Option Text
  pub diagnostics : DiagnosticsConfig
  pub default_max_tokens : Option ℕ
  pub default_max_output_tokens : Option ℕ
  pub default_max_completion_tokens : Option ℕ
  pub sections : HashMap Text ProviderSection
  pub model_routes : HashMap Text Text
  pub default_section : Option Text

abbrev pub value_or {ℓ} : {A : Type ℓ} → Option A → A → A
value_or none d = d
value_or (some a) d = a

-- the listening host: of the file, else of the environment, else the loopback address
unfoldable pub listening_host : Host → Option Text → Text
listening_host host (some listen) = listen
listening_host host none =
    value_or (host.env_var (chars "INF_SPLITTER_LISTEN_HOST")) (chars "127.0.0.1")

unfoldable pub resolve_listen_addr : Host → Option Text → Option ℕ → Result ConfigError Text
resolve_listen_addr host listen port_number = map_err port (
    host.socket_addr
      (listening_host host listen ++ b':' ∷ chars (decimal (value_or port_number 3000))))

abbrev pub no_defaults : DefaultConfig
no_defaults = record { max_tokens = none; max_output_tokens = none; max_completion_tokens = none }

abbrev pub config_of :
    FileConfig → Text → DiagnosticsConfig → ℕ → ℕ → DefaultConfig → Building → Config
config_of config_file listen_addr diagnostics timeout body defaults b = record {
  listen_addr = listen_addr;
  upstream_timeout = timeout;
  max_request_body = body;
  error_translation = config_file.error_translation;
  interactions_session_store = config_file.interactions_session_store;
  diagnostics = diagnostics;
  default_max_tokens = defaults.max_tokens;
  default_max_output_tokens = defaults.max_output_tokens;
  default_max_completion_tokens = defaults.max_completion_tokens;
  sections = b.sections;
  model_routes = b.model_routes;
  default_section = b.default_section;
}

abbrev pub empty_providers : List (Text × ProviderConfigRaw) → Bool
empty_providers [] = true
empty_providers (_ ∷ _) = false

unfoldable pub from_file_config : Host → FileConfig → Result ConfigError Config
from_file_config host config_file = do
  _ ← require (not (empty_providers config_file.providers)) no_providers
  listen_addr ← resolve_listen_addr host config_file.listen_host config_file.listen_port
  diagnostics ← load_diagnostics config_file.diagnostics
  timeout ← parse_duration_field (value_or config_file.upstream_timeout (chars "5m"))
  body ← parse_byte_size_field (value_or config_file.max_request_body (chars "2m"))
  built ← add_sections host config_file.providers nothing_built
  ok (
      config_of config_file listen_addr diagnostics timeout body
        (value_or config_file.defaults no_defaults) built)
