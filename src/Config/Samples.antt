-- ===== src/Config/Samples.antt =====
-- A configuration file with two sections, for the tests, and what is loaded from it.
use inf_splitter.Prelude.{[], none, ok, refl, some, ◌∷◌, ◌≡◌}
use inf_splitter.Prelude.Dict
use inf_splitter.Prelude.Sets
use inf_splitter.Prelude.Text.{Text_eq, Text, parse_u64, strip_last, trim}
use inf_splitter.Config.Load.{
  Config, FileConfig, add_routes, add_section, add_sections, claim_default, from_file_config,
  listening_host, register, resolve_listen_addr,
}
use inf_splitter.Config.Provider.{
  Host, ModelsField, ProviderConfigRaw, ProviderSection, check_drop_fields, clean_endpoint,
  has_endpoint, list, parse_api_key, parse_byte_size_field, parse_duration_field, parse_models,
  parse_proxy_limit, single,
}
use inf_splitter.Config.Outputs.{diagnostics_default, load_diagnostics}
use inf_splitter.Prelude.Bytes.{chars, decimal}
use inf_splitter.Config.Fields.{DropFields, for_all}
use inf_splitter.Config.Sizes.{
  checked_mul, duration_of, number_before, parse_byte_size, parse_duration, size_of, size_with,
}

abbrev pub quiet_host : Host
quiet_host = record {
  env_var = λ name. none;
  secret_file = λ name. none;
  header_value = λ value. ok tt;
  socket_addr = λ addr. ok addr;
}

abbrev pub bare_section : ModelsField → Text → DropFields → ProviderConfigRaw
bare_section models endpoint drops = record {
  endpoint_openai = some endpoint;
  endpoint_anthropic = none;
  endpoint_interactions = none;
  models = models;
  api_key = none;
  max_tokens = none;
  max_output_tokens = none;
  max_completion_tokens = none;
  drop_fields = drops;
  proxy = none;
  proxy_limit = none;
  control_clean_all = none;
  control_extend_lifetime = none;
}

abbrev pub two_sections : FileConfig
two_sections = record {
  listen_host = none;
  listen_port = some 8080;
  upstream_timeout = none;
  max_request_body = none;
  defaults = none;
  error_translation = [];
  interactions_session_store = none;
  diagnostics = none;
  providers =
      (chars "a", bare_section (list (chars "m" ∷ [])) (chars " http://a/ ") (for_all Dict.empty))
      ∷ (chars "b", bare_section (single (chars "default")) (chars "http://b") (for_all Dict.empty))
      ∷ [];
}

abbrev pub section_a : ProviderSection
section_a = record {
  name = chars "a";
  endpoint_openai = some (chars "http://a");
  endpoint_anthropic = none;
  endpoint_interactions = none;
  api_key = none;
  max_tokens = none;
  max_output_tokens = none;
  max_completion_tokens = none;
  model_names = record { entries = (chars "m", tt) ∷ [] };
  drop_fields = for_all Dict.empty;
  proxy = none;
  proxy_limit = none;
  control_clean_all = none;
  control_extend_lifetime = none;
}

abbrev pub section_b : ProviderSection
section_b = record section_a {
  name = chars "b";
  endpoint_openai = some (chars "http://b");
  model_names = Dict.empty;
}

abbrev pub loaded : Config
loaded = record {
  listen_addr = chars "127.0.0.1:8080";
  upstream_timeout = 300;
  max_request_body = 2097152;
  error_translation = [];
  interactions_session_store = none;
  diagnostics = diagnostics_default;
  default_max_tokens = none;
  default_max_output_tokens = none;
  default_max_completion_tokens = none;
  sections = record { entries = (chars "a", section_a) ∷ (chars "b", section_b) ∷ [] };
  model_routes = record { entries = (chars "m", chars "a") ∷ [] };
  default_section = some (chars "b");
}

pub two_sections-Apart : Dict.Apart two_sections.providers
two_sections-Apart = ((refl, tt), (tt, tt))

pub two_sections-loaded : from_file_config quiet_host two_sections ≡ ok loaded
unfolding from_file_config resolve_listen_addr load_diagnostics parse_duration_field
    parse_byte_size_field add_sections listening_host decimal parse_duration duration_of
    parse_byte_size size_of size_with number_before checked_mul trim strip_last parse_u64
    add_section has_endpoint clean_endpoint parse_proxy_limit parse_api_key parse_models
    check_drop_fields register add_routes claim_default Dict.get Dict.insert Dict.lookup Dict.put
    Sets.collect Sets.extend
two_sections-loaded = refl
