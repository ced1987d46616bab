-- ===== src/Config/Load/Loop.antt =====
-- src/config.rs, `from_file_config`: the rounds of the loop over the sections.
use inf_splitter.Prelude.{
  >>=-eq-ok, All, Bool, List, Option-cases, [], ap, arith, false, inl, inr, none, not, ok,
  ok-injective, refl, subst, sym, true, ◌==◌, ◌∙◌, ◌∷◌, ◌≡◌,
}
use inf_splitter.Prelude.Dict
use inf_splitter.Prelude.Text.{Text_eq, Text}
use inf_splitter.Prelude.Dict.{HashMap}
use inf_splitter.Config.Provider.{
  ConfigError, Host, ModelsField, ProviderConfigRaw, ProviderSection, check_drop_fields,
  clean_endpoint, has_endpoint, list, no_endpoint, no_providers, parse_api_key,
  parse_byte_size_field, parse_duration_field, parse_models, parse_proxy_limit, provider, single,
}
use inf_splitter.Config.Load.{
  Building, Config, FileConfig, add_routes, add_section, add_sections, claim_default,
  empty_providers, from_file_config, nothing_built, register, require, resolve_listen_addr,
  section_of, value_or,
}
use inf_splitter.Config.Load.Loaded.{IsLoaded, IsRouted, more-default, more-models}
use inf_splitter.Config.Outputs.{load_diagnostics}
use inf_splitter.Prelude.Sets.{HashSet}
use inf_splitter.Prelude.Bytes.{chars}

abbrev pub Fresh : HashMap Text ProviderSection → List (Text × ProviderConfigRaw) → Type 0
Fresh sections rest = All (λ p. Dict.get sections p.0 ≡ none) rest

Fresh-insert :
    (sections : HashMap Text ProviderSection) (name : Text) (section : ProviderSection)
    (rest : List (Text × ProviderConfigRaw))
    → Fresh sections rest
    → All (λ p. (name == p.0) ≡ false) rest
    → Fresh (Dict.insert sections name section) rest
Fresh-insert sections name section [] f apart = tt
Fresh-insert sections name section ((k, _) ∷ rest) (absent, f) (differ, apart) = (
  rw (Dict.get-insert sections name k section, differ) absent,
  Fresh-insert sections name section rest f apart,
)

require-ok : (b : Bool) (e : ConfigError) (u : Unit {0}) → require b e ≡ ok u → b ≡ true
require-ok true e u h = refl
require-ok false e u h = absurd (ground arith)

parse_models-default :
    (name : Text) (models : ModelsField) (names : HashSet Text)
    → parse_models name models ≡ ok (true, names)
    → names ≡ Dict.empty
unfolding parse_models
parse_models-default name (single value) names e = ground arith
parse_models-default name (list values) names e = absurd (ground arith)

register-IsRouted :
    (section : ProviderSection) (is_default : Bool) (b registered : Building)
    → IsRouted b.sections b.model_routes b.default_section
    → Dict.get b.sections section.name ≡ none
    → has_endpoint section.endpoint_openai section.endpoint_anthropic section.endpoint_interactions
      ≡ true
    → (is_default ≡ true → section.model_names ≡ Dict.empty)
    → register section.name is_default section.model_names b ≡ ok registered
    → IsRouted
        (Dict.insert registered.sections section.name section)
        registered.model_routes
        registered.default_section
      × (registered.sections ≡ b.sections)
unfolding register claim_default
register-IsRouted section true b registered r fresh usable nothing e =
    elim (Option-cases b.default_section) [
      | inr (existing, there) ↦ absurd (ground (arith, there))
      | inl none_yet ↦
          subst
            (λ (x : Building).
              IsRouted (Dict.insert x.sections section.name section) x.model_routes
                x.default_section
              × (x.sections ≡ b.sections))
            (ok-injective (rw (none_yet, register, claim_default) at e))
            (
              more-default b.sections section fresh usable b.model_routes
                  (subst (IsRouted b.sections b.model_routes) none_yet r) (nothing refl),
              refl,
            )
    ]
register-IsRouted section false b registered r fresh usable nothing e =
    let (routes, added, is) =
      >>=-eq-ok (add_routes section.name (Dict.keys section.model_names) b.model_routes) _ e in
    subst
      (λ (x : Building).
        IsRouted (Dict.insert x.sections section.name section) x.model_routes x.default_section
        × (x.sections ≡ b.sections))
      (ok-injective is)
      (
        more-models b.sections section fresh usable b.model_routes routes b.default_section r added,
        refl,
      )

-- One round of the loop keeps the invariant, and adds its own name only.
add_section-IsRouted :
    (host : Host) (name : Text) (raw : ProviderConfigRaw) (b b' : Building)
    → IsRouted b.sections b.model_routes b.default_section
    → Dict.get b.sections name ≡ none
    → add_section host name raw b ≡ ok b'
    → IsRouted b'.sections b'.model_routes b'.default_section
      × ((section : ProviderSection) × (b'.sections ≡ Dict.insert b.sections name section))
unfolding add_section
add_section-IsRouted host name raw b b' r fresh e =
    let (u, required, e1) = >>=-eq-ok (require usable (provider name no_endpoint)) _ e in
    let (proxy_limit, _, e2) = >>=-eq-ok (parse_proxy_limit raw.proxy_limit) _ e1 in
    let (api_key, _, e3) = >>=-eq-ok (parse_api_key host name raw.api_key) _ e2 in
    let (models, parsed, e4) = >>=-eq-ok (parse_models name raw.models) _ e3 in
    let (_, _, e5) = >>=-eq-ok (check_drop_fields name models.0 models.1 raw.drop_fields) _ e4 in
    let (registered, done, is) = >>=-eq-ok (register name models.0 models.1 b) _ e5 in
    let section = section_of name raw api_key models.1 proxy_limit in
    let (routed, same) =
      register-IsRouted section models.0 b registered r fresh (require-ok usable _ u required)
        (λ default.
          parse_models-default name raw.models models.1
            (parsed ∙ ap (λ d. ok (d, models.1)) default))
        done in
    subst
      (λ (x : Building).
        IsRouted x.sections x.model_routes x.default_section
        × ((s : ProviderSection) × (x.sections ≡ Dict.insert b.sections name s)))
      (ok-injective is) (routed, (section, ap (λ m. Dict.insert m name section) same))
  where
    usable : Bool
    usable =
        has_endpoint (clean_endpoint raw.endpoint_openai) (clean_endpoint raw.endpoint_anthropic)
          (clean_endpoint raw.endpoint_interactions)

add_sections-IsRouted :
    (host : Host) (providers : List (Text × ProviderConfigRaw)) (b b' : Building)
    → Dict.Apart providers
    → Fresh b.sections providers
    → IsRouted b.sections b.model_routes b.default_section
    → add_sections host providers b ≡ ok b'
    → IsRouted b'.sections b'.model_routes b'.default_section
unfolding add_sections
add_sections-IsRouted host [] b b' apart fresh r e =
    subst (λ (x : Building). IsRouted x.sections x.model_routes x.default_section) (ok-injective e)
      r
add_sections-IsRouted host ((name, raw) ∷ rest) b b' (differ, apart) (absent, fresh) r e =
    let (next, added, more_to_come) = >>=-eq-ok (add_section host name raw b) _ e in
    let (r', (section, is)) = add_section-IsRouted host name raw b next r absent added in
    add_sections-IsRouted host rest next b' apart
      (subst (λ m. Fresh m rest) (sym is) (Fresh-insert b.sections name section rest fresh differ))
      r' more_to_come

nothing_built-IsRouted :
    IsRouted nothing_built.sections nothing_built.model_routes nothing_built.default_section
unfolding Dict.get Dict.lookup
nothing_built-IsRouted = record {
  routed = λ model name e. absurd (cc e);
  listed = λ model name s e lists. absurd (cc e);
  default_there = λ name e. absurd (cc e);
  served = λ name s e. absurd (cc e);
}

Fresh-empty : (providers : List (Text × ProviderConfigRaw)) → Fresh Dict.empty providers
unfolding Dict.get Dict.lookup
Fresh-empty [] = tt
Fresh-empty (p ∷ rest) = (refl, Fresh-empty rest)

-- A configuration that from_file_config returns for a file with distinct section names is consistent: a route leads to a section that lists the model, every listed model has the route to its section, the default section exists, and every section stands under its own name with at least one endpoint.
pub from_file_config-IsLoaded :
    (host : Host) (config_file : FileConfig) (c : Config)
    → Dict.Apart config_file.providers
    → from_file_config host config_file ≡ ok c
    → IsLoaded c
unfolding from_file_config
from_file_config-IsLoaded host config_file c apart e =
    let (_, _, e1) =
      >>=-eq-ok (require (not (empty_providers config_file.providers)) no_providers) _ e in
    let (_, _, e2) =
      >>=-eq-ok (resolve_listen_addr host config_file.listen_host config_file.listen_port) _ e1 in
    let (_, _, e3) = >>=-eq-ok (load_diagnostics config_file.diagnostics) _ e2 in
    let (_, _, e4) =
      >>=-eq-ok (parse_duration_field (value_or config_file.upstream_timeout (chars "5m"))) _ e3 in
    let (_, _, e5) =
      >>=-eq-ok (parse_byte_size_field (value_or config_file.max_request_body (chars "2m"))) _ e4 in
    let (built, loop, is) =
      >>=-eq-ok (add_sections host config_file.providers nothing_built) _ e5 in
    subst IsLoaded (ok-injective is) (
      add_sections-IsRouted host config_file.providers nothing_built built apart
        (Fresh-empty config_file.providers) nothing_built-IsRouted loop)
