-- ===== src/Config/Route.antt =====
-- src/config.rs: `resolve_route` and the lists that the other parts ask a configuration for.
pub mod Served
pub mod Endpoints
use inf_splitter.Prelude.{
  Bool, List, Option, Result, [], err, false, if◌then◌else◌, none, ok, some, true, ℕ, ◌++◌, ◌∷◌,
}
use inf_splitter.Prelude.Dict
use inf_splitter.Prelude.Sets
use inf_splitter.Prelude.Text.{Text_eq, Text}
use inf_splitter.Config.Provider.{ConfigError, ProviderSection, provider, unroutable_model}
use inf_splitter.Config.Load.{Config}
use inf_splitter.Prelude.Sets.{HashSet}
use inf_splitter.Prelude.Bytes.{lt_chars}
use inf_splitter.Config.Fields.{DropFields}

pub record RouteTarget : Type 0 where
  pub section : Text
  pub endpoint_openai : Option Text
  pub endpoint_anthropic : Option Text
  pub endpoint_interactions : Option Text
  pub api_key : Option Text
  pub max_tokens : Option ℕ
  pub max_output_tokens : Option ℕ
  pub max_completion_tokens : Option ℕ
  pub model_names : HashSet Text
  pub drop_fields : DropFields
  pub proxy : Option Text
  pub proxy_limit : Option ℕ
  pub control_clean_all : Option Text
  pub control_extend_lifetime : Option Text

-- a.or(b)
abbrev pub or {ℓ} : {A : Type ℓ} → Option A → Option A → Option A
or none b = b
or (some a) b = some a

abbrev pub target_of : Config → ProviderSection → RouteTarget
target_of c section = record {
  section = section.name;
  endpoint_openai = section.endpoint_openai;
  endpoint_anthropic = section.endpoint_anthropic;
  endpoint_interactions = section.endpoint_interactions;
  api_key = section.api_key;
  max_tokens = or section.max_tokens c.default_max_tokens;
  max_output_tokens = or section.max_output_tokens c.default_max_output_tokens;
  max_completion_tokens = or section.max_completion_tokens c.default_max_completion_tokens;
  model_names = section.model_names;
  drop_fields = section.drop_fields;
  proxy = section.proxy;
  proxy_limit = section.proxy_limit;
  control_clean_all = section.control_clean_all;
  control_extend_lifetime = section.control_extend_lifetime;
}

-- the section that is named for a model, or the default one
unfoldable pub section_name : Config → Text → Option Text
section_name c model = or (Dict.get c.model_routes model) c.default_section

unfoldable pub resolve_route : Config → Text → Result ConfigError RouteTarget
resolve_route c model = elim (section_name c model) [
  | none ↦ err (unroutable_model model)
  | some name ↦ elim (Dict.get c.sections name) [
    | none ↦ err (provider name "internal: section referenced by route does not exist")
    | some section ↦ ok (target_of c section)
  ]
]

-- ids.sort() on strings: a stable sort, by the order of the code points
unfoldable pub insert_sorted : Text → List Text → List Text
insert_sorted x [] = x ∷ []
insert_sorted x (y ∷ ys) =
    let rest = insert_sorted x ys in if lt_chars y x then y ∷ rest else x ∷ y ∷ ys

unfoldable pub sort_texts : List Text → List Text
sort_texts [] = []
sort_texts (x ∷ xs) = insert_sorted x (sort_texts xs)

unfoldable pub sorted_model_ids : Config → List Text
sorted_model_ids c = sort_texts (Dict.keys c.model_routes)

abbrev pub Endpoint : Type 0
Endpoint = Text × Text × Bool

-- `if seen.insert(ep) { result.push(…) }`
unfoldable pub note_endpoint :
    Text → Option Text → Bool → HashSet Text × List Endpoint → HashSet Text × List Endpoint
note_endpoint name none is_interactions acc = acc
note_endpoint name (some ep) is_interactions (seen, result) =
    if Sets.holds seen ep
    then (seen, result)
    else (Dict.insert seen ep tt, result ++ (name, ep, is_interactions) ∷ [])

unfoldable pub note_section :
    ProviderSection → HashSet Text × List Endpoint → HashSet Text × List Endpoint
note_section section acc = note_endpoint section.name section.endpoint_interactions true (
    note_endpoint section.name section.endpoint_anthropic false
      (note_endpoint section.name section.endpoint_openai false acc))

unfoldable pub note_sections :
    List ProviderSection → HashSet Text × List Endpoint → HashSet Text × List Endpoint
note_sections [] acc = acc
note_sections (section ∷ sections) acc = note_sections sections (note_section section acc)

unfoldable pub upstream_endpoints : Config → List Endpoint
upstream_endpoints c = (note_sections (Dict.values c.sections) (Dict.empty, [])).1
