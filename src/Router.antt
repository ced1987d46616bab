-- ===== src/Router.antt =====
-- src/router.rs: what is done with a request before its handler, the list of models, the control
-- constants and the health check with its cache. The JSON parser and the clock are parameters; the
-- handlers are named by the upstream and the conversion that a request is given to.
pub mod Health
pub mod Served
mod Tests
use inf_splitter.Prelude.{
  Bool, List, Option, Result, [], err, false, get_elem?, if◌then◌else◌, last?, length, map, map_err,
  none, not, ok, some, true, ℕ, ◌&&◌, ◌++◌, ◌>>=◌, ◌∷◌,
}
use inf_splitter.Prelude.Dict
use inf_splitter.Prelude.Sets
use inf_splitter.Prelude.Text.{Text_eq, Text, trim}
use inf_splitter.Prelude.Bytes.{chars}
use inf_splitter.Config.Load.{Config}
use inf_splitter.Config.Route.{RouteTarget, resolve_route, sorted_model_ids}
use inf_splitter.Diagnostics.{
  Diagnostics, DumpEvent, StatsEvent, default_stats, new_request_id, record_dump, record_stats,
}
use inf_splitter.Diagnostics.Masking.{Codec, dump_body_from_bytes, header_pairs_with_masking}
use inf_splitter.Errors.{
  AppError, bad_request, config_error_text, from_config_error, internal, status,
}
use inf_splitter.Config.Provider.{ProviderSection, empty_list, empty_text}

pub data Protocol : Type 0 where
  open_ai : Protocol
  anthropic : Protocol

-- Display for Protocol
unfoldable pub protocol_text : Protocol → Text
protocol_text open_ai = chars "OPENAI"
protocol_text anthropic = chars "ANTHROPIC"

pub record ModelObject : Type 0 where
  pub model_type : Text
  pub id : Text
  pub display_name : Text
  pub created_at : Text

pub record ModelsListResponse : Type 0 where
  pub data' : List ModelObject
  pub first_id : Option Text
  pub last_id : Option Text
  pub has_more : Bool

abbrev pub model_object : Text → ModelObject
model_object id = record {
  model_type = chars "model";
  id = id;
  display_name = id;
  created_at = chars "2024-01-01T00:00:00.000Z";
}

abbrev pub id_of : Option ModelObject → Option Text
id_of none = none
id_of (some model) = some model.id

unfoldable pub build_models_response : Config → ModelsListResponse
build_models_response config =
    let models = map model_object (sorted_model_ids config) in
    record {
      data' = models;
      first_id = id_of (get_elem? models 0);
      last_id = id_of (last? models);
      has_more = false;
    }

-- what is read from a body before it is routed
pub record Peek : Type 0 where
  -- serde_json::from_str::<MessagePeek>, with the text of its error
  pub model_of : Text → Result Text Text

-- the handler that a request is given to, with the endpoint
pub data Upstream : Type 0 where
  openai : Protocol → (endpoint : Text) → Upstream
  anthropic_messages : Protocol → (endpoint : Text) → Upstream
  interactions : Protocol → (endpoint : Text) → Upstream

abbrev pub no_endpoint_configured : AppError
no_endpoint_configured = internal (chars "no endpoint configured for this provider")

unfoldable pub choose_upstream : Protocol → RouteTarget → Result AppError Upstream
choose_upstream open_ai route = elim route.endpoint_openai [
  | some endpoint ↦ ok (openai open_ai endpoint)
  | none ↦ elim route.endpoint_anthropic [
    | some endpoint ↦ ok (anthropic_messages open_ai endpoint)
    | none ↦ elim route.endpoint_interactions [
      | some endpoint ↦ ok (interactions open_ai endpoint)
      | none ↦ err no_endpoint_configured
    ]
  ]
]
choose_upstream anthropic route = elim route.endpoint_anthropic [
  | some endpoint ↦ ok (anthropic_messages anthropic endpoint)
  | none ↦ elim route.endpoint_openai [
    | some endpoint ↦ ok (openai anthropic endpoint)
    | none ↦ elim route.endpoint_interactions [
      | some endpoint ↦ ok (interactions anthropic endpoint)
      | none ↦ err no_endpoint_configured
    ]
  ]
]

pub record Request : Type 0 where
  pub ingress : Protocol
  pub headers : List (Text × Option Text)
  pub body : List ℕ
  pub ts : Text

abbrev pub unknown : Text
unknown = chars "?"

abbrev pub refused_stats : Request → Text → Text → Text → StatsEvent
refused_stats r request_id model error = record default_stats {
  section = unknown;
  request_id = request_id;
  ts = r.ts;
  direction = protocol_text r.ingress;
  model = model;
  status = 400;
  request_size_bytes = length r.body;
  error = some error;
}

abbrev pub refused_dump : Codec → Request → Text → Text → DumpEvent
refused_dump codec r request_id model = record {
  section = unknown;
  request_id = request_id;
  ts = r.ts;
  stage = chars "ingress";
  direction = chars "request";
  model = model;
  headers = header_pairs_with_masking r.headers;
  body = dump_body_from_bytes codec r.body;
  status = none;
}

-- What each of the four refusals records; the two go to different writers, so that their order,
-- which is the other way round where the body is not UTF-8, does not show.
unfoldable pub record_refusal : Codec → Request → Text → Text → Diagnostics → Diagnostics
record_refusal codec r model error d =
    let (request_id, d1) = new_request_id d in
    record_stats (refused_stats r request_id model error)
      (record_dump (refused_dump codec r request_id model) true d1)

-- the model that the request is for, or the refusal's model, recorded error and answer
unfoldable pub peek_model : Codec → Peek → Request → Result (Text × Text × AppError) Text
peek_model codec peek r = elim (codec.from_utf8 r.body) [
  | none ↦ err (unknown, chars "non-utf8", bad_request (chars "non-utf8"))
  | some body_str ↦ elim (peek.model_of body_str) [
    | err e ↦
        err (
          unknown,
          chars "invalid JSON body: " ++ e,
          bad_request (chars "invalid JSON body: " ++ e),
        )
    | ok model ↦
        if empty_text (trim model)
        then err (
          unknown,
          chars "model must not be empty",
          bad_request (chars "model must not be empty"),
        )
        else ok model
  ]
]

unfoldable pub route_model : Config → Text → Result (Text × Text × AppError) RouteTarget
route_model config model =
    map_err (λ e. (model, config_error_text e, from_config_error e)) (resolve_route config model)

unfoldable pub find_route :
    Codec → Peek → Config → Request → Result (Text × Text × AppError) (Text × RouteTarget)
find_route codec peek config r = do
  model ← peek_model codec peek r
  route ← route_model config model
  ok (model, route)

-- the handler that takes the request over, or the error of the answer
unfoldable pub dispatch_messages :
    Codec → Peek → Config → Request → Diagnostics → Result AppError Upstream × Diagnostics
dispatch_messages codec peek config r d = elim (find_route codec peek config r) [
  | err refusal ↦ (err refusal.2, record_refusal codec r refusal.0 refusal.1 d)
  | ok found ↦ (choose_upstream r.ingress found.1, d)
]

-- the entries of one section's object
abbrev pub constants_of : ProviderSection → List (Text × Text)
constants_of section =
    constant (chars "clean_all") section.control_clean_all
    ++ constant (chars "extend_lifetime") section.control_extend_lifetime
  where
    constant : Text → Option Text → List (Text × Text)
    constant name none = []
    constant name (some value) = (name, value) ∷ []

-- the sections with an interactions endpoint that set a control constant
unfoldable pub control_constants : List (Text × ProviderSection) → List (Text × List (Text × Text))
control_constants [] = []
control_constants ((name, section) ∷ sections) =
    let rest = control_constants sections in
    if Sets.is_some section.endpoint_interactions && not (empty_list (constants_of section))
    then (name, constants_of section) ∷ rest
    else rest
