-- ===== src/Upstream/Openai.antt =====
-- src/openai.rs: the handlers of requests to an OpenAI upstream. `Translator` is what is called of
-- the translation library; it and the JSON library give texts for errors. The detail of the typed
-- messages is an argument of the library's type.
use inf_splitter.Prelude.{
  Bool, List, Option, Result, [], err, false, length, map_err, none, ok, some, ℕ, ◌++◌, ◌>>=◌, ◌∷◌,
}
use inf_splitter.Prelude.Dict
use inf_splitter.Prelude.Text.{Text_eq, Text}
use inf_splitter.Diagnostics.{Diagnostics, StatsEvent, default_stats, new_request_id, record_stats}
use inf_splitter.Upstream.Requests.{
  ChatCompletionRequest, MessageCreateRequest, PreparedBody, cap_anthropic_max_tokens,
  openai_egress, prepare_egress_body, strip_adaptive_thinking,
}
use inf_splitter.Upstream.{Clock, Libraries, Response}
use inf_splitter.Config.Load.{ErrorTranslationRule}
use inf_splitter.Errors.{AppError, bad_request, upstream}
use inf_splitter.Prelude.Bytes.{chars}
use inf_splitter.Upstream.Converted.{Exchange, Left, convert, dropped}
use inf_splitter.Config.Route.{RouteTarget}
use inf_splitter.Upstream.Passthrough.{handle, openai_side}
use inf_splitter.Router.{open_ai}
use inf_splitter.Upstream.Headers.{all_pairs}

pub record ToOpenai (Value Reply : Type 0) : Type 0 where
  pub null : Value
  pub from_value : Value → Result Text (MessageCreateRequest Value)
  pub to_string : MessageCreateRequest Value → Option Text
  pub to_value : ChatCompletionRequest Value → Result Text Value
  pub translate_request :
      List Text → MessageCreateRequest Value → Result Text (ChatCompletionRequest Value)
  pub read : List ℕ → Result Text Reply
  pub translate_response : Reply → Text → Value
  pub messages_detail : MessageCreateRequest Value → Value

-- the event of a request that is refused before it has a guard
abbrev pub invalid_stats : Text → Text → Text → Text → ℕ → Text → Text → StatsEvent
invalid_stats section request_id direction endpoint body_len ts error = record default_stats {
  section = section;
  request_id = request_id;
  ts = ts;
  direction = direction;
  model = chars "?";
  upstream = endpoint;
  status = 400;
  request_size_bytes = body_len;
  error = some error;
}

unfoldable pub refuse_body :
    {Value : Type 0}
    → Text
    → Text
    → Text
    → ℕ
    → Text
    → Text
    → Text
    → Diagnostics
    → Result AppError (Response Value) × Left
refuse_body section direction endpoint body_len ts what error d =
    let (request_id, d') = new_request_id d in
    (
      err (bad_request error),
      dropped (
          record_stats
            (invalid_stats section request_id direction endpoint body_len ts (what ++ error)) d'),
    )

-- unwrap_or(false)
abbrev pub is_true : Option Bool → Bool
is_true none = false
is_true (some b) = b

module _ {M Value Reply : Type 0} (lib : Libraries M Value) (rules : List ErrorTranslationRule)
    (t : ToOpenai Value Reply) where
  -- OpenAI ingress, OpenAI upstream
  unfoldable pub handle_from_openai :
      List ℕ
      → M
      → RouteTarget
      → Text
      → Clock
      → Diagnostics
      → Result AppError (Response Value) × Diagnostics
  handle_from_openai = handle lib openai_side rules

  unfoldable pub openai_exchange : Bool → MessageCreateRequest Value → Exchange Value Reply
  openai_exchange streaming req = record {
    protocol = open_ai;
    path = chars "/v1/chat/completions";
    direction = chars "anthropic->openai";
    streaming = streaming;
    model = req.model;
    request_size = elim (t.to_string req) [ none ↦ 0 | some s ↦ length (lib.json.as_bytes s) ];
    input_messages = length req.messages;
    max_tokens = req.max_tokens;
    messages_detail = t.messages_detail req;
    ingress = t.to_string req;
    dump_headers = all_pairs;
    read = t.read;
    translate = λ reply. t.translate_response reply req.model;
  }

  -- translation_for: every model of the route, and the request's, is mapped to itself
  unfoldable pub translation_for : RouteTarget → Text → List Text
  translation_for route model = Dict.keys route.model_names ++ model ∷ []

  unfoldable pub openai_body :
      Bool
      → MessageCreateRequest Value
      → RouteTarget
      → Diagnostics
      → Result AppError (PreparedBody Value)
  openai_body streaming req route d = do
    openai_req ← map_err upstream (t.translate_request (translation_for route req.model) req)
    prepare_egress_body lib (t.to_value (openai_egress lib.json streaming route openai_req))
        req.model route d

  -- handle_sync_manual and handle_stream_manual
  unfoldable pub handle_manual :
      Bool
      → MessageCreateRequest Value
      → M
      → RouteTarget
      → Text
      → Clock
      → Diagnostics
      → Result AppError (Response Value) × Left
  handle_manual streaming req headers route endpoint clock d =
      convert lib rules (openai_exchange streaming req) endpoint clock headers route
        (openai_body streaming req route d) d

  -- Anthropic ingress, OpenAI upstream
  unfoldable pub handle_from_anthropic :
      List ℕ
      → M
      → RouteTarget
      → Text
      → Clock
      → Diagnostics
      → Result AppError (Response Value) × Left
  handle_from_anthropic body headers route endpoint clock d =
      let parsed : Option Value = elim (lib.from_slice body) [ ok v ↦ some v | err _ ↦ none ] in
      elim (t.from_value (strip_adaptive_thinking lib.json parsed t.null)) [
        | err e ↦
            refuse_body route.section (chars "anthropic->openai") endpoint (length body)
              clock.at_end (chars "invalid Anthropic body: ") e d
        | ok req ↦
            let req' = cap_anthropic_max_tokens req route.max_tokens in
            handle_manual (is_true req'.stream) req' headers route endpoint clock d
      ]
