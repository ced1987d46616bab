-- ===== src/Upstream/Anthropic.antt =====
-- src/anthropic.rs: the handlers of requests to an Anthropic upstream, with what they call of the
-- translation library.
use inf_splitter.Prelude.{
  Bool, List, Option, Result, err, if◌then◌else◌, length, map_err, none, ok, some, true, ℕ, ◌>>=◌,
}
use inf_splitter.Prelude.Text.{Text_eq, Text}
use inf_splitter.Upstream.{Clock, Libraries, Response}
use inf_splitter.Upstream.Requests.{
  ChatCompletionRequest, MessageCreateRequest, PreparedBody, cap_openai_max_tokens,
  prepare_egress_body,
}
use inf_splitter.Config.Load.{ErrorTranslationRule}
use inf_splitter.Upstream.Converted.{Exchange, Left, convert}
use inf_splitter.Config.Route.{RouteTarget, or}
use inf_splitter.Diagnostics.{Diagnostics}
use inf_splitter.Router.{anthropic}
use inf_splitter.Errors.{AppError, bad_request}
use inf_splitter.Prelude.Bytes.{chars}
use inf_splitter.Upstream.Headers.{copy_response_headers}
use inf_splitter.Upstream.Passthrough.{anthropic_side, handle}
use inf_splitter.Upstream.Openai.{is_true, refuse_body}

pub record ToAnthropic (Value Reply : Type 0) : Type 0 where
  pub from_slice : List ℕ → Result Text (ChatCompletionRequest Value)
  pub to_string : ChatCompletionRequest Value → Option Text
  pub to_value : MessageCreateRequest Value → Result Text Value
  pub translate_request : ChatCompletionRequest Value → Result Text (MessageCreateRequest Value)
  pub read : List ℕ → Result Text Reply
  pub translate_response : Reply → Text → Value
  pub messages_detail : ChatCompletionRequest Value → Value

module _ {M Value Reply : Type 0} (lib : Libraries M Value) (rules : List ErrorTranslationRule)
    (t : ToAnthropic Value Reply) where
  -- Anthropic ingress, Anthropic upstream
  unfoldable pub handle_passthrough :
      List ℕ
      → M
      → RouteTarget
      → Text
      → Clock
      → Diagnostics
      → Result AppError (Response Value) × Diagnostics
  handle_passthrough = handle lib anthropic_side rules

  unfoldable pub anthropic_exchange : Bool → ℕ → ChatCompletionRequest Value → Exchange Value Reply
  anthropic_exchange streaming request_size req = record {
    protocol = anthropic;
    path = chars "/v1/messages";
    direction = chars "openai->anthropic";
    streaming = streaming;
    model = req.model;
    request_size = request_size;
    input_messages = length req.messages;
    max_tokens = elim (or req.max_tokens req.max_completion_tokens) [ none ↦ 0 | some n ↦ n ];
    messages_detail = t.messages_detail req;
    ingress = t.to_string req;
    dump_headers = copy_response_headers;
    read = t.read;
    translate = λ reply. t.translate_response reply req.model;
  }

  unfoldable pub anthropic_body :
      Bool
      → ChatCompletionRequest Value
      → RouteTarget
      → Diagnostics
      → Result AppError (PreparedBody Value)
  anthropic_body streaming req route d = do
    message ← map_err bad_request (t.translate_request req)
    let sent : MessageCreateRequest Value =
        if streaming then record message { stream = some true } else message
    prepare_egress_body lib (t.to_value sent) req.model route d

  -- the rest of handle_from_openai, and handle_from_openai_stream
  unfoldable pub handle_translated :
      Bool
      → ℕ
      → ChatCompletionRequest Value
      → M
      → RouteTarget
      → Text
      → Clock
      → Diagnostics
      → Result AppError (Response Value) × Left
  handle_translated streaming request_size req headers route endpoint clock d =
      convert lib rules (anthropic_exchange streaming request_size req) endpoint clock headers route
        (anthropic_body streaming req route d) d

  -- OpenAI ingress, Anthropic upstream
  unfoldable pub handle_converted :
      List ℕ
      → M
      → RouteTarget
      → Text
      → Clock
      → Diagnostics
      → Result AppError (Response Value) × Left
  handle_converted body headers route endpoint clock d = elim (t.from_slice body) [
    | err e ↦
        refuse_body route.section (chars "openai->anthropic") endpoint (length body) clock.at_end
          (chars "invalid OpenAI body: ") e d
    | ok req ↦
        let req' = cap_openai_max_tokens lib.json req route in
        handle_translated (is_true req'.stream) (length body) req' headers route endpoint clock d
  ]
