-- ===== src/Upstream/Requests.antt =====
-- What is done to a request before it is converted and sent: src/openai.rs, src/relay.rs and
-- `prepare_egress_body` of src/lib.rs. The requests are the translation library's, with the fields
-- that the program reads or writes; the others are `rest`.
pub mod Bounded
use inf_splitter.Prelude.{
  Bool, List, Option, Result, if◌then◌else◌, ltb, map_err, none, ok, some, true, ℕ, ◌==◌, ◌>>=◌,
}
use inf_splitter.Prelude.Dict
use inf_splitter.Prelude.Text.{Text_eq, Text}
use inf_splitter.Diagnostics.Details.{JsonValues, text_of}
use inf_splitter.Prelude.Dict.{HashMap}
use inf_splitter.Upstream.{Libraries}
use inf_splitter.Config.Route.{RouteTarget}
use inf_splitter.Prelude.Bytes.{chars}
use inf_splitter.Diagnostics.{Diagnostics, dump_enabled}
use inf_splitter.Errors.{AppError, internal}
use inf_splitter.Egress.{drop_fields_from_value}
use inf_splitter.Config.Fields.{for_model}

pub record MessageCreateRequest (Value : Type 0) : Type 0 where
  pub model : Text
  pub max_tokens : ℕ
  pub stream : Option Bool
  pub messages : List Value
  pub rest : Value

pub record ChatCompletionRequest (Value : Type 0) : Type 0 where
  pub model : Text
  pub max_tokens : Option ℕ
  pub max_completion_tokens : Option ℕ
  pub stream : Option Bool
  pub stream_options : Option Value
  pub extra : HashMap Text Value
  pub messages : List Value
  pub rest : Value

-- Some(existing) if existing > limit, None, and the rest
unfoldable pub cap_or_set : Option ℕ → ℕ → Option ℕ
cap_or_set none limit = some limit
cap_or_set (some existing) limit = if ltb limit existing then some limit else some existing

abbrev pub limited : Option ℕ → Option ℕ → Option ℕ
limited none existing = existing
limited (some limit) existing = cap_or_set existing limit

-- The cap of an existing max_completion_tokens, where there is a limit of max_tokens and the route
-- has none of max_completion_tokens.
unfoldable pub cap_existing : (own limit existing : Option ℕ) → Option ℕ
cap_existing (some _) limit existing = existing
cap_existing none none existing = existing
cap_existing none (some limit) none = none
cap_existing none (some limit) (some existing) =
    if ltb limit existing then some limit else some existing

-- max_tokens is not sent beside max_completion_tokens
unfoldable pub legacy_tokens : (completion legacy : Option ℕ) → Option ℕ
legacy_tokens (some _) legacy = none
legacy_tokens none legacy = legacy

unfoldable pub cap_anthropic_max_tokens :
    {Value : Type 0} → MessageCreateRequest Value → Option ℕ → MessageCreateRequest Value
cap_anthropic_max_tokens req none = req
cap_anthropic_max_tokens req (some limit) =
    if ltb limit req.max_tokens then record req { max_tokens = limit } else req

module _ {Value : Type 0} (json : JsonValues Value) where
  -- req.extra.get(..).and_then(|v| v.as_u64())
  unfoldable pub extra_u64 : HashMap Text Value → Text → Option ℕ
  extra_u64 extra key = elim (Dict.get extra key) [ none ↦ none | some v ↦ json.object.as_u64 v ]

  unfoldable pub cap_extra : Option ℕ → HashMap Text Value → HashMap Text Value
  cap_extra none extra = extra
  cap_extra (some limit) extra =
      let capped = Dict.insert extra (chars "max_output_tokens") (json.object.number limit) in
      elim (extra_u64 extra (chars "max_output_tokens")) [
        | none ↦ capped
        | some existing ↦ if ltb limit existing then capped else extra
      ]

  unfoldable pub cap_openai_max_tokens :
      ChatCompletionRequest Value → RouteTarget → ChatCompletionRequest Value
  cap_openai_max_tokens req route = record req {
    max_tokens = limited route.max_tokens req.max_tokens;
    max_completion_tokens = limited route.max_completion_tokens req.max_completion_tokens;
    extra = cap_extra route.max_output_tokens req.extra;
  }

  unfoldable pub cap_completion :
      ChatCompletionRequest Value → RouteTarget → ChatCompletionRequest Value
  cap_completion req route = record req {
    max_completion_tokens =
        cap_existing route.max_completion_tokens route.max_tokens req.max_completion_tokens;
  }

  unfoldable pub sanitize_openai_egress : ChatCompletionRequest Value → ChatCompletionRequest Value
  sanitize_openai_egress req = record req {
    extra =
        Dict.remove (Dict.remove req.extra (chars "context_management")) (chars "output_config");
    max_tokens = legacy_tokens req.max_completion_tokens req.max_tokens;
  }

  -- what handle_sync_manual and handle_stream_manual do to the translated request
  unfoldable pub openai_egress :
      Bool → RouteTarget → ChatCompletionRequest Value → ChatCompletionRequest Value
  openai_egress streaming route req =
      let sanitized =
        sanitize_openai_egress (cap_completion (cap_openai_max_tokens req route) route) in
      record sanitized {
        stream = if streaming then some true else sanitized.stream;
        stream_options = none;
      }

  unfoldable pub strip_adaptive_thinking : (parsed : Option Value) → (null : Value) → Value
  strip_adaptive_thinking none null = null
  strip_adaptive_thinking (some value) null = elim (json.object.get value (chars "thinking")) [
    | none ↦ value
    | some thinking ↦ elim (text_of json thinking (chars "type")) [
      | none ↦ value
      | some ty ↦
          if ty == chars "adaptive" then json.object.remove value (chars "thinking") else value
    ]
  ]

pub record PreparedBody (Value : Type 0) : Type 0 where
  pub bytes : List ℕ
  pub value : Value
  pub egress_str : Option Text

module _ {M Value : Type 0} (lib : Libraries M Value) where
  -- from the serialised request, or the error of its serialisation
  unfoldable pub prepare_egress_body :
      Result Text Value → Text → RouteTarget → Diagnostics → Result AppError (PreparedBody Value)
  prepare_egress_body serialised model route d = do
    value ← map_err internal serialised
    let value' = drop_fields_from_value lib.json.object value (for_model route.drop_fields model)
    bytes ← map_err internal (lib.to_vec value')
    ok (record {
      bytes = bytes;
      value = value';
      egress_str = if dump_enabled d then lib.codec.from_utf8 bytes else none;
    })
