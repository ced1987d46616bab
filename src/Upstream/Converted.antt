-- ===== src/Upstream/Converted.antt =====
-- src/openai.rs and src/anthropic.rs: a request that is translated for an upstream of the other
-- protocol. What the two files do with a prepared body is the same up to what `Exchange` holds.
use inf_splitter.Prelude.{
  Bool, List, Option, Result, [], err, false, if◌then◌else◌, length, none, not, ok, some, true, ℕ,
  ◌++◌, ◌∷◌,
}
use inf_splitter.Prelude.Text.{Text_eq, Text}
use inf_splitter.Diagnostics.{Diagnostics, dump_enabled, stats_enabled}
use inf_splitter.Router.{Protocol}
use inf_splitter.Upstream.{
  Answer, AnswerHeaders, Clock, Handled, Libraries, Outgoing, Response, Trip, built, ending,
  error_text, is_success, json_body, json_content, refuse, translated,
}
use inf_splitter.Prelude.Bytes.{chars}
use inf_splitter.Config.Load.{ErrorTranslationRule}
use inf_splitter.Diagnostics.Guard.{
  State, drop_guard, egress_dump, finish, finish_with_upstream_error, ingress_dump, new_guard,
  response_dump,
}
use inf_splitter.Errors.{AppError, app_error_text, internal}
use inf_splitter.Egress.{apply_error_translation}
use inf_splitter.Diagnostics.Guard.Steps.{
  abort_internal, abort_upstream, guard_step, sets_detail_egress, sets_detail_ingress,
  sets_input_messages, sets_max_tokens,
}
use inf_splitter.Config.Route.{RouteTarget}
use inf_splitter.Diagnostics.Details.{messages_detail_from_value}
use inf_splitter.Auth.{forward_request_headers_map}
use inf_splitter.Upstream.Requests.{PreparedBody}
use inf_splitter.Diagnostics.Masking.{dump_body_from_bytes}

-- `Reply` is the translation library's type of an answer.
pub record Exchange (Value Reply : Type 0) : Type 0 where
  pub protocol : Protocol
  pub path : Text
  pub direction : Text
  pub streaming : Bool
  pub model : Text
  pub request_size : ℕ
  pub input_messages : ℕ
  pub max_tokens : ℕ
  pub messages_detail : Value
  -- the request, where it is serialised
  pub ingress : Option Text
  pub dump_headers : AnswerHeaders → List (Text × Text)
  pub read : List ℕ → Result Text Reply
  pub translate : Reply → Value

-- sse_response
unfoldable pub sse_headers : List (Text × Text)
sse_headers =
    (chars "content-type", chars "text/event-stream")
    ∷ (chars "cache-control", chars "no-cache")
    ∷ (chars "connection", chars "keep-alive")
    ∷ []

-- what is left of the guard: it was dropped, or the stream holds it
pub data Left : Type 0 where
  dropped : Diagnostics → Left
  held : State → Left

-- a response whose body is the stream that translates
abbrev pub is_translated : {Value : Type 0} → Result AppError (Response Value) → Bool
is_translated (err _) = false
is_translated (ok r) = elim r.body [ translated ↦ true | _ ↦ false ]

module _ {M Value Reply : Type 0} (lib : Libraries M Value) (rules : List ErrorTranslationRule)
    (ex : Exchange Value Reply) (endpoint : Text) (clock : Clock) where
  abbrev pub trip : Trip
  trip = record {
    endpoint = endpoint;
    direction = ex.direction;
    streaming = ex.streaming;
    request_size = ex.request_size;
  }

  abbrev pub upstream_fails : Text → State → Handled Value
  upstream_fails e s = refuse (abort_upstream (ending trip 502 clock.duration_ms clock.at_end) e s)

  -- an upstream's error, with a body that could not be read written out
  unfoldable pub convert_error : Answer → State → Handled Value
  convert_error answer s =
      let error_body : Text = elim answer.text [
        | ok t ↦ t
        | err e ↦ chars "(failed to read error body: " ++ e ++ chars ")"
      ] in
      (
        built lib (record {
          status = answer.status;
          headers = json_content ∷ [];
          body = error_text (apply_error_translation answer.status error_body rules);
        }),
        finish_with_upstream_error lib.codec
            (ending trip answer.status clock.duration_ms clock.at_end) error_body
            (lib.json.as_bytes error_body) (ex.dump_headers answer.headers) s,
      )

  unfoldable pub convert_reply : Answer → State → Handled Value
  convert_reply answer s = elim answer.bytes [
    | err e ↦ upstream_fails e s
    | ok bytes ↦ elim (ex.read bytes) [
      | err e ↦ upstream_fails (chars "failed to deserialize upstream response: " ++ e) s
      | ok reply ↦ (
        ok (record {
          status = 200;
          headers = json_content ∷ [];
          body = json_body (ex.translate reply);
        }),
        finish
            (record (ending trip 200 clock.duration_ms clock.at_end) {
              response_size = some (length bytes);
            })
            (response_dump (dump_body_from_bytes lib.codec bytes) 200
              (ex.dump_headers answer.headers) clock.at_response s),
      )
    ]
  ]

  -- the response is made before the stream is polled
  unfoldable pub convert_stream : State → Handled Value
  convert_stream s =
      let response : Response Value = record {
        status = 200;
        headers = sse_headers;
        body = translated;
      } in
      elim (lib.fault response) [
        | none ↦ (ok response, s)
        | some e ↦
            let error = app_error_text (internal e) in
            refuse (abort_internal (ending trip 500 clock.duration_ms clock.at_end) error s)
      ]

  unfoldable pub convert_answer : Result Text Answer → State → Handled Value
  convert_answer (err e) s = upstream_fails e s
  convert_answer (ok answer) s =
      if not (is_success answer.status)
      then convert_error answer s
      else if ex.streaming
      then convert_stream s
      else convert_reply answer s

  -- the setters, where statistics are on
  unfoldable pub note_request : Value → State → State
  note_request value (g, d) =
      if stats_enabled d
      then (let s1 = guard_step lib.codec (sets_input_messages ex.input_messages) (g, d) in
          let s2 = guard_step lib.codec (sets_max_tokens ex.max_tokens) s1 in
          let s3 =
            guard_step lib.codec (sets_detail_ingress (lib.json.to_text ex.messages_detail)) s2 in
          elim (messages_detail_from_value lib.json value) [
            | none ↦ s3
            | some detail ↦ guard_step lib.codec (sets_detail_egress (lib.json.to_text detail)) s3
          ])
      else (g, d)

  unfoldable pub dump_converted_egress : M → RouteTarget → Option Text → State → State
  dump_converted_egress headers route none s = s
  dump_converted_egress headers route (some str) s =
      egress_dump lib.codec (lib.json.as_bytes str)
        (lib.pairs (forward_request_headers_map lib.http route.api_key headers ex.protocol))
        clock.at_egress s

  unfoldable pub dump_converted_ingress : M → State → State
  dump_converted_ingress headers (g, d) =
      if dump_enabled d
      then (elim ex.ingress [
        | none ↦ (g, d)
        | some str ↦
            ingress_dump lib.codec (lib.json.as_bytes str) (lib.pairs headers) clock.at_ingress
              (g, d)
      ])
      else (g, d)

  unfoldable pub converted_request : M → RouteTarget → List ℕ → Outgoing
  converted_request headers route body = record {
    proxy = route.proxy;
    url = endpoint ++ ex.path;
    headers =
        json_content
        ∷ lib.http.entries (forward_request_headers_map lib.http route.api_key headers ex.protocol);
    body = body;
  }

  -- from the guard on
  unfoldable pub convert_with_guard : M → RouteTarget → PreparedBody Value → State → Handled Value
  convert_with_guard headers route prepared s =
      convert_answer (lib.send (converted_request headers route prepared.bytes)) (
        dump_converted_ingress headers
          (dump_converted_egress headers route prepared.egress_str (note_request prepared.value s)))

  -- the guard goes into the stream, or is dropped
  unfoldable pub leave : Handled Value → Result AppError (Response Value) × Left
  leave (result, s) = (
    result,
    if is_translated result then held s else dropped (drop_guard clock.duration_ms clock.at_end s),
  )

  -- from the body that prepare_egress_body gives, or its error
  unfoldable pub convert :
      M
      → RouteTarget
      → Result AppError (PreparedBody Value)
      → Diagnostics
      → Result AppError (Response Value) × Left
  convert headers route (err e) d = (err e, dropped d)
  convert headers route (ok prepared) d =
      leave (convert_with_guard headers route prepared (new_guard d route.section ex.model))
