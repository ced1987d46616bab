-- ===== src/Upstream/Passthrough.antt =====
-- src/openai.rs and src/anthropic.rs: a request whose protocol the upstream speaks, which is sent on
-- with the transforms of its route and whose answer is relayed. The two files have the same code up
-- to what `Side` holds.
use inf_splitter.Prelude.{
  Bool, List, Result, [], any, err, false, if◌then◌else◌, length, none, not, ok, some, ℕ, ◌&&◌,
  ◌++◌, ◌∷◌,
}
use inf_splitter.Prelude.Text.{Text_eq, Text}
use inf_splitter.Router.{Protocol, anthropic, open_ai}
use inf_splitter.Diagnostics.Masking.{Codec, dump_body_from_bytes}
use inf_splitter.Diagnostics.Guard.{
  Ending, RequestDiagnostics, State, drop_guard, egress_dump, finish, finish_with_upstream_error,
  ingress_dump, new_guard, response_dump,
}
use inf_splitter.Upstream.{
  Answer, AnswerHeaders, Clock, Handled, Libraries, Outgoing, Response, Trip, as_answer, built,
  ending, error_text, header_of, is_success, json_content, refuse, relayed_stream, whole,
}
use inf_splitter.Auth.{forward_request_headers_map, same_name}
use inf_splitter.Prelude.Bytes.{chars}
use inf_splitter.Upstream.Headers.{all_pairs, copy_response_headers, relay_response_headers}
use inf_splitter.Config.Load.{ErrorTranslationRule}
use inf_splitter.Errors.{AppError, app_error_text, bad_request, internal, status}
use inf_splitter.Relay.{DiagnosticStream}
use inf_splitter.Egress.{apply_egress_transforms, apply_error_translation}
use inf_splitter.Config.Route.{RouteTarget}
use inf_splitter.Diagnostics.{Diagnostics, DumpBody, base64, dump_enabled, stats_enabled, utf8}
use inf_splitter.Sse.{is_event_stream}
use inf_splitter.Diagnostics.Guard.Steps.{
  GuardStep, abort_internal, abort_upstream, guard_step, sets_detail_egress, sets_detail_ingress,
}
use inf_splitter.Diagnostics.Details.{messages_detail_from_value, text_of, text_or}

pub record Side : Type 0 where
  pub protocol : Protocol
  pub path : Text
  pub direction : Text
  -- the headers that the client gets, and those of the dump of an error
  pub relay_headers : AnswerHeaders → List (Text × Text)
  pub dump_headers : AnswerHeaders → List (Text × Text)

unfoldable pub openai_side : Side
openai_side = record {
  protocol = open_ai;
  path = chars "/v1/chat/completions";
  direction = chars "openai->openai";
  relay_headers = relay_response_headers;
  dump_headers = all_pairs;
}

unfoldable pub anthropic_side : Side
anthropic_side = record {
  protocol = anthropic;
  path = chars "/v1/messages";
  direction = chars "anthropic->anthropic";
  relay_headers = copy_response_headers;
  dump_headers = copy_response_headers;
}

-- validate_upstream_body: the dump of the body, with the error where it is no UTF-8
unfoldable pub validate_upstream_body : Codec → List ℕ → Result (AppError × DumpBody) DumpBody
validate_upstream_body codec body = elim (dump_body_from_bytes codec body) [
  | base64 s ↦ err (internal (chars "non-utf8 response from upstream"), base64 s)
  | utf8 s ↦ ok (utf8 s)
]

-- a header of a stream that the upstream did not send
unfoldable pub or_header :
    Text → Text → List (Text × Text) → List (Text × Text) → List (Text × Text)
or_header name value relayed headers =
    if any (λ (h : Text × Text). same_name h.0 name) relayed
    then headers
    else headers ++ (name, value) ∷ []

unfoldable pub stream_headers : List (Text × Text) → List (Text × Text)
stream_headers relayed = or_header (chars "connection") (chars "keep-alive") relayed (
    or_header (chars "cache-control") (chars "no-cache") relayed
      (or_header (chars "content-type") (chars "text/event-stream") relayed relayed))

abbrev pub diagnostic_stream : RequestDiagnostics → ℕ → List (Text × Text) → DiagnosticStream
diagnostic_stream g status headers = record {
  buffer = [];
  request_id = g.request_id;
  section = g.section;
  model = g.model;
  response_headers = headers;
  status = status;
  dumped = false;
}

-- the arguments of abort_upstream where the body is not relayed
abbrev pub relay_ending : Trip → Clock → RequestDiagnostics → Ending
relay_ending trip clock g =
    ending (record trip { request_size = g.ingress_size; streaming = false }) 502 0 clock.at_end

module _ {M Value : Type 0} (lib : Libraries M Value) (side : Side)
    (rules : List ErrorTranslationRule) where
  -- relay_openai_upstream, relay_upstream_response
  unfoldable pub relay_upstream : Answer → Trip → Clock → State → Handled Value
  relay_upstream answer trip clock (g, d) =
      let relayed = side.relay_headers answer.headers in
      if is_event_stream (header_of (chars "content-type") answer.headers)
      then (
        built lib (record {
          status = answer.status;
          headers = stream_headers relayed;
          body = relayed_stream (diagnostic_stream g answer.status relayed);
        }),
        (g, d),
      )
      else elim answer.bytes [
        | err e ↦ refuse (abort_upstream (relay_ending trip clock g) e (g, d))
        | ok bytes ↦ elim (validate_upstream_body lib.codec bytes) [
          | err (e, dump) ↦ refuse (
              abort_upstream (relay_ending trip clock g) (app_error_text e)
                (response_dump dump answer.status relayed clock.at_response (g, d)))
          | ok dump ↦ (
            built lib (record { status = answer.status; headers = relayed; body = whole bytes }),
            response_dump dump answer.status relayed clock.at_response (g, d),
          )
        ]
      ]

  -- the branch of is_err
  unfoldable pub relay_error : Answer → Trip → Clock → State → Handled Value
  relay_error answer trip clock s =
      let error_body : Text = elim answer.text [ ok t ↦ t | err _ ↦ [] ] in
      (
        built lib (record {
          status = answer.status;
          headers = json_content ∷ side.relay_headers answer.headers;
          body = error_text (apply_error_translation answer.status error_body rules);
        }),
        finish_with_upstream_error lib.codec
            (ending trip answer.status clock.duration_ms clock.at_end) error_body
            (lib.json.as_bytes error_body) (side.dump_headers answer.headers) s,
      )

  abbrev pub is_error_answer : Answer → Bool
  is_error_answer answer =
      not (is_success answer.status)
      && not (is_event_stream (header_of (chars "content-type") answer.headers))

  -- the end of a request whose answer was relayed, or not
  unfoldable pub after_relay : Trip → Clock → Handled Value → Handled Value
  after_relay trip clock (err e, s) =
      refuse (abort_upstream (ending trip 502 clock.duration_ms clock.at_end) (app_error_text e) s)
  after_relay trip clock (ok response, s) =
      let content_type = header_of (chars "content-type") (as_answer response.headers) in
      (
        ok response,
        finish
            (record (ending trip response.status clock.duration_ms clock.at_end) {
              streaming = is_event_stream content_type;
            })
            s,
      )

  unfoldable pub after_send : Result Text Answer → Trip → Clock → State → Handled Value
  after_send (err e) trip clock s =
      refuse (abort_upstream (ending trip 502 clock.duration_ms clock.at_end) e s)
  after_send (ok answer) trip clock s =
      if is_error_answer answer
      then relay_error answer trip clock s
      else after_relay trip clock (relay_upstream answer trip clock s)

  unfoldable pub outgoing : M → RouteTarget → Text → List ℕ → Outgoing
  outgoing headers route endpoint body = record {
    proxy = route.proxy;
    url = endpoint ++ side.path;
    headers =
        json_content
        ∷ lib.http.entries
            (forward_request_headers_map lib.http route.api_key headers side.protocol);
    body = body;
  }

  abbrev pub note_detail : (Text → GuardStep) → Value → State → State
  note_detail sets value (g, d) =
      if stats_enabled d
      then (elim (messages_detail_from_value lib.json value) [
        | none ↦ (g, d)
        | some detail ↦ guard_step lib.codec (sets (lib.json.to_text detail)) (g, d)
      ])
      else (g, d)

  abbrev pub note_egress : M → RouteTarget → List ℕ → Clock → State → State
  note_egress headers route body clock (g, d) =
      if dump_enabled d
      then egress_dump lib.codec body
          (lib.pairs (forward_request_headers_map lib.http route.api_key headers side.protocol))
          clock.at_egress (g, d)
      else (g, d)

  -- from the serialised body on
  unfoldable pub send_body :
      M → RouteTarget → Trip → Clock → Result Text (List ℕ) → State → Handled Value
  send_body headers route trip clock (err e) s =
      refuse (abort_internal (ending trip 500 0 clock.at_end) e s)
  send_body headers route trip clock (ok body) s =
      after_send (lib.send (outgoing headers route trip.endpoint body)) trip clock
        (note_egress headers route body clock s)

  -- the handler from the creation of the guard on
  unfoldable pub with_guard :
      List ℕ → Value → Text → M → RouteTarget → Text → Clock → State → Handled Value
  with_guard body value model headers route endpoint clock s =
      let trip : Trip = record {
        endpoint = endpoint;
        direction = side.direction;
        streaming = false;
        request_size = length body;
      } in
      let noted =
        note_detail sets_detail_ingress value
          (ingress_dump lib.codec body (lib.pairs headers) clock.at_ingress s) in
      let value' = apply_egress_transforms lib.json.object value model route in
      send_body headers route trip clock (lib.to_vec value')
        (note_detail sets_detail_egress value' noted)

  -- The handler, and the drop of its guard. A body that is no JSON is refused before there is one.
  unfoldable pub handle :
      List ℕ
      → M
      → RouteTarget
      → Text
      → Clock
      → Diagnostics
      → Result AppError (Response Value) × Diagnostics
  handle body headers route endpoint clock d = elim (lib.from_slice body) [
    | err e ↦ (err (bad_request e), d)
    | ok value ↦
        let model = text_or (chars "?") (text_of lib.json value (chars "model")) in
        let (result, s) =
          with_guard body value model headers route endpoint clock
            (new_guard d route.section model) in
        (result, drop_guard clock.duration_ms clock.at_end s)
  ]
