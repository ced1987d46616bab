-- ===== src/Upstream/Tests.antt =====
-- The theorems on the handlers at concrete requests, answers and streams.
use inf_splitter.Prelude.{List, [], err, false, none, ok, refl, some, suc, true, ℕ, ◌++◌, ◌∷◌}
use inf_splitter.Upstream.Reported.Passed.{handle-Reported}
use inf_splitter.Prelude.Text.{Text_eq, Text}
use inf_splitter.Upstream.Streamed.{
  Chunk, ReverseTranslator, Source, Streaming, broken, poll_anthropic, poll_openai, poll_times,
  received,
}
use inf_splitter.Upstream.Samples.{
  chat, clock, doc_json, error_answer, handle_of, libraries, plain_answer, plain_codec,
  to_anthropic, to_openai,
}
use inf_splitter.Upstream.Reported.Answered.{
  Answered, handle_converted-Answered, handle_from_anthropic-Answered,
}
use inf_splitter.Upstream.Requests.Bounded.{IsBounded, openai_egress-IsBounded}
use inf_splitter.Upstream.Events.{StreamingTranslator, ping}
use inf_splitter.Diagnostics.Guard.{State, drop_guard, new_guard}
use inf_splitter.Prelude.Bytes.{chars}
use inf_splitter.Upstream.Reported.Polled.Lives.{
  StreamRecorded, poll_anthropic-Recorded, poll_openai-Recorded,
}
use inf_splitter.Upstream.Passthrough.{handle, openai_side}
use inf_splitter.Egress.Samples.{Doc, body, route}
use inf_splitter.Auth.Samples.{client_headers}
use inf_splitter.Upstream.Requests.{
  ChatCompletionRequest, MessageCreateRequest, cap_anthropic_max_tokens, cap_openai_max_tokens,
  openai_egress, strip_adaptive_thinking,
}
use inf_splitter.Upstream.Reported.{Quiet-none, Reported}
use inf_splitter.Upstream.Anthropic.{anthropic_body, anthropic_exchange, handle_converted}
use inf_splitter.Upstream.Openai.{handle_from_anthropic, is_true, openai_body, openai_exchange}
use inf_splitter.Diagnostics.Guard.Once.{IsRecorded, Outcome}
use inf_splitter.Diagnostics.{new_request_id}
use inf_splitter.Diagnostics.Details.{text_of, text_or}
use inf_splitter.Upstream.Reported.Passed.{handle-Reported}
use inf_splitter.Upstream.Reported.Relayed.{IsPassedOn}
use inf_splitter.Egress.{apply_egress_transforms}

handle-Reported_example :
    let lib = libraries (ok error_answer) in
    let (result, d') =
      handle lib openai_side []
        (chars "{}")
        client_headers
        route
        (chars "http://a")
        clock
        handle_of in
    let model = text_or (chars "?") (text_of doc_json body (chars "model")) in
    IsPassedOn lib openai_side [] client_headers route
      (chars "http://a")
      (lib.to_vec (apply_egress_transforms lib.json.object body model route))
      result
    × ((o : Outcome) × IsRecorded handle_of
          (new_request_id handle_of).0
          route.section
          model
          o
          d'.stats_sent
        × Reported lib.fault result o)
handle-Reported_example =
    handle-Reported (libraries (ok error_answer)) openai_side [] (chars "{}") client_headers route
      (chars "http://a") clock handle_of body refl

handle_from_anthropic-Answered_example :
    let lib = libraries (ok plain_answer) in
    let capped =
      λ (req : MessageCreateRequest Doc). cap_anthropic_max_tokens req route.max_tokens in
    Answered lib handle_of route.section
      (chars "invalid Anthropic body: ")
      (to_openai.from_value (strip_adaptive_thinking doc_json (some body) to_openai.null))
      (λ req.
        openai_body lib [] to_openai (is_true (capped req).stream) (capped req) route handle_of)
      (λ req. openai_exchange lib [] to_openai (is_true (capped req).stream) (capped req))
      (handle_from_anthropic lib [] to_openai
        (chars "{}")
        client_headers
        route
        (chars "http://a")
        clock
        handle_of)
handle_from_anthropic-Answered_example =
    handle_from_anthropic-Answered (libraries (ok plain_answer)) [] to_openai (chars "{}")
      client_headers route (chars "http://a") clock handle_of

handle_converted-Answered_example :
    let lib = libraries (err (chars "reset")) in
    let capped = λ (req : ChatCompletionRequest Doc). cap_openai_max_tokens doc_json req route in
    Answered lib handle_of route.section
      (chars "invalid OpenAI body: ")
      (to_anthropic.from_slice (chars "{}"))
      (λ req.
        anthropic_body lib [] to_anthropic
          (is_true (capped req).stream)
          (capped req)
          route
          handle_of)
      (λ req. anthropic_exchange lib [] to_anthropic (is_true (capped req).stream) 2 (capped req))
      (handle_converted lib [] to_anthropic
        (chars "{}")
        client_headers
        route
        (chars "http://a")
        clock
        handle_of)
handle_converted-Answered_example =
    handle_converted-Answered (libraries (err (chars "reset"))) [] to_anthropic (chars "{}")
      client_headers route (chars "http://a") clock handle_of

openai_egress-IsBounded_example : IsBounded doc_json route (openai_egress doc_json true route chat)
openai_egress-IsBounded_example = openai_egress-IsBounded doc_json true route chat

abbrev source : Source
source = record {
  codec = plain_codec;
  decode = λ b. b;
  as_bytes = λ s. s;
  trip = record {
    endpoint = chars "http://a";
    direction = chars "anthropic->openai";
    streaming = true;
    request_size = 2;
  };
  upstream_headers = [];
  clock = clock;
}

abbrev stream_state : State
stream_state = new_guard handle_of (chars "a") (chars "m")

abbrev chunks : List Chunk
chunks = received (chars "data: x" ++ 10 ∷ []) ∷ broken (chars "reset") ∷ []

abbrev stream_of : {T : Type 0} → T → Streaming T
stream_of t = record {
  chunks = chunks;
  translator = t;
  buffer = [];
  raw_capture = [];
  guard = stream_state;
  sent_done = false;
  guard_finalized = false;
}

abbrev counting : StreamingTranslator ℕ
counting = record {
  process_chunk = λ n text. some (record { kind = ping; json = some text } ∷ [], suc n);
  finish = λ n. ([], n);
}

poll_openai-Recorded_example :
    let (seen, st') = poll_times (poll_openai source counting) 2 (stream_of 0) in
    StreamRecorded handle_of
      (chars "a")
      (chars "m")
      seen
      (drop_guard 20 (chars "t5") st'.guard).stats_sent
poll_openai-Recorded_example =
    poll_openai-Recorded source handle_of (chars "a") (chars "m") stream_state
      (Quiet-none plain_codec stream_state) counting 2 (stream_of 0) 20 (chars "t5") refl

abbrev reverse_counting : ReverseTranslator ℕ Text
reverse_counting = record {
  from_str = λ s. some s;
  started = λ s. none;
  new_translator = λ id model. 0;
  process_event = λ n s. (some (some s), suc n);
  is_done = λ n. false;
}

poll_anthropic-Recorded_example :
    let (seen, st') =
      poll_times (poll_anthropic source reverse_counting (chars "m")) 3 (stream_of (some 0)) in
    StreamRecorded handle_of
      (chars "a")
      (chars "m")
      seen
      (drop_guard 20 (chars "t5") st'.guard).stats_sent
poll_anthropic-Recorded_example =
    poll_anthropic-Recorded source handle_of (chars "a") (chars "m") stream_state
      (Quiet-none plain_codec stream_state) reverse_counting (chars "m") 3 (stream_of (some 0)) 20
      (chars "t5") refl refl refl
