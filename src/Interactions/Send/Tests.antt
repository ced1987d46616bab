-- ===== src/Interactions/Send/Tests.antt =====
-- The theorem on a split send of two chunks.
use inf_splitter.Prelude.{List, [], false, length, none, ok, refl, some, ◌∷◌, ◌≡◌}
use inf_splitter.Prelude.Text.{Text_eq, Text}
use inf_splitter.Interactions.Send.{SplitSend, chunk_body, client_gets, split_send}
use inf_splitter.Interactions.Chunks.{Sending, SplitCalls}
use inf_splitter.Prelude.Bytes.{chars}
use inf_splitter.Interactions.Send.Batches.{Completed, SplitEnd, ok_response, split_send-SplitEnd}
use inf_splitter.Session.InFlight.{new_store}
use inf_splitter.Prelude.Dict.{HashMap}
use inf_splitter.Egress.Samples.{Doc, body, route}
use inf_splitter.Upstream.Samples.{clock, handle_of, libraries, plain_answer}
use inf_splitter.Diagnostics.Guard.{drop_guard, new_guard}
use inf_splitter.Auth.Samples.{client_headers}
use inf_splitter.Diagnostics.Guard.Once.{IsRecorded, Outcome}
use inf_splitter.Diagnostics.{new_request_id}
use inf_splitter.Upstream.Reported.{Quiet-none, Reported}
use inf_splitter.Interactions.Send.Told.{Answers, split_send-Recorded}
use inf_splitter.Upstream.{is_success}
use inf_splitter.Interactions.Send.Served.{AreServed, IsServed, split_send-Served}
use inf_splitter.Upstream.Passthrough.{validate_upstream_body}
use inf_splitter.Diagnostics.Masking.{dump_body_from_bytes}
use inf_splitter.Interactions.Send.Conversation.{conversation}

abbrev calls : SplitCalls Doc Text Text Doc
calls = record {
  to_value = λ req. ok body;
  send = λ sent. ok plain_answer;
  from_str = λ text. ok text;
  id = λ reply. "int-1";
  body_size = λ id chunk. length chunk;
  text_len = length;
  build_response = λ replies id. ok body;
  to_string = λ text. "text";
  translate_error = λ text. text;
  store_error = λ e. chars "store";
}

abbrev split : SplitSend (HashMap Text Text) Doc Text Text Doc
split = record {
  lib = libraries (ok plain_answer);
  calls = calls;
  params = record {
    model = chars "m";
    system_instruction = some (chars "be kind");
    tools_config = none;
    previous_interaction_id = none;
  };
  rules = [];
  route = route;
  headers = client_headers;
  session_header = (chars "x-request-id", chars "s");
  trip = record {
    endpoint = chars "http://a";
    direction = chars "openai->interactions";
    streaming = false;
    request_size = 2;
  };
  clock = clock;
  now = 7;
  batch_id = "batch-s-7";
  limit = 100;
}

abbrev start : Sending
start = record {
  store = new_store;
  guard = new_guard handle_of (chars "a") (chars "m");
  cancelled = [];
}

abbrev chunks : List (List Text)
chunks = (chars "one" ∷ []) ∷ (chars "two" ∷ []) ∷ []

split_send-SplitEnd_example :
    SplitEnd split
      (none, 1 ∷ 2 ∷ [], none)
      []
      (conversation split 0 none chunks)
      (split_send split "s" (1 ∷ 2 ∷ []) none chunks start)
split_send-SplitEnd_example = split_send-SplitEnd split "s" (1 ∷ 2 ∷ []) none chunks start

split_send-Recorded_example :
    let (result, guard) = client_gets split (split_send split "s" (1 ∷ 2 ∷ []) none chunks start) in
    Answers split (conversation split 0 none chunks).1 result
    × ((o : Outcome) × IsRecorded handle_of
          (new_request_id handle_of).0
          (chars "a")
          (chars "m")
          o
          (drop_guard split.clock.duration_ms split.clock.at_end guard).stats_sent
        × Reported split.lib.fault result o)
split_send-Recorded_example =
    split_send-Recorded split "s" (1 ∷ 2 ∷ []) none chunks start handle_of (chars "a") (chars "m")
      (Quiet-none split.lib.codec (new_guard handle_of (chars "a") (chars "m")))

-- The text of the plain answer is the reply to each chunk.
abbrev replies : List Text
replies = chars "fine" ∷ chars "fine" ∷ []

chunks-AreServed : AreServed split 0 none chunks replies
unfolding chunk_body is_success validate_upstream_body dump_body_from_bytes
chunks-AreServed =
    let answered : IsServed split plain_answer (chars "fine") = record {
      bytes = _;
      dump = _;
      success = refl;
      read = refl;
      valid = refl;
      parsed = refl;
    } in
    (
      (_, plain_answer, refl, refl, answered),
      refl,
      ((_, plain_answer, refl, refl, answered), refl, tt),
    )

split_send-Served_example :
    let end = split_send split "s" (1 ∷ 2 ∷ []) none chunks start in
    (value : Doc) × (end.0 ≡ ok (ok_response split value))
    × (done : Completed split (none, 1 ∷ 2 ∷ [], none) [] replies end.1) × (calls.build_response
          replies done.node.id
        ≡ ok value)
split_send-Served_example =
    split_send-Served split "s" (1 ∷ 2 ∷ []) none chunks replies start chunks-AreServed
      (λ id. (body, refl))
