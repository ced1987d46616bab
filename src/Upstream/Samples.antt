-- ===== src/Upstream/Samples.antt =====
-- Libraries, a route and an upstream, for the tests of the handlers.
use inf_splitter.Prelude.{List, Option, Result, [], none, ok, some, true, ◌∷◌}
use inf_splitter.Prelude.Text.{Text_eq, Text}
use inf_splitter.Diagnostics.{Diagnostics, new}
use inf_splitter.Diagnostics.Details.{JsonValues}
use inf_splitter.Upstream.Anthropic.{ToAnthropic}
use inf_splitter.Upstream.{Answer, Clock, Libraries}
use inf_splitter.Upstream.Openai.{ToOpenai}
use inf_splitter.Diagnostics.Masking.{Codec}
use inf_splitter.Upstream.Requests.{ChatCompletionRequest, MessageCreateRequest}
use inf_splitter.Egress.Samples.{Doc, body, docs, field, nothing, str}
use inf_splitter.Prelude.Bytes.{chars}
use inf_splitter.Prelude.Dict.{HashMap}
use inf_splitter.Config.Outputs.{always, diagnostics_default}
use inf_splitter.Auth.Samples.{lower_map}

abbrev pub doc_fields : List (Text × Doc) → Doc
doc_fields [] = nothing
doc_fields ((k, v) ∷ rest) = field k v (doc_fields rest)

abbrev pub doc_str : Doc → Option Text
doc_str (str s) = some s
doc_str _ = none

abbrev pub doc_json : JsonValues Doc
doc_json = record {
  object = docs;
  as_str = doc_str;
  as_array = λ v. none;
  text = str;
  array = λ vs. nothing;
  fields = doc_fields;
  to_text = λ v. chars "json";
  as_bytes = λ s. s;
}

abbrev pub plain_answer : Answer
plain_answer = record {
  status = 200;
  headers = (chars "content-type", some (chars "application/json")) ∷ [];
  text = ok (chars "fine");
  bytes = ok (chars "fine");
}

abbrev pub error_answer : Answer
error_answer = record plain_answer { status = 429; text = ok (chars "slow down") }

abbrev pub plain_codec : Codec
plain_codec = record { from_utf8 = λ b. some b; encode = λ b. b }

abbrev pub libraries : Result Text Answer → Libraries (HashMap Text Text) Doc
libraries sent = record {
  http = lower_map;
  pairs = λ m. [];
  json = doc_json;
  from_slice = λ b. ok body;
  to_vec = λ v. ok (chars "body");
  codec = plain_codec;
  fault = λ r. none;
  send = λ out. sent;
}

abbrev pub handle_of : Diagnostics
handle_of = new (record diagnostics_default { stats_mode = always; dump_mode = always }) 1700000000

abbrev pub clock : Clock
clock = record {
  at_ingress = chars "t1";
  at_egress = chars "t2";
  at_response = chars "t3";
  at_end = chars "t4";
  duration_ms = 15;
}

abbrev pub chat : ChatCompletionRequest Doc
chat = record {
  model = chars "m";
  max_tokens = some 500;
  max_completion_tokens = none;
  stream = some true;
  stream_options = none;
  extra = record { entries = (chars "output_config", nothing) ∷ [] };
  messages = [];
  rest = nothing;
}

abbrev pub message : MessageCreateRequest Doc
message = record {
  model = chars "m";
  max_tokens = 500;
  stream = none;
  messages = [];
  rest = nothing;
}

abbrev pub to_openai : ToOpenai Doc Doc
to_openai = record {
  null = nothing;
  from_value = λ v. ok message;
  to_string = λ req. some (chars "request");
  to_value = λ req. ok body;
  translate_request = λ models req. ok chat;
  read = λ b. ok nothing;
  translate_response = λ reply model. reply;
  messages_detail = λ req. nothing;
}

abbrev pub to_anthropic : ToAnthropic Doc Doc
to_anthropic = record {
  from_slice = λ b. ok chat;
  to_string = λ req. some (chars "request");
  to_value = λ req. ok body;
  translate_request = λ req. ok message;
  read = λ b. ok nothing;
  translate_response = λ reply model. reply;
  messages_detail = λ req. nothing;
}
