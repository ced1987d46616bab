-- ===== src/Diagnostics/Guard.antt =====
-- src/diagnostics.rs: `RequestDiagnostics`, the guard of one request. The clock is an argument of
-- what reads it. A state is the guard with the handle that it sends by.
pub mod Steps
pub mod Once
pub mod Masked
use mathlib.Core.Option
use inf_splitter.Prelude.Sets
use inf_splitter.Prelude.{
  Bool, List, Option, [], false, if◌then◌else◌, length, none, some, true, ℕ, ◌++◌, ◌∷◌,
}
use inf_splitter.Prelude.Text.{Text_eq, Text}
use inf_splitter.Diagnostics.{
  Diagnostics, DumpBody, DumpEvent, StatsEvent, default_stats, new_request_id, record_dump,
  record_stats,
}
use inf_splitter.Prelude.Bytes.{chars}
use inf_splitter.Diagnostics.Masking.{
  Codec, dump_body_from_bytes, header_pairs_with_masking, mask_header_values,
}

pub record StoredDump : Type 0 where
  pub body : DumpBody
  pub headers : List (Text × Text)
  pub ts : Text
  pub status : Option ℕ

pub record RequestDiagnostics : Type 0 where
  pub request_id : Text
  pub section : Text
  pub model : Text
  pub finished : Bool
  pub ingress_size : ℕ
  pub input_messages : Option ℕ
  pub max_tokens : Option ℕ
  pub messages_detail_ingress : Option Text
  pub messages_detail_egress : Option Text
  pub ingress_dump_pending : Option StoredDump
  pub egress_dumps_pending : List StoredDump
  pub response_dump_pending : Option StoredDump
  pub ingress_response_dump_pending : Option StoredDump

abbrev pub State : Type 0
State = RequestDiagnostics × Diagnostics

unfoldable pub new_guard : Diagnostics → Text → Text → State
new_guard d section model =
    let (request_id, next) = new_request_id d in
    (
      record {
        request_id = request_id;
        section = section;
        model = model;
        finished = false;
        ingress_size = 0;
        input_messages = none;
        max_tokens = none;
        messages_detail_ingress = none;
        messages_detail_egress = none;
        ingress_dump_pending = none;
        egress_dumps_pending = [];
        response_dump_pending = none;
        ingress_response_dump_pending = none;
      },
      next,
    )

abbrev pub as_dump :
    RequestDiagnostics → Text → Text → List (Text × Text) → Option ℕ → StoredDump → DumpEvent
as_dump g stage direction headers status stored = record {
  section = g.section;
  request_id = g.request_id;
  ts = stored.ts;
  stage = stage;
  direction = direction;
  model = g.model;
  headers = headers;
  body = stored.body;
  status = status;
}

abbrev pub flush_one : Bool → Option DumpEvent → Diagnostics → Diagnostics
flush_one is_error none d = d
flush_one is_error (some event) d = record_dump event is_error d

unfoldable pub flush_egresses :
    RequestDiagnostics → Bool → Option ℕ → List StoredDump → Diagnostics → Diagnostics
flush_egresses g is_error status [] d = d
flush_egresses g is_error status (stored ∷ egresses) d = flush_egresses g is_error status egresses (
    record_dump (as_dump g (chars "egress") (chars "request") stored.headers status stored) is_error
      d)

-- the pending dumps, taken
abbrev pub emptied : RequestDiagnostics → RequestDiagnostics
emptied g = record g {
  ingress_dump_pending = none;
  egress_dumps_pending = [];
  response_dump_pending = none;
  ingress_response_dump_pending = none;
}

unfoldable pub flush_deferred_dumps : Bool → Option ℕ → State → State
flush_deferred_dumps is_error status (g, d) =
    let d1 =
      flush_one is_error
        (Option.map
          (λ (s : StoredDump). as_dump g (chars "ingress") (chars "request") s.headers status s)
          g.ingress_dump_pending)
        d in
    let d2 = flush_egresses g is_error status g.egress_dumps_pending d1 in
    let d3 =
      flush_one is_error
        (Option.map
          (λ (s : StoredDump). as_dump g (chars "egress") (chars "response") s.headers s.status s)
          g.response_dump_pending)
        d2 in
    let d4 =
      flush_one is_error
        (Option.map
          (λ (s : StoredDump). as_dump g (chars "ingress") (chars "response") [] s.status s)
          g.ingress_response_dump_pending)
        d3 in
    (emptied g, d4)

-- the arguments that the finishing calls share
pub record Ending : Type 0 where
  pub status : ℕ
  pub duration_ms : ℕ
  pub request_size : ℕ
  pub response_size : Option ℕ
  pub upstream : Text
  pub direction : Text
  pub streaming : Bool
  pub ts : Text

abbrev pub ending_stats : RequestDiagnostics → Ending → Option Text → StatsEvent
ending_stats g e error = record {
  section = g.section;
  request_id = g.request_id;
  ts = e.ts;
  direction = e.direction;
  model = g.model;
  upstream = e.upstream;
  status = e.status;
  duration_ms = e.duration_ms;
  request_size_bytes = e.request_size;
  response_size_bytes = e.response_size;
  streaming = e.streaming;
  input_messages = g.input_messages;
  max_tokens = g.max_tokens;
  messages_detail_ingress = g.messages_detail_ingress;
  messages_detail_egress = g.messages_detail_egress;
  error = error;
}

abbrev pub end_with : Ending → Option Text → State → State
end_with e error (g, d) =
    let (g', d') =
      flush_deferred_dumps (Sets.is_some error) (some e.status) (record g { finished = true }, d) in
    (g', record_stats (ending_stats g e error) d')

unfoldable pub finish : Ending → State → State
finish e (g, d) = if g.finished then (g, d) else end_with e none (g, d)

unfoldable pub finish_with_error : Ending → Text → State → State
finish_with_error e error (g, d) = if g.finished then (g, d) else end_with e (some error) (g, d)

abbrev pub stored_response : DumpBody → List (Text × Text) → Text → ℕ → StoredDump
stored_response body headers ts status = record {
  body = body;
  headers = headers;
  ts = ts;
  status = some status;
}

unfoldable pub response_dump : DumpBody → ℕ → List (Text × Text) → Text → State → State
response_dump body status headers ts (g, d) = (
  record g {
    response_dump_pending = some (stored_response body (mask_header_values headers) ts status);
  },
  d,
)

-- the error body is dumped as the response, and is the error of the statistics
unfoldable pub finish_with_upstream_error :
    Codec → Ending → Text → List ℕ → List (Text × Text) → State → State
finish_with_upstream_error codec e error_body bytes response_headers s =
    finish_with_error (record e { response_size = some (length bytes) }) error_body
      (response_dump (dump_body_from_bytes codec bytes) e.status response_headers e.ts s)

abbrev pub stored_request : Codec → List ℕ → List (Text × Option Text) → Text → StoredDump
stored_request codec body headers ts = record {
  body = dump_body_from_bytes codec body;
  headers = header_pairs_with_masking headers;
  ts = ts;
  status = none;
}

unfoldable pub ingress_dump : Codec → List ℕ → List (Text × Option Text) → Text → State → State
ingress_dump codec body headers ts (g, d) = (
  record g {
    ingress_size = length body;
    ingress_dump_pending = some (stored_request codec body headers ts);
  },
  d,
)

unfoldable pub egress_dump : Codec → List ℕ → List (Text × Option Text) → Text → State → State
egress_dump codec body headers ts (g, d) = (
  record g {
    egress_dumps_pending = g.egress_dumps_pending ++ stored_request codec body headers ts ∷ [];
  },
  d,
)

unfoldable pub ingress_response_dump : DumpBody → ℕ → Text → State → State
ingress_response_dump body status ts (g, d) =
    (record g { ingress_response_dump_pending = some (stored_response body [] ts status) }, d)

abbrev pub dropped_without_finish : Text
dropped_without_finish = chars "diagnostics guard dropped without finish"

abbrev pub dropped_stats : RequestDiagnostics → ℕ → Text → StatsEvent
dropped_stats g duration_ms ts = record default_stats {
  section = g.section;
  request_id = g.request_id;
  ts = ts;
  model = g.model;
  duration_ms = duration_ms;
  request_size_bytes = g.ingress_size;
  error = some dropped_without_finish;
}

-- Drop for RequestDiagnostics
unfoldable pub drop_guard : ℕ → Text → State → Diagnostics
drop_guard duration_ms ts (g, d) =
    if g.finished
    then d
    else record_stats (dropped_stats g duration_ms ts) (flush_deferred_dumps true none (g, d)).1
