-- ===== src/Relay.antt =====
-- src/relay.rs: `DiagnosticStream`, which passes on the stream of an upstream and keeps its first
-- bytes for one dump. A poll of the inner stream is what it gave; the passing on of the item itself
-- is the identity. The guards of the diagnostics are in Diagnostics.
pub mod Kept
mod Tests
use inf_splitter.Prelude.{
  Bool, List, [], false, if◌then◌else◌, length, ltb, min, not, some, take, true, ℕ, ◌&&◌, ◌*◌, ◌++◌,
  ◌-◌, ◌||◌, ◌∷◌,
}
use inf_splitter.Prelude.Text.{Text_eq, Text}
use inf_splitter.Diagnostics.Masking.{Codec, dump_body_from_bytes, mask_header_values}
use inf_splitter.Diagnostics.{Diagnostics, DumpEvent, dump_enabled, record_dump}
use inf_splitter.Prelude.Bytes.{chars}

abbrev pub max_streaming_dump_bytes : ℕ
max_streaming_dump_bytes = 1024 * 1024

pub data Poll : Type 0 where
  chunk : List ℕ → Poll
  failure : Poll
  finished : Poll
  not_ready : Poll

pub record DiagnosticStream : Type 0 where
  pub buffer : List ℕ
  pub request_id : Text
  pub section : Text
  pub model : Text
  pub response_headers : List (Text × Text)
  pub status : ℕ
  pub dumped : Bool

-- record_response_dump: the event, with the time of the call
abbrev pub response_event :
    Codec → DiagnosticStream → List ℕ → List (Text × Text) → Text → DumpEvent
response_event codec s buffer headers ts = record {
  section = s.section;
  request_id = s.request_id;
  ts = ts;
  stage = chars "egress";
  direction = chars "response";
  model = s.model;
  headers = mask_header_values headers;
  body = dump_body_from_bytes codec buffer;
  status = some s.status;
}

-- what is kept of a chunk
unfoldable pub keep_bytes : Bool → List ℕ → List ℕ → List ℕ
keep_bytes enabled buffer bytes =
    if enabled && ltb (length buffer) max_streaming_dump_bytes
    then buffer ++ take (min (length bytes) (max_streaming_dump_bytes - length buffer)) bytes
    else buffer

unfoldable pub poll_next :
    Codec → Text → Poll → DiagnosticStream × Diagnostics → DiagnosticStream × Diagnostics
poll_next codec ts (chunk bytes) (s, d) =
    (record s { buffer = keep_bytes (dump_enabled d) s.buffer bytes }, d)
poll_next codec ts failure (s, d) = (s, d)
poll_next codec ts not_ready (s, d) = (s, d)
poll_next codec ts finished (s, d) = if s.dumped then (s, d) else (
  record s { dumped = true; response_headers = [] },
  record_dump (response_event codec s s.buffer s.response_headers ts) false d,
)

unfoldable pub poll_all :
    Codec → Text → List Poll → DiagnosticStream × Diagnostics → DiagnosticStream × Diagnostics
poll_all codec ts [] s = s
poll_all codec ts (poll ∷ polls) s = poll_all codec ts polls (poll_next codec ts poll s)

abbrev pub is_nil : List ℕ → Bool
is_nil [] = true
is_nil (_ ∷ _) = false

-- Drop for DiagnosticStream
unfoldable pub drop_stream : Codec → Text → DiagnosticStream × Diagnostics → Diagnostics
drop_stream codec ts (s, d) =
    if s.dumped || not (dump_enabled d) || is_nil s.buffer
    then d
    else record_dump (response_event codec s s.buffer s.response_headers ts) false d
