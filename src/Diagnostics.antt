-- ===== src/Diagnostics.antt =====
-- src/diagnostics.rs: the handle that sends statistics and dumps to the background writers. The two
-- lists stand for what was handed to `try_send`, in order, each with the section whose channel it
-- went to, where there are channels per section; a full channel loses a line after that, by design.
-- A JSON value is its text. The codec of bodies is a parameter.
pub mod Masking
pub mod Details
pub mod Guard
mod Tests
use inf_splitter.Prelude.{
  Bool, List, Option, [], false, if◌then◌else◌, none, not, some, true, ℕ, ◌%◌, ◌++◌, ◌+◌, ◌^◌, ◌||◌,
  ◌∷◌,
}
use inf_splitter.Prelude.Dict
use inf_splitter.Prelude.Sets
use inf_splitter.Prelude.Text.{Text_eq, Text}
use inf_splitter.Config.Outputs.{
  DiagnosticMode, DiagnosticsConfig, Sink, always, file_per_section, off, on_error,
}
use inf_splitter.Prelude.Bytes.{chars, decimal}
use inf_splitter.Prelude.Sets.{HashSet}

pub record StatsEvent : Type 0 where
  pub section : Text
  pub request_id : Text
  pub ts : Text
  pub direction : Text
  pub model : Text
  pub upstream : Text
  pub status : ℕ
  pub duration_ms : ℕ
  pub request_size_bytes : ℕ
  pub response_size_bytes : Option ℕ
  pub streaming : Bool
  pub input_messages : Option ℕ
  pub max_tokens : Option ℕ
  pub messages_detail_ingress : Option Text
  pub messages_detail_egress : Option Text
  pub error : Option Text

-- StatsEvent::default()
abbrev pub default_stats : StatsEvent
default_stats = record {
  section = [];
  request_id = [];
  ts = [];
  direction = [];
  model = [];
  upstream = [];
  status = 0;
  duration_ms = 0;
  request_size_bytes = 0;
  response_size_bytes = none;
  streaming = false;
  input_messages = none;
  max_tokens = none;
  messages_detail_ingress = none;
  messages_detail_egress = none;
  error = none;
}

pub data DumpBody : Type 0 where
  utf8 : Text → DumpBody
  base64 : Text → DumpBody

pub record DumpEvent : Type 0 where
  pub section : Text
  pub request_id : Text
  pub ts : Text
  pub stage : Text
  pub direction : Text
  pub model : Text
  pub headers : List (Text × Text)
  pub body : DumpBody
  pub status : Option ℕ

pub record Diagnostics : Type 0 where
  pub stats_mode : DiagnosticMode
  pub dump_mode : DiagnosticMode
  pub counter : ℕ
  pub start_secs : ℕ
  -- whether there is a `section_cfg`
  pub per_section : Bool
  pub section_channels : HashSet Text
  pub stats_sent : List (Option Text × StatsEvent)
  pub dumps_sent : List (Option Text × DumpEvent)

abbrev pub is_per_section : Sink → Bool
is_per_section (file_per_section _) = true
is_per_section _ = false

unfoldable pub new : DiagnosticsConfig → ℕ → Diagnostics
new config epoch_secs = record {
  stats_mode = config.stats_mode;
  dump_mode = config.dump_mode;
  counter = 0;
  start_secs = epoch_secs;
  per_section = is_per_section config.stats_output || is_per_section config.dump_output;
  section_channels = Dict.empty;
  stats_sent = [];
  dumps_sent = [];
}

abbrev pub is_off : DiagnosticMode → Bool
is_off off = true
is_off _ = false

unfoldable pub stats_enabled : Diagnostics → Bool
stats_enabled d = not (is_off d.stats_mode)

unfoldable pub dump_enabled : Diagnostics → Bool
dump_enabled d = not (is_off d.dump_mode)

-- {start_secs}-{n}; the counter is an AtomicU64
unfoldable pub new_request_id : Diagnostics → Text × Diagnostics
new_request_id d = (
  chars (decimal d.start_secs) ++ b'-' ∷ chars (decimal d.counter),
  record d { counter = (d.counter + 1) % 2 ^ 64 },
)

-- whether the mode lets an event through
unfoldable pub lets_through : DiagnosticMode → Bool → Bool
lets_through off is_error = false
lets_through on_error is_error = is_error
lets_through always is_error = true

abbrev pub channel_of : Diagnostics → Text → Option Text
channel_of d section = if d.per_section then some section else none

-- get_or_create_section_writers, where there are channels per section
abbrev pub open_channel : Diagnostics → Text → HashSet Text
open_channel d section =
    if d.per_section
    then (if Sets.holds d.section_channels section
        then d.section_channels
        else Dict.insert d.section_channels section tt)
    else d.section_channels

unfoldable pub record_stats : StatsEvent → Diagnostics → Diagnostics
record_stats event d =
    if lets_through d.stats_mode (Sets.is_some event.error)
    then record d {
      section_channels = open_channel d event.section;
      stats_sent = d.stats_sent ++ (channel_of d event.section, event) ∷ [];
    }
    else d

unfoldable pub record_dump : DumpEvent → Bool → Diagnostics → Diagnostics
record_dump event is_error d =
    if lets_through d.dump_mode is_error
    then record d {
      section_channels = open_channel d event.section;
      dumps_sent = d.dumps_sent ++ (channel_of d event.section, event) ∷ [];
    }
    else d
