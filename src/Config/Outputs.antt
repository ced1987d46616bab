-- ===== src/Config/Outputs.antt =====
-- src/config.rs, and the configuration types of src/diagnostics.rs: what the diagnostics write, where
-- and how often. A path is its text.
use inf_splitter.Prelude.{Option, Result, if◌then◌else◌, none, ok, some, ℕ, ◌==◌, ◌>>=◌}
use inf_splitter.Prelude.Text.{Text_eq, Text, trim}
use inf_splitter.Prelude.Bytes.{chars}
use inf_splitter.Config.Provider.{ConfigError, parse_byte_size_field, parse_duration_field}

pub data DiagnosticMode : Type 0 where
  off : DiagnosticMode
  on_error : DiagnosticMode
  always : DiagnosticMode

pub data Sink : Type 0 where
  stderr : Sink
  stdout : Sink
  file : (path : Text) → Sink
  file_per_section : (path : Text) → Sink

pub data SinkRaw : Type 0 where
  simple : Text → SinkRaw
  per_section : Text → SinkRaw

pub data Compression : Type 0 where
  zip : Compression
  bz2 : Compression
  seven_z : Compression

unfoldable pub sink_from_raw : Option SinkRaw → Sink
sink_from_raw (some (simple s)) =
    if trim s == chars "stdout"
    then stdout
    else if trim s == chars "stderr"
    then stderr
    else file (trim s)
sink_from_raw (some (per_section path)) = file_per_section path
sink_from_raw none = stderr

pub record DiagnosticsConfigRaw : Type 0 where
  pub stats_output : Option SinkRaw
  pub dump_output : Option SinkRaw
  pub stats_mode : Option DiagnosticMode
  pub dump_mode : Option DiagnosticMode
  pub flush_period : Option Text
  pub max_file_size : Option Text
  pub max_rotated_size : Option Text
  pub compression : Option Compression

pub record DiagnosticsConfig : Type 0 where
  pub stats_output : Sink
  pub dump_output : Sink
  pub stats_mode : DiagnosticMode
  pub dump_mode : DiagnosticMode
  pub flush_period : Option ℕ
  pub max_file_size : Option ℕ
  pub max_rotated_size : Option ℕ
  pub compression : Option Compression

abbrev pub diagnostics_default : DiagnosticsConfig
diagnostics_default = record {
  stats_output = stderr;
  dump_output = stderr;
  stats_mode = off;
  dump_mode = off;
  flush_period = none;
  max_file_size = none;
  max_rotated_size = none;
  compression = none;
}

-- raw.as_deref().map(parse).transpose()
abbrev pub transpose : (Text → Result ConfigError ℕ) → Option Text → Result ConfigError (Option ℕ)
transpose parse none = ok none
transpose parse (some raw) = parse raw >>= λ n. ok (some n)

unfoldable pub load_diagnostics : Option DiagnosticsConfigRaw → Result ConfigError DiagnosticsConfig
load_diagnostics none = ok diagnostics_default
load_diagnostics (some raw) = do
  flush_period ← transpose parse_duration_field raw.flush_period
  max_file_size ← transpose parse_byte_size_field raw.max_file_size
  max_rotated_size ← transpose parse_byte_size_field raw.max_rotated_size
  ok (record {
    stats_output = sink_from_raw raw.stats_output;
    dump_output = sink_from_raw raw.dump_output;
    stats_mode = elim raw.stats_mode [ none ↦ off | some mode ↦ mode ];
    dump_mode = elim raw.dump_mode [ none ↦ off | some mode ↦ mode ];
    flush_period = flush_period;
    max_file_size = max_file_size;
    max_rotated_size = max_rotated_size;
    compression = raw.compression;
  })
