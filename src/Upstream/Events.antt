-- ===== src/Upstream/Events.antt =====
-- src/sse.rs: the lines of an event stream and the events that the handlers write. The events and
-- the chunks are the translation library's; of one, its variant and its JSON text are seen.
use inf_splitter.Prelude.{
  ℕ_eq, List, Option, [], concat, if◌then◌else◌, map, none, some, ◌++◌, ◌==◌, ◌∷◌,
}
use inf_splitter.Prelude.Text.{Text_eq, Text, strip_prefix, trim, trim_end}
use inf_splitter.Prelude.Bytes.{chars}
use inf_splitter.Diagnostics.Details.{text_or}

-- the variants of StreamEvent that the source names
pub data EventKind : Type 0 where
  message_start : EventKind
  content_block_start : EventKind
  content_block_delta : EventKind
  content_block_stop : EventKind
  message_delta : EventKind
  message_stop : EventKind
  ping : EventKind
  error_event : EventKind
  other_event : EventKind

-- `json` is what serde_json::to_string gives
pub record StreamEvent : Type 0 where
  pub kind : EventKind
  pub json : Option Text

unfoldable pub event_name : EventKind → Text
event_name message_start = chars "message_start"
event_name content_block_start = chars "content_block_start"
event_name content_block_delta = chars "content_block_delta"
event_name content_block_stop = chars "content_block_stop"
event_name message_delta = chars "message_delta"
event_name message_stop = chars "message_stop"
event_name ping = chars "ping"
event_name error_event = chars "error"
event_name other_event = chars "message"

abbrev newline : Text
newline = 10 ∷ []

unfoldable pub format_sse_event_str : StreamEvent → Text
format_sse_event_str event =
    chars "event: "
    ++ event_name event.kind
    ++ newline
    ++ chars "data: "
    ++ text_or (chars "{}") event.json
    ++ newline
    ++ newline

unfoldable pub format_sse_events : List StreamEvent → Text
format_sse_events events = concat (map format_sse_event_str events)

-- a chunk as what serde_json::to_string gives of it
unfoldable pub format_openai_sse_chunk : Option Text → Text
format_openai_sse_chunk json = chars "data: " ++ text_or (chars "{}") json ++ newline ++ newline

unfoldable pub done_line : Text
done_line = chars "data: [DONE]" ++ newline ++ newline

-- StreamingTranslator: a chunk that is JSON is processed, and at the end what is left comes out
pub record StreamingTranslator (T : Type 0) : Type 0 where
  pub process_chunk : T → Text → Option (List StreamEvent × T)
  pub finish : T → List StreamEvent × T

-- the text after the prefix of a data line
unfoldable pub line_data : Text → Option Text
line_data line = elim (strip_prefix (chars "data: ") line) [ none ↦ none | some s ↦ some (trim s) ]

unfoldable pub parse_sse_line :
    {T : Type 0} → StreamingTranslator T → Text → T → Option (List StreamEvent × T)
parse_sse_line lib line translator = elim (line_data line) [
  | none ↦ none
  | some text ↦
      if text == chars "[DONE]"
      then some (lib.finish translator)
      else lib.process_chunk translator text
]

-- the parsing is the library's
unfoldable pub parse_anthropic_sse_event : {E : Type 0} → (Text → Option E) → Text → Option E
parse_anthropic_sse_event from_str line = elim (line_data line) [
  | none ↦ none
  | some [] ↦ none
  | some (c ∷ s) ↦ from_str (c ∷ s)
]

-- the text up to the first newline, and the text after it
unfoldable pub split_newline : Text → Option (Text × Text)
split_newline [] = none
split_newline (c ∷ s) =
    let rest = split_newline s in
    if c == 10
    then some ([], s)
    else (elim rest [ none ↦ none | some (line, after) ↦ some (c ∷ line, after) ])

-- trim_end_matches('\r')
unfoldable pub without_returns : Text → Text
without_returns line = trim_end (λ c. c == 13) line
