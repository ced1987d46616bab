-- ===== src/Upstream/Streamed.antt =====
-- src/openai.rs and src/anthropic.rs: the response stream of a translated request, made by `unfold`
-- from the byte stream of the upstream. A byte stream is the chunks that are still to come; a poll
-- gives the next item, or none at the end, with what the next poll goes on with. Every round of the
-- loop takes a line off the buffer or a chunk off the stream.
use inf_splitter.Prelude.{
  Bool, List, Option, [], false, if◌then◌else◌, length, ltb, none, some, suc, true, zero, ℕ, ◌*◌,
  ◌++◌, ◌||◌, ◌∷◌,
}
use inf_splitter.Prelude.Text.{Text_eq, Text}
use inf_splitter.Upstream.Events.{
  StreamingTranslator, done_line, format_openai_sse_chunk, format_sse_events,
  parse_anthropic_sse_event, parse_sse_line, split_newline, without_returns,
}
use inf_splitter.Diagnostics.Guard.{Ending, State, finish, finish_with_error, response_dump}
use inf_splitter.Relay.{keep_bytes}
use inf_splitter.Diagnostics.Masking.{Codec, dump_body_from_bytes}
use inf_splitter.Prelude.Bytes.{chars}
use inf_splitter.Upstream.{Clock, Trip, ending}

pub data Chunk : Type 0 where
  received : List ℕ → Chunk
  broken : (error : Text) → Chunk

pub data Item : Type 0 where
  payload : Text → Item
  failure : Text → Item

abbrev pub max_sse_line_length : ℕ
max_sse_line_length = 1024 * 1024

-- what the stream holds of its request, and what it calls
pub record Source : Type 0 where
  pub codec : Codec
  -- String::from_utf8, or from_utf8_lossy where that fails
  pub decode : List ℕ → Text
  pub as_bytes : Text → List ℕ
  pub trip : Trip
  pub upstream_headers : List (Text × Text)
  pub clock : Clock

pub record Streaming (T : Type 0) : Type 0 where
  pub chunks : List Chunk
  pub translator : T
  pub buffer : Text
  pub raw_capture : List ℕ
  pub guard : State
  pub sent_done : Bool
  pub guard_finalized : Bool

abbrev pub line_too_long : Text
line_too_long = chars "SSE line too long"

module _ (source : Source) where
  abbrev pub stream_ending : List ℕ → Ending
  stream_ending raw = record (ending source.trip 200 source.clock.duration_ms source.clock.at_end) {
    response_size = some (length raw);
  }

  -- response_dump_streaming
  abbrev pub dump_capture : List ℕ → State → State
  dump_capture raw s =
      response_dump (dump_body_from_bytes source.codec raw) 200 source.upstream_headers
        source.clock.at_response s

  unfoldable pub finish_stream : List ℕ → State → State
  finish_stream raw s = finish (stream_ending raw) (dump_capture raw s)

  unfoldable pub fail_stream : List ℕ → Text → State → State
  fail_stream raw error s =
      finish_with_error (stream_ending raw) (chars "stream error: " ++ error) (dump_capture raw s)

  -- the chunk in the buffer, and its first bytes in the capture
  unfoldable pub receive : {T : Type 0} → List ℕ → Streaming T → Streaming T
  receive bytes st = record st {
    buffer = st.buffer ++ source.decode bytes;
    raw_capture = keep_bytes true st.raw_capture bytes;
  }

  abbrev pub too_long : {T : Type 0} → Streaming T → Bool
  too_long st = ltb max_sse_line_length (length (source.as_bytes st.buffer))

  -- handle_stream_manual of src/openai.rs
  module _ {T : Type 0} (lib : StreamingTranslator T) where
    -- The lines of the buffer up to the first that has events. The number bounds the rounds.
    unfoldable pub take_lines : ℕ → Streaming T → Option Text × Streaming T
    take_lines zero st = (none, st)
    take_lines (suc fuel) st = elim (split_newline st.buffer) [
      | none ↦ (none, st)
      | some (line, after) ↦ elim (parse_sse_line lib (without_returns line) st.translator) [
        | none ↦ take_lines fuel (record st { buffer = after })
        | some (events, translator) ↦
            (some (format_sse_events events), record st { buffer = after; translator = translator })
      ]
    ]

    unfoldable pub take_buffer : Streaming T → Option Text × Streaming T
    take_buffer st = take_lines (length st.buffer) st

    -- the end of the byte stream: what the translator still has, if it is any text
    unfoldable pub end_stream : Streaming T → Option Item × Streaming T
    end_stream st =
        let (events, translator) = lib.finish st.translator in
        let st' : Streaming T = record st {
          chunks = [];
          translator = translator;
          guard = finish_stream st.raw_capture st.guard;
        } in
        (elim (format_sse_events events) [ [] ↦ none | c ∷ s ↦ some (payload (c ∷ s)) ], st')

    -- from a buffer that has no line with events left
    unfoldable pub await_chunk : List Chunk → Streaming T → Option Item × Streaming T
    await_chunk [] st = end_stream st
    await_chunk (broken error ∷ chunks) st = (
      some (failure error),
      record st { chunks = chunks; guard = fail_stream st.raw_capture error st.guard },
    )
    await_chunk (received bytes ∷ chunks) st =
        let st1 = receive bytes (record st { chunks = chunks }) in
        elim (too_long st1) [
          | true ↦ (
            some (failure line_too_long),
            record st1 { guard = finish_stream st1.raw_capture st1.guard },
          )
          | false ↦
              let (found, st2) = take_buffer st1 in
              elim found [ some text ↦ (some (payload text), st2) | none ↦ await_chunk chunks st2 ]
        ]

    unfoldable pub poll_openai : Streaming T → Option Item × Streaming T
    poll_openai st =
        let (found, st1) = take_buffer st in
        elim found [ some text ↦ (some (payload text), st1) | none ↦ await_chunk st.chunks st1 ]

-- the translator of the other direction, which is made when a message starts
pub record ReverseTranslator (T E : Type 0) : Type 0 where
  pub from_str : Text → Option E
  -- the identifier of a MessageStart
  pub started : E → Option Text
  pub new_translator : (id model : Text) → T
  -- the JSON text of the first chunk, if the event gives one
  pub process_event : T → E → Option (Option Text) × T
  pub is_done : T → Bool

pub data Turn : Type 0 where
  emitted : Text → Turn
  completed : Turn
  exhausted : Turn

-- handle_from_openai_stream of src/anthropic.rs
module _ (source : Source) {T E : Type 0} (lib : ReverseTranslator T E) (model : Text) where
  unfoldable pub finalize : Streaming (Option T) → Streaming (Option T)
  finalize st = if st.guard_finalized then st else record st {
    guard = finish_stream source st.raw_capture st.guard;
    guard_finalized = true;
  }

  -- an event that starts no message, for the translator that is there
  unfoldable pub active_event : E → T → Streaming (Option T) → Turn × Streaming (Option T)
  active_event event active st =
      let (answer, active') = lib.process_event active event in
      let st' : Streaming (Option T) = record st { translator = some active' } in
      elim answer [
        | some json ↦ (emitted (format_openai_sse_chunk json), st')
        | none ↦ if lib.is_done active' then (completed, st') else (exhausted, st')
      ]

  -- what a line does: `exhausted` goes on with the next
  unfoldable pub take_event : Text → Streaming (Option T) → Turn × Streaming (Option T)
  take_event line st = elim (parse_anthropic_sse_event lib.from_str line) [
    | none ↦ (exhausted, st)
    | some event ↦ elim (lib.started event) [
      | some id ↦ (exhausted, record st { translator = some (lib.new_translator id model) })
      | none ↦ elim st.translator [
        | none ↦ (exhausted, st)
        | some active ↦ active_event event active st
      ]
    ]
  ]

  unfoldable pub take_events : ℕ → Streaming (Option T) → Turn × Streaming (Option T)
  take_events zero st = (exhausted, st)
  take_events (suc fuel) st = elim (split_newline st.buffer) [
    | none ↦ (exhausted, st)
    | some (line, after) ↦
        let (turn, st1) = take_event (without_returns line) (record st { buffer = after }) in
        elim turn [
          | exhausted ↦ take_events fuel st1
          | completed ↦ (completed, st1)
          | emitted text ↦ (emitted text, st1)
        ]
  ]

  abbrev pub send_done : Streaming (Option T) → Option Item × Streaming (Option T)
  send_done st = (some (payload done_line), record (finalize st) { sent_done = true })

  unfoldable pub await_event :
      List Chunk → Turn × Streaming (Option T) → Option Item × Streaming (Option T)
  await_event chunks (emitted text, st) = (some (payload text), record st { chunks = chunks })
  await_event chunks (completed, st) = send_done (record st { chunks = chunks })
  await_event [] (exhausted, st) = send_done (record st { chunks = [] })
  await_event (broken error ∷ chunks) (exhausted, st) = (
    some (failure error),
    record st {
      chunks = chunks;
      guard =
          if st.guard_finalized then st.guard else fail_stream source st.raw_capture error st.guard;
    },
  )
  await_event (received bytes ∷ chunks) (exhausted, st) =
      let st1 = receive source bytes (record st { chunks = chunks }) in
      elim (too_long source st1) [
        | true ↦ (
          some (failure line_too_long),
          record st1 {
            guard =
                if st1.guard_finalized
                then st1.guard
                else finish_stream source st1.raw_capture st1.guard;
          },
        )
        | false ↦ await_event chunks (take_events (length st1.buffer) st1)
      ]

  unfoldable pub poll_anthropic : Streaming (Option T) → Option Item × Streaming (Option T)
  poll_anthropic st =
      if st.sent_done then (none, st) else await_event st.chunks (take_events (length st.buffer) st)

abbrev pub is_end : Option Item → Bool
is_end none = true
is_end (some (failure _)) = true
is_end (some (payload _)) = false

-- a client that polls a number of times: whether it has seen an end, and the stream
unfoldable pub poll_times :
    {T : Type 0} → (Streaming T → Option Item × Streaming T) → ℕ → Streaming T → Bool × Streaming T
poll_times poll zero st = (false, st)
poll_times poll (suc n) st =
    let (item, st1) = poll st in
    let (seen, st2) = poll_times poll n st1 in (is_end item || seen, st2)
