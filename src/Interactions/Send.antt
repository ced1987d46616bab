-- ===== src/Interactions/Send.antt =====
-- src/interactions_handler.rs: handle_split_send on answers that are not streamed, from the batch
-- that it creates on, with send_chunk and what it does on the store. The saving of the store is left
-- out, as its errors are only logged, and the time is one argument. The replies of the upstream, the
-- merging of them and the building of the response are those of a record.
pub mod Filled
pub mod Stored
pub mod Pieces
pub mod Conversation
pub mod Batches
pub mod Told
pub mod Served
mod Tests
use inf_splitter.Prelude.{
  ℕ_eq, Bool, List, Option, Result, String, [], err, false, if◌then◌else◌, ltb, none, not, ok, some,
  suc, ℕ, ◌&&◌, ◌++◌, ◌+◌, ◌==◌, ◌>>=◌, ◌∷◌,
}
use inf_splitter.Prelude.Dict
use Prim.Native.String
use inf_splitter.Prelude.Text.{Text_eq, Text}
use inf_splitter.Upstream.{
  Answer, Clock, Handled, Libraries, Response, Trip, built, ending, error_text, is_success,
  json_body, json_content,
}
use inf_splitter.Diagnostics.Masking.{dump_body_from_bytes, shown}
use inf_splitter.Session.InFlight.{create_batch}
use inf_splitter.Diagnostics.Guard.{
  State, egress_dump, finish, finish_with_upstream_error, ingress_response_dump, response_dump,
}
use inf_splitter.Errors.{AppError, app_error_text, status}
use inf_splitter.Diagnostics.{DumpBody, base64, utf8}
use inf_splitter.Session.{InFlightPiece, pending}
use inf_splitter.Prelude.Bytes.{chars, decimal}
use inf_splitter.Config.Load.{Config, ErrorTranslationRule}
use inf_splitter.Auth.{or_empty}
use inf_splitter.Config.Route.{RouteTarget}
use inf_splitter.Egress.{apply_error_translation, drop_fields_from_value}
use inf_splitter.Diagnostics.Guard.Steps.{abort_bad_request, abort_internal, abort_upstream}
use inf_splitter.Upstream.Passthrough.{validate_upstream_body}
use inf_splitter.Prelude.Sets.{is_some}
use inf_splitter.Config.Fields.{for_model}
use inf_splitter.Interactions.Chunks.{
  ChunkRequest, Sending, SplitCalls, SplitParams, Stopped, aborted, ack_and_persist,
  build_chunk_request, complete_batch_and_persist, dumped_text, fail_batch_and_cancel, failed_batch,
  mark_started_and_persist, on_guard, response_headers_to_pairs, stopped_result,
}

pub record SplitSend (M Value Reply Content Config : Type 0) : Type 0 where
  pub lib : Libraries M Value
  pub calls : SplitCalls Value Reply Content Config
  pub params : SplitParams Content Config
  pub rules : List ErrorTranslationRule
  pub route : RouteTarget
  pub headers : M
  pub session_header : Text × Text
  pub trip : Trip
  pub clock : Clock
  pub now : ℕ
  pub batch_id : String
  pub limit : ℕ

module _ {M Value Reply Content Config : Type 0}
    (split : SplitSend M Value Reply Content Config) where
  abbrev pub Step : Type 0 → Type 0
  Step A = Result (Stopped Value) A × Sending

  -- what the client gets, and the guard
  abbrev pub client_gets : Step (Response Value) → Handled Value
  client_gets (ok r, st) = (ok r, st.guard)
  client_gets (err stopped, st) = (stopped_result stopped, st.guard)

  -- the guard is aborted with the error that is given back
  abbrev pub stop_aborted : {A : Type 0} → AppError × State → Sending → Step A
  stop_aborted (e, g) st = (err (aborted e), record st { guard = g })

  -- the batch is failed first
  abbrev pub stop_failed : {A : Type 0} → ℕ → String → Text → Text → Sending → Step A
  stop_failed i what shown error st =
      let reason =
        String.◌++◌ "chunk "
          (String.◌++◌ (decimal i) (String.◌++◌ what (split.calls.to_string shown))) in
      let st' = fail_batch_and_cancel split.now split.batch_id reason st in
      let (e, g) =
        abort_upstream (ending split.trip 502 split.clock.duration_ms split.clock.at_end) error
          st'.guard in
      (err (failed_batch (err e)), record st' { guard = g })

  abbrev pub is_first : ℕ → Option String → Bool
  is_first i prev = i == 0 && not (is_some prev)

  -- the first chunk of a new chain carries the system instruction, the tools and the configuration
  unfoldable pub chunk_request : ℕ → Option String → List Content → ChunkRequest Content Config
  chunk_request i prev chunk =
      let req =
        build_chunk_request split.params.model chunk
          (if is_first i prev then split.params.system_instruction else none) prev false in
      if is_first i prev then record req { tools_config = split.params.tools_config } else req

  unfoldable pub chunk_body : ℕ → Option String → List Content → Result Text (List ℕ)
  chunk_body i prev chunk = do
    value ← split.calls.to_value (chunk_request i prev chunk)
    split.lib.to_vec (
        drop_fields_from_value split.lib.json.object value
          (for_model split.route.drop_fields split.params.model))

  -- send_chunk after a response that is no success
  unfoldable pub chunk_refused : ℕ → Answer → Sending → Step Answer
  chunk_refused i answer st =
      let error_body : Text = elim answer.text [ ok t ↦ t | err _ ↦ [] ] in
      let reason =
        String.◌++◌ "chunk "
          (String.◌++◌ (decimal i) (String.◌++◌ " HTTP " (decimal answer.status))) in
      let st' = fail_batch_and_cancel split.now split.batch_id reason st in
      (
        err (
            failed_batch (
              built split.lib (record {
                status = answer.status;
                headers = json_content ∷ split.session_header ∷ [];
                body = error_text (
                    apply_error_translation answer.status (split.calls.translate_error error_body)
                      split.rules);
              }))),
        on_guard
            (finish_with_upstream_error split.lib.codec
              (ending split.trip answer.status split.clock.duration_ms split.clock.at_end)
              error_body (split.lib.json.as_bytes error_body)
              (response_headers_to_pairs answer.headers))
            st',
      )

  unfoldable pub send_chunk : ℕ → List ℕ → Sending → Step Answer
  send_chunk i body st = elim (split.calls.send body) [
    | err e ↦ stop_failed i " send error: " e e st
    | ok answer ↦ if is_success answer.status then (ok answer, st) else chunk_refused i answer st
  ]

  -- the body of the answer, as a reply
  unfoldable pub read_chunk : ℕ → Answer → Sending → Step Reply
  read_chunk i answer st =
      let pairs = response_headers_to_pairs answer.headers in
      elim answer.bytes [
        | err e ↦ stop_failed i " body read error: " e e st
        | ok bytes ↦ elim (validate_upstream_body split.lib.codec bytes) [
          | err (e, dump) ↦
              let message = app_error_text e in
              stop_failed i " validation error: " message message
                (on_guard (response_dump dump 502 pairs split.clock.at_response) st)
          | ok dump ↦
              let st' = on_guard (response_dump dump 200 pairs split.clock.at_response) st in
              elim (split.calls.from_str (dumped_text dump)) [
                | err e ↦ stop_failed i " parse error: " e e st'
                | ok reply ↦ (ok reply, st')
              ]
        ]
      ]

  -- the first of the later chunks that is too large with the identifier that the upstream gave
  unfoldable pub first_oversized : ℕ → String → List (List Content) → Option Text
  first_oversized j int_id [] = none
  first_oversized j int_id (chunk ∷ chunks) =
      let rest = first_oversized (suc j) int_id chunks in
      let size = split.calls.body_size int_id chunk in
      if ltb split.limit size
      then some (
          chars "chunk "
          ++ chars (decimal j)
          ++ chars " exceeds proxy_limit with real previous_interaction_id ("
          ++ chars (decimal size)
          ++ chars " > "
          ++ chars (decimal split.limit)
          ++ chars ")")
      else rest

  -- which is looked for after the first piece
  abbrev pub oversized : ℕ → String → List (List Content) → Option Text
  oversized i int_id chunks = if i == 0 then first_oversized 1 int_id chunks else none

  -- one round of the loop up to the reply
  unfoldable pub send_piece : ℕ → Option String → List Content → Sending → Step Reply
  send_piece i prev chunk st = elim (chunk_body i prev chunk) [
    | err e ↦
        stop_aborted
          (abort_internal (ending split.trip 500 split.clock.duration_ms split.clock.at_end) e
            st.guard)
          st
    | ok body ↦
        let st1 = mark_started_and_persist split.now split.batch_id i body st in
        let st2 =
          on_guard
            (egress_dump split.lib.codec body (split.lib.pairs split.headers) split.clock.at_egress)
            st1 in
        let (answered, st3) = send_chunk i body st2 in
        elim answered [ err stopped ↦ (err stopped, st3) | ok answer ↦ read_chunk i answer st3 ]
  ]

  -- the check after a piece, before the rest of the loop
  unfoldable pub after_reply :
      ℕ → List (List Content) → Reply → Sending → Step (List Reply) → Step (List Reply)
  after_reply i chunks reply st rest = elim (oversized i (split.calls.id reply) chunks) [
    | some message ↦
        stop_aborted
          (abort_bad_request (ending split.trip 400 split.clock.duration_ms split.clock.at_end)
            message st.guard)
          st
    | none ↦ rest
  ]

  -- the loop over the chunks, with the replies so far
  unfoldable pub send_pieces :
      ℕ → Option String → List Reply → List (List Content) → Sending → Step (List Reply)
  send_pieces i prev replies [] st = (ok replies, st)
  send_pieces i prev replies (chunk ∷ chunks) st =
      let (result, st1) = send_piece i prev chunk st in
      elim result [
        | err stopped ↦ (err stopped, st1)
        | ok reply ↦
            let id = split.calls.id reply in
            let st2 = ack_and_persist split.now split.batch_id i id st1 in
            after_reply i chunks reply st2
              (send_pieces (suc i) (some id) (replies ++ reply ∷ []) chunks st2)
      ]

  -- total_response_bytes
  unfoldable pub response_bytes : List Reply → ℕ
  response_bytes [] = 0
  response_bytes (reply ∷ replies) = split.calls.text_len reply + response_bytes replies

  -- the response that is made of the replies, under the identifier of the client node
  unfoldable pub respond : List Reply → String → Sending → Step (Response Value)
  respond replies client_id st = elim (split.calls.build_response replies client_id) [
    | err e ↦
        stop_aborted
          (abort_internal (ending split.trip 500 split.clock.duration_ms split.clock.at_end) e
            st.guard)
          st
    | ok value ↦
        let body : List ℕ = elim (split.lib.to_vec value) [ ok b ↦ b | err _ ↦ [] ] in
        let dumped =
          ingress_response_dump (dump_body_from_bytes split.lib.codec body) 200
            split.clock.at_response st.guard in
        (
          ok (record {
            status = 200;
            headers = json_content ∷ split.session_header ∷ [];
            body = json_body value;
          }),
          record st {
            guard =
                finish
                  (record (ending split.trip 200 split.clock.duration_ms split.clock.at_end) {
                    response_size = some (response_bytes replies);
                  })
                  dumped;
          },
        )
  ]

  -- what follows the loop
  unfoldable pub finish_batch : List Reply → Sending → Step (Response Value)
  finish_batch replies st =
      let (completed, st') = complete_batch_and_persist split.now split.batch_id st in
      elim completed [
        | err e ↦
            stop_aborted
              (abort_internal (ending split.trip 500 split.clock.duration_ms split.clock.at_end)
                (split.calls.store_error e) st.guard)
              st'
        | ok node ↦ respond replies node.id st'
      ]

  unfoldable pub pending_pieces : ℕ → List (List Content) → List InFlightPiece
  pending_pieces i [] = []
  pending_pieces i (_ ∷ chunks) =
      record { index = i; content_hash = 0; request_body = []; status = pending }
      ∷ pending_pieces (suc i) chunks

  -- from the creation of the batch on, where no other request has one for these messages
  unfoldable pub split_send :
      String → List ℕ → Option ℕ → List (List Content) → Sending → Step (Response Value)
  split_send session_id harness_hashes system_instruction_hash chunks st =
      let store =
        create_batch st.store split.now split.batch_id session_id
          split.params.previous_interaction_id harness_hashes system_instruction_hash
          (pending_pieces 0 chunks) in
      let (result, st1) =
        send_pieces 0 split.params.previous_interaction_id [] chunks
          (record st { store = store }) in
      elim result [ err stopped ↦ (err stopped, st1) | ok replies ↦ finish_batch replies st1 ]
