-- ===== src/Interactions/Send/Told.antt =====
-- src/interactions_handler.rs: the statistics of a split send.
use inf_splitter.Errors
use inf_splitter.Prelude.{
  Bool-cases, List, Option, Option-cases, Result, Result-cases, String, [], err, inl, inr, none, ok,
  refl, some, suc, ℕ, ◌++◌, ◌∷◌, ◌≡◌,
}
use inf_splitter.Interactions.Send.{
  SplitSend, Step, after_reply, chunk_body, chunk_refused, client_gets, finish_batch, oversized,
  read_chunk, respond, send_chunk, send_piece, send_pieces, split_send, stop_aborted, stop_failed,
}
use inf_splitter.Diagnostics.Guard.Steps.{
  abort_bad_request, abort_internal, abort_upstream, abort_with, aborts_bad_request,
  aborts_internal, aborts_upstream, dumps_egress, dumps_ingress_response, dumps_response, fails,
  fails_upstream, finishes, guard_step,
}
use inf_splitter.Prelude.Text.{Text}
use inf_splitter.Interactions.Chunks.{
  Sending, Stopped, ack_and_persist, complete_batch_and_persist, dumped_text, fail_batch_and_cancel,
  mark_started_and_persist, response_headers_to_pairs, stopped_result,
}
use inf_splitter.Diagnostics.Guard.{State, drop_guard, new_guard}
use inf_splitter.Upstream.{Answer, Response, built, ending, is_success}
use inf_splitter.Upstream.Reported.{
  Lived, Lived-IsRecorded, Lived-after, Lived-end, Quiet, Quiet-none, Quiet-step, Quiet-then,
  Reported, answered, built-Reported, refused,
}
use inf_splitter.Session.InFlight.{complete_batch, fail_batch}
use inf_splitter.Diagnostics.{Diagnostics, DumpBody, new_request_id}
use inf_splitter.Diagnostics.Masking.{dump_body_from_bytes, shown}
use inf_splitter.Diagnostics.Guard.Once.{IsRecorded, Outcome}
use inf_splitter.Upstream.Passthrough.{validate_upstream_body}
use inf_splitter.Errors.{AppError, bad_request, internal, upstream}
use inf_splitter.Interactions.Send.Conversation.{
  Why, conversation, oversizing, served, too_large, unserialised, unserialising, upstream_failed,
}
use inf_splitter.Interactions.Send.Stored.{Key}
use inf_splitter.Interactions.Send.Batches.{
  SplitEnd, completes, fails, leaves, ok_response, split_send-SplitEnd, unanswered,
}

module _ {M Value Reply Content Config : Type 0}
    (split : SplitSend M Value Reply Content Config) where
  -- the guard goes on, or has ended with what the client gets
  data Told (s : State) {A : Type 0} : Step split A → Type 0 where
    tells : (a : A) (st : Sending) → Quiet split.lib.codec s st.guard → Told s (ok a, st)
    ends :
        (x : Stopped Value) (st : Sending)
        → Lived split.lib s (stopped_result x, st.guard)
        → Told s (err x, st)

  Told-after :
      {A : Type 0} (s s' : State) (x : Step split A)
      → Quiet split.lib.codec s s'
      → Told s' x
      → Told s x
  Told-after s s' _ quiet (tells a st v) =
      tells a st (Quiet-then split.lib.codec s s' st.guard quiet v)
  Told-after s s' _ quiet (ends x st v) =
      ends x st (Lived-after split.lib s s' (stopped_result x, st.guard) quiet v)

  Told-then :
      {A B : Type 0} (s : State) (x : Step split A) (k : A → Sending → Step split B)
      → Told s x
      → ((a : A) (st : Sending) → Told st.guard (k a st))
      → let after : Step split B = elim x.0 [ err stopped ↦ (err stopped, x.1) | ok a ↦ k a x.1 ] in
        Told s after
  Told-then s _ k (tells a st quiet) rest = Told-after s st.guard (k a st) quiet (rest a st)
  Told-then s _ k (ends x st v) rest = ends x st v

  Told-close :
      {A : Type 0} (s : State) (x : Step split A) (k : A → Sending → Step split (Response Value))
      → Told s x
      → ((a : A) (st : Sending) → Lived split.lib st.guard (client_gets split (k a st)))
      → let after : Step split (Response Value) = elim x.0 [
        | err stopped ↦ (err stopped, x.1)
        | ok a ↦ k a x.1
      ] in
        Lived split.lib s (client_gets split after)
  Told-close s _ k (tells a st quiet) rest =
      Lived-after split.lib s st.guard (client_gets split (k a st)) quiet (rest a st)
  Told-close s _ k (ends x st v) rest = v

  internal-Lived :
      (e : Text) (st : Sending)
      → let (error, g) =
          abort_internal
            (ending split.trip 500 split.clock.duration_ms split.clock.at_end)
            e
            st.guard in
        Lived split.lib st.guard (err error, g)
  unfolding guard_step abort_internal abort_with Errors.status
  internal-Lived e st =
      Lived-end split.lib st.guard _
        (aborts_internal (ending split.trip 500 split.clock.duration_ms split.clock.at_end) e)
        (500, some e) refl refl (refused (internal e) e)

  internal-Told :
      {A : Type 0} (e : Text) (st : Sending)
      → Told st.guard {A = A} (
          stop_aborted split
            (abort_internal
              (ending split.trip 500 split.clock.duration_ms split.clock.at_end)
              e
              st.guard)
            st)
  internal-Told e st = ends _ _ (internal-Lived e st)

  bad_request-Told :
      {A : Type 0} (e : Text) (st : Sending)
      → Told st.guard {A = A} (
          stop_aborted split
            (abort_bad_request
              (ending split.trip 400 split.clock.duration_ms split.clock.at_end)
              e
              st.guard)
            st)
  unfolding guard_step abort_bad_request abort_with Errors.status
  bad_request-Told e st = ends _ _ (
      Lived-end split.lib st.guard _
        (aborts_bad_request (ending split.trip 400 split.clock.duration_ms split.clock.at_end) e)
        (400, some e) refl refl (refused (bad_request e) e))

  failed-guard :
      (now : ℕ) (batch_id reason : String) (st : Sending)
      → (fail_batch_and_cancel now batch_id reason st).guard ≡ st.guard
  unfolding fail_batch_and_cancel
  failed-guard now batch_id reason st =
      elim (Result-cases (fail_batch st.store now batch_id reason)) [
        | inr (e, lost) ↦ rw (lost, fail_batch_and_cancel) refl
        | inl (r, done) ↦ rw (done, fail_batch_and_cancel) refl
      ]

  failed-Told :
      {A : Type 0} (i : ℕ) (what : String) (shown error : Text) (st : Sending)
      → Told st.guard {A = A} (stop_failed split i what shown error st)
  unfolding guard_step abort_upstream abort_with Errors.status
  failed-Told i what shown error st = ends _ _ (
      Lived-end split.lib st.guard _
        (aborts_upstream (ending split.trip 502 split.clock.duration_ms split.clock.at_end) error)
        (502, some error) (rw (failed-guard split.now split.batch_id _ st) refl) refl
        (refused (upstream error) error))

  send_chunk-Told :
      (i : ℕ) (body : List ℕ) (st : Sending) → Told st.guard (send_chunk split i body st)
  unfolding send_chunk chunk_refused guard_step
  send_chunk-Told i body st = elim (Result-cases (split.calls.send body)) [
    | inr (e, lost) ↦ rw (lost, send_chunk) (failed-Told i _ e e st)
    | inl (answer, came) ↦ elim (Bool-cases (is_success answer.status)) [
      | inl good ↦
          rw (came, good, send_chunk) (tells answer st (Quiet-none split.lib.codec st.guard))
      | inr bad ↦
          let error_body : Text = elim answer.text [ ok t ↦ t | err _ ↦ [] ] in
          rw (came, bad, send_chunk)
            (ends _ _ (
              Lived-end split.lib st.guard _
                (fails_upstream
                  (ending split.trip answer.status split.clock.duration_ms split.clock.at_end)
                  error_body (split.lib.json.as_bytes error_body)
                  (response_headers_to_pairs answer.headers))
                (answer.status, some error_body)
                (rw (failed-guard split.now split.batch_id _ st) refl) refl
                (built-Reported split.lib _ error_body bad)))
    ]
  ]

  read_chunk-Told :
      (i : ℕ) (answer : Answer) (st : Sending) → Told st.guard (read_chunk split i answer st)
  unfolding read_chunk guard_step
  read_chunk-Told i answer st =
      let pairs = response_headers_to_pairs answer.headers in
      let dumped = λ (dump : DumpBody). λ (code : ℕ).
        Quiet-step split.lib.codec (dumps_response dump code pairs split.clock.at_response) st.guard
          refl in
      elim (Result-cases answer.bytes) [
        | inr (e, lost) ↦ rw (lost, read_chunk) (failed-Told i _ e e st)
        | inl (bytes, came) ↦ elim (Result-cases (validate_upstream_body split.lib.codec bytes)) [
          | inr ((e, dump), bad) ↦
              rw (came, bad, read_chunk)
                (Told-after st.guard _ _ (dumped dump 502) (failed-Told i _ _ _ _))
          | inl (dump, valid) ↦ elim (Result-cases (split.calls.from_str (dumped_text dump))) [
            | inr (e, unread) ↦
                rw (came, valid, unread, read_chunk)
                  (Told-after st.guard _ _ (dumped dump 200) (failed-Told i _ e e _))
            | inl (reply, read) ↦
                rw (came, valid, read, read_chunk) (tells reply _ (dumped dump 200))
          ]
        ]
      ]

  send_piece-Told :
      (i : ℕ) (prev : Option String) (chunk : List Content) (st : Sending)
      → Told st.guard (send_piece split i prev chunk st)
  unfolding send_piece mark_started_and_persist guard_step
  send_piece-Told i prev chunk st = elim (Result-cases (chunk_body split i prev chunk)) [
    | inr (e, bad) ↦ rw (bad, send_piece) (internal-Told e st)
    | inl (body, good) ↦
        rw (good, send_piece)
          (Told-then st.guard _ _
            (Told-after st.guard _ _
              (Quiet-step split.lib.codec
                (dumps_egress body (split.lib.pairs split.headers) split.clock.at_egress) st.guard
                refl)
              (send_chunk-Told i body _))
            (λ answer st'. read_chunk-Told i answer st'))
  ]

  after_reply-Told :
      (i : ℕ) (chunks : List (List Content)) (reply : Reply) (st : Sending)
      (rest : Step split (List Reply))
      → Told st.guard rest
      → Told st.guard (after_reply split i chunks reply st rest)
  unfolding after_reply
  after_reply-Told i chunks reply st rest told =
      elim (Option-cases (oversized split i (split.calls.id reply) chunks)) [
        | inl fits ↦ rw (fits, after_reply) told
        | inr (message, over) ↦ rw (over, after_reply) (bad_request-Told message st)
      ]

  send_pieces-Told :
      (chunks : List (List Content)) (i : ℕ) (prev : Option String) (replies : List Reply)
      (st : Sending)
      → Told st.guard (send_pieces split i prev replies chunks st)
  unfolding send_pieces ack_and_persist
  send_pieces-Told [] i prev replies st = tells replies st (Quiet-none split.lib.codec st.guard)
  send_pieces-Told (chunk ∷ chunks) i prev replies st =
      Told-then st.guard (send_piece split i prev chunk st)
        (λ reply st1.
          let id = split.calls.id reply in
          let st2 = ack_and_persist split.now split.batch_id i id st1 in
          after_reply split i chunks reply st2
            (send_pieces split (suc i) (some id) (replies ++ reply ∷ []) chunks st2))
        (send_piece-Told i prev chunk st)
        (λ reply st1.
          after_reply-Told i chunks reply _ _ (
            send_pieces-Told chunks (suc i) (some (split.calls.id reply)) (replies ++ reply ∷ [])
              _))

  respond-Lived :
      (replies : List Reply) (client_id : String) (st : Sending)
      → Lived split.lib st.guard (client_gets split (respond split replies client_id st))
  unfolding respond guard_step
  respond-Lived replies client_id st =
      elim (Result-cases (split.calls.build_response replies client_id)) [
        | inr (e, bad) ↦ rw (bad, respond) (internal-Lived e st)
        | inl (value, good) ↦
            let body : List ℕ = elim (split.lib.to_vec value) [ ok b ↦ b | err _ ↦ [] ] in
            rw (good, respond)
              (Lived-after split.lib st.guard _ _
                (Quiet-step split.lib.codec
                  (dumps_ingress_response (dump_body_from_bytes split.lib.codec body) 200
                    split.clock.at_response)
                  st.guard refl)
                (Lived-end split.lib _ _ (finishes _) (200, none) refl refl (answered _)))
      ]

  complete-Lived :
      (replies : List Reply) (st : Sending)
      → Lived split.lib st.guard (client_gets split (finish_batch split replies st))
  unfolding finish_batch complete_batch_and_persist
  complete-Lived replies st =
      elim (Result-cases (complete_batch st.store split.now split.batch_id).0) [
        | inr (e, lost) ↦ rw (lost, finish_batch) (internal-Lived _ st)
        | inl (node, done) ↦ rw (done, finish_batch) (respond-Lived replies node.id _)
      ]

  -- what the client gets, by the conversation
  pub data Answers : Why Value → Result AppError (Response Value) → Type 0 where
    responds : (value : Value) → Answers served (ok (ok_response split value))
    unbuilt : (e : Text) → Answers served (err (internal e))
    passes_failure : (r : Result AppError (Response Value)) → Answers (upstream_failed r) r
    unserialisable : (e : Text) → Answers (unserialised e) (err (internal e))
    oversize : (message : Text) → Answers too_large (err (bad_request message))

  SplitEnd-Answers :
      (key : Key) (before : List String) (said : List Reply × Why Value)
      (x : Step split (Response Value))
      → SplitEnd split key before said x
      → Answers said.1 (client_gets split x).0
  SplitEnd-Answers key before _ _ (completes replies value st done built) = responds value
  SplitEnd-Answers key before _ _ (unanswered replies e st done bad) = unbuilt e
  SplitEnd-Answers key before _ _ (fails replies r st v) = passes_failure r
  SplitEnd-Answers key before _ _ (leaves replies _ _ st next n (unserialising e) v same) =
      unserialisable e
  SplitEnd-Answers key before _ _ (leaves replies _ _ st next n (oversizing message) v same) =
      oversize message

  pub split_send-Recorded :
      (session_id : String) (hashes : List ℕ) (system_hash : Option ℕ)
      (chunks : List (List Content)) (st : Sending) (d : Diagnostics) (section model : Text)
      → Quiet split.lib.codec (new_guard d section model) st.guard
      → let (result, guard) =
          client_gets split (split_send split session_id hashes system_hash chunks st) in
        Answers (conversation split 0 split.params.previous_interaction_id chunks).1 result
        × ((o : Outcome) × IsRecorded d
              (new_request_id d).0
              section
              model
              o
              (drop_guard split.clock.duration_ms split.clock.at_end guard).stats_sent
            × Reported split.lib.fault result o)
  unfolding split_send
  split_send-Recorded session_id hashes system_hash chunks st d section model quiet = (
    SplitEnd-Answers (split.params.previous_interaction_id, hashes, system_hash) st.cancelled _ _
        (split_send-SplitEnd split session_id hashes system_hash chunks st),
    Lived-IsRecorded split.lib d section model _ split.clock.duration_ms split.clock.at_end (
        Lived-after split.lib _ st.guard _ quiet (
          Told-close st.guard _ (finish_batch split)
            (send_pieces-Told chunks 0 split.params.previous_interaction_id [] _)
            (λ replies st'. complete-Lived replies st'))),
  )
