-- ===== src/Interactions/Send/Conversation.antt =====
-- src/interactions_handler.rs: what the upstream says to the chunks of a split send, without the
-- store and the guard, as the reference for how the send ends.
use inf_splitter.Prelude.{
  ℕ_eq, Bool, Bool-cases, List, Option, Result, Result-cases, String, [], any, err, if◌then◌else◌,
  inl, inr, ltb, ok, refl, some, suc, ℕ, ◌&&◌, ◌==◌, ◌∷◌, ◌≡◌,
}
use inf_splitter.Interactions.Chunks.{Sending, Stopped, aborted, dumped_text, failed_batch}
use inf_splitter.Interactions.Send.{
  SplitSend, chunk_body, chunk_refused, first_oversized, oversized, read_chunk, send_chunk,
  send_piece,
}
use inf_splitter.Errors.{AppError, app_error_text, bad_request, internal, upstream}
use inf_splitter.Prelude.Text.{Text}
use inf_splitter.Upstream.Passthrough.{validate_upstream_body}
use inf_splitter.Prelude.Sets.{is_some}
use inf_splitter.Upstream.{Answer, Response, built, error_text, is_success, json_content}
use inf_splitter.Diagnostics.Guard.Steps.{abort_internal, abort_upstream, abort_with}
use inf_splitter.Egress.{apply_error_translation}

-- why no further chunk is sent
pub data Why (Value : Type 0) : Type 0 where
  served : Why Value
  -- with what the client is answered
  upstream_failed : Result AppError (Response Value) → Why Value
  unserialised : Text → Why Value
  too_large : Why Value

-- how the sending stops for it
pub data Stops {Value : Type 0} : Why Value → Stopped Value → Type 0 where
  failing : (r : Result AppError (Response Value)) → Stops (upstream_failed r) (failed_batch r)
  unserialising : (e : Text) → Stops (unserialised e) (aborted (internal e))
  oversizing : (message : Text) → Stops too_large (aborted (bad_request message))

-- a step gives what the upstream gave, or stops for what the upstream did
pub data Same {Value A : Type 0} : Result (Stopped Value) A → Result (Why Value) A → Type 0 where
  same_ok : (a : A) → Same (ok a) (ok a)
  same_err : (why : Why Value) (x : Stopped Value) → Stops why x → Same (err x) (err why)

module _ {M Value Reply Content Config : Type 0}
    (split : SplitSend M Value Reply Content Config) where
  abbrev pub unanswerable : Text → Why Value
  unanswerable error = upstream_failed (err (upstream error))

  -- an answer that is no success is passed on with its status and its translated body
  abbrev pub passed_on : Answer → Why Value
  passed_on answer =
      let error_body : Text = elim answer.text [ ok t ↦ t | err _ ↦ [] ] in
      upstream_failed (
        built split.lib (record {
          status = answer.status;
          headers = json_content ∷ split.session_header ∷ [];
          body = error_text (
              apply_error_translation answer.status (split.calls.translate_error error_body)
                split.rules);
        }))

  -- a body that is text and a reply
  abbrev pub reply_in : List ℕ → Result (Why Value) Reply
  reply_in bytes = elim (validate_upstream_body split.lib.codec bytes) [
    | err (e, _) ↦ err (unanswerable (app_error_text e))
    | ok dump ↦ elim (split.calls.from_str (dumped_text dump)) [
      | err e ↦ err (unanswerable e)
      | ok reply ↦ ok reply
    ]
  ]

  abbrev pub reply_of_answer : Answer → Result (Why Value) Reply
  reply_of_answer answer =
      if is_success answer.status
      then elim answer.bytes [ err e ↦ err (unanswerable e) | ok bytes ↦ reply_in bytes ]
      else err (passed_on answer)

  unfoldable pub reply_of : ℕ → Option String → List Content → Result (Why Value) Reply
  reply_of i prev chunk = elim (chunk_body split i prev chunk) [
    | err e ↦ err (unserialised e)
    | ok body ↦ elim (split.calls.send body) [
      | err e ↦ err (unanswerable e)
      | ok answer ↦ reply_of_answer answer
    ]
  ]

  -- the first reply gives an identifier with which a later chunk is too large
  abbrev pub leaves_no_room : ℕ → Reply → List (List Content) → Bool
  leaves_no_room i reply chunks =
      i == 0 && any (λ c. ltb split.limit (split.calls.body_size (split.calls.id reply) c)) chunks

  -- the replies to the chunks, each sent with the identifier of the one before
  unfoldable pub conversation : ℕ → Option String → List (List Content) → List Reply × Why Value
  conversation i prev [] = ([], served)
  conversation i prev (chunk ∷ chunks) = elim (reply_of i prev chunk) [
    | err why ↦ ([], why)
    | ok reply ↦
        let rest = conversation (suc i) (some (split.calls.id reply)) chunks in
        if leaves_no_room i reply chunks then (reply ∷ [], too_large) else (reply ∷ rest.0, rest.1)
  ]

  pub send_piece-reply_of :
      (i : ℕ) (prev : Option String) (chunk : List Content) (st : Sending)
      → Same (send_piece split i prev chunk st).0 (reply_of i prev chunk)
  unfolding send_piece reply_of send_chunk chunk_refused read_chunk abort_internal abort_upstream
      abort_with
  send_piece-reply_of i prev chunk st = elim (Result-cases (chunk_body split i prev chunk)) [
    | inr (e, bad) ↦ rw (bad, reply_of, send_piece) (same_err _ _ (unserialising e))
    | inl (body, good) ↦ elim (Result-cases (split.calls.send body)) [
      | inr (e, lost) ↦
          rw (good, lost, reply_in, reply_of, send_piece, send_chunk) (same_err _ _ (failing _))
      | inl (answer, came) ↦ elim (Bool-cases (is_success answer.status)) [
        | inr bad ↦
            rw (good, came, bad, reply_in, reply_of, send_piece, send_chunk)
              (same_err _ _ (failing _))
        | inl success ↦ elim (Result-cases answer.bytes) [
          | inr (e, lost) ↦
              rw (good, came, success, lost, reply_in, reply_of, send_piece, send_chunk, read_chunk)
                (same_err _ _ (failing _))
          | inl (bytes, read) ↦ elim (Result-cases (validate_upstream_body split.lib.codec bytes)) [
            | inr ((e, dump), invalid) ↦
                rw
                  (
                    good, came, success, read, invalid, reply_in, reply_of, send_piece, send_chunk,
                    read_chunk,
                  )
                  (same_err _ _ (failing _))
            | inl (dump, valid) ↦ elim (Result-cases (split.calls.from_str (dumped_text dump))) [
              | inr (e, unread) ↦
                  rw
                    (
                      good, came, success, read, valid, unread, reply_in, reply_of, send_piece,
                      send_chunk, read_chunk,
                    )
                    (same_err _ _ (failing _))
              | inl (reply, parsed) ↦
                  rw
                    (
                      good, came, success, read, valid, parsed, reply_in, reply_of, send_piece,
                      send_chunk, read_chunk,
                    )
                    (same_ok reply)
            ]
          ]
        ]
      ]
    ]
  ]

  first_oversized-any :
      (j : ℕ) (id : String) (chunks : List (List Content))
      → is_some (first_oversized split j id chunks)
        ≡ any (λ c. ltb split.limit (split.calls.body_size id c)) chunks
  unfolding first_oversized
  first_oversized-any j id [] = refl
  first_oversized-any j id (chunk ∷ chunks) =
      elim (Bool-cases (ltb split.limit (split.calls.body_size id chunk))) [
        | inl large ↦ rw (large, first_oversized) refl
        | inr fits ↦ rw (fits, first_oversized) (first_oversized-any (suc j) id chunks)
      ]

  pub oversized-leaves_no_room :
      (i : ℕ) (reply : Reply) (chunks : List (List Content))
      → is_some (oversized split i (split.calls.id reply) chunks) ≡ leaves_no_room i reply chunks
  oversized-leaves_no_room i reply chunks = elim (Bool-cases (i == 0)) [
    | inl first ↦ rw first (first_oversized-any 1 (split.calls.id reply) chunks)
    | inr later ↦ rw later refl
  ]
