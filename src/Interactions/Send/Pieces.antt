-- ===== src/Interactions/Send/Pieces.antt =====
-- src/interactions_handler.rs: what one piece of a split send leaves of the batch.
use inf_splitter.Prelude.{
  String_eq, Bool-cases, List, Option, Result, Result-cases, String, err, inl, inr, length, ok,
  refl, some, ℕ, ◌∙◌, ◌≡◌,
}
use inf_splitter.Interactions.Send.{
  SplitSend, Step, chunk_body, chunk_refused, read_chunk, send_chunk, send_piece, stop_failed,
}
use inf_splitter.Interactions.Chunks.{Sending, aborted, dumped_text, failed_batch}
use inf_splitter.Interactions.Send.Filled.{InFlightWith}
use inf_splitter.Session.{pending, response_started}
use inf_splitter.Errors.{AppError}
use inf_splitter.Upstream.{Answer, Response, is_success}
use inf_splitter.Prelude.Text.{Text}
use inf_splitter.Upstream.Passthrough.{validate_upstream_body}
use inf_splitter.Interactions.Send.Stored.{
  Cancelled, Cancelled-from, Key, fail_batch-Cancelled, mark_started-InFlightWith, same_cancelled,
}

module _ {M Value Reply Content Config : Type 0} (split : SplitSend M Value Reply Content Config)
    (key : Key) (before : List String) where
  -- the piece is being sent, the batch was failed, or the sending stopped with the batch in flight
  pub data Goes (ids : List String) (n : ℕ) {A : Type 0} : Step split A → Type 0 where
    going :
        (a : A) (st : Sending)
        → InFlightWith st.store split.batch_id key ids (some response_started) n
        → st.cancelled ≡ before
        → Goes ids n (ok a, st)
    gone :
        (r : Result AppError (Response Value)) (st : Sending)
        → Cancelled split.batch_id ids before st
        → Goes ids n (err (failed_batch r), st)
    halted :
        (e : AppError) (st : Sending)
        → InFlightWith st.store split.batch_id key ids (some pending) n
        → st.cancelled ≡ before
        → Goes ids n (err (aborted e), st)

  Goes-then :
      {A B : Type 0} (ids : List String) (n : ℕ) (x : Step split A) (k : A → Sending → Step split B)
      → Goes ids n x
      → ((a : A) (st : Sending)
          → InFlightWith st.store split.batch_id key ids (some response_started) n
          → st.cancelled ≡ before
          → Goes ids n (k a st))
      → let after : Step split B = elim x.0 [ err stopped ↦ (err stopped, x.1) | ok a ↦ k a x.1 ] in
        Goes ids n after
  Goes-then ids n _ k (going a st v same) rest = rest a st v same
  Goes-then ids n _ k (gone r st v) rest = gone r st v
  Goes-then ids n _ k (halted e st v same) rest = halted e st v same

  failed-Goes :
      {A : Type 0} (ids : List String) (n i : ℕ) (what : String) (shown error : Text) (st : Sending)
      → InFlightWith st.store split.batch_id key ids (some response_started) n
      → st.cancelled ≡ before
      → Goes ids n {A = A} (stop_failed split i what shown error st)
  failed-Goes ids n i what shown error st v same = gone _ _ (
      Cancelled-from split.batch_id ids before st _ _ same refl refl
        (fail_batch-Cancelled split.now split.batch_id key ids n _ st v))

  send_chunk-Goes :
      (ids : List String) (n i : ℕ) (body : List ℕ) (st : Sending)
      → InFlightWith st.store split.batch_id key ids (some response_started) n
      → st.cancelled ≡ before
      → Goes ids n (send_chunk split i body st)
  unfolding send_chunk chunk_refused
  send_chunk-Goes ids n i body st v same = elim (Result-cases (split.calls.send body)) [
    | inr (e, lost) ↦ rw (lost, send_chunk) (failed-Goes ids n i _ e e st v same)
    | inl (answer, came) ↦ elim (Bool-cases (is_success answer.status)) [
      | inl good ↦ rw (came, good, send_chunk) (going answer st v same)
      | inr bad ↦
          rw (came, bad, send_chunk)
            (gone _ _ (
              Cancelled-from split.batch_id ids before st _ _ same refl refl
                (fail_batch-Cancelled split.now split.batch_id key ids n _ st v)))
    ]
  ]

  read_chunk-Goes :
      (ids : List String) (n i : ℕ) (answer : Answer) (st : Sending)
      → InFlightWith st.store split.batch_id key ids (some response_started) n
      → st.cancelled ≡ before
      → Goes ids n (read_chunk split i answer st)
  unfolding read_chunk
  read_chunk-Goes ids n i answer st v same = elim (Result-cases answer.bytes) [
    | inr (e, lost) ↦ rw (lost, read_chunk) (failed-Goes ids n i _ e e st v same)
    | inl (bytes, came) ↦ elim (Result-cases (validate_upstream_body split.lib.codec bytes)) [
      | inr ((e, dump), bad) ↦ rw (came, bad, read_chunk) (failed-Goes ids n i _ _ _ _ v same)
      | inl (dump, valid) ↦ elim (Result-cases (split.calls.from_str (dumped_text dump))) [
        | inr (e, unread) ↦
            rw (came, valid, unread, read_chunk) (failed-Goes ids n i _ e e _ v same)
        | inl (reply, read) ↦ rw (came, valid, read, read_chunk) (going reply _ v same)
      ]
    ]
  ]

  pub send_piece-Goes :
      (ids : List String) (n : ℕ) (prev : Option String) (chunk : List Content) (st : Sending)
      → InFlightWith st.store split.batch_id key ids (some pending) n
      → st.cancelled ≡ before
      → Goes ids n (send_piece split (length ids) prev chunk st)
  unfolding send_piece
  send_piece-Goes ids n prev chunk st v same =
      elim (Result-cases (chunk_body split (length ids) prev chunk)) [
        | inr (e, bad) ↦ rw (bad, send_piece) (halted _ _ v same)
        | inl (body, good) ↦
            rw (good, send_piece)
              (Goes-then ids n _ _
                (send_chunk-Goes ids n (length ids) body _
                  (mark_started-InFlightWith split.now split.batch_id key ids n body st v)
                  (same_cancelled split.now split.batch_id (length ids) body st ∙ same))
                (λ answer st' v' same'. read_chunk-Goes ids n (length ids) answer st' v' same'))
      ]
