-- ===== src/Interactions/Send/Stored.antt =====
-- src/interactions_handler.rs: the batch of a split send on the session store while a piece is sent,
-- and after it has failed.
use inf_splitter.Prelude.{
  String_eq, All, List, Option, String, [], ap, length, none, ok, refl, some, ℕ, ◌++◌, ◌∙◌, ◌∷◌,
  ◌≡◌,
}
use inf_splitter.Prelude.Dict
use inf_splitter.Interactions.Chunks.{
  Sending, ack_and_persist, fail_batch_and_cancel, mark_started_and_persist,
}
use inf_splitter.Interactions.Send.Filled.{
  AreFilled-acked, AreFilled-acked_ids, InFlightWith, advance,
}
use inf_splitter.Session.InFlight.{
  ack_piece, acked_ids, mark_response_started, mark_sent, on_status, set_piece_body, to_acked,
  to_response_started, to_sent, with_status,
}
use inf_splitter.Session.{InFlightBatch, StoreV2, acked, pending, response_started, sent}
use inf_splitter.Session.InFlight.Failure.{IsSettled, fail_batch-IsFailed}

abbrev pub Key : Type 0
Key = Option String × List ℕ × Option ℕ

pub mark_started-InFlightWith :
    (now : ℕ) (batch_id : String) (key : Key) (ids : List String) (n : ℕ) (body : List ℕ)
    (st : Sending)
    → InFlightWith st.store batch_id key ids (some pending) n
    → InFlightWith
        (mark_started_and_persist now batch_id (length ids) body st).store
        batch_id
        key
        ids
        (some response_started)
        n
unfolding mark_started_and_persist set_piece_body mark_response_started to_response_started
mark_started-InFlightWith now batch_id key ids n body st v =
    let (s1, done1, v1) =
      advance st.store now batch_id key ids pending pending n
        (λ piece. ok (record piece { request_body = body }))
        (λ p e. (record p { request_body = body }, refl, e)) v in
    let (s2, done2, v2) =
      advance s1 now batch_id key ids pending response_started n
        (on_status (to_response_started (length ids)))
        (λ p e. (with_status p response_started, rw e refl, refl)) v1 in
    rw (done1, done2) v2

pub ack-InFlightWith :
    (now : ℕ) (batch_id : String) (key : Key) (ids : List String) (n : ℕ) (id : String)
    (st : Sending)
    → InFlightWith st.store batch_id key ids (some response_started) n
    → InFlightWith
        (ack_and_persist now batch_id (length ids) id st).store
        batch_id
        key
        (ids ++ id ∷ [])
        none
        n
unfolding ack_and_persist mark_sent ack_piece to_sent to_acked
ack-InFlightWith now batch_id key ids n id st v =
    let (s1, done1, v1) =
      advance st.store now batch_id key ids response_started (sent id) n
        (on_status (to_sent (length ids) id)) (λ p e. (with_status p (sent id), rw e refl, refl))
        v in
    let (s2, done2, v2) =
      advance s1 now batch_id key ids (sent id) (acked id) n (on_status (to_acked (length ids) id))
        (λ p e. (with_status p (acked id), rw e refl, refl)) v1 in
    rw (done1, done2)
      (record {
        batch = v2.batch;
        there = v2.there;
        same_key = v2.same_key;
        filled = AreFilled-acked ids id n v2.batch.pieces v2.filled;
      })

-- Every piece of the batch has its final status, and what was acked was cancelled.
pub record Cancelled (batch_id : String) (ids before : List String) (st : Sending) : Type 0 where
  pub left : InFlightBatch
  pub reason : String
  pub there : Dict.get st.store.in_flight batch_id ≡ some left
  pub settled : All (IsSettled reason) left.pieces
  pub same_acked : acked_ids left.pieces ≡ ids
  pub cancelled : st.cancelled ≡ before ++ ids

pub fail_batch-Cancelled :
    (now : ℕ) (batch_id : String) (key : Key) (ids : List String) (n : ℕ) (reason : String)
    (st : Sending)
    → InFlightWith st.store batch_id key ids (some response_started) n
    → Cancelled batch_id ids st.cancelled (fail_batch_and_cancel now batch_id reason st)
unfolding fail_batch_and_cancel
fail_batch-Cancelled now batch_id key ids n reason st v =
    let (t, done, f) = fail_batch-IsFailed st.store now batch_id reason v.batch v.there in
    let same = AreFilled-acked_ids ids n v.batch.pieces v.filled in
    rw (done, fail_batch_and_cancel)
      (record {
        left = f.left;
        reason = reason;
        there = f.still_there;
        settled = f.settled;
        same_acked = f.same_acked ∙ same;
        cancelled = ap (λ l. st.cancelled ++ l) same;
      })

pub Cancelled-from :
    (batch_id : String) (ids before : List String) (st st1 st2 : Sending)
    → st.cancelled ≡ before
    → st2.store ≡ st1.store
    → st2.cancelled ≡ st1.cancelled
    → Cancelled batch_id ids st.cancelled st1
    → Cancelled batch_id ids before st2
Cancelled-from batch_id ids before st st1 st2 same store cancelled v = record {
  left = v.left;
  reason = v.reason;
  there = ap (λ (s : StoreV2). Dict.get s.in_flight batch_id) store ∙ v.there;
  settled = v.settled;
  same_acked = v.same_acked;
  cancelled = cancelled ∙ v.cancelled ∙ ap (λ l. l ++ ids) same;
}

pub same_cancelled :
    (now : ℕ) (batch_id : String) (i : ℕ) (body : List ℕ) (st : Sending)
    → (mark_started_and_persist now batch_id i body st).cancelled ≡ st.cancelled
unfolding mark_started_and_persist
same_cancelled now batch_id i body st = refl
