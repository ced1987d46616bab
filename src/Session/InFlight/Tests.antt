-- ===== src/Session/InFlight/Tests.antt =====
-- Runs of the in-flight operations, and the theorems at these inputs.
use inf_splitter.Prelude.{
  String_eq, ℕ_eq, List, String, [], arith, eq_iff, err, inl, none, ok, refl, some, true, ℕ, ◌↔◌,
  ◌∷◌, ◌≡◌, ◌≢◌,
}
use inf_splitter.Prelude.Dict
use inf_splitter.Session.{
  ClientInteractionNode, InFlightBatch, InFlightPiece, InFlightStatus, StoreV2, acked, pending,
  response_started,
}
use inf_splitter.Session.InFlight.{
  StoreError, ack_piece, acked_ids, batch_is_complete, cannot_complete, complete_batch,
  create_batch, fail_batch, insert_pieces, mark_response_started, mark_sent, new_store, remove_all,
  to_acked, to_response_started, to_sent, update_piece,
}
use inf_splitter.Session.Cleanup.{clean_all}
use inf_splitter.Session.InFlight.Completion.{
  IsCompleted, complete_batch-IsCompleted, complete_batch_failed, complete_batch_iff,
}
use inf_splitter.Session.Store.{
  index_hashes, index_prev, index_upstreams, insert_client, insert_upstream,
}
use inf_splitter.Session.InFlight.Failure.{IsFailed, fail_batch-IsFailed}
use inf_splitter.Session.InFlight.Transitions.{PieceStep, StatusChange, mark-PieceStep}
use inf_splitter.Prelude.Bytes.{decimal}

in_flight_runs : Unit {0}
unfolding mark_response_started mark_sent ack_piece update_piece to_response_started to_sent
    to_acked batch_is_complete complete_batch insert_pieces fail_batch acked_ids remove_all
    create_batch clean_all insert_client insert_upstream index_hashes index_upstreams index_prev
    Dict.get Dict.insert Dict.modify Dict.remove decimal
in_flight_runs = tt

abbrev piece : ℕ → InFlightStatus → InFlightPiece
piece i st = record { index = i; content_hash = 7; request_body = []; status = st }

abbrev batch_of : List InFlightPiece → InFlightBatch
batch_of pieces = record {
  id = "b";
  session_id = "s";
  prev_interaction_id = some "root";
  message_hashes = 10 ∷ 11 ∷ [];
  system_instruction_hash = none;
  pieces = pieces;
  created_utc = 5;
  updated_utc = 5;
}

abbrev with_batch : List InFlightPiece → StoreV2
with_batch pieces = create_batch new_store 5 "b" "s" (some "root") (10 ∷ 11 ∷ []) none pieces

abbrev full : List InFlightPiece
full = piece 0 (acked "i1") ∷ piece 1 (acked "i2") ∷ []

abbrev partial : List InFlightPiece
partial = piece 0 (acked "i1") ∷ piece 1 pending ∷ []

completes :
    (complete_batch (with_batch full) 9 "b").0
    ≡ ok (record {
      id = "i2";
      prev_id = some "root";
      message_hashes = 10 ∷ 11 ∷ [];
      system_instruction_hash = none;
      upstream_ids = "i1" ∷ "i2" ∷ [];
      last_seen_utc = 9;
    })
unfolding in_flight_runs
completes = refl

-- An incomplete batch is lost, and the upstream node of its acked piece stays behind.
loses :
    ((complete_batch (with_batch partial) 9 "b").0 ≡ err (cannot_complete "b" 1))
    × (Dict.keys (complete_batch (with_batch partial) 9 "b").1.in_flight ≡ [])
    × (Dict.keys (complete_batch (with_batch partial) 9 "b").1.interactions.upstreams ≡ "i1" ∷ [])
unfolding in_flight_runs
loses = (refl, refl, refl)

-- `clean_all` leaves the reverse index of a chain behind.
cleans :
    Dict.keys (clean_all (complete_batch (with_batch full) 9 "b").1).1.interactions.prev_to_client
    ≡ "root" ∷ []
unfolding in_flight_runs
cleans = refl

batch_there :
    (pieces : List InFlightPiece)
    → Dict.get (with_batch pieces).in_flight "b" ≡ some (batch_of pieces)
unfolding in_flight_runs
batch_there pieces = refl

i1-ne-i2 : ◌≢◌ {A = String} "i2" "i1"
i1-ne-i2 = ground (arith, eq_iff "i2" "i1")

mark-PieceStep_example :
    PieceStep StatusChange
      (with_batch partial)
      (record (with_batch partial) {
        in_flight = Dict.insert (with_batch partial).in_flight "b" (record (batch_of partial) {
          pieces = piece 0 (acked "i1") ∷ piece 1 response_started ∷ [];
          updated_utc = 9;
        });
      })
      "b"
      1
      9
unfolding in_flight_runs
mark-PieceStep_example = mark-PieceStep (with_batch partial) _ 9 "b" 1 "i2" (inl refl)

complete_batch-IsCompleted_example :
    IsCompleted (with_batch full) "b" (batch_of full) 9 (complete_batch (with_batch full) 9 "b")
unfolding acked_ids
complete_batch-IsCompleted_example =
    complete_batch-IsCompleted (with_batch full) 9 "b" (batch_of full) (batch_there full) refl
      ((i1-ne-i2, tt), (tt, tt))

complete_batch_iff_example :
    (batch_is_complete (with_batch full) "b" ≡ true)
    ↔ ((node : ClientInteractionNode) × ((complete_batch (with_batch full) 9 "b").0 ≡ ok node))
complete_batch_iff_example = complete_batch_iff (with_batch full) 9 "b"

complete_batch_failed_example :
    (e : StoreError) × ((complete_batch (with_batch partial) 9 "b").0 ≡ err e)
    × (Dict.get (complete_batch (with_batch partial) 9 "b").1.in_flight "b" ≡ none)
    × ((complete_batch (with_batch partial) 9 "b").1.interactions.clients ≡ Dict.empty)
    × ((complete_batch (with_batch partial) 9 "b").1.sessions ≡ Dict.empty)
unfolding create_batch
complete_batch_failed_example =
    complete_batch_failed (with_batch partial) 9 "b" (batch_of partial) (batch_there partial) refl

fail_batch-IsFailed_example :
    (t : StoreV2) × (fail_batch (with_batch partial) 9 "b" "timeout" ≡ ok (acked_ids partial, t))
    × IsFailed (with_batch partial) t "b" (batch_of partial) "timeout"
fail_batch-IsFailed_example =
    fail_batch-IsFailed (with_batch partial) 9 "b" "timeout" (batch_of partial)
      (batch_there partial)
