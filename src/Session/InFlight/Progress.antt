-- ===== src/Session/InFlight/Progress.antt =====
-- src/session.rs: a pending piece can be driven to its end.
use inf_splitter.Prelude.{
  String_eq, ℕ_eq, ==_refl, Result, String, arith, get_elem?, get_elem?-set, ok, refl, set, set-set,
  some, ℕ, ◌>>=◌, ◌≡◌,
}
use inf_splitter.Prelude.Dict
use inf_splitter.Session.{
  InFlightBatch, InFlightPiece, StoreV2, acked, pending, response_started, sent,
}
use inf_splitter.Session.InFlight.{
  StoreError, ack_piece, mark_response_started, mark_sent, on_status, to_acked, to_response_started,
  to_sent, update_piece, with_status,
}

-- the batch with another piece at an index
abbrev pub replaced : InFlightBatch → ℕ → ℕ → InFlightPiece → InFlightBatch
replaced batch now i q = record batch { pieces = set batch.pieces i q; updated_utc = now }

-- The batch is there and has the piece at the index.
abbrev PieceAt : StoreV2 → String → InFlightBatch → ℕ → InFlightPiece → Type 0
PieceAt s batch_id batch i p =
    (Dict.get s.in_flight batch_id ≡ some batch) × (get_elem? batch.pieces i ≡ some p)

pub update_piece-ok :
    (s : StoreV2) (now : ℕ) (batch_id : String) (batch : InFlightBatch) (i : ℕ)
    (p q : InFlightPiece) (change : InFlightPiece → Result StoreError InFlightPiece)
    → PieceAt s batch_id batch i p
    → change p ≡ ok q
    → (t : StoreV2) × (update_piece s now batch_id i change ≡ ok t)
      × PieceAt t batch_id (replaced batch now i q) i q
unfolding update_piece
update_piece-ok s now batch_id batch i p q change (there, at) done = (
  record s { in_flight = Dict.insert s.in_flight batch_id (replaced batch now i q) },
  ground (arith, there, at, done),
  (
    rw (Dict.get-insert s.in_flight batch_id batch_id) (ground (arith, ==_refl batch_id)),
    get_elem?-set batch.pieces i p q at,
  ),
)

-- the life of a piece that is answered: HTTP 200, the interaction's id, the end of the stream
unfoldable drive : StoreV2 → ℕ → String → ℕ → String → Result StoreError StoreV2
drive s now batch_id i id = do
  responded ← mark_response_started s now batch_id i
  observed ← mark_sent responded now batch_id i id
  ack_piece observed now batch_id i id

-- From a pending piece the three transitions succeed, and leave it acked with the observed id.
drive-acked :
    (s : StoreV2) (now : ℕ) (batch_id : String) (batch : InFlightBatch) (i : ℕ) (p : InFlightPiece)
    (id : String)
    → PieceAt s batch_id batch i p
    → p.status ≡ pending
    → (t : StoreV2) × (drive s now batch_id i id ≡ ok t)
      × PieceAt t batch_id
          (replaced batch now i (with_status p (acked id)))
          i
          (with_status p (acked id))
unfolding drive mark_response_started mark_sent ack_piece to_response_started to_sent to_acked
drive-acked s now batch_id batch i p id there is_pending =
    let (t, e, at) =
      update_piece-ok s now batch_id batch i p (with_status p response_started)
        (on_status (to_response_started i)) there (rw is_pending refl) in
    let (u, f, at') =
      update_piece-ok t now batch_id (replaced batch now i (with_status p response_started)) i
        (with_status p response_started) (with_status p (sent id)) (on_status (to_sent i id)) at
        refl in
    let (v, g, at'') =
      update_piece-ok u now batch_id
        (replaced (replaced batch now i (with_status p response_started)) now i
          (with_status p (sent id)))
        i (with_status p (sent id)) (with_status p (acked id)) (on_status (to_acked i id)) at'
        refl in
    (v, ground (arith, e, f, g), simp set-set at at'')
