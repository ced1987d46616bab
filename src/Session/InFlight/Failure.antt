-- ===== src/Session/InFlight/Failure.antt =====
-- src/session.rs, `fail_batch`: what is cancelled and what is left.
use inf_splitter.Prelude.{
  String_eq, ℕ_eq, ==_refl, All, List, String, [], any, arith, eq_iff, if◌then◌else◌, map, none, ok,
  refl, some, true, ℕ, ◌==◌, ◌∷◌, ◌≡◌, ◌≢◌, ◌⊎◌,
}
use inf_splitter.Prelude.Dict
use inf_splitter.Session.{InFlightBatch, InFlightPiece, StoreV2, failed}
use inf_splitter.Session.InFlight.{
  acked_ids, fail_batch, fail_piece, is_acked, remove_all, with_failed,
}
use inf_splitter.Prelude.Dict.{HashMap}

-- The piece is acked or has failed with the error.
abbrev pub IsSettled : String → InFlightPiece → Type 0
IsSettled error p = (is_acked p ≡ true) ⊎ (p.status ≡ failed error)

fail_piece-IsSettled : (error : String) (p : InFlightPiece) → IsSettled error (fail_piece error p)
fail_piece-IsSettled error p = ground arith

map-fail_piece-IsSettled :
    (error : String) (ps : List InFlightPiece) → All (IsSettled error) (map (fail_piece error) ps)
map-fail_piece-IsSettled error [] = tt
map-fail_piece-IsSettled error (p ∷ ps) =
    (fail_piece-IsSettled error p, map-fail_piece-IsSettled error ps)

acked_ids-map-fail_piece :
    (error : String) (ps : List InFlightPiece)
    → acked_ids (map (fail_piece error) ps) ≡ acked_ids ps
unfolding acked_ids
acked_ids-map-fail_piece error [] = refl
acked_ids-map-fail_piece error (p ∷ ps) = ground (arith, acked_ids-map-fail_piece error ps)

get-remove_all {ℓ} :
    {V : Type ℓ} (ids : List String) (m : HashMap String V) (k : String)
    → Dict.get (remove_all ids m) k ≡ (if any (λ id. id == k) ids then none else Dict.get m k)
unfolding remove_all
get-remove_all [] m k = refl
get-remove_all (id ∷ ids) m k =
    ground (arith, get-remove_all ids (Dict.remove m id) k, Dict.get-remove m id k)

pub record IsFailed (s t : StoreV2) (batch_id : String) (batch : InFlightBatch) (error : String)
    : Type 0 where
  pub left : InFlightBatch
  pub still_there : Dict.get t.in_flight batch_id ≡ some left
  pub settled : All (IsSettled error) left.pieces
  pub same_acked : acked_ids left.pieces ≡ acked_ids batch.pieces
  pub upstreams :
      (k : String)
      → Dict.get t.interactions.upstreams k ≡ (
          if any (λ id. id == k) (acked_ids batch.pieces)
          then none
          else Dict.get s.interactions.upstreams k)
  pub clients : t.interactions.clients ≡ s.interactions.clients
  pub others : (k : String) → k ≢ batch_id → Dict.get t.in_flight k ≡ Dict.get s.in_flight k

-- A batch that fails stays, with every piece acked or failed and the same acked ones. Exactly the
-- upstream nodes of the acked pieces go, and their ids are returned; the client nodes and the
-- other batches stay.
pub fail_batch-IsFailed :
    (s : StoreV2) (now : ℕ) (batch_id error : String) (batch : InFlightBatch)
    → Dict.get s.in_flight batch_id ≡ some batch
    → (t : StoreV2) × (fail_batch s now batch_id error ≡ ok (acked_ids batch.pieces, t))
      × IsFailed s t batch_id batch error
unfolding fail_batch
fail_batch-IsFailed s now batch_id error batch there = (
  with_failed s now batch_id error batch,
  rw (there, fail_batch) refl,
  record {
    left = record batch { pieces = map (fail_piece error) batch.pieces; updated_utc = now };
    still_there =
        rw (Dict.get-insert s.in_flight batch_id batch_id) (ground (arith, ==_refl batch_id));
    settled = map-fail_piece-IsSettled error batch.pieces;
    same_acked = acked_ids-map-fail_piece error batch.pieces;
    upstreams = get-remove_all (acked_ids batch.pieces) s.interactions.upstreams;
    clients = refl;
    others =
        λ k ne. rw (Dict.get-insert s.in_flight batch_id k) (ground (arith, eq_iff batch_id k, ne));
  },
)
