-- ===== src/Interactions/Send/Filled.antt =====
-- src/interactions_handler.rs and src/session.rs: a batch whose pieces are sent one after the other:
-- the acked ones, the one that is being sent, and the pending ones.
use inf_splitter.Prelude.{
  String_eq, List, Option, Result, String, [], all, ap, arith, get_elem?, length, none, ok, refl,
  set, some, suc, true, zero, ℕ, ◌++◌, ◌∷◌, ◌≡◌,
}
use inf_splitter.Prelude.Dict
use inf_splitter.Session.{
  InFlightBatch, InFlightPiece, InFlightStatus, StoreV2, acked, pending, response_started,
}
use inf_splitter.Session.InFlight.{StoreError, acked_ids, is_acked, update_piece}
use inf_splitter.Session.InFlight.Progress.{replaced, update_piece-ok}

abbrev pub ArePending : ℕ → List InFlightPiece → Type 0
ArePending zero [] = Unit
ArePending (suc n) (p ∷ ps) = (p.status ≡ pending) × ArePending n ps
ArePending _ _ = ⊥

-- the identifiers of the acked pieces, the status of the next one, and the number of pending ones
abbrev pub AreFilled : List String → Option InFlightStatus → ℕ → List InFlightPiece → Type 0
AreFilled [] none n ps = ArePending n ps
AreFilled [] (some st) n [] = ⊥
AreFilled [] (some st) n (p ∷ ps) = (p.status ≡ st) × ArePending n ps
AreFilled (id ∷ ids) next n [] = ⊥
AreFilled (id ∷ ids) next n (p ∷ ps) = (p.status ≡ acked id) × AreFilled ids next n ps

pub AreFilled-next :
    (ids : List String) (n : ℕ) (ps : List InFlightPiece)
    → AreFilled ids none (suc n) ps
    → AreFilled ids (some pending) n ps
AreFilled-next [] n [] v = v
AreFilled-next [] n (p ∷ ps) v = v
AreFilled-next (id ∷ ids) n [] v = v
AreFilled-next (id ∷ ids) n (p ∷ ps) (e, v) = (e, AreFilled-next ids n ps v)

pub AreFilled-get :
    (ids : List String) (st : InFlightStatus) (n : ℕ) (ps : List InFlightPiece)
    → AreFilled ids (some st) n ps
    → (p : InFlightPiece) × (get_elem? ps (length ids) ≡ some p) × (p.status ≡ st)
AreFilled-get [] st n [] v = absurd v
AreFilled-get [] st n (p ∷ ps) (e, v) = (p, refl, e)
AreFilled-get (id ∷ ids) st n [] v = absurd v
AreFilled-get (id ∷ ids) st n (p ∷ ps) (e, v) = AreFilled-get ids st n ps v

pub AreFilled-set :
    (ids : List String) (st st' : InFlightStatus) (n : ℕ) (ps : List InFlightPiece)
    (q : InFlightPiece)
    → q.status ≡ st'
    → AreFilled ids (some st) n ps
    → AreFilled ids (some st') n (set ps (length ids) q)
AreFilled-set [] st st' n [] q e v = absurd v
AreFilled-set [] st st' n (p ∷ ps) q e (_, v) = (e, v)
AreFilled-set (id ∷ ids) st st' n [] q e v = absurd v
AreFilled-set (id ∷ ids) st st' n (p ∷ ps) q e (a, v) = (a, AreFilled-set ids st st' n ps q e v)

pub AreFilled-acked :
    (ids : List String) (id : String) (n : ℕ) (ps : List InFlightPiece)
    → AreFilled ids (some (acked id)) n ps
    → AreFilled (ids ++ id ∷ []) none n ps
AreFilled-acked [] id n [] v = absurd v
AreFilled-acked [] id n (p ∷ ps) v = v
AreFilled-acked (j ∷ ids) id n [] v = absurd v
AreFilled-acked (j ∷ ids) id n (p ∷ ps) (e, v) = (e, AreFilled-acked ids id n ps v)

pub AreFilled-done :
    (ids : List String) (ps : List InFlightPiece)
    → AreFilled ids none 0 ps
    → (all is_acked ps ≡ true) × (acked_ids ps ≡ ids)
unfolding acked_ids
AreFilled-done [] [] v = (refl, refl)
AreFilled-done [] (p ∷ ps) v = absurd v
AreFilled-done (id ∷ ids) [] v = absurd v
AreFilled-done (id ∷ ids) (p ∷ ps) (e, v) =
    let (full, same) = AreFilled-done ids ps v in
    (ground (arith, e, full), rw (e, acked_ids) (ap (λ l. id ∷ l) same))

ArePending-acked_ids : (n : ℕ) (ps : List InFlightPiece) → ArePending n ps → acked_ids ps ≡ []
unfolding acked_ids
ArePending-acked_ids zero [] v = refl
ArePending-acked_ids zero (p ∷ ps) v = absurd v
ArePending-acked_ids (suc n) [] v = absurd v
ArePending-acked_ids (suc n) (p ∷ ps) (e, v) = rw (e, acked_ids) (ArePending-acked_ids n ps v)

pub AreFilled-acked_ids :
    (ids : List String) (n : ℕ) (ps : List InFlightPiece)
    → AreFilled ids (some response_started) n ps
    → acked_ids ps ≡ ids
unfolding acked_ids
AreFilled-acked_ids [] n [] v = absurd v
AreFilled-acked_ids [] n (p ∷ ps) (e, v) = rw (e, acked_ids) (ArePending-acked_ids n ps v)
AreFilled-acked_ids (id ∷ ids) n [] v = absurd v
AreFilled-acked_ids (id ∷ ids) n (p ∷ ps) (e, v) =
    rw (e, acked_ids) (ap (λ l. id ∷ l) (AreFilled-acked_ids ids n ps v))

-- what the client node takes from a batch
abbrev pub key_of : InFlightBatch → Option String × List ℕ × Option ℕ
key_of b = (b.prev_interaction_id, b.message_hashes, b.system_instruction_hash)

pub record InFlightWith (s : StoreV2) (batch_id : String) (key : Option String × List ℕ × Option ℕ)
    (ids : List String) (next : Option InFlightStatus) (n : ℕ) : Type 0 where
  pub batch : InFlightBatch
  pub there : Dict.get s.in_flight batch_id ≡ some batch
  pub same_key : key_of batch ≡ key
  pub filled : AreFilled ids next n batch.pieces

-- one operation on the piece that is being sent
pub advance :
    (s : StoreV2) (now : ℕ) (batch_id : String) (key : Option String × List ℕ × Option ℕ)
    (ids : List String) (st st' : InFlightStatus) (n : ℕ)
    (change : InFlightPiece → Result StoreError InFlightPiece)
    → ((p : InFlightPiece)
        → p.status ≡ st
        → (q : InFlightPiece) × (change p ≡ ok q) × (q.status ≡ st'))
    → InFlightWith s batch_id key ids (some st) n
    → (t : StoreV2) × (update_piece s now batch_id (length ids) change ≡ ok t)
      × InFlightWith t batch_id key ids (some st') n
advance s now batch_id key ids st st' n change moves v =
    let (p, at, status) = AreFilled-get ids st n v.batch.pieces v.filled in
    let (q, changed, status') = moves p status in
    let (t, done, at_piece) =
      update_piece-ok s now batch_id v.batch (length ids) p q change (v.there, at) changed in
    (
      t,
      done,
      record {
        batch = replaced v.batch now (length ids) q;
        there = at_piece.0;
        same_key = v.same_key;
        filled = AreFilled-set ids st st' n v.batch.pieces q status' v.filled;
      },
    )
