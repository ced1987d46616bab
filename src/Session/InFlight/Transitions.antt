-- ===== src/Session/InFlight/Transitions.antt =====
-- src/session.rs: the status of a split-send piece as a state machine.
use inf_splitter.Prelude.{
  String_eq, ℕ_eq, ==_refl, >>=-eq-ok, Option-cases, Result, Result-cases, String, arith, eq_iff,
  get_elem?, inl, inr, ok, refl, set, some, subst, ℕ, ◌≡◌, ◌≢◌, ◌⊎◌,
}
use inf_splitter.Prelude.Dict
use inf_splitter.Session.{
  InFlightBatch, InFlightPiece, InFlightStatus, StoreV2, acked, pending, response_started, sent,
}
use inf_splitter.Session.InFlight.{
  StoreError, ack_piece, mark_response_started, mark_sent, on_status, to_acked, to_response_started,
  to_sent, update_piece, with_status,
}

-- The transitions that the comments of `InFlightStatus` describe.
pub data StatusStep : InFlightStatus → InFlightStatus → Type 0 where
  respond : StatusStep pending response_started
  observe : (id : String) → StatusStep response_started (sent id)
  drain : (old new_id : String) → StatusStep (sent old) (acked new_id)
  drain_at_once : (id : String) → StatusStep response_started (acked id)

-- Between two stores, one piece of one batch changes, the others and all else stay.
pub record PieceStep (R : InFlightPiece → InFlightPiece → Type 0) (s t : StoreV2)
    (batch_id : String) (i now : ℕ) : Type 0 where
  pub old : InFlightBatch
  pub before : InFlightPiece
  pub later : InFlightPiece
  pub old_there : Dict.get s.in_flight batch_id ≡ some old
  pub before_there : get_elem? old.pieces i ≡ some before
  pub stepped : R before later
  pub written :
      Dict.get t.in_flight batch_id
      ≡ some (record old { pieces = set old.pieces i later; updated_utc = now })
  pub others : (k : String) → k ≢ batch_id → Dict.get t.in_flight k ≡ Dict.get s.in_flight k
  pub interactions : t.interactions ≡ s.interactions
  pub sessions : t.sessions ≡ s.sessions

abbrev with_piece : StoreV2 → ℕ → String → InFlightBatch → ℕ → InFlightPiece → StoreV2
with_piece s now batch_id batch i q = record s {
  in_flight =
      Dict.insert s.in_flight batch_id
        (record batch { pieces = set batch.pieces i q; updated_utc = now });
}

with_piece-PieceStep :
    (R : InFlightPiece → InFlightPiece → Type 0) (s : StoreV2) (now : ℕ) (batch_id : String) (i : ℕ)
    (batch : InFlightBatch) (p q : InFlightPiece)
    → Dict.get s.in_flight batch_id ≡ some batch
    → get_elem? batch.pieces i ≡ some p
    → R p q
    → PieceStep R s (with_piece s now batch_id batch i q) batch_id i now
with_piece-PieceStep R s now batch_id i batch p q there at step = record {
  old = batch;
  before = p;
  later = q;
  old_there = there;
  before_there = at;
  stepped = step;
  written = rw (Dict.get-insert s.in_flight batch_id batch_id) (ground (arith, ==_refl batch_id));
  others =
      λ k ne. rw (Dict.get-insert s.in_flight batch_id k) (ground (arith, eq_iff batch_id k, ne));
  interactions = refl;
  sessions = refl;
}

update_piece-PieceStep :
    (R : InFlightPiece → InFlightPiece → Type 0) (s t : StoreV2) (now : ℕ) (batch_id : String)
    (i : ℕ) (change : InFlightPiece → Result StoreError InFlightPiece)
    → ((p q : InFlightPiece) → change p ≡ ok q → R p q)
    → update_piece s now batch_id i change ≡ ok t
    → PieceStep R s t batch_id i now
unfolding update_piece
update_piece-PieceStep R s t now batch_id i change sound e =
    elim (Option-cases (Dict.get s.in_flight batch_id)) [
      | inl absent ↦ absurd (ground (arith, absent))
      | inr (batch, there) ↦ elim (Option-cases (get_elem? batch.pieces i)) [
        | inl out ↦ absurd (ground (arith, there, out))
        | inr (p, at) ↦ elim (Result-cases (change p)) [
          | inl (q, done) ↦
              subst (λ t. PieceStep R s t batch_id i now) {x = with_piece s now batch_id batch i q}
                (ground (arith, there, at, done))
                (with_piece-PieceStep R s now batch_id i batch p q there at (sound p q done))
          | inr (x, bad) ↦ absurd (ground (arith, there, at, bad))
        ]
      ]
    ]

-- The piece keeps its index, its hash and its body, and its status makes a step.
pub record StatusChange (p q : InFlightPiece) : Type 0 where
  pub same : q ≡ with_status p q.status
  pub step : StatusStep p.status q.status

to_response_started-StatusStep :
    (i : ℕ) (st st' : InFlightStatus) → to_response_started i st ≡ ok st' → StatusStep st st'
unfolding to_response_started
to_response_started-StatusStep i pending st' e = subst (StatusStep pending) (ground arith) respond
to_response_started-StatusStep i _ st' e = absurd (ground arith)

to_sent-StatusStep :
    (i : ℕ) (id : String) (st st' : InFlightStatus) → to_sent i id st ≡ ok st' → StatusStep st st'
unfolding to_sent
to_sent-StatusStep i id response_started st' e =
    subst (StatusStep response_started) (ground arith) (observe id)
to_sent-StatusStep i id _ st' e = absurd (ground arith)

to_acked-StatusStep :
    (i : ℕ) (id : String) (st st' : InFlightStatus) → to_acked i id st ≡ ok st' → StatusStep st st'
unfolding to_acked
to_acked-StatusStep i id (sent old) st' e =
    subst (StatusStep (sent old)) (ground arith) (drain old id)
to_acked-StatusStep i id response_started st' e =
    subst (StatusStep response_started) (ground arith) (drain_at_once id)
to_acked-StatusStep i id _ st' e = absurd (ground arith)

on_status-StatusChange :
    (f : InFlightStatus → Result StoreError InFlightStatus)
    → ((st st' : InFlightStatus) → f st ≡ ok st' → StatusStep st st')
    → (p q : InFlightPiece) → on_status f p ≡ ok q
    → StatusChange p q
on_status-StatusChange f sound p q e =
    let (st', moved, same) = >>=-eq-ok (f p.status) (λ st. ok (with_status p st)) e in
    let eq : with_status p st' ≡ q = ground (arith, same) in
    subst (StatusChange p) eq (record { same = refl; step = sound p.status st' moved })

-- Whichever of the three marking operations succeeds, it makes one step of the state machine on
-- one piece; every other piece and batch, the sessions and the interactions stay as they are.
pub mark-PieceStep :
    (s t : StoreV2) (now : ℕ) (batch_id : String) (i : ℕ) (id : String)
    → (mark_response_started s now batch_id i ≡ ok t)
      ⊎ (mark_sent s now batch_id i id ≡ ok t)
      ⊎ (ack_piece s now batch_id i id ≡ ok t)
    → PieceStep StatusChange s t batch_id i now
unfolding mark_response_started mark_sent ack_piece
mark-PieceStep s t now batch_id i id (inl e) =
    update_piece-PieceStep StatusChange s t now batch_id i (on_status (to_response_started i))
      (on_status-StatusChange (to_response_started i) (to_response_started-StatusStep i)) e
mark-PieceStep s t now batch_id i id (inr (inl e)) =
    update_piece-PieceStep StatusChange s t now batch_id i (on_status (to_sent i id))
      (on_status-StatusChange (to_sent i id) (to_sent-StatusStep i id)) e
mark-PieceStep s t now batch_id i id (inr (inr e)) =
    update_piece-PieceStep StatusChange s t now batch_id i (on_status (to_acked i id))
      (on_status-StatusChange (to_acked i id) (to_acked-StatusStep i id)) e
