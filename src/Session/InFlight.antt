-- ===== src/Session/InFlight.antt =====
-- src/session.rs: the operations of `StoreV2` on in-flight batches and sessions. An operation that
-- fails before it writes returns its error alone; the caller then still has the store it gave.
pub mod Transitions
pub mod Progress
pub mod Completion
pub mod Failure
mod Tests
use mathlib.Core.Option
use Prim.Native.String
use inf_splitter.Prelude.{
  String_eq, ℕ_eq, Bool, List, Option, Result, String, [], all, err, false, get_elem?,
  if◌then◌else◌, inl, inr, last?, map, none, ok, opt_eq, refl, set, some, true, ℕ, ◌&&◌, ◌++◌, ◌+◌,
  ◌==◌, ◌>>=◌, ◌∷◌, ◌≡◌, ◌⊎◌,
}
use inf_splitter.Prelude.Dict
use inf_splitter.Prelude.Bytes.{decimal}
use inf_splitter.Session.{
  ClientInteractionNode, InFlightBatch, InFlightPiece, InFlightStatus, InteractionStore, StoreV2,
  UpstreamInteractionNode, acked, default_session_ttl_secs, failed, pending, response_started, sent,
}
use inf_splitter.Session.Store.{insert_client, insert_upstream, new}
use inf_splitter.Prelude.Dict.{HashMap}

pub data StoreError : Type 0 where
  batch_not_found : (batch_id : String) → StoreError
  piece_not_found : (piece_index : ℕ) → StoreError
  wrong_status : (piece_index : ℕ) → InFlightStatus → StoreError
  cannot_complete : (batch_id : String) → (piece_index : ℕ) → StoreError

abbrev pub new_store : StoreV2
new_store = record { sessions = Dict.empty; interactions = new; in_flight = Dict.empty }

unfoldable pub same_hashes : List ℕ → List ℕ → Bool
same_hashes [] [] = true
same_hashes (a ∷ as') (b ∷ bs) = a == b && same_hashes as' bs
same_hashes _ _ = false

-- the test in `find_matching_batch`
unfoldable pub batch_matches : String → Option String → List ℕ → Option ℕ → InFlightBatch → Bool
unfolding same_hashes
batch_matches session_id prev hashes system b =
    b.session_id == session_id
    && opt_eq b.prev_interaction_id prev
    && same_hashes b.message_hashes hashes
    && opt_eq b.system_instruction_hash system

unfoldable pub find_in : (InFlightBatch → Bool) → List InFlightBatch → Option InFlightBatch
find_in p [] = none
find_in p (b ∷ bs) = if p b then some b else find_in p bs

unfoldable pub find_matching_batch :
    StoreV2 → String → Option String → List ℕ → Option ℕ → Option InFlightBatch
find_matching_batch s session_id prev hashes system =
    find_in (batch_matches session_id prev hashes system) (Dict.values s.in_flight)

unfoldable pub create_batch :
    StoreV2 → ℕ → String → String → Option String → List ℕ → Option ℕ → List InFlightPiece → StoreV2
create_batch s now id session_id prev hashes system pieces = record s {
  in_flight = Dict.insert s.in_flight id (record {
    id = id;
    session_id = session_id;
    prev_interaction_id = prev;
    message_hashes = hashes;
    system_instruction_hash = system;
    pieces = pieces;
    created_utc = now;
    updated_utc = now;
  });
}

-- The shape that the piece operations share: the batch, then the piece, then a check of the piece,
-- then the write and the time of the update.
unfoldable pub update_piece :
    StoreV2
    → ℕ
    → String
    → ℕ
    → (InFlightPiece → Result StoreError InFlightPiece)
    → Result StoreError StoreV2
update_piece s now batch_id piece_index change = elim (Dict.get s.in_flight batch_id) [
  | none ↦ err (batch_not_found batch_id)
  | some batch ↦ elim (get_elem? batch.pieces piece_index) [
    | none ↦ err (piece_not_found piece_index)
    | some piece ↦ elim (change piece) [
      | err e ↦ err e
      | ok piece' ↦ ok (record s {
        in_flight =
            Dict.insert s.in_flight batch_id
              (record batch { pieces = set batch.pieces piece_index piece'; updated_utc = now });
      })
    ]
  ]
]

abbrev pub with_status : InFlightPiece → InFlightStatus → InFlightPiece
with_status piece st = record piece { status = st }

unfoldable pub to_response_started : ℕ → InFlightStatus → Result StoreError InFlightStatus
to_response_started i pending = ok response_started
to_response_started i other = err (wrong_status i other)

unfoldable pub to_sent : ℕ → String → InFlightStatus → Result StoreError InFlightStatus
to_sent i id response_started = ok (sent id)
to_sent i id other = err (wrong_status i other)

unfoldable pub to_acked : ℕ → String → InFlightStatus → Result StoreError InFlightStatus
to_acked i id (sent _) = ok (acked id)
to_acked i id response_started = ok (acked id)
to_acked i id other = err (wrong_status i other)

-- a change of the status alone
abbrev pub on_status :
    (InFlightStatus → Result StoreError InFlightStatus)
    → InFlightPiece
    → Result StoreError InFlightPiece
on_status f piece = f piece.status >>= λ st. ok (with_status piece st)

unfoldable pub mark_response_started : StoreV2 → ℕ → String → ℕ → Result StoreError StoreV2
mark_response_started s now batch_id i =
    update_piece s now batch_id i (on_status (to_response_started i))

unfoldable pub mark_sent : StoreV2 → ℕ → String → ℕ → String → Result StoreError StoreV2
mark_sent s now batch_id i id = update_piece s now batch_id i (on_status (to_sent i id))

unfoldable pub ack_piece : StoreV2 → ℕ → String → ℕ → String → Result StoreError StoreV2
ack_piece s now batch_id i id = update_piece s now batch_id i (on_status (to_acked i id))

unfoldable pub set_piece_body : StoreV2 → ℕ → String → ℕ → List ℕ → Result StoreError StoreV2
set_piece_body s now batch_id i body =
    update_piece s now batch_id i (λ piece. ok (record piece { request_body = body }))

abbrev pub is_acked : InFlightPiece → Bool
is_acked piece = elim piece.status [ acked _ ↦ true | _ ↦ false ]

unfoldable pub batch_is_complete : StoreV2 → String → Bool
batch_is_complete s batch_id = elim (Dict.get s.in_flight batch_id) [
  | none ↦ false
  | some b ↦ all is_acked b.pieces
]

abbrev pub upstream_node : InFlightBatch → ℕ → ℕ → String → Option String → UpstreamInteractionNode
upstream_node batch now index id prev = record {
  id = id;
  prev_id = prev;
  client_id = String.◌++◌ batch.id (String.◌++◌ ":chunk-" (decimal index));
  last_seen_utc = now;
  expires_at_utc = now + default_session_ttl_secs;
}

-- The loop of `complete_batch` over the pieces. What it inserted before an error stays inserted.
unfoldable pub insert_pieces :
    InFlightBatch
    → ℕ
    → InteractionStore
    → List String
    → Option String
    → List InFlightPiece
    → Result StoreError (List String) × InteractionStore
insert_pieces batch now s upstream_ids prev [] = (ok upstream_ids, s)
insert_pieces batch now s upstream_ids prev (piece ∷ pieces) = elim piece.status [
  | acked id ↦
      insert_pieces batch now (insert_upstream s (upstream_node batch now piece.index id prev))
        (upstream_ids ++ id ∷ []) (some id) pieces
  | _ ↦ (err (cannot_complete batch.id piece.index), s)
]

abbrev pub client_node_of : InFlightBatch → ℕ → List String → ClientInteractionNode
client_node_of batch now upstream_ids = record {
  id = elim (last? upstream_ids) [ none ↦ "" | some id ↦ id ];
  prev_id = batch.prev_interaction_id;
  message_hashes = batch.message_hashes;
  system_instruction_hash = batch.system_instruction_hash;
  upstream_ids = upstream_ids;
  last_seen_utc = now;
}

abbrev pub commit :
    InFlightBatch
    → ℕ
    → StoreV2
    → Result StoreError (List String)
    → Result StoreError ClientInteractionNode × StoreV2
commit batch now s (err e) = (err e, s)
commit batch now s (ok ids) = (
  ok (client_node_of batch now ids),
  record s {
    interactions = insert_client s.interactions (client_node_of batch now ids);
    sessions = Dict.modify s.sessions batch.session_id (λ session. record session {
      last_interaction_id = some (client_node_of batch now ids).id;
      last_seen_utc = now;
    });
  },
)

-- The batch is taken out first; an error of the loop leaves it out.
unfoldable pub complete_batch :
    StoreV2 → ℕ → String → Result StoreError ClientInteractionNode × StoreV2
complete_batch s now batch_id = elim (Dict.get s.in_flight batch_id) [
  | none ↦ (err (batch_not_found batch_id), s)
  | some batch ↦
      let (result, interactions) =
        insert_pieces batch now s.interactions [] batch.prev_interaction_id batch.pieces in
      commit batch now
        (record s { in_flight = Dict.remove s.in_flight batch_id; interactions = interactions })
        result
]

unfoldable pub acked_ids : List InFlightPiece → List String
acked_ids [] = []
acked_ids (piece ∷ pieces) = elim piece.status [
  | acked id ↦ id ∷ acked_ids pieces
  | _ ↦ acked_ids pieces
]

unfoldable pub remove_all {ℓ} : {V : Type ℓ} → List String → HashMap String V → HashMap String V
remove_all [] m = m
remove_all (id ∷ ids) m = remove_all ids (Dict.remove m id)

abbrev pub fail_piece : String → InFlightPiece → InFlightPiece
fail_piece error piece = elim piece.status [
  | acked id ↦ piece
  | _ ↦ with_status piece (failed error)
]

abbrev pub with_failed : StoreV2 → ℕ → String → String → InFlightBatch → StoreV2
with_failed s now batch_id error batch = record s {
  interactions = record s.interactions {
    upstreams = remove_all (acked_ids batch.pieces) s.interactions.upstreams;
    upstream_to_clients = remove_all (acked_ids batch.pieces) s.interactions.upstream_to_clients;
  };
  in_flight =
      Dict.insert s.in_flight batch_id
        (record batch { pieces = map (fail_piece error) batch.pieces; updated_utc = now });
}

unfoldable pub fail_batch :
    StoreV2 → ℕ → String → String → Result StoreError (List String × StoreV2)
fail_batch s now batch_id error = elim (Dict.get s.in_flight batch_id) [
  | none ↦ err (batch_not_found batch_id)
  | some batch ↦ ok (acked_ids batch.pieces, with_failed s now batch_id error batch)
]

pub status-cases :
    (p : InFlightPiece) → ((id : String) × (p.status ≡ acked id)) ⊎ (is_acked p ≡ false)
status-cases p = cases p.status
  where
    cases :
        (st : InFlightStatus)
        → ((id : String) × (st ≡ acked id))
          ⊎ ((elim st as (λ _. Bool) [ acked _ ↦ true | _ ↦ false ]) ≡ false)
    cases (acked id) = inl (id, refl)
    cases _ = inr refl
