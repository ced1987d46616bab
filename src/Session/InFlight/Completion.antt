-- ===== src/Session/InFlight/Completion.antt =====
-- src/session.rs, `complete_batch`: what a batch becomes, and when.
use inf_splitter.Prelude.{
  String_eq, ℕ_eq, ==_refl, All, Bool-cases, List, Option, Option-cases, Result, String, [], all,
  ap, append-nil, append_assoc, arith, eq_iff, err, false, inl, inr, none, ok, refl, some, sym,
  true, ℕ, ◌++◌, ◌↔◌, ◌∙◌, ◌∷◌, ◌≡◌, ◌≢◌,
}
use inf_splitter.Prelude.Dict
use inf_splitter.Session.{
  ClientInteractionNode, InFlightBatch, InFlightPiece, InteractionStore, StoreV2,
  UpstreamInteractionNode,
}
use inf_splitter.Session.InFlight.{
  StoreError, acked_ids, batch_is_complete, cannot_complete, client_node_of, complete_batch,
  insert_pieces, is_acked, status-cases, upstream_node,
}
use inf_splitter.Session.Store.{insert_client, insert_upstream}
use inf_splitter.Prelude.Dict.{HashMap}

-- The loop ends with an identifier for each piece, in order, exactly if every piece is acked.
insert_pieces-ok :
    (batch : InFlightBatch) (now : ℕ) (s : InteractionStore) (ids : List String)
    (prev : Option String) (pieces : List InFlightPiece)
    → all is_acked pieces ≡ true
    → (insert_pieces batch now s ids prev pieces).0 ≡ ok (ids ++ acked_ids pieces)
unfolding insert_pieces acked_ids
insert_pieces-ok batch now s ids prev [] h = ap ok (sym (append-nil ids))
insert_pieces-ok batch now s ids prev (p ∷ ps) h = elim (status-cases p) [
  | inl (id, e) ↦
      rw (e, insert_pieces, acked_ids)
        (insert_pieces-ok batch now (insert_upstream s (upstream_node batch now p.index id prev))
            (ids ++ id ∷ []) (some id) ps (ground (arith, e))
          ∙ ap ok (append_assoc ids (id ∷ []) (acked_ids ps)))
  | inr bad ↦ cc (bad, h)
]

-- Two identifiers of the list are never the same.
abbrev pub IsFresh : String → List String → Type 0
IsFresh id ids = All (λ j. j ≢ id) ids

abbrev pub AreDistinct : List String → Type 0
AreDistinct [] = Unit
AreDistinct (id ∷ ids) = IsFresh id ids × AreDistinct ids

-- The upstream nodes of the identifiers stand in the store, each after the one before it.
abbrev pub IsChain : HashMap String UpstreamInteractionNode → Option String → List String → Type 0
IsChain m prev [] = Unit
IsChain m prev (id ∷ ids) =
    ((node : UpstreamInteractionNode) × (Dict.get m id ≡ some node) × (node.prev_id ≡ prev))
    × IsChain m (some id) ids

insert_pieces-keeps :
    (batch : InFlightBatch) (now : ℕ) (s : InteractionStore) (ids : List String)
    (prev : Option String) (pieces : List InFlightPiece) (k : String)
    → IsFresh k (acked_ids pieces)
    → Dict.get (insert_pieces batch now s ids prev pieces).1.upstreams k ≡ Dict.get s.upstreams k
unfolding insert_pieces acked_ids insert_upstream
insert_pieces-keeps batch now s ids prev [] k fresh = refl
insert_pieces-keeps batch now s ids prev (p ∷ ps) k fresh = elim (status-cases p) [
  | inl (id, e) ↦
      let fresh' : IsFresh k (id ∷ acked_ids ps) = rw (e, acked_ids) at fresh in
      rw (e, insert_pieces)
        (insert_pieces-keeps batch now (insert_upstream s (upstream_node batch now p.index id prev))
            (ids ++ id ∷ []) (some id) ps k fresh'.1
          ∙ ground (
            arith,
            Dict.get-insert s.upstreams id k (upstream_node batch now p.index id prev),
            eq_iff id k,
            fresh'.0,
          ))
  | inr bad ↦ ground (arith, bad)
]

insert_pieces-IsChain :
    (batch : InFlightBatch) (now : ℕ) (s : InteractionStore) (ids : List String)
    (prev : Option String) (pieces : List InFlightPiece)
    → all is_acked pieces ≡ true
    → AreDistinct (acked_ids pieces)
    → IsChain (insert_pieces batch now s ids prev pieces).1.upstreams prev (acked_ids pieces)
unfolding insert_pieces acked_ids
insert_pieces-IsChain batch now s ids prev [] h d = tt
insert_pieces-IsChain batch now s ids prev (p ∷ ps) h d = elim (status-cases p) [
  | inl (id, e) ↦
      let d' : AreDistinct (id ∷ acked_ids ps) = rw (e, acked_ids) at d in
      let node = upstream_node batch now p.index id prev in
      rw (e, insert_pieces, acked_ids)
        (
          (
            node,
            insert_pieces-keeps batch now (insert_upstream s node) (ids ++ id ∷ []) (some id) ps id
                  d'.0
                ∙ unfold insert_upstream in
                  (Dict.get-insert s.upstreams id id node ∙ ground (arith, ==_refl id)),
            refl,
          ),
          insert_pieces-IsChain batch now (insert_upstream s node) (ids ++ id ∷ []) (some id) ps
              (ground (arith, e)) d'.1,
        )
  | inr bad ↦ cc (bad, h)
]

-- the client node of a finished batch is stored, and the batch is taken out
pub record IsStored (s : StoreV2) (batch_id : String) (batch : InFlightBatch) (now : ℕ)
    (r : Result StoreError ClientInteractionNode × StoreV2) : Type 0 where
  pub result : r.0 ≡ ok (client_node_of batch now (acked_ids batch.pieces))
  pub taken_out : Dict.get r.1.in_flight batch_id ≡ none
  pub stored :
      Dict.get r.1.interactions.clients (client_node_of batch now (acked_ids batch.pieces)).id
      ≡ some (client_node_of batch now (acked_ids batch.pieces))
  pub others : (k : String) → k ≢ batch_id → Dict.get r.1.in_flight k ≡ Dict.get s.in_flight k

pub complete_batch-IsStored :
    (s : StoreV2) (now : ℕ) (batch_id : String) (batch : InFlightBatch)
    → Dict.get s.in_flight batch_id ≡ some batch
    → all is_acked batch.pieces ≡ true
    → IsStored s batch_id batch now (complete_batch s now batch_id)
unfolding complete_batch
complete_batch-IsStored s now batch_id batch there acked_all =
    let loop = insert_pieces batch now s.interactions [] batch.prev_interaction_id batch.pieces in
    let node = client_node_of batch now (acked_ids batch.pieces) in
    let done : loop.0 ≡ ok (acked_ids batch.pieces) =
      insert_pieces-ok batch now s.interactions [] batch.prev_interaction_id batch.pieces
        acked_all in
    rw (there, complete_batch, done)
      (record {
        result = refl;
        taken_out =
            rw (Dict.get-remove s.in_flight batch_id batch_id) (ground (arith, ==_refl batch_id));
        stored =
            unfold insert_client in
            (Dict.get-insert loop.1.clients node.id node.id node ∙ ground (arith, ==_refl node.id));
        others = λ k ne.
            rw (Dict.get-remove s.in_flight batch_id k) (ground (arith, eq_iff batch_id k, ne));
      })

-- and its upstream nodes form a chain
pub record IsCompleted (s : StoreV2) (batch_id : String) (batch : InFlightBatch) (now : ℕ)
    (r : Result StoreError ClientInteractionNode × StoreV2) : Type 0 where
  pub is_stored : IsStored s batch_id batch now r
  pub chain : IsChain r.1.interactions.upstreams batch.prev_interaction_id (acked_ids batch.pieces)

-- A batch whose pieces are all acked, with distinct interaction ids, is completed: it is taken
-- out, its client node is stored under the last id, and the upstream nodes form the chain of the
-- acked ids that goes on from the previous interaction. The other batches stay.
pub complete_batch-IsCompleted :
    (s : StoreV2) (now : ℕ) (batch_id : String) (batch : InFlightBatch)
    → Dict.get s.in_flight batch_id ≡ some batch
    → all is_acked batch.pieces ≡ true
    → AreDistinct (acked_ids batch.pieces)
    → IsCompleted s batch_id batch now (complete_batch s now batch_id)
unfolding complete_batch
complete_batch-IsCompleted s now batch_id batch there acked_all distinct =
    let done =
      insert_pieces-ok batch now s.interactions [] batch.prev_interaction_id batch.pieces
        acked_all in
    record {
      is_stored = complete_batch-IsStored s now batch_id batch there acked_all;
      chain =
          rw (there, complete_batch, done)
            (unfold insert_client in
              (insert_pieces-IsChain batch now s.interactions [] batch.prev_interaction_id
                batch.pieces acked_all distinct));
    }

insert_pieces-err :
    (batch : InFlightBatch) (now : ℕ) (s : InteractionStore) (ids : List String)
    (prev : Option String) (pieces : List InFlightPiece)
    → all is_acked pieces ≡ false
    → (e : StoreError) × ((insert_pieces batch now s ids prev pieces).0 ≡ err e)
      × ((insert_pieces batch now s ids prev pieces).1.clients ≡ s.clients)
unfolding insert_pieces insert_upstream
insert_pieces-err batch now s ids prev [] h = cc
insert_pieces-err batch now s ids prev (p ∷ ps) h = elim (status-cases p) [
  | inl (id, e) ↦
      rw (e, insert_pieces)
        (insert_pieces-err batch now (insert_upstream s (upstream_node batch now p.index id prev))
          (ids ++ id ∷ []) (some id) ps (ground (arith, e)))
  | inr bad ↦ (cannot_complete batch.id p.index, ground (arith, bad), ground (arith, bad))
]

-- `complete_batch` succeeds on exactly the batches that `batch_is_complete` accepts.
pub complete_batch_iff :
    (s : StoreV2) (now : ℕ) (batch_id : String)
    → (batch_is_complete s batch_id ≡ true)
      ↔ ((node : ClientInteractionNode) × ((complete_batch s now batch_id).0 ≡ ok node))
unfolding batch_is_complete complete_batch
complete_batch_iff s now batch_id = elim (Option-cases (Dict.get s.in_flight batch_id)) [
  | inl absent ↦
      (λ h. absurd (ground (arith, absent, h)), λ r. absurd (ground (arith, absent, r.1)))
  | inr (batch, there) ↦ elim (Bool-cases (all is_acked batch.pieces)) [
    | inl full ↦
        let done =
          insert_pieces-ok batch now s.interactions [] batch.prev_interaction_id batch.pieces
            full in
        (
          λ _. (client_node_of batch now (acked_ids batch.pieces), ground (arith, there, done)),
          λ _. ground (arith, there, full),
        )
    | inr short ↦
        let (e, failing, _) =
          insert_pieces-err batch now s.interactions [] batch.prev_interaction_id batch.pieces
            short in
        (
          λ h. absurd (ground (arith, there, short, h)),
          λ r. absurd (ground (arith, there, failing, r.1)),
        )
  ]
]

-- A call on a batch with a piece that is not acked fails, and the batch is lost all the same; the
-- client nodes and the sessions stay.
pub complete_batch_failed :
    (s : StoreV2) (now : ℕ) (batch_id : String) (batch : InFlightBatch)
    → Dict.get s.in_flight batch_id ≡ some batch
    → all is_acked batch.pieces ≡ false
    → (e : StoreError) × ((complete_batch s now batch_id).0 ≡ err e)
      × (Dict.get (complete_batch s now batch_id).1.in_flight batch_id ≡ none)
      × ((complete_batch s now batch_id).1.interactions.clients ≡ s.interactions.clients)
      × ((complete_batch s now batch_id).1.sessions ≡ s.sessions)
unfolding complete_batch
complete_batch_failed s now batch_id batch there bad =
    let (e, failing, same) =
      insert_pieces-err batch now s.interactions [] batch.prev_interaction_id batch.pieces bad in
    rw (there, complete_batch, failing)
      (
        e,
        refl,
        (rw (Dict.get-remove s.in_flight batch_id batch_id) (ground (arith, ==_refl batch_id))),
        same,
        refl,
      )
