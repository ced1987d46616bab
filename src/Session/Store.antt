-- ===== src/Session/Store.antt =====
-- src/session.rs: `InteractionStore`, its insertions, lookups and walks along `prev_id`.
pub mod Index
use mathlib.Core.Option
use inf_splitter.Prelude.{
  String_eq, ℕ_eq, HashKey, List, Option, String, [], none, some, suc, zero, ℕ, ◌++◌, ◌∷◌,
}
use inf_splitter.Prelude.Dict
use inf_splitter.Prelude.Dict.{HashMap}
use inf_splitter.Session.{
  ClientInteractionNode, ClientInteractionPosition, InteractionStore, UpstreamInteractionNode,
}

abbrev pub new : InteractionStore
new = record {
  clients = Dict.empty;
  upstreams = Dict.empty;
  hash_index = Dict.empty;
  upstream_to_clients = Dict.empty;
  prev_to_client = Dict.empty;
}

unfoldable pub insert_upstream : InteractionStore → UpstreamInteractionNode → InteractionStore
insert_upstream s node = record s { upstreams = Dict.insert s.upstreams node.id node }

unfoldable pub touch_upstream_on_replay : InteractionStore → String → ℕ → InteractionStore
touch_upstream_on_replay s upstream_id now = record s {
  upstreams = Dict.modify s.upstreams upstream_id (λ node. record node { last_seen_utc = now });
}

-- `unwrap_or_default` on a list
abbrev pub or_default {ℓ} : {A : Type ℓ} → Option (List A) → List A
or_default none = []
or_default (some xs) = xs

-- index.entry(key).or_default().push(v)
abbrev pub push_entry :
    {K V : Type 0} ⦃e : HashKey K⦄ → HashMap K (List V) → K → V → HashMap K (List V)
push_entry index key v = Dict.insert index key (or_default (Dict.get index key) ++ v ∷ [])

-- the hashes from position `idx` on
unfoldable pub index_hashes :
    String
    → ℕ
    → List ℕ
    → HashMap ℕ (List ClientInteractionPosition)
    → HashMap ℕ (List ClientInteractionPosition)
index_hashes id idx [] index = index
index_hashes id idx (hash ∷ hashes) index =
    index_hashes id (suc idx) hashes
      (push_entry index hash (record { client_id = id; message_index = idx }))

unfoldable pub index_upstreams :
    String → List String → HashMap String (List String) → HashMap String (List String)
index_upstreams id [] index = index
index_upstreams id (upstream_id ∷ rest) index =
    index_upstreams id rest (push_entry index upstream_id id)

unfoldable pub index_prev : String → Option String → HashMap String String → HashMap String String
index_prev id none index = index
index_prev id (some prev_id) index = Dict.insert index prev_id id

-- the derived indexes, with a client node added
unfoldable pub index_client : ClientInteractionNode → InteractionStore → InteractionStore
index_client node s = record s {
  hash_index = index_hashes node.id 0 node.message_hashes s.hash_index;
  upstream_to_clients = index_upstreams node.id node.upstream_ids s.upstream_to_clients;
  prev_to_client = index_prev node.id node.prev_id s.prev_to_client;
}

unfoldable pub insert_client : InteractionStore → ClientInteractionNode → InteractionStore
unfolding index_client
insert_client s node = record (index_client node s) { clients = Dict.insert s.clients node.id node }

unfoldable pub lookup_hash : InteractionStore → ℕ → List ClientInteractionPosition
lookup_hash s hash = or_default (Dict.get s.hash_index hash)

-- node.prev_id.as_deref().and_then(|pid| self.clients.get(pid))
unfoldable pub prev_client : InteractionStore → ClientInteractionNode → Option ClientInteractionNode
prev_client s node = elim node.prev_id [ none ↦ none | some pid ↦ Dict.get s.clients pid ]

unfoldable pub prev_upstream :
    InteractionStore → UpstreamInteractionNode → Option UpstreamInteractionNode
prev_upstream s node = elim node.prev_id [ none ↦ none | some pid ↦ Dict.get s.upstreams pid ]

-- The loop `while let Some(node) = current` along a partial step. `none` is a walk that the fuel
-- does not finish; the source's loop has no bound.
unfoldable pub walk {ℓ} : {A : Type ℓ} → (A → Option A) → ℕ → Option A → Option (List A)
walk step fuel none = some []
walk step zero (some node) = none
walk step (suc fuel) (some node) = Option.map (λ rest. node ∷ rest) (walk step fuel (step node))

unfoldable pub walk_client_chain :
    ℕ → InteractionStore → String → Option (List ClientInteractionNode)
walk_client_chain fuel s id = walk (prev_client s) fuel (Dict.get s.clients id)

unfoldable pub walk_upstream_chain :
    ℕ → InteractionStore → String → Option (List UpstreamInteractionNode)
walk_upstream_chain fuel s id = walk (prev_upstream s) fuel (Dict.get s.upstreams id)
