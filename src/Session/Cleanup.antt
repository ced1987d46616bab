-- ===== src/Session/Cleanup.antt =====
-- src/session.rs: what SessionStore drops or refreshes as a whole.
use inf_splitter.Prelude.Dict
use inf_splitter.Prelude.{String_eq, ℕ_eq, List, Option, String, [], none, some, ℕ, ◌++◌, ◌∷◌}
use inf_splitter.Session.{InFlightBatch, InteractionStore, SessionInfo, StoreV2}
use inf_splitter.Prelude.Dict.{HashMap}
use inf_splitter.Session.InFlight.{acked_ids}

unfoldable pub remove_batch : StoreV2 → String → StoreV2
remove_batch s batch_id = record s { in_flight = Dict.remove s.in_flight batch_id }

-- `prev_to_client` is not among what the source clears.
unfoldable pub clean_all : StoreV2 → List (String × SessionInfo) × StoreV2
clean_all s = (
  s.sessions.entries,
  record {
    sessions = Dict.empty;
    interactions = record {
      clients = Dict.empty;
      upstreams = Dict.empty;
      hash_index = Dict.empty;
      upstream_to_clients = Dict.empty;
      prev_to_client = s.interactions.prev_to_client;
    };
    in_flight = Dict.empty;
  },
)

unfoldable pub discard_all_inflight : StoreV2 → ℕ × StoreV2
discard_all_inflight s = (Dict.len s.in_flight, record s { in_flight = Dict.empty })

abbrev pub touch_client : ℕ → Option SessionInfo → InteractionStore → InteractionStore
touch_client now none s = s
touch_client now (some session) s = elim session.last_interaction_id [
  | none ↦ s
  | some last_id ↦ record s {
    clients = Dict.modify s.clients last_id (λ c. record c { last_seen_utc = now });
  }
]

unfoldable pub extend_lifetime : StoreV2 → ℕ → String → ℕ → StoreV2
extend_lifetime s now session_id expires_at_utc =
    let sessions = Dict.modify s.sessions session_id (λ (session : SessionInfo). record session {
      expires_at_utc = expires_at_utc;
      last_seen_utc = now;
    }) in
    record s {
      sessions = sessions;
      interactions = touch_client now (Dict.get sessions session_id) s.interactions;
    }

unfoldable pub acked_in_batches : List InFlightBatch → List String
unfolding acked_ids
acked_in_batches [] = []
acked_in_batches (b ∷ bs) = acked_ids b.pieces ++ acked_in_batches bs

unfoldable pub all_upstream_ids : StoreV2 → List String
unfolding acked_in_batches
all_upstream_ids s =
    Dict.keys s.interactions.upstreams ++ acked_in_batches (Dict.values s.in_flight)
