-- ===== src/Session.antt =====
-- src/session.rs: the data model of the Interactions session store, version 2. A `u64` hash or
-- time and a `usize` index is a number; `unix_now()` is an argument of what calls it.
pub mod Store
pub mod Walks
pub mod Frontier
pub mod InFlight
pub mod Cleanup
pub mod Startup
use inf_splitter.Prelude.{List, Option, String, ℕ, ◌*◌}
use inf_splitter.Prelude.Dict
use inf_splitter.Prelude.Dict.{HashMap}

abbrev pub default_session_ttl_secs : ℕ
default_session_ttl_secs = 12 * 60 * 60

pub record SessionInfo : Type 0 where
  pub client_session_id : String
  pub last_interaction_id : Option String
  pub last_seen_utc : ℕ
  pub expires_at_utc : ℕ

pub record ClientInteractionNode : Type 0 where
  pub id : String
  pub prev_id : Option String
  pub message_hashes : List ℕ
  pub system_instruction_hash : Option ℕ
  pub upstream_ids : List String
  pub last_seen_utc : ℕ

pub record UpstreamInteractionNode : Type 0 where
  pub id : String
  pub prev_id : Option String
  pub client_id : String
  pub last_seen_utc : ℕ
  pub expires_at_utc : ℕ

pub data InFlightStatus : Type 0 where
  pending : InFlightStatus
  response_started : InFlightStatus
  sent : (interaction_id : String) → InFlightStatus
  acked : (interaction_id : String) → InFlightStatus
  failed : (error : String) → InFlightStatus

pub record InFlightPiece : Type 0 where
  pub index : ℕ
  pub content_hash : ℕ
  pub request_body : List ℕ
  pub status : InFlightStatus

pub record InFlightBatch : Type 0 where
  pub id : String
  pub session_id : String
  pub prev_interaction_id : Option String
  pub message_hashes : List ℕ
  pub system_instruction_hash : Option ℕ
  pub pieces : List InFlightPiece
  pub created_utc : ℕ
  pub updated_utc : ℕ

pub record ClientInteractionPosition : Type 0 where
  pub client_id : String
  pub message_index : ℕ

pub record InteractionStore : Type 0 where
  pub clients : HashMap String ClientInteractionNode
  pub upstreams : HashMap String UpstreamInteractionNode
  pub hash_index : HashMap ℕ (List ClientInteractionPosition)
  pub upstream_to_clients : HashMap String (List String)
  pub prev_to_client : HashMap String String

pub record StoreV2 : Type 0 where
  pub sessions : HashMap String SessionInfo
  pub interactions : InteractionStore
  pub in_flight : HashMap String InFlightBatch
