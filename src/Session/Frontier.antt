-- ===== src/Session/Frontier.antt =====
-- src/session.rs: `find_frontier` and its helpers. Loops along `prev_id` take fuel. `none` as the
-- outer result stands for a loop that the fuel does not finish, or for an index out of bounds.
pub mod Prefix
pub mod Candidates
pub mod Sound
pub mod Boundary
pub mod Longest
pub mod Total
mod Tests
use inf_splitter.Prelude.{
  String_eq, ℕ_eq, Bool, List, Option, String, [], any, false, get_elem?, if◌then◌else◌, last?, ltb,
  none, opt_eq, some, suc, true, zero, ℕ, ◌&&◌, ◌-◌, ◌==◌, ◌||◌, ◌∷◌,
}
use inf_splitter.Prelude.Dict
use inf_splitter.Prelude.Partial.{◌>>=◌}
use inf_splitter.Prelude.Bytes.{lt_string}
use inf_splitter.Session.{ClientInteractionNode, ClientInteractionPosition, InteractionStore}
use inf_splitter.Session.Store.{lookup_hash, prev_client}
use inf_splitter.Session.Walks.{Candidate, try_candidate}

pub record Frontier : Type 0 where
  pub index : ℕ
  pub previous_interaction_id : Option String
  pub all_known : Bool
  pub matched_client_id : Option String

-- newest last_seen_utc, then the smallest id
unfoldable pub wins_tie : ClientInteractionNode → ClientInteractionNode → Bool
wins_tie cur best =
    ltb best.last_seen_utc cur.last_seen_utc
    || (cur.last_seen_utc == best.last_seen_utc && lt_string cur.id best.id)

unfoldable pub update_best : Option Candidate → Candidate → Candidate
update_best none c = c
update_best (some best) c =
    if ltb best.prefix_len c.prefix_len
    then c
    else if c.prefix_len == best.prefix_len && wins_tie c.terminal best.terminal
    then record best { terminal = c.terminal; is_known = c.is_known }
    else best

abbrev pub keep_best : Option Candidate → Option Candidate → Option Candidate
keep_best best none = best
keep_best best (some c) = some (update_best best c)

unfoldable pub best_of :
    ℕ
    → ℕ
    → List ℕ
    → Option String
    → Option ℕ
    → InteractionStore
    → Option Candidate
    → List ClientInteractionPosition
    → Option (Option Candidate)
best_of fuel h0 hashes prev system s best [] = some best
best_of fuel h0 hashes prev system s best (pos0 ∷ rest) = do
  tried ← try_candidate fuel h0 hashes prev system s pos0
  best_of fuel h0 hashes prev system s (keep_best best tried) rest

-- the node of the chain that contains the hash, if there is one
unfoldable pub find_containing :
    ℕ → ℕ → Option ClientInteractionNode → InteractionStore → Option (Option ClientInteractionNode)
find_containing zero last_hash current s = none
find_containing (suc fuel) last_hash none s = some none
find_containing (suc fuel) last_hash (some node) s =
    elim (any (λ h. h == last_hash) node.message_hashes) [
      | true ↦ some (some node)
      | false ↦ find_containing fuel last_hash (prev_client s node) s
    ]

abbrev pub unwrap_or {ℓ} : {A : Type ℓ} → Option A → A → A
unwrap_or none d = d
unwrap_or (some a) d = a

unfoldable pub ended_at_client_boundary :
    ℕ → List ℕ → ℕ → ClientInteractionNode → InteractionStore → Option Bool
ended_at_client_boundary fuel hashes prefix_len terminal s = do
  last_hash ← get_elem? hashes (prefix_len - 1)
  found ← find_containing fuel last_hash (some terminal) s
  some (opt_eq (last? (unwrap_or found terminal).message_hashes) (some last_hash))

abbrev pub new_chain : Frontier
new_chain = record {
  index = 0;
  previous_interaction_id = none;
  all_known = false;
  matched_client_id = none;
}

abbrev pub replay_of : Candidate → Frontier
replay_of c = record {
  index = c.prefix_len;
  previous_interaction_id = c.terminal.prev_id;
  all_known = true;
  matched_client_id = some c.terminal.id;
}

abbrev pub resume_after : Candidate → Frontier
resume_after c = record {
  index = c.prefix_len;
  previous_interaction_id = some c.terminal.id;
  all_known = false;
  matched_client_id = none;
}

abbrev pub fork_at_parent : Candidate → Frontier
fork_at_parent c = record {
  index = 0;
  previous_interaction_id = c.terminal.prev_id;
  all_known = false;
  matched_client_id = none;
}

-- the last `match best`
unfoldable pub select : ℕ → List ℕ → InteractionStore → Option Candidate → Option Frontier
select fuel hashes s none = some new_chain
select fuel hashes s (some c) =
    if c.is_known then some (replay_of c) else if c.prefix_len == 0 then some new_chain else do
      ended_at_boundary ← ended_at_client_boundary fuel hashes c.prefix_len c.terminal s
      some (if ended_at_boundary then resume_after c else fork_at_parent c)

unfoldable pub find_frontier :
    ℕ → List ℕ → Option String → Option ℕ → InteractionStore → Option Frontier
find_frontier fuel [] prev system s = some (record {
  index = 0;
  previous_interaction_id = prev;
  all_known = false;
  matched_client_id = none;
})
find_frontier fuel (h0 ∷ hs) prev system s = do
  best ← best_of fuel h0 (h0 ∷ hs) prev system s none (lookup_hash s h0)
  select fuel (h0 ∷ hs) s best
