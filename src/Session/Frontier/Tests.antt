-- ===== src/Session/Frontier/Tests.antt =====
-- Runs of `find_frontier` from the source's tests and around them.
use inf_splitter.Prelude.{
  String_eq, List, Option, Option-cases, String, [], arith, eq_iff, false, if◌then◌else◌, inl, inr,
  none, refl, some, true, ℕ, ◌<◌, ◌==◌, ◌∷◌, ◌≡◌, ◌≤◌,
}
use inf_splitter.Prelude.Dict
use inf_splitter.Prelude.Bytes.{lt_string}
use inf_splitter.Session.{ClientInteractionNode, InteractionStore}
use inf_splitter.Session.Store.{
  index_hashes, index_prev, index_upstreams, insert_client, lookup_hash, new, prev_client,
}
use inf_splitter.Session.Frontier.{
  best_of, ended_at_client_boundary, find_containing, find_frontier, select, update_best, wins_tie,
}
use inf_splitter.Session.Walks.{
  extend_candidate, find_chain_root, next_node, proves_known, system_matches, terminal_client,
  try_candidate, walk_back_from, walk_forward,
}
use inf_splitter.Session.Store.Index.{
  IsIndexed, IsKeyed, insert_client-IsIndexed, insert_client-IsKeyed,
}
use inf_splitter.Session.Frontier.Prefix.{Run}
use inf_splitter.Prelude.Partial.{Returns}
use inf_splitter.Session.Frontier.Boundary.{extend_candidate-child}
use inf_splitter.Session.Frontier.Sound.{IsSound, find_frontier-IsSound}
use inf_splitter.Session.Frontier.Total.{IsRanked, find_frontier-Returns}
use inf_splitter.Session.Frontier.Longest.{best_of-Run, known_len}

frontier_runs : Unit {0}
unfolding insert_client find_frontier best_of select try_candidate update_best wins_tie
    ended_at_client_boundary find_containing extend_candidate system_matches find_chain_root
    proves_known terminal_client walk_back_from walk_forward next_node lookup_hash prev_client
    index_hashes index_upstreams index_prev Dict.get Dict.insert Dict.modify lt_string
frontier_runs = tt

abbrev node : String → Option String → List ℕ → List String → ClientInteractionNode
node id prev hashes ups = record {
  id = id;
  prev_id = prev;
  message_hashes = hashes;
  system_instruction_hash = none;
  upstream_ids = ups;
  last_seen_utc = 100;
}

abbrev two_nodes : InteractionStore
two_nodes =
    insert_client (insert_client new (node "C1" none (10 ∷ []) ("int-1" ∷ [])))
      (node "C2" (some "C1") (11 ∷ []) ("int-2" ∷ []))

known_prefix :
    find_frontier 9 (10 ∷ 11 ∷ 12 ∷ []) none none two_nodes
    ≡ some (record {
      index = 2;
      previous_interaction_id = some "C2";
      all_known = false;
      matched_client_id = none;
    })
unfolding frontier_runs
known_prefix = refl

past_boundary :
    find_frontier 9 (10 ∷ 12 ∷ []) none none two_nodes
    ≡ some (record {
      index = 1;
      previous_interaction_id = some "C2";
      all_known = false;
      matched_client_id = none;
    })
unfolding frontier_runs
past_boundary = refl

replay_child :
    find_frontier 9 (10 ∷ []) none none two_nodes
    ≡ some (record {
      index = 1;
      previous_interaction_id = some "C1";
      all_known = true;
      matched_client_id = some "C2";
    })
unfolding frontier_runs
replay_child = refl

IsKeyed-new : IsKeyed new
unfolding Dict.get
IsKeyed-new k c e = cc

IsKeyed-two_nodes : IsKeyed two_nodes
IsKeyed-two_nodes =
    insert_client-IsKeyed _ (node "C2" (some "C1") (11 ∷ []) ("int-2" ∷ []))
      (insert_client-IsKeyed new (node "C1" none (10 ∷ []) ("int-1" ∷ [])) IsKeyed-new)

find_frontier-IsSound_example : IsSound two_nodes (10 ∷ 11 ∷ 12 ∷ []) (record {
  index = 2;
  previous_interaction_id = some "C2";
  all_known = false;
  matched_client_id = none;
})
find_frontier-IsSound_example =
    find_frontier-IsSound 9 (10 ∷ 11 ∷ 12 ∷ []) none none two_nodes _ IsKeyed-two_nodes known_prefix

-- how many predecessors a node has in the store of two
abbrev depth : ClientInteractionNode → ℕ
depth c = elim c.prev_id [ none ↦ 0 | some p ↦ if p == "C1" then 1 else if p == "C2" then 2 else 0 ]

depth_after : String → ℕ
depth_after p = if p == "C1" then 1 else if p == "C2" then 2 else 0

depth-lt :
    (p : String) (d : ClientInteractionNode)
    → Dict.get two_nodes.clients p ≡ some d
    → depth d < depth_after p
unfolding frontier_runs depth_after
depth-lt p d e =
    ground (arith, eq_iff p "C1", eq_iff "C1" p, eq_iff p "C2", eq_iff "C2" p, eq_iff "C1" "C2")

two_nodes-IsRanked : IsRanked two_nodes depth 9
unfolding prev_client depth_after
two_nodes-IsRanked = record {
  falls = λ c d e. elim (Option-cases c.prev_id) [
    | inl first ↦ absurd (ground (arith, first))
    | inr (p, there) ↦ ground (arith, there, depth-lt p d (ground (arith, there)))
  ];
  bounded = λ c. ground arith;
}

find_frontier-Returns_example :
    Returns (find_frontier 9 (10 ∷ 12 ∷ []) (some "C1") (some 5) two_nodes)
find_frontier-Returns_example =
    find_frontier-Returns two_nodes depth 9 (10 ∷ 12 ∷ []) (some "C1") (some 5) IsKeyed-two_nodes
      two_nodes-IsRanked

extend_candidate-child_example :
    extend_candidate (10 ∷ 12 ∷ []) none two_nodes (node "C1" none (10 ∷ []) ("int-1" ∷ [])) 0
    ≡ some (record {
      prefix_len = 1;
      terminal = node "C2" (some "C1") (11 ∷ []) ("int-2" ∷ []);
      is_known = false;
    })
unfolding frontier_runs
extend_candidate-child_example =
    extend_candidate-child two_nodes (node "C1" none (10 ∷ []) ("int-1" ∷ []))
      (node "C2" (some "C1") (11 ∷ []) ("int-2" ∷ [])) 0 10 [] (12 ∷ []) none refl refl
      (ground arith)

best_of-Run_example :
    2
    ≤ known_len (
        some (record {
          prefix_len = 2;
          terminal = node "C2" (some "C1") (11 ∷ []) ("int-2" ∷ []);
          is_known = false;
        }))
unfolding frontier_runs Run
best_of-Run_example =
    best_of-Run 9 10 (11 ∷ []) (12 ∷ []) none none two_nodes
      (some (record {
        prefix_len = 2;
        terminal = node "C2" (some "C1") (11 ∷ []) ("int-2" ∷ []);
        is_known = false;
      }))
      0 (record { client_id = "C1"; message_index = 0 }) (node "C1" none (10 ∷ []) ("int-1" ∷ []))
      refl refl refl refl (refl, (refl, tt))

IsIndexed-new : IsIndexed new
unfolding Dict.get
IsIndexed-new = record { found = λ k c n h e at. cc }

insert_client-IsIndexed_example :
    IsIndexed (insert_client new (node "C1" none (10 ∷ []) ("int-1" ∷ [])))
insert_client-IsIndexed_example =
    insert_client-IsIndexed new (node "C1" none (10 ∷ []) ("int-1" ∷ [])) IsIndexed-new
