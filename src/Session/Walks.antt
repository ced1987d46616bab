-- ===== src/Session/Walks.antt =====
-- src/session.rs: the walks along a stored chain in find_frontier. Loops along `prev_id` take fuel;
-- `none` as the outer result stands for a loop that the fuel does not finish.
use inf_splitter.Prelude.{
  String_eq, ℕ_eq, Bool, List, Option, String, [], false, get_elem?, if◌then◌else◌, length, none,
  opt_eq, some, suc, true, zero, ℕ, ◌&&◌, ◌==◌, ◌∷◌,
}
use inf_splitter.Prelude.Dict
use inf_splitter.Prelude.Partial.{◌>>=◌}
use inf_splitter.Session.{ClientInteractionNode, ClientInteractionPosition, InteractionStore}
use inf_splitter.Session.Store.{prev_client}

-- the local variables of the walk through one candidate's chain
pub record Walk : Type 0 where
  pub prefix_len : ℕ
  pub expected_idx : ℕ
  pub current_client : ClientInteractionNode
  pub at_boundary : Bool

-- the entries of `best`
pub record Candidate : Type 0 where
  pub prefix_len : ℕ
  pub terminal : ClientInteractionNode
  pub is_known : Bool

unfoldable pub next_in_chain : ClientInteractionNode → InteractionStore → Option String
next_in_chain node s = Dict.get s.prev_to_client node.id

-- the two nested `if let`s at the end of a client node
unfoldable pub next_node : ClientInteractionNode → InteractionStore → Option ClientInteractionNode
unfolding next_in_chain
next_node node s = elim (next_in_chain node s) [
  | none ↦ none
  | some next_id ↦ Dict.get s.clients next_id
]

unfoldable pub find_chain_root :
    ℕ → ClientInteractionNode → InteractionStore → Option ClientInteractionNode
find_chain_root zero client s = none
find_chain_root (suc fuel) client s = elim (prev_client s client) [
  | none ↦ some client
  | some prev ↦ find_chain_root fuel prev s
]

unfoldable pub walk_back_from : ClientInteractionNode → InteractionStore → ClientInteractionNode
walk_back_from node s = elim (prev_client s node) [ none ↦ node | some prev ↦ prev ]

-- `for (i, &h) in hashes.iter().enumerate()`, from position `i`
unfoldable pub walk_forward : InteractionStore → ℕ → List ℕ → Walk → Walk
walk_forward s i [] w = w
walk_forward s i (h ∷ hs) w = elim (get_elem? w.current_client.message_hashes w.expected_idx) [
  | none ↦ w
  | some known ↦ elim (known == h) [
    | false ↦ w
    | true ↦ elim (suc w.expected_idx == length w.current_client.message_hashes) [
      | false ↦ walk_forward s (suc i) hs (record {
        prefix_len = suc i;
        expected_idx = suc w.expected_idx;
        current_client = w.current_client;
        at_boundary = false;
      })
      | true ↦ elim (next_node w.current_client s) [
        | none ↦ record {
          prefix_len = suc i;
          expected_idx = suc w.expected_idx;
          current_client = w.current_client;
          at_boundary = true;
        }
        | some next ↦ walk_forward s (suc i) hs (record {
          prefix_len = suc i;
          expected_idx = 0;
          current_client = next;
          at_boundary = false;
        })
      ]
    ]
  ]
]

abbrev pub start : ClientInteractionNode → ℕ → Walk
start client idx = record {
  prefix_len = 0;
  expected_idx = idx;
  current_client = client;
  at_boundary = false;
}

unfoldable pub terminal_client : InteractionStore → Walk → ClientInteractionNode
terminal_client s w =
    if w.at_boundary && w.expected_idx == 0
    then walk_back_from w.current_client s
    else w.current_client

-- no incoming hash, or the one of the chain's root
unfoldable pub system_matches :
    ℕ → Option ℕ → ClientInteractionNode → InteractionStore → Option Bool
system_matches fuel none client0 s = some true
system_matches fuel (some incoming_hash) client0 s = do
  root ← find_chain_root fuel client0 s
  some (opt_eq root.system_instruction_hash (some incoming_hash))

unfoldable pub proves_known : List ℕ → Option String → ℕ → ClientInteractionNode → Bool
proves_known hashes none prefix_len terminal = prefix_len == length hashes
proves_known hashes (some prev) prefix_len terminal =
    prefix_len == length hashes && opt_eq (some prev) terminal.prev_id

unfoldable pub extend_candidate :
    List ℕ → Option String → InteractionStore → ClientInteractionNode → ℕ → Option Candidate
extend_candidate hashes prev s client0 idx =
    let w = walk_forward s 0 hashes (start client0 idx) in
    if w.prefix_len == 0
    then none
    else some (record {
      prefix_len = w.prefix_len;
      terminal = terminal_client s w;
      is_known = proves_known hashes prev w.prefix_len (terminal_client s w);
    })

-- one round of the loop over `candidates[0]`; an inner `none` is `continue`
unfoldable pub try_candidate :
    ℕ
    → ℕ
    → List ℕ
    → Option String
    → Option ℕ
    → InteractionStore
    → ClientInteractionPosition
    → Option (Option Candidate)
try_candidate fuel h0 hashes prev system s pos0 = elim (Dict.get s.clients pos0.client_id) [
  | none ↦ some none
  | some client0 ↦ elim (get_elem? client0.message_hashes pos0.message_index) [
    | none ↦ some none
    | some known ↦
        if known == h0
        then (do
          matches ← system_matches fuel system client0 s
          if matches
              then some (extend_candidate hashes prev s client0 pos0.message_index)
              else some none)
        else some none
  ]
]
