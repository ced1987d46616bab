-- ===== src/Session/Frontier/Boundary.antt =====
-- src/session.rs, `find_frontier`: which client node the walk through a chain ends at.
use inf_splitter.Prelude.{
  String_eq, ℕ_eq, Bool, List, Option, Option-cases, String, [], ap, arith, drop, drop-eq-cons,
  false, get_elem?, inl, inr, length, none, opt_eq, refl, some, suc, true, ℕ, ◌&&◌, ◌++◌, ◌+◌, ◌==◌,
  ◌∙◌, ◌∷◌, ◌≡◌, ◌≢◌,
}
use inf_splitter.Session.{ClientInteractionNode, InteractionStore}
use inf_splitter.Session.Walks.{
  Walk, extend_candidate, next_node, proves_known, start, terminal_client, walk_forward,
}

-- A walk that stops behind the last hash of a node stops behind a hash.
walk-expected_idx :
    (s : InteractionStore) (i : ℕ) (hs : List ℕ) (w : Walk)
    → w.at_boundary ≡ false
    → (walk_forward s i hs w).at_boundary ≡ true
    → (walk_forward s i hs w).expected_idx ≢ 0
unfolding walk_forward
walk-expected_idx s i [] w off = ground arith
walk-expected_idx s i (h ∷ hs) w off = elim (Option-cases (next_node w.current_client s)) [
  | inl n ↦
      ground
        (arith, n, walk-expected_idx s (suc i) hs (at w.current_client (suc w.expected_idx)) refl)
  | inr (d, e) ↦ ground (
    arith,
    e,
    walk-expected_idx s (suc i) hs (at w.current_client (suc w.expected_idx)) refl,
    walk-expected_idx s (suc i) hs (at d 0) refl,
  )
]
  where
    at : ClientInteractionNode → ℕ → Walk
    at c idx = record {
      prefix_len = suc i;
      expected_idx = idx;
      current_client = c;
      at_boundary = false;
    }

-- `walk_back_from` is never reached: the terminal client is the node that the walk stands at.
pub terminal_client-walk_forward :
    (s : InteractionStore) (hs : List ℕ) (c : ClientInteractionNode) (idx : ℕ)
    → terminal_client s (walk_forward s 0 hs (start c idx))
      ≡ (walk_forward s 0 hs (start c idx)).current_client
unfolding terminal_client
terminal_client-walk_forward s hs c idx =
    ground (arith, walk-expected_idx s 0 hs (start c idx) refl)

-- The incoming hashes do not go on with the first hash of the node.
abbrev pub LeavesAt : ClientInteractionNode → List ℕ → Type 0
LeavesAt d [] = Unit
LeavesAt d (x ∷ _) = get_elem? d.message_hashes 0 ≢ some x

abbrev at : ClientInteractionNode → ℕ → ℕ → Walk
at c n idx = record { prefix_len = n; expected_idx = idx; current_client = c; at_boundary = false }

walk-LeavesAt :
    (s : InteractionStore) (i n : ℕ) (d : ClientInteractionNode) (rest : List ℕ)
    → LeavesAt d rest
    → walk_forward s i rest (at d n 0) ≡ at d n 0
unfolding walk_forward
walk-LeavesAt s i n d [] leaves = refl
walk-LeavesAt s i n d (x ∷ rest) leaves = ground arith

-- From a position in a node that has a child, over the rest of the node's hashes.
walk-to_child :
    (s : InteractionStore) (i n idx : ℕ) (c d : ClientInteractionNode) (h : ℕ) (left rest : List ℕ)
    → drop idx c.message_hashes ≡ h ∷ left
    → next_node c s ≡ some d
    → LeavesAt d rest
    → walk_forward s i (h ∷ left ++ rest) (at c n idx) ≡ at d (i + suc (length left)) 0
unfolding walk_forward
walk-to_child s i n idx c d h [] rest e child leaves =
    let (here, len, _) = drop-eq-cons idx c.message_hashes h [] e in
    ground (arith, walk-LeavesAt s (suc i) (suc i) d rest leaves)
walk-to_child s i n idx c d h (h' ∷ left) rest e child leaves =
    let (here, len, more) = drop-eq-cons idx c.message_hashes h (h' ∷ left) e in
    ground (arith, walk-to_child s (suc i) (suc i) (suc idx) c d h' left rest more child leaves)

-- the previous identifier of a request, if it has one, is that of the node
abbrev pub follows : Option String → ClientInteractionNode → Bool
follows none d = true
follows (some prev) d = opt_eq (some prev) d.prev_id

known-follows :
    (hashes : List ℕ) (prev : Option String) (n : ℕ) (d : ClientInteractionNode)
    → proves_known hashes prev n d ≡ (n == length hashes && follows prev d)
unfolding proves_known
known-follows hashes none n d = ground arith
known-follows hashes (some prev) n d = refl

-- Where the incoming hashes are those of a stored node from a position on to its end, and then end or go on otherwise than the node's stored child: the candidate's terminal client is the child and not the node that was just finished, with a prefix as long as the rest of the node, and it is known exactly if nothing follows and the request's previous identifier, if it has one, is that of the child.
pub extend_candidate-child :
    (s : InteractionStore) (c d : ClientInteractionNode) (idx h : ℕ) (left rest : List ℕ)
    (prev : Option String)
    → drop idx c.message_hashes ≡ h ∷ left
    → next_node c s ≡ some d
    → LeavesAt d rest
    → extend_candidate (h ∷ left ++ rest) prev s c idx
      ≡ some (record {
        prefix_len = suc (length left);
        terminal = d;
        is_known = suc (length left) == suc (length (left ++ rest)) && follows prev d;
      })
unfolding extend_candidate terminal_client
extend_candidate-child s c d idx h left rest prev e child leaves =
    let walked : walk_forward s 0 (h ∷ left ++ rest) (start c idx) ≡ at d (suc (length left)) 0 =
      walk-to_child s 0 0 idx c d h left rest e child leaves ∙ ap (λ n. at d n 0) (omega arith) in
    rw (extend_candidate, walked, known-follows (h ∷ left ++ rest) prev (suc (length left)) d)
      (ground arith)
