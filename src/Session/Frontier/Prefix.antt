-- ===== src/Session/Frontier/Prefix.antt =====
-- src/session.rs, `find_frontier`: how far the walk through one candidate's chain comes.
use inf_splitter.Prelude.{
  String_eq, ℕ_eq, ==_refl, Bool-cases, List, [], arith, false, get_elem?, get_elem?-length,
  if◌then◌else◌, inl, inr, length, none, opt_eq, opt_eq_iff, refl, some, suc, take, true, ℕ, ◌++◌,
  ◌+◌, ◌==◌, ◌∷◌, ◌≡◌, ◌≤◌,
}
use inf_splitter.Session.{ClientInteractionNode, InteractionStore}
use inf_splitter.Session.Walks.{Walk, next_node, walk_forward}

-- The position behind a matched hash: in the same client node, or at the start of its child.
abbrev pub after : InteractionStore → ClientInteractionNode → ℕ → ClientInteractionNode × ℕ
after s c idx = elim (suc idx == length c.message_hashes) [
  | false ↦ (c, suc idx)
  | true ↦ elim (next_node c s) [ none ↦ (c, suc idx) | some d ↦ (d, 0) ]
]

-- The hashes stand in the chain, in order and without a gap, from a position on.
unfoldable pub Run : InteractionStore → ClientInteractionNode → ℕ → List ℕ → Type 0
Run s c idx [] = Unit
Run s c idx (h ∷ hs) =
    (get_elem? c.message_hashes idx ≡ some h) × Run s (after s c idx).0 (after s c idx).1 hs

abbrev moved : InteractionStore → ℕ → Walk → Walk
moved s i w = record {
  prefix_len = suc i;
  expected_idx = (after s w.current_client w.expected_idx).1;
  current_client = (after s w.current_client w.expected_idx).0;
  at_boundary = false;
}

walk_past :
    (s : InteractionStore) (i : ℕ) (hs : List ℕ) (w : Walk)
    → get_elem? w.current_client.message_hashes w.expected_idx ≡ none
    → walk_forward s i hs w ≡ w
unfolding walk_forward
walk_past s i [] w e = refl
walk_past s i (h ∷ hs) w e = rw (e, walk_forward)

prefix_len-walk-cons :
    (s : InteractionStore) (i h : ℕ) (hs : List ℕ) (w : Walk)
    → (walk_forward s i (h ∷ hs) w).prefix_len ≡ (
        if opt_eq (get_elem? w.current_client.message_hashes w.expected_idx) (some h)
        then (walk_forward s (suc i) hs (moved s i w)).prefix_len
        else w.prefix_len)
unfolding walk_forward
prefix_len-walk-cons s i h hs w =
    ground (
      arith,
      walk_past s (suc i) hs (moved s i w),
      get_elem?-length w.current_client.message_hashes,
    )

-- The walk matches a run, which is no longer than the hashes.
pub walk-Run :
    (s : InteractionStore) (i : ℕ) (hs : List ℕ) (w : Walk)
    → w.prefix_len ≡ i
    → (n : ℕ) × ((walk_forward s i hs w).prefix_len ≡ i + n)
      × (n ≤ length hs)
      × Run s w.current_client w.expected_idx (take n hs)
unfolding Run
walk-Run s i [] w e = (0, unfold walk_forward in omega arith, omega arith, tt)
walk-Run s i (h ∷ hs) w e =
    let (n, len, le, run) = walk-Run s (suc i) hs (moved s i w) refl in
    elim (Bool-cases (opt_eq (get_elem? w.current_client.message_hashes w.expected_idx) (some h))) [
      | inl same ↦ (
        suc n,
        rw (prefix_len-walk-cons s i h hs w, same) (omega arith),
        omega arith,
        ((opt_eq_iff _ _).0 same, run),
      )
      | inr other ↦ (0, rw (prefix_len-walk-cons s i h hs w, other) (omega arith), omega arith, tt)
    ]

-- A run that the hashes begin with is no longer than what the walk matches.
pub Run-le-walk :
    (s : InteractionStore) (i : ℕ) (run rest : List ℕ) (w : Walk)
    → w.prefix_len ≡ i
    → Run s w.current_client w.expected_idx run
    → i + length run ≤ (walk_forward s i (run ++ rest) w).prefix_len
unfolding Run
Run-le-walk s i [] rest w e r = let (n, len, _, _) = walk-Run s i rest w e in omega arith
Run-le-walk s i (h ∷ run) rest w e (same, r) =
    rw (prefix_len-walk-cons s i h (run ++ rest) w, same, ==_refl h)
      (omega (arith, Run-le-walk s (suc i) run rest (moved s i w) refl r))
