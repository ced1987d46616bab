-- ===== src/Session/Frontier/Candidates.antt =====
-- src/session.rs, `find_frontier`: what holds of the best candidate that the loop keeps.
use inf_splitter.Prelude.{
  String_eq, ℕ_eq, Bool-cases, List, Option, Option-cases, String, [], arith, false, inl, inr,
  length, none, refl, some, some-injective, subst, suc, true, ℕ, ◌<◌, ◌==◌, ◌∷◌, ◌≡◌, ◌≤◌,
}
use inf_splitter.Prelude.Dict
use inf_splitter.Session.{ClientInteractionNode, ClientInteractionPosition, InteractionStore}
use inf_splitter.Session.Store.{prev_client}
use inf_splitter.Session.Store.Index.{InStore, IsKeyed}
use inf_splitter.Prelude.Partial.{>>=-eq-some}
use inf_splitter.Session.Frontier.{best_of, keep_best, update_best}
use inf_splitter.Session.Walks.{
  Candidate, Walk, extend_candidate, next_in_chain, next_node, proves_known, start, terminal_client,
  try_candidate, walk_back_from, walk_forward,
}
use inf_splitter.Session.Frontier.Prefix.{walk-Run}

in_store :
    (s : InteractionStore) (k : String) (c : ClientInteractionNode)
    → IsKeyed s
    → Dict.get s.clients k ≡ some c
    → InStore s c
in_store s k c keyed e = cc (keyed k c e)

next_node-InStore :
    (s : InteractionStore) (c d : ClientInteractionNode)
    → IsKeyed s
    → next_node c s ≡ some d
    → InStore s d
unfolding next_node
next_node-InStore s c d keyed e = elim (Option-cases (next_in_chain c s)) [
  | inl n ↦ ground (arith, n)
  | inr (k, p) ↦ in_store s k d keyed (ground arith)
]

prev_client-InStore :
    (s : InteractionStore) (c d : ClientInteractionNode)
    → IsKeyed s
    → prev_client s c ≡ some d
    → InStore s d
unfolding prev_client
prev_client-InStore s c d keyed e = elim (Option-cases c.prev_id) [
  | inl n ↦ ground (arith, n)
  | inr (k, p) ↦ in_store s k d keyed (ground arith)
]

walk-InStore :
    (s : InteractionStore) (i : ℕ) (hs : List ℕ) (w : Walk)
    → IsKeyed s
    → InStore s w.current_client
    → InStore s (walk_forward s i hs w).current_client
unfolding walk_forward
walk-InStore s i [] w keyed h = h
walk-InStore s i (x ∷ hs) w keyed h =
    let inside = walk-InStore s (suc i) hs (at w.current_client (suc w.expected_idx)) keyed h in
    elim (Option-cases (next_node w.current_client s)) [
      | inl n ↦ ground (arith, n, inside)
      | inr (d, e) ↦ ground (
        arith,
        e,
        inside,
        walk-InStore s (suc i) hs (at d 0) keyed (next_node-InStore s w.current_client d keyed e),
      )
    ]
  where
    at : ClientInteractionNode → ℕ → Walk
    at c idx = record {
      prefix_len = suc i;
      expected_idx = idx;
      current_client = c;
      at_boundary = false;
    }

terminal_client-InStore :
    (s : InteractionStore) (w : Walk)
    → IsKeyed s
    → InStore s w.current_client
    → InStore s (terminal_client s w)
unfolding terminal_client walk_back_from
terminal_client-InStore s w keyed h = elim (Option-cases (prev_client s w.current_client)) [
  | inl n ↦ ground (arith, n)
  | inr (d, e) ↦ ground (arith, e, prev_client-InStore s w.current_client d keyed e)
]

-- What holds of each entry of `best`.
pub record IsCandidate (s : InteractionStore) (hashes : List ℕ) (c : Candidate) : Type 0 where
  pub positive : 0 < c.prefix_len
  pub within : c.prefix_len ≤ length hashes
  pub stored : InStore s c.terminal
  pub known : c.is_known ≡ true → c.prefix_len ≡ length hashes

abbrev pub IsBest : InteractionStore → List ℕ → Option Candidate → Type 0
IsBest s hashes none = Unit
IsBest s hashes (some c) = IsCandidate s hashes c

proves_known-eq :
    (hashes : List ℕ) (prev : Option String) (n : ℕ) (c : ClientInteractionNode)
    → proves_known hashes prev n c ≡ true
    → n ≡ length hashes
unfolding proves_known
proves_known-eq hashes none n c h = ground arith
proves_known-eq hashes (some p) n c h = ground arith

extend_candidate-IsBest :
    (s : InteractionStore) (hashes : List ℕ) (prev : Option String) (c : ClientInteractionNode)
    (idx : ℕ)
    → IsKeyed s
    → InStore s c
    → IsBest s hashes (extend_candidate hashes prev s c idx)
unfolding extend_candidate
extend_candidate-IsBest s hashes prev c idx keyed h =
    let w = walk_forward s 0 hashes (start c idx) in
    let (n, len, le, _) = walk-Run s 0 hashes (start c idx) refl in
    elim (Bool-cases (w.prefix_len == 0)) [
      | inl stuck ↦ rw (stuck, extend_candidate) tt
      | inr more ↦
          rw (more, extend_candidate)
            (record {
              positive = ground arith;
              within = omega arith;
              stored =
                  terminal_client-InStore s w keyed (walk-InStore s 0 hashes (start c idx) keyed h);
              known = proves_known-eq hashes prev w.prefix_len (terminal_client s w);
            })
    ]

update_best-IsCandidate :
    (s : InteractionStore) (hashes : List ℕ) (best : Option Candidate) (c : Candidate)
    → IsBest s hashes best
    → IsCandidate s hashes c
    → IsCandidate s hashes (update_best best c)
unfolding update_best
update_best-IsCandidate s hashes none c b h = h
update_best-IsCandidate s hashes (some best) c b h =
    ground (arith, b.positive, b.within, b.stored, b.known)

keep_best-IsBest :
    (s : InteractionStore) (hashes : List ℕ) (best tried : Option Candidate)
    → IsBest s hashes best
    → IsBest s hashes tried
    → IsBest s hashes (keep_best best tried)
keep_best-IsBest s hashes best none b t = b
keep_best-IsBest s hashes best (some c) b t = update_best-IsCandidate s hashes best c b t

-- A candidate that is not skipped extends a stored client node.
pub try_candidate-extends :
    (fuel h0 : ℕ) (hashes : List ℕ) (prev : Option String) (system : Option ℕ)
    (s : InteractionStore) (pos : ClientInteractionPosition) (r : Candidate)
    → try_candidate fuel h0 hashes prev system s pos ≡ some (some r)
    → (c : ClientInteractionNode) × (Dict.get s.clients pos.client_id ≡ some c)
      × (extend_candidate hashes prev s c pos.message_index ≡ some r)
unfolding try_candidate
try_candidate-extends fuel h0 hashes prev system s pos r e =
    elim (Option-cases (Dict.get s.clients pos.client_id)) [
      | inl absent ↦ absurd (ground (arith, absent))
      | inr (c, there) ↦ (c, there, ground (arith, there))
    ]

try_candidate-IsBest :
    (fuel h0 : ℕ) (hashes : List ℕ) (prev : Option String) (system : Option ℕ)
    (s : InteractionStore) (pos : ClientInteractionPosition) (r : Option Candidate)
    → IsKeyed s
    → try_candidate fuel h0 hashes prev system s pos ≡ some r
    → IsBest s hashes r
try_candidate-IsBest fuel h0 hashes prev system s pos none keyed e = tt
try_candidate-IsBest fuel h0 hashes prev system s pos (some r) keyed e =
    let (c, there, extends) = try_candidate-extends fuel h0 hashes prev system s pos r e in
    rw extends at (
      extend_candidate-IsBest s hashes prev c pos.message_index keyed
        (in_store s pos.client_id c keyed there))

pub best_of-IsBest :
    (fuel h0 : ℕ) (hashes : List ℕ) (prev : Option String) (system : Option ℕ)
    (s : InteractionStore) (best : Option Candidate) (ps : List ClientInteractionPosition)
    (r : Option Candidate)
    → IsKeyed s
    → IsBest s hashes best
    → best_of fuel h0 hashes prev system s best ps ≡ some r
    → IsBest s hashes r
unfolding best_of
best_of-IsBest fuel h0 hashes prev system s best [] r keyed b e =
    subst (IsBest s hashes) (some-injective _ _ e) b
best_of-IsBest fuel h0 hashes prev system s best (p ∷ ps) r keyed b e =
    let (tried, t, rest) = >>=-eq-some (try_candidate fuel h0 hashes prev system s p) _ e in
    best_of-IsBest fuel h0 hashes prev system s (keep_best best tried) ps r keyed
      (keep_best-IsBest s hashes best tried b
        (try_candidate-IsBest fuel h0 hashes prev system s p tried keyed t))
      rest
