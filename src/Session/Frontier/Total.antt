-- ===== src/Session/Frontier/Total.antt =====
-- src/session.rs, `find_frontier`: it ends on a store whose `prev_id` chains end.
use inf_splitter.Prelude.Dict
use inf_splitter.Prelude.{
  String_eq, ℕ_eq, Bool-cases, List, Option, Option-cases, String, [], any, arith, get_elem?,
  get_elem?-Returns, inl, inr, length, none, opt_eq, refl, some, suc, true, zero, ℕ, ◌+◌, ◌-◌, ◌<◌,
  ◌==◌, ◌∷◌, ◌≡◌, ◌≤◌,
}
use inf_splitter.Session.{ClientInteractionNode, ClientInteractionPosition, InteractionStore}
use inf_splitter.Session.Store.Index.{IsKeyed}
use inf_splitter.Session.Frontier.{
  best_of, ended_at_client_boundary, find_containing, find_frontier, keep_best, new_chain, select,
}
use inf_splitter.Session.Walks.{Candidate, find_chain_root, system_matches, try_candidate}
use inf_splitter.Session.Store.{lookup_hash, prev_client}
use inf_splitter.Prelude.Partial.{>>=-Returns, Returns, Returns-of_ne_none}
use inf_splitter.Session.Frontier.Candidates.{IsBest, best_of-IsBest}

-- A rank of the client nodes that falls along `prev_id` and leaves the fuel a little more.
pub record IsRanked (s : InteractionStore) (rank : ClientInteractionNode → ℕ) (fuel : ℕ)
    : Type 0 where
  pub falls : (c d : ClientInteractionNode) → prev_client s c ≡ some d → rank d < rank c
  pub bounded : (c : ClientInteractionNode) → rank c + 1 < fuel

module _ (s : InteractionStore) (rank : ClientInteractionNode → ℕ)
    (falls : (c d : ClientInteractionNode) → prev_client s c ≡ some d → rank d < rank c) where
  find_chain_root-Returns :
      (fuel : ℕ) (c : ClientInteractionNode) → rank c < fuel → Returns (find_chain_root fuel c s)
  unfolding find_chain_root
  find_chain_root-Returns zero c h = elim h [ ]
  find_chain_root-Returns (suc fuel) c h = elim (Option-cases (prev_client s c)) [
    | inl end ↦ (c, rw (end, find_chain_root))
    | inr (d, e) ↦
        rw (e, find_chain_root) (find_chain_root-Returns fuel d (omega (arith, falls c d e)))
  ]

  find_containing-Returns :
      (fuel last_hash : ℕ) (c : ClientInteractionNode)
      → rank c + 1 < fuel
      → Returns (find_containing fuel last_hash (some c) s)
  unfolding find_containing
  find_containing-Returns zero x c h = elim h [ ]
  find_containing-Returns (suc zero) x c h = absurd (omega arith)
  find_containing-Returns (suc (suc fuel)) x c h =
      elim (Bool-cases (any (λ h. h == x) c.message_hashes)) [
        | inl here ↦ (some c, rw (here, find_containing))
        | inr not_here ↦ elim (Option-cases (prev_client s c)) [
          | inl end ↦ (none, rw (not_here, end, find_containing) refl)
          | inr (d, e) ↦
              rw (not_here, e, find_containing)
                (find_containing-Returns (suc fuel) x d (omega (arith, falls c d e)))
        ]
      ]

  system_matches-Returns :
      (fuel : ℕ) (system : Option ℕ) (c : ClientInteractionNode)
      → rank c < fuel
      → Returns (system_matches fuel system c s)
  unfolding system_matches
  system_matches-Returns fuel none c h = (true, refl)
  system_matches-Returns fuel (some x) c h =
      let (root, e) = find_chain_root-Returns fuel c h in
      (opt_eq root.system_instruction_hash (some x), rw e)

  try_candidate-Returns :
      (fuel h0 : ℕ) (hashes : List ℕ) (prev : Option String) (system : Option ℕ)
      (pos : ClientInteractionPosition)
      → ((c : ClientInteractionNode) → rank c < fuel)
      → Returns (try_candidate fuel h0 hashes prev system s pos)
  unfolding try_candidate
  try_candidate-Returns fuel h0 hashes prev system pos enough = Returns-of_ne_none _ λ diverges.
      elim (Option-cases (Dict.get s.clients pos.client_id)) [
        | inl absent ↦ ground (arith, absent)
        | inr (c, there) ↦
            let (found, e) = system_matches-Returns fuel system c (enough c) in
            ground (arith, there, e)
      ]

  best_of-Returns :
      (fuel h0 : ℕ) (hashes : List ℕ) (prev : Option String) (system : Option ℕ)
      (best : Option Candidate) (ps : List ClientInteractionPosition)
      → ((c : ClientInteractionNode) → rank c < fuel)
      → Returns (best_of fuel h0 hashes prev system s best ps)
  unfolding best_of
  best_of-Returns fuel h0 hashes prev system best [] enough = (best, refl)
  best_of-Returns fuel h0 hashes prev system best (p ∷ ps) enough =
      >>=-Returns _ _ (try_candidate-Returns fuel h0 hashes prev system p enough)
        λ tried _. best_of-Returns fuel h0 hashes prev system (keep_best best tried) ps enough

  ended_at_client_boundary-Returns :
      (fuel : ℕ) (hashes : List ℕ) (n : ℕ) (c : ClientInteractionNode)
      → 0 < n
      → n ≤ length hashes
      → rank c + 1 < fuel
      → Returns (ended_at_client_boundary fuel hashes n c s)
  unfolding ended_at_client_boundary
  ended_at_client_boundary-Returns fuel hashes n c pos le enough =
      >>=-Returns (get_elem? hashes (n - 1)) _ (get_elem?-Returns hashes (n - 1) (omega arith))
        λ h _. >>=-Returns _ _ (find_containing-Returns fuel h c enough) λ found _. (_, refl)

  select-Returns :
      (fuel : ℕ) (hashes : List ℕ) (best : Option Candidate)
      → IsBest s hashes best
      → ((c : ClientInteractionNode) → rank c + 1 < fuel)
      → Returns (select fuel hashes s best)
  unfolding select
  select-Returns fuel hashes none b enough = (new_chain, refl)
  select-Returns fuel hashes (some c) b enough =
      let (found, e) =
        ended_at_client_boundary-Returns fuel hashes c.prefix_len c.terminal b.positive b.within
          (enough c.terminal) in
      Returns-of_ne_none _ λ diverges. ground (arith, e)

-- On a store whose chains of predecessors end, with fuel for the longest of them, the frontier is
-- found: no loop runs on and no index is out of bounds.
pub find_frontier-Returns :
    (s : InteractionStore) (rank : ClientInteractionNode → ℕ) (fuel : ℕ) (hashes : List ℕ)
    (prev : Option String) (system : Option ℕ)
    → IsKeyed s
    → IsRanked s rank fuel
    → Returns (find_frontier fuel hashes prev system s)
unfolding find_frontier
find_frontier-Returns s rank fuel [] prev system keyed ranked = (_, refl)
find_frontier-Returns s rank fuel (h0 ∷ hs) prev system keyed ranked =
    >>=-Returns _ _
      (best_of-Returns s rank ranked.falls fuel h0 (h0 ∷ hs) prev system none (lookup_hash s h0)
        (λ c. omega (arith, ranked.bounded c)))
      λ best e.
        select-Returns s rank ranked.falls fuel (h0 ∷ hs) best
          (best_of-IsBest fuel h0 (h0 ∷ hs) prev system s none (lookup_hash s h0) best keyed tt e)
          ranked.bounded
