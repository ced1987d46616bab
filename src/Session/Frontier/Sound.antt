-- ===== src/Session/Frontier/Sound.antt =====
-- src/session.rs, `find_frontier`: what its result says of the store, on every branch.
use inf_splitter.Prelude.{
  String_eq, ℕ_eq, Bool, Bool-cases, List, Option, String, [], arith, false, if◌then◌else◌, inl,
  inr, length, none, refl, some, some-injective, subst, true, ℕ, ◌<◌, ◌==◌, ◌∷◌, ◌≡◌, ◌≤◌,
}
use inf_splitter.Prelude.Partial.{>>=-eq-some}
use inf_splitter.Session.{ClientInteractionNode, InteractionStore}
use inf_splitter.Session.Store.{lookup_hash}
use inf_splitter.Session.Frontier.{
  Frontier, ended_at_client_boundary, find_frontier, fork_at_parent, resume_after, select,
}
use inf_splitter.Session.Walks.{Candidate}
use inf_splitter.Session.Store.Index.{InStore, IsKeyed}
use inf_splitter.Session.Frontier.Candidates.{IsBest, best_of-IsBest}

pub record IsSound (s : InteractionStore) (hashes : List ℕ) (f : Frontier) : Type 0 where
  -- the index points into the incoming hashes
  pub within : f.index ≤ length hashes
  -- a replay is proposed only if all is known, from a stored node and after its predecessor
  pub replay :
      f.all_known ≡ true
      → (c : ClientInteractionNode) × (f.index ≡ length hashes)
        × (f.matched_client_id ≡ some c.id)
        × (f.previous_interaction_id ≡ c.prev_id)
        × InStore s c
  -- a conversation is resumed after a stored node
  pub resume :
      f.all_known ≡ false
      → 0 < f.index
      → (c : ClientInteractionNode) × (f.previous_interaction_id ≡ some c.id) × InStore s c

select-IsSound :
    (fuel : ℕ) (hashes : List ℕ) (s : InteractionStore) (best : Option Candidate) (f : Frontier)
    → IsBest s hashes best
    → select fuel hashes s best ≡ some f
    → IsSound s hashes f
unfolding select
select-IsSound fuel hashes s none f b e =
    subst (IsSound s hashes) (some-injective _ _ e)
      (record { within = omega arith; replay = λ h. cc; resume = λ h p. absurd (omega arith) })
select-IsSound fuel hashes s (some c) f b e = elim (Bool-cases c.is_known) [
  | inl known ↦ subst (IsSound s hashes) (some-injective _ _ (rw known at e)) (record {
    within = b.within;
    replay = λ _. (c.terminal, b.known known, refl, refl, b.stored);
    resume = λ h p. cc;
  })
  | inr fresh ↦
      let (at_end, _, chosen) =
        >>=-eq-some (ended_at_client_boundary fuel hashes c.prefix_len c.terminal s) _
          (rw (fresh, not_zero) at e) in
      resume at_end (some-injective _ _ chosen)
]
  where
    not_zero : (c.prefix_len == 0) ≡ false
    not_zero = let p = b.positive in ground arith

    resume :
        (at_end : Bool)
        → (if at_end then resume_after c else fork_at_parent c) ≡ f
        → IsSound s hashes f
    resume true eq = subst (IsSound s hashes) eq (record {
      within = b.within;
      replay = λ h. cc;
      resume = λ h p. (c.terminal, refl, b.stored);
    })
    resume false eq =
        subst (IsSound s hashes) eq
          (record { within = omega arith; replay = λ h. cc; resume = λ h p. absurd (omega arith) })

-- Whatever is returned, on a store whose client nodes stand under their own ids: the index lies
-- within the incoming hashes; a replay is proposed only if all of them are known, and from a
-- stored node, after its predecessor; a conversation with a known prefix is resumed after a
-- stored node.
pub find_frontier-IsSound :
    (fuel : ℕ) (hashes : List ℕ) (prev : Option String) (system : Option ℕ) (s : InteractionStore)
    (f : Frontier)
    → IsKeyed s
    → find_frontier fuel hashes prev system s ≡ some f
    → IsSound s hashes f
unfolding find_frontier
find_frontier-IsSound fuel [] prev system s f keyed e =
    subst (IsSound s []) (some-injective _ _ e)
      (record { within = omega arith; replay = λ h. cc; resume = λ h p. absurd (omega arith) })
find_frontier-IsSound fuel (h0 ∷ hs) prev system s f keyed e =
    let (best, b, chosen) = >>=-eq-some _ _ e in
    select-IsSound fuel (h0 ∷ hs) s best f
      (best_of-IsBest fuel h0 (h0 ∷ hs) prev system s none (lookup_hash s h0) best keyed tt b)
      chosen
