-- ===== src/Session/Frontier/Longest.antt =====
-- src/session.rs, `find_frontier`: no candidate has a longer known prefix than the one kept.
use inf_splitter.Prelude.Dict
use inf_splitter.Prelude.{
  String_eq, ℕ_eq, List, Option, String, [], ap, arith, get_elem?, length, none, refl, some,
  some-injective, suc, true, zero, ℕ, ◌++◌, ◌∷◌, ◌≡◌, ◌≤◌,
}
use inf_splitter.Prelude.Partial.{>>=-eq-some}
use inf_splitter.Session.{ClientInteractionNode, ClientInteractionPosition, InteractionStore}
use inf_splitter.Session.Frontier.{best_of, keep_best, update_best}
use inf_splitter.Session.Walks.{
  Candidate, extend_candidate, proves_known, start, system_matches, terminal_client, try_candidate,
  walk_forward,
}
use inf_splitter.Session.Frontier.Prefix.{Run, Run-le-walk}
use inf_splitter.Session.Store.{lookup_hash}

abbrev pub known_len : Option Candidate → ℕ
known_len none = 0
known_len (some c) = c.prefix_len

known_len-keep_best :
    (best tried : Option Candidate)
    → (known_len best ≤ known_len (keep_best best tried))
      × (known_len tried ≤ known_len (keep_best best tried))
unfolding update_best
known_len-keep_best best none = (omega arith, omega arith)
known_len-keep_best none (some c) = (omega arith, omega arith)
known_len-keep_best (some b) (some c) = ground arith

module _ (fuel h0 : ℕ) (hashes : List ℕ) (prev : Option String) (system : Option ℕ)
    (s : InteractionStore) where
  best_of_mono :
      (best r : Option Candidate) (ps : List ClientInteractionPosition)
      → best_of fuel h0 hashes prev system s best ps ≡ some r
      → known_len best ≤ known_len r
  unfolding best_of
  best_of_mono best r [] e = rw (some-injective _ _ e) (omega arith)
  best_of_mono best r (p ∷ ps) e =
      let (tried, t, rest) = >>=-eq-some (try_candidate fuel h0 hashes prev system s p) _ e in
      omega (arith, known_len-keep_best best tried, best_of_mono (keep_best best tried) r ps rest)

  best_of-longest :
      (best r : Option Candidate) (ps : List ClientInteractionPosition) (n : ℕ)
      (p : ClientInteractionPosition) (c : Candidate)
      → best_of fuel h0 hashes prev system s best ps ≡ some r
      → get_elem? ps n ≡ some p
      → try_candidate fuel h0 hashes prev system s p ≡ some (some c)
      → c.prefix_len ≤ known_len r
  unfolding best_of
  best_of-longest best r [] n p c e at t = cc
  best_of-longest best r (q ∷ ps) zero p c e at t =
      let (tried, tq, rest) = >>=-eq-some (try_candidate fuel h0 hashes prev system s q) _ e in
      let same : tried ≡ some c = ground (arith, tq, t, at) in
      omega (
        arith,
        (known_len-keep_best best tried).1,
        best_of_mono (keep_best best tried) r ps rest,
        ap known_len same,
      )
  best_of-longest best r (q ∷ ps) (suc n) p c e at t =
      let (tried, tq, rest) = >>=-eq-some (try_candidate fuel h0 hashes prev system s q) _ e in
      best_of-longest (keep_best best tried) r ps n p c rest at t

try_candidate-Run :
    (fuel h0 : ℕ) (run rest : List ℕ) (prev : Option String) (system : Option ℕ)
    (s : InteractionStore) (pos : ClientInteractionPosition) (c : ClientInteractionNode)
    → Dict.get s.clients pos.client_id ≡ some c
    → system_matches fuel system c s ≡ some true
    → Run s c pos.message_index (h0 ∷ run)
    → (r : Candidate) × (try_candidate fuel h0 (h0 ∷ run ++ rest) prev system s pos ≡ some (some r))
      × (suc (length run) ≤ r.prefix_len)
unfolding try_candidate extend_candidate Run
try_candidate-Run fuel h0 run rest prev system s pos c there matches (here, more) =
    let w = walk_forward s 0 (h0 ∷ run ++ rest) (start c pos.message_index) in
    let le : suc (length run) ≤ w.prefix_len =
      omega
        (arith, Run-le-walk s 0 (h0 ∷ run) rest (start c pos.message_index) refl (here, more)) in
    (
      record {
        prefix_len = w.prefix_len;
        terminal = terminal_client s w;
        is_known = proves_known (h0 ∷ run ++ rest) prev w.prefix_len (terminal_client s w);
      },
      ground (arith, there, matches, here, le),
      le,
    )

-- Whatever part of a stored chain the incoming hashes begin with, from a position that the index gives for the first hash, in a chain whose root has the system instruction hash of the request, if it has one: the candidate that is kept has a known prefix at least as long.
pub best_of-Run :
    (fuel h0 : ℕ) (run rest : List ℕ) (prev : Option String) (system : Option ℕ)
    (s : InteractionStore) (r : Option Candidate) (n : ℕ) (pos : ClientInteractionPosition)
    (c : ClientInteractionNode)
    → best_of fuel h0 (h0 ∷ run ++ rest) prev system s none (lookup_hash s h0) ≡ some r
    → get_elem? (lookup_hash s h0) n ≡ some pos
    → Dict.get s.clients pos.client_id ≡ some c
    → system_matches fuel system c s ≡ some true
    → Run s c pos.message_index (h0 ∷ run)
    → suc (length run) ≤ known_len r
best_of-Run fuel h0 run rest prev system s r n pos c e at there matches r' =
    let (cand, t, le) = try_candidate-Run fuel h0 run rest prev system s pos c there matches r' in
    omega (
      arith,
      best_of-longest fuel h0 (h0 ∷ run ++ rest) prev system s none r (lookup_hash s h0) n pos cand
          e at t,
    )
