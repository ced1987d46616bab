-- ===== src/Session/Store/Index.antt =====
-- src/session.rs, `InteractionStore`: the derived indexes agree with the client nodes.
use inf_splitter.Prelude.{
  String_eq, ℕ_eq, Bool-cases, Has, Has-append, Has-append_last, List, String, [], arith, eq_iff,
  get_elem?, inl, inr, nat_eq_iff, some, some-injective, subst, suc, zero, ℕ, ◌++◌, ◌+◌, ◌==◌, ◌∷◌,
  ◌≡◌,
}
use native.Mathlib.Nat.{add-zero}
use inf_splitter.Prelude.Dict
use inf_splitter.Session.{ClientInteractionNode, ClientInteractionPosition, InteractionStore}
use inf_splitter.Session.Store.{index_hashes, insert_client, lookup_hash, or_default, push_entry}
use inf_splitter.Prelude.Dict.{HashMap}

-- The node stands in the store under its own id.
abbrev pub InStore : InteractionStore → ClientInteractionNode → Type 0
InStore s c = Dict.get s.clients c.id ≡ some c

-- Every client node is stored under its own id.
abbrev pub IsKeyed : InteractionStore → Type 0
IsKeyed s = (k : String) (c : ClientInteractionNode) → Dict.get s.clients k ≡ some c → c.id ≡ k

pub insert_client-IsKeyed :
    (s : InteractionStore) (node : ClientInteractionNode)
    → IsKeyed s
    → IsKeyed (insert_client s node)
unfolding insert_client
insert_client-IsKeyed s node keyed k c =
    rw (Dict.get-insert s.clients node.id k node) (ground (arith, eq_iff node.id k, keyed k c))

abbrev position : String → ℕ → ClientInteractionPosition
position id idx = record { client_id = id; message_index = idx }

index_hashes-keeps :
    (id : String) (i : ℕ) (hs : List ℕ) (index : HashMap ℕ (List ClientInteractionPosition)) (h : ℕ)
    (p : ClientInteractionPosition)
    → Has p (or_default (Dict.get index h))
    → Has p (or_default (Dict.get (index_hashes id i hs index) h))
unfolding index_hashes
index_hashes-keeps id i [] index h p has = has
index_hashes-keeps id i (x ∷ hs) index h p has = index_hashes-keeps id (suc i) hs _ h p (
    rw (Dict.get-insert index x h (or_default (Dict.get index x) ++ position id i ∷ []))
      (elim (Bool-cases (x == h)) [
        | inl same ↦ rw (same, (nat_eq_iff x h).0 same) (Has-append p _ (position id i ∷ []) has)
        | inr other ↦ rw other has
      ]))

index_hashes-adds :
    (id : String) (i : ℕ) (hs : List ℕ) (index : HashMap ℕ (List ClientInteractionPosition))
    (n h : ℕ)
    → get_elem? hs n ≡ some h
    → Has (position id (n + i)) (or_default (Dict.get (index_hashes id i hs index) h))
unfolding index_hashes
index_hashes-adds id i [] index n h e = cc
index_hashes-adds id i (x ∷ hs) index zero h e =
    subst
      (λ k.
        Has (position id k) (
          or_default
            (Dict.get (index_hashes id (suc i) hs (push_entry index x (position id i))) h)))
      (omega arith)
      (index_hashes-keeps id (suc i) hs _ h (position id i) (
        rw (Dict.get-insert index x h (or_default (Dict.get index x) ++ position id i ∷ [])) (
          rw ((nat_eq_iff x h).1 (some-injective _ _ e))
            (Has-append_last (position id i) (or_default (Dict.get index x))))))
index_hashes-adds id i (x ∷ hs) index (suc n) h e =
    subst
      (λ k.
        Has (position id k) (
          or_default
            (Dict.get (index_hashes id (suc i) hs (push_entry index x (position id i))) h)))
      (omega arith) (index_hashes-adds id (suc i) hs (push_entry index x (position id i)) n h e)

-- Every message of a stored client node is found under its hash.
pub record IsIndexed (s : InteractionStore) : Type 0 where
  pub found :
      (k : String) (c : ClientInteractionNode) (n h : ℕ)
      → Dict.get s.clients k ≡ some c
      → get_elem? c.message_hashes n ≡ some h
      → Has (position c.id n) (lookup_hash s h)

-- If every message of every stored client node is found under its hash, with its position, then
-- so it is after one more node is inserted.
pub insert_client-IsIndexed :
    (s : InteractionStore) (node : ClientInteractionNode)
    → IsIndexed s
    → IsIndexed (insert_client s node)
unfolding insert_client lookup_hash
insert_client-IsIndexed s node indexed = record {
  found = λ k c n h there at. elim (Bool-cases (node.id == k)) [
    | inl same ↦
        let e : node ≡ c = ground (arith, there, Dict.get-insert s.clients node.id k node, same) in
        subst
          (λ c.
            get_elem? c.message_hashes n ≡ some h
            → Has (position c.id n)
                (or_default (Dict.get (index_hashes node.id 0 node.message_hashes s.hash_index) h)))
          e
          (λ at'.
            rw add-zero at (index_hashes-adds node.id 0 node.message_hashes s.hash_index n h at'))
          at
    | inr other ↦
        index_hashes-keeps node.id 0 node.message_hashes s.hash_index h (position c.id n) (
          indexed.found k c n h
            (ground (arith, there, Dict.get-insert s.clients node.id k node, other)) at)
  ];
}
