-- ===== src/Splitting/Pack.antt =====
-- src/interactions.rs: `split_content_for_limit` and `pack_content_into_chunks`. The envelopes are
-- the sizes of their bodies with a given content.
pub mod Packed
use inf_splitter.Prelude.{
  Bool, List, Result, [], any, err, false, if◌then◌else◌, leb, ltb, ok, true, ℕ, ◌&&◌, ◌++◌, ◌||◌,
  ◌∷◌,
}

pub data PackError : Type 0 where
  item_too_large : (size limit : ℕ) → PackError

abbrev pub none_yet {ℓ} : {A : Type ℓ} → List A → Bool
none_yet [] = true
none_yet (_ ∷ _) = false

module _ {Content : Type 0} where
  -- the last `if !current.is_empty()`
  abbrev pub push_last : List (List Content) → List Content → List (List Content)
  push_last chunks [] = chunks
  push_last chunks (c ∷ current) = chunks ++ (c ∷ current) ∷ []

  -- the loop of `split_content_for_limit`
  unfoldable pub split_loop :
      (List Content → ℕ)
      → ℕ
      → List (List Content)
      → List Content
      → List Content
      → List (List Content)
  split_loop size limit chunks current [] = push_last chunks current
  split_loop size limit chunks current (content ∷ contents) =
      elim (leb (size (current ++ content ∷ [])) limit || none_yet current) [
        | true ↦ split_loop size limit chunks (current ++ content ∷ []) contents
        | false ↦ split_loop size limit (chunks ++ current ∷ []) (content ∷ []) contents
      ]

  unfoldable pub split_content_for_limit :
      (List Content → ℕ) → List Content → ℕ → List (List Content)
  split_content_for_limit size contents limit = split_loop size limit [] [] contents

  abbrev pub envelope_for :
      (List Content → ℕ) → (List Content → ℕ) → List (List Content) → List Content → ℕ
  envelope_for first subsequent chunks = if none_yet chunks then first else subsequent

  -- the loop of `pack_content_into_chunks`
  unfoldable pub pack_loop :
      (List Content → ℕ)
      → (List Content → ℕ)
      → ℕ
      → List (List Content)
      → List Content
      → List Content
      → Result PackError (List (List Content))
  pack_loop first subsequent limit chunks current [] = ok (push_last chunks current)
  pack_loop first subsequent limit chunks current (content ∷ contents) =
      let test_size = envelope_for first subsequent chunks (current ++ content ∷ []) in
      elim (none_yet current && ltb limit test_size) [
        | true ↦ err (item_too_large test_size limit)
        | false ↦ elim (leb test_size limit) [
          | true ↦ pack_loop first subsequent limit chunks (current ++ content ∷ []) contents
          | false ↦
              let single_size =
                envelope_for first subsequent (chunks ++ current ∷ []) (content ∷ []) in
              elim (ltb limit single_size) [
                | true ↦ err (item_too_large single_size limit)
                | false ↦
                    pack_loop first subsequent limit (chunks ++ current ∷ []) (content ∷ [])
                      contents
              ]
        ]
      ]

  unfoldable pub pack_content_into_chunks :
      (List Content → ℕ)
      → (List Content → ℕ)
      → List Content
      → ℕ
      → Result PackError (List (List Content))
  pack_content_into_chunks first subsequent contents limit =
      pack_loop first subsequent limit [] [] contents

  unfoldable pub single_element_too_large : (Content → ℕ) → List Content → ℕ → Bool
  single_element_too_large size contents limit = any (λ c. ltb limit (size c)) contents
