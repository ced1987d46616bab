-- ===== src/Splitting/Tests.antt =====
-- The theorems on the splitting at concrete inputs.
use inf_splitter.Prelude.{List, [], concat, err, ok, refl, ℕ, ◌+◌, ◌∷◌, ◌≡◌}
use inf_splitter.Prelude.Text.{Text_eq, Text, starts_with}
use inf_splitter.Splitting.Plans.{
  OnlyFirst, build_split_plans, build_split_plans-inputs, inputs, instructions, tool_flags,
}
use inf_splitter.Splitting.Pack.{item_too_large, pack_content_into_chunks, pack_loop}
use inf_splitter.Splitting.Texts.Fitting.{IsSplit, split_text_for_limit-IsSplit}
use inf_splitter.Splitting.Pack.Packed.{IsPacked, pack_content_into_chunks-IsPacked}
use inf_splitter.Splitting.Texts.{
  add_part, add_parts, join_parts, push_chunk, split_by_best_delimiter, split_on,
  split_text_for_limit, start_chunk,
}
use inf_splitter.Prelude.Bytes.{chars}

-- an item is its size, and the envelopes take 10 and 4 bytes
abbrev first_size : List ℕ → ℕ
first_size [] = 10
first_size (n ∷ ns) = n + first_size ns

abbrev next_size : List ℕ → ℕ
next_size [] = 4
next_size (n ∷ ns) = n + next_size ns

pack_content_into_chunks-IsPacked_example :
    IsPacked first_size next_size 20
      (5 ∷ 4 ∷ 9 ∷ 7 ∷ [])
      (pack_content_into_chunks first_size next_size (5 ∷ 4 ∷ 9 ∷ 7 ∷ []) 20)
pack_content_into_chunks-IsPacked_example =
    pack_content_into_chunks-IsPacked first_size next_size (5 ∷ 4 ∷ 9 ∷ 7 ∷ []) 20

-- The larger first envelope leaves room for less.
packed :
    (pack_content_into_chunks first_size next_size (5 ∷ 4 ∷ 9 ∷ 7 ∷ []) 20
      ≡ ok ((5 ∷ 4 ∷ []) ∷ (9 ∷ 7 ∷ []) ∷ []))
    × (pack_content_into_chunks first_size next_size (11 ∷ []) 20 ≡ err (item_too_large 21 20))
unfolding pack_content_into_chunks pack_loop
packed = (refl, refl)

abbrev two_chunks : List (List ℕ)
two_chunks = (1 ∷ []) ∷ (2 ∷ []) ∷ []

abbrev two_parts : List Text
two_parts = chars "a" ∷ chars "b" ∷ []

build_split_plans-inputs_example :
    (inputs (build_split_plans two_parts two_chunks) ≡ concat two_chunks)
    × (instructions (build_split_plans two_parts two_chunks) ≡ two_parts)
    × OnlyFirst (tool_flags (build_split_plans two_parts two_chunks))
build_split_plans-inputs_example = build_split_plans-inputs (chars "a") (chars "b" ∷ []) two_chunks

split_text_for_limit-IsSplit_example :
    IsSplit (chars "One. Two three.") 12 2 (split_text_for_limit (chars "One. Two three.") 12 2)
split_text_for_limit-IsSplit_example = split_text_for_limit-IsSplit (chars "One. Two three.") 12 2

-- The full stop and the space at the boundary of two chunks are lost.
lost_delimiter :
    split_text_for_limit (chars "One. Two three.") 12 2 ≡ ok (chars "One" ∷ chars "Two three." ∷ [])
unfolding split_text_for_limit split_by_best_delimiter split_on starts_with join_parts add_parts
    add_part push_chunk start_chunk
lost_delimiter = refl
