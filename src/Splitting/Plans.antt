-- ===== src/Splitting/Plans.antt =====
-- src/interactions_handler.rs: `build_split_plans`, from the parts of the system instruction and
-- the chunks of the content.
use inf_splitter.Prelude.{
  All, Bool, List, Option, Option-cases, [], ap, append-nil, append_assoc, concat, drop, false, inl,
  inr, map, none, refl, some, sym, true, ◌++◌, ◌∙◌, ◌∷◌, ◌≡◌,
}
use inf_splitter.Prelude.Text.{Text_eq, Text}

pub record SplitPiecePlan (Content : Type 0) : Type 0 where
  pub input : List Content
  pub system_instruction : Option Text
  pub include_tools_config : Bool

-- only the first flag is set
abbrev pub OnlyFirst : List Bool → Type 0
OnlyFirst [] = Unit {0}
OnlyFirst (flag ∷ flags) = (flag ≡ true) × All (λ b. b ≡ false) flags

module _ {Content : Type 0} where
  -- the input of the last part of the system instruction
  abbrev pub first_chunk : List (List Content) → List Content
  first_chunk [] = []
  first_chunk (chunk ∷ _) = chunk

  -- the loop over the parts; the flag is `i == 0`
  unfoldable pub system_plans :
      Bool → List Text → List (List Content) → List (SplitPiecePlan Content)
  system_plans is_first [] chunks = []
  system_plans is_first (part ∷ []) chunks =
      record {
        input = first_chunk chunks;
        system_instruction = some part;
        include_tools_config = is_first;
      }
      ∷ []
  system_plans is_first (part ∷ next ∷ parts) chunks =
      record { input = []; system_instruction = some part; include_tools_config = is_first }
      ∷ system_plans false (next ∷ parts) chunks

  abbrev pub content_plan : List Content → SplitPiecePlan Content
  content_plan chunk = record {
    input = chunk;
    system_instruction = none;
    include_tools_config = false;
  }

  unfoldable pub build_split_plans : List Text → List (List Content) → List (SplitPiecePlan Content)
  build_split_plans sys_parts chunks =
      system_plans true sys_parts chunks ++ map content_plan (drop 1 chunks)

  abbrev pub inputs : List (SplitPiecePlan Content) → List Content
  inputs [] = []
  inputs (plan ∷ plans) = plan.input ++ inputs plans

  abbrev pub instructions : List (SplitPiecePlan Content) → List Text
  instructions [] = []
  instructions (plan ∷ plans) = elim plan.system_instruction [
    | none ↦ instructions plans
    | some part ↦ part ∷ instructions plans
  ]

  -- which of the pieces carry the tools and the configuration
  abbrev pub tool_flags : List (SplitPiecePlan Content) → List Bool
  tool_flags plans = map (λ (plan : SplitPiecePlan Content). plan.include_tools_config) plans

  inputs-append :
      (as' bs : List (SplitPiecePlan Content)) → inputs (as' ++ bs) ≡ inputs as' ++ inputs bs
  inputs-append [] bs = refl
  inputs-append (p ∷ as') bs =
      ap (λ r. p.input ++ r) (inputs-append as' bs)
      ∙ sym (append_assoc p.input (inputs as') (inputs bs))

  instructions-append :
      (as' bs : List (SplitPiecePlan Content))
      → instructions (as' ++ bs) ≡ instructions as' ++ instructions bs
  instructions-append [] bs = refl
  instructions-append (p ∷ as') bs = elim (Option-cases p.system_instruction) [
    | inl absent ↦ rw absent (instructions-append as' bs)
    | inr (part, there) ↦ rw there (ap (λ r. part ∷ r) (instructions-append as' bs))
  ]

  system_plans-inputs :
      (is_first : Bool) (part : Text) (parts : List Text) (chunks : List (List Content))
      → inputs (system_plans is_first (part ∷ parts) chunks) ≡ first_chunk chunks
  unfolding system_plans
  system_plans-inputs is_first part [] chunks = append-nil (first_chunk chunks)
  system_plans-inputs is_first part (next ∷ parts) chunks =
      system_plans-inputs false next parts chunks

  system_plans-instructions :
      (is_first : Bool) (parts : List Text) (chunks : List (List Content))
      → instructions (system_plans is_first parts chunks) ≡ parts
  unfolding system_plans
  system_plans-instructions is_first [] chunks = refl
  system_plans-instructions is_first (part ∷ []) chunks = refl
  system_plans-instructions is_first (part ∷ next ∷ parts) chunks =
      ap (λ r. part ∷ r) (system_plans-instructions false (next ∷ parts) chunks)

  content-inputs : (chunks : List (List Content)) → inputs (map content_plan chunks) ≡ concat chunks
  content-inputs [] = refl
  content-inputs (chunk ∷ chunks) = ap (λ r. chunk ++ r) (content-inputs chunks)

  content-instructions :
      (chunks : List (List Content)) → instructions (map content_plan chunks) ≡ []
  content-instructions [] = refl
  content-instructions (chunk ∷ chunks) = content-instructions chunks

  first-drop :
      (chunks : List (List Content)) → first_chunk chunks ++ concat (drop 1 chunks) ≡ concat chunks
  first-drop [] = refl
  first-drop (chunk ∷ chunks) = refl

  no_tools :
      (chunks : List (List Content)) → All (λ b. b ≡ false) (tool_flags (map content_plan chunks))
  no_tools [] = tt
  no_tools (chunk ∷ chunks) = (refl, no_tools chunks)

  no_tools_later :
      (parts : List Text) (chunks : List (List Content)) (rest : List (SplitPiecePlan Content))
      → All (λ b. b ≡ false) (tool_flags rest)
      → All (λ b. b ≡ false) (tool_flags (system_plans false parts chunks ++ rest))
  unfolding system_plans
  no_tools_later [] chunks rest a = a
  no_tools_later (part ∷ []) chunks rest a = (refl, a)
  no_tools_later (part ∷ next ∷ parts) chunks rest a =
      (refl, no_tools_later (next ∷ parts) chunks rest a)

  -- The planned pieces of a system instruction with at least one part and of chunks carry all parts of the instruction in order and all content in order, nothing twice, and only the first piece carries the tools and the configuration.
  pub build_split_plans-inputs :
      (part : Text) (parts : List Text) (chunks : List (List Content))
      → (inputs (build_split_plans (part ∷ parts) chunks) ≡ concat chunks)
        × (instructions (build_split_plans (part ∷ parts) chunks) ≡ part ∷ parts)
        × OnlyFirst (tool_flags (build_split_plans (part ∷ parts) chunks))
  unfolding build_split_plans system_plans
  build_split_plans-inputs part parts chunks = (
    inputs-append (system_plans true (part ∷ parts) chunks) (map content_plan (drop 1 chunks))
        ∙ cong2 (system_plans-inputs true part parts chunks) (content-inputs (drop 1 chunks))
        ∙ first-drop chunks,
    instructions-append (system_plans true (part ∷ parts) chunks) (map content_plan (drop 1 chunks))
        ∙ cong2 (system_plans-instructions true (part ∷ parts) chunks)
            (content-instructions (drop 1 chunks))
        ∙ append-nil (part ∷ parts),
    flags parts,
  )
    where
      cong2 : {A : Type 0} {a b c d : List A} → a ≡ b → c ≡ d → a ++ c ≡ b ++ d
      cong2 p q i = p i ++ q i

      flags : (later : List Text) → OnlyFirst (tool_flags (build_split_plans (part ∷ later) chunks))
      flags [] = (refl, no_tools (drop 1 chunks))
      flags (next ∷ later) =
          (refl, no_tools_later (next ∷ later) chunks _ (no_tools (drop 1 chunks)))
