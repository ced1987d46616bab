-- ===== src/Config/Fields/Merge.antt =====
-- src/config.rs, `DropFields`: what is dropped for a model, by the table of the configuration.
use inf_splitter.Prelude.{
  Bool, Bool-cases, List, Option, [], any, ap, arith, false, if◌then◌else◌, inl, inr, none, some,
  subst, ◌==◌, ◌||◌, ◌∷◌, ◌≡◌,
}
use inf_splitter.Prelude.Dict
use inf_splitter.Prelude.Sets
use inf_splitter.Prelude.Text.{Text_eq, Text, text_eq_iff}
use inf_splitter.Prelude.Sets.{HashSet}
use inf_splitter.Config.Fields.{for_model, from_raw, merge_into, split_table, table}
use inf_splitter.Prelude.Dict.{HashMap}
use inf_splitter.Prelude.Bytes.{chars}

abbrev pub has_field : Option (List Text) → Text → Bool
has_field none f = false
has_field (some fields) f = any (λ x. x == f) fields

-- the table's entry of that key names the field
abbrev pub named : List (Text × List Text) → Text → Text → Bool
named rows key f = has_field (Dict.lookup key rows) f

abbrev pub in_opt : Option (HashSet Text) → Text → Bool
in_opt none f = false
in_opt (some s) f = Sets.holds s f

holds-merge :
    (base : HashSet Text) (extra : Option (HashSet Text)) (f : Text)
    → Sets.holds (merge_into base extra) f ≡ (Sets.holds base f || in_opt extra f)
unfolding merge_into
holds-merge base none f = ground arith
holds-merge base (some extra) f =
    ground (arith, Sets.holds-extend base (Dict.keys extra) f, Sets.any-keys extra f)

abbrev pub base_has : Option (List Text) → HashSet Text → Text → Bool
base_has none base f = Sets.holds base f
base_has (some fields) base f = any (λ x. x == f) fields

abbrev pub model_has : Option (List Text) → Option (HashSet Text) → Text → Bool
model_has none old f = in_opt old f
model_has (some fields) old f = any (λ x. x == f) fields

module _ (model f : Text) where
  split_table-has :
      (base : HashSet Text) (by_model : HashMap Text (HashSet Text))
      (rows : List (Text × List Text))
      → Dict.Apart rows
      → Sets.holds (for_model (split_table base by_model rows) model) f ≡ (
          base_has (Dict.lookup (chars "all") rows) base f
          || model_has
              (if model == chars "all" then none else Dict.lookup model rows)
              (Dict.get by_model model)
              f)
  unfolding split_table for_model Dict.lookup
  split_table-has base by_model [] apart =
      ground (arith, holds-merge base (Dict.get by_model model) f)
  split_table-has base by_model ((key, fields) ∷ rows) (differ, apart) =
      elim (Bool-cases (key == chars "all")) [
        | inl is_all ↦
            let is = (text_eq_iff key (chars "all")).0 is_all in
            ground (
              arith,
              is_all,
              split_table-has (Sets.collect fields) by_model rows apart,
              Sets.holds-collect fields f,
              subst (λ k. Dict.lookup k rows ≡ none) is (Dict.lookup-apart key rows differ),
              text_eq_iff key model,
              text_eq_iff model (chars "all"),
              is,
            )
        | inr other ↦
            let rest =
              split_table-has base (Dict.insert by_model key (Sets.collect fields)) rows apart in
            let inserted = Dict.get-insert by_model key model (Sets.collect fields) in
            elim (Bool-cases (key == model)) [
              | inl same ↦
                  let is = (text_eq_iff key model).0 same in
                  ground (
                    arith,
                    other,
                    same,
                    rest,
                    rw same at inserted,
                    Sets.holds-collect fields f,
                    subst (λ k. Dict.lookup k rows ≡ none) is (Dict.lookup-apart key rows differ),
                    subst (λ k. (k == chars "all") ≡ false) is other,
                  )
              | inr differs ↦ ground (arith, other, differs, rest, rw differs at inserted)
            ]
      ]

  -- The fields that are dropped for a model are those of the table's entry for all models and those of the model's own entry, whatever the order of the entries; the keys of the table are distinct.
  pub for_model-from_raw :
      (rows : List (Text × List Text))
      → Dict.Apart rows
      → Sets.holds (for_model (from_raw (table rows)) model) f
        ≡ (named rows (chars "all") f || named rows model f)
  unfolding from_raw Dict.get Dict.lookup Sets.holds
  for_model-from_raw rows apart = elim (Bool-cases (model == chars "all")) [
    | inl is_all ↦
        let is = (text_eq_iff model (chars "all")).0 is_all in
        ground (
          arith,
          is_all,
          split_table-has Dict.empty Dict.empty rows apart,
          ap (λ k. named rows k f) is,
        )
    | inr other ↦ ground (arith, other, split_table-has Dict.empty Dict.empty rows apart)
  ]
