-- ===== src/Config/Fields.antt =====
-- src/config.rs: `DropFields`, the fields that are taken out of a request body for a model. The raw
-- per-model table is a `BTreeMap`: its entries in the order of the keys, which are distinct.
pub mod Merge
use inf_splitter.Prelude.{
  Bool, List, Option, [], false, if◌then◌else◌, none, some, true, ◌&&◌, ◌==◌, ◌∷◌,
}
use inf_splitter.Prelude.Dict
use inf_splitter.Prelude.Sets
use inf_splitter.Prelude.Sets.{HashSet}
use inf_splitter.Prelude.Text.{Text_eq, Text}
use inf_splitter.Prelude.Dict.{HashMap}
use inf_splitter.Prelude.Bytes.{chars}

pub data DropFields : Type 0 where
  for_all : HashSet Text → DropFields
  per_model : (base : HashSet Text) → (by_model : HashMap Text (HashSet Text)) → DropFields

pub data DropFieldsRaw : Type 0 where
  flat : List Text → DropFieldsRaw
  table : List (Text × List Text) → DropFieldsRaw

-- merged.extend(extra.iter().cloned())
unfoldable pub merge_into : HashSet Text → Option (HashSet Text) → HashSet Text
merge_into merged none = merged
merge_into merged (some extra) = Sets.extend merged (Dict.keys extra)

unfoldable pub for_model : DropFields → Text → HashSet Text
for_model (for_all fields) model = fields
for_model (per_model base by_model) model = merge_into base (Dict.get by_model model)

abbrev pub no_entries {ℓ} : {V : Type ℓ} → HashMap Text V → Bool
no_entries m = elim m.entries [ [] ↦ true | _ ∷ _ ↦ false ]

unfoldable pub drops_nothing : DropFields → Bool
drops_nothing (for_all fields) = no_entries fields
drops_nothing (per_model base by_model) = no_entries base && no_entries by_model

-- the loop over the table
unfoldable pub split_table :
    HashSet Text → HashMap Text (HashSet Text) → List (Text × List Text) → DropFields
split_table base by_model [] = per_model base by_model
split_table base by_model ((key, fields) ∷ map') =
    let as_base = split_table (Sets.collect fields) by_model map' in
    let as_model = split_table base (Dict.insert by_model key (Sets.collect fields)) map' in
    if key == chars "all" then as_base else as_model

unfoldable pub from_raw : DropFieldsRaw → DropFields
from_raw (flat list) = for_all (Sets.collect list)
from_raw (table map') = split_table Dict.empty Dict.empty map'
