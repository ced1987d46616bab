-- ===== src/Egress.antt =====
-- src/lib.rs: what is done to a body before it is sent, and to the error body of an upstream; with
-- `cap_numeric_field` of src/config.rs. `JsonObject` is what is done with the values of the JSON
-- library, on objects, with its documented laws: a write puts the value under the key and leaves
-- the other keys, and a number is read back.
pub mod Capped
pub mod Samples
mod Tests
use inf_splitter.Prelude.{
  ℕ_eq, Bool, List, Option, [], if◌then◌else◌, ltb, none, some, true, ℕ, ◌&&◌, ◌==◌, ◌||◌, ◌∷◌, ◌≡◌,
  ◌≤◌,
}
use inf_splitter.Prelude.Dict
use inf_splitter.Prelude.Sets
use inf_splitter.Prelude.Text.{Text_eq, Text, contains, u64_max}
use inf_splitter.Config.Load.{ErrorTranslationRule}
use inf_splitter.Prelude.Sets.{HashSet}
use inf_splitter.Config.Route.{RouteTarget}
use inf_splitter.Config.Fields.{for_model}
use inf_splitter.Prelude.Bytes.{chars}
use inf_splitter.Config.Provider.{empty_text}

pub record JsonObject (Value : Type 0) : Type 0 where
  pub get : Value → Text → Option Value
  pub as_u64 : Value → Option ℕ
  pub number : ℕ → Value
  pub set : Value → Text → Value → Value
  pub remove : Value → Text → Value
  -- the documented laws
  pub as_u64-number : (n : ℕ) → n ≤ u64_max → as_u64 (number n) ≡ some n
  pub get-set :
      (v : Value) (k j : Text) (x : Value)
      → get (set v k x) j ≡ (if k == j then some x else get v j)
  pub get-remove :
      (v : Value) (k j : Text) → get (remove v k) j ≡ (if k == j then none else get v j)

-- the test of a rule's status and, where it has a text, of the body
unfoldable pub rule_matches : ℕ → Text → ErrorTranslationRule → Bool
rule_matches status body rule = status == rule.status && (elim rule.ingress [
  | none ↦ true
  | some substring ↦ empty_text substring || contains substring body
])

unfoldable pub apply_error_translation : ℕ → Text → List ErrorTranslationRule → Text
apply_error_translation status body [] = body
apply_error_translation status body (rule ∷ rules) =
    let rest = apply_error_translation status body rules in
    if rule_matches status body rule then rule.egress else rest

module _ {Value : Type 0} (json : JsonObject Value) where
  -- body.get(field).and_then(|v| v.as_u64())
  unfoldable pub read_u64 : Value → Text → Option ℕ
  read_u64 body field = elim (json.get body field) [ none ↦ none | some v ↦ json.as_u64 v ]

  unfoldable pub cap_numeric_field : Value → Text → ℕ → Value
  cap_numeric_field body field limit = elim (read_u64 body field) [
    | some existing ↦ if ltb limit existing then json.set body field (json.number limit) else body
    | none ↦ json.set body field (json.number limit)
  ]

  abbrev pub cap_by : Text → Option ℕ → Value → Value
  cap_by field none body = body
  cap_by field (some limit) body = cap_numeric_field body field limit

  unfoldable pub apply_token_caps_to_value : Value → RouteTarget → Value
  apply_token_caps_to_value value route =
      cap_by (chars "max_completion_tokens") route.max_completion_tokens (
        cap_by (chars "max_output_tokens") route.max_output_tokens
          (cap_by (chars "max_tokens") route.max_tokens value))

  -- the loop over the fields
  unfoldable pub remove_fields : List Text → Value → Value
  remove_fields [] value = value
  remove_fields (field ∷ fields) value = remove_fields fields (json.remove value field)

  unfoldable pub drop_fields_from_value : Value → HashSet Text → Value
  drop_fields_from_value value fields = remove_fields (Dict.keys fields) value

  unfoldable pub apply_egress_transforms : Value → Text → RouteTarget → Value
  apply_egress_transforms value model route =
      drop_fields_from_value (apply_token_caps_to_value value route)
        (for_model route.drop_fields model)
