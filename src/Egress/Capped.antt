-- ===== src/Egress/Capped.antt =====
-- src/lib.rs, `apply_egress_transforms`: what a body has of each field.
use inf_splitter.Prelude.{
  ==_refl, Bool-cases, List, Option, Option-cases, [], any, ap, arith, false, if◌then◌else◌, inl,
  inr, ltb, none, refl, some, some-injective, subst, sym, true, ℕ, ◌==◌, ◌∙◌, ◌∷◌, ◌≡◌, ◌≤◌,
}
use inf_splitter.Prelude.Dict
use inf_splitter.Prelude.Sets
use inf_splitter.Prelude.Text.{Text_eq, Text, text_eq_iff, u32_max, u64_max}
use inf_splitter.Egress.{
  JsonObject, apply_egress_transforms, apply_token_caps_to_value, cap_by, cap_numeric_field,
  drop_fields_from_value, read_u64, remove_fields,
}
use inf_splitter.Config.Route.{RouteTarget}
use inf_splitter.Prelude.Bytes.{chars}
use inf_splitter.Config.Fields.{for_model}

-- the limit of a field
abbrev pub cap_of : RouteTarget → Text → Option ℕ
cap_of route field =
    if chars "max_tokens" == field
    then route.max_tokens
    else if chars "max_output_tokens" == field
    then route.max_output_tokens
    else if chars "max_completion_tokens" == field
    then route.max_completion_tokens
    else none

-- the limits are 32-bit numbers
pub record HasU32Caps (route : RouteTarget) : Type 0 where
  pub tokens : (limit : ℕ) → route.max_tokens ≡ some limit → limit ≤ u32_max
  pub output : (limit : ℕ) → route.max_output_tokens ≡ some limit → limit ≤ u32_max
  pub completion : (limit : ℕ) → route.max_completion_tokens ≡ some limit → limit ≤ u32_max

apart_from : (a b f : Text) → (a == b) ≡ false → (b == f) ≡ true → (a == f) ≡ false
apart_from a b f differ same = subst (λ x. (a == x) ≡ false) ((text_eq_iff b f).0 same) differ

module _ {Value : Type 0} (json : JsonObject Value) where
  -- what an egress body has of a field, by the limit on it
  abbrev pub IsCapped : Option ℕ → Value → Value → Text → Type 0
  IsCapped none before after field = json.get after field ≡ json.get before field
  IsCapped (some limit) before after field =
      (n : ℕ) × (read_u64 json after field ≡ some n)
      × (n ≤ limit)
      × ((m : ℕ) → read_u64 json before field ≡ some m → m ≤ limit → n ≡ m)

  read-set :
      (body : Value) (field : Text) (limit : ℕ)
      → limit ≤ u64_max
      → read_u64 json (json.set body field (json.number limit)) field ≡ some limit
  unfolding read_u64
  read-set body field limit small =
      rw (json.get-set body field field (json.number limit), ==_refl field, read_u64)
        (json.as_u64-number limit small)

  cap_numeric_field-IsCapped :
      (body : Value) (field : Text) (limit : ℕ)
      → limit ≤ u32_max
      → IsCapped (some limit) body (cap_numeric_field json body field limit) field
  unfolding cap_numeric_field
  cap_numeric_field-IsCapped body field limit small =
      elim (Option-cases (read_u64 json body field)) [
        | inl absent ↦
            rw (absent, cap_numeric_field)
              (limit, read-set body field limit (omega arith), omega arith, λ m e h. absurd (cc e))
        | inr (existing, there) ↦ elim (Bool-cases (ltb limit existing)) [
          | inl over ↦
              rw (there, over, cap_numeric_field)
                (
                  limit,
                  read-set body field limit (omega arith),
                  omega arith,
                  λ m e h. absurd (ground (arith, some-injective _ _ e)),
                )
          | inr within ↦
              rw (there, within, cap_numeric_field)
                (existing, there, ground arith, λ m e h. some-injective _ _ e)
        ]
      ]

  cap_numeric_field-other :
      (body : Value) (field other : Text) (limit : ℕ)
      → (field == other) ≡ false
      → json.get (cap_numeric_field json body field limit) other ≡ json.get body other
  unfolding cap_numeric_field
  cap_numeric_field-other body field other limit differ =
      elim (Option-cases (read_u64 json body field)) [
        | inl absent ↦
            rw
              (absent, cap_numeric_field, json.get-set body field other (json.number limit), differ)
              refl
        | inr (existing, there) ↦ elim (Bool-cases (ltb limit existing)) [
          | inl over ↦
              rw
                (
                  there,
                  over,
                  cap_numeric_field,
                  json.get-set body field other (json.number limit),
                  differ,
                )
                refl
          | inr within ↦ rw (there, within, cap_numeric_field) refl
        ]
      ]

  remove_fields-get :
      (fields : List Text) (value : Value) (f : Text)
      → json.get (remove_fields json fields value) f
        ≡ (if any (λ k. k == f) fields then none else json.get value f)
  unfolding remove_fields
  remove_fields-get [] value f = refl
  remove_fields-get (k ∷ fields) value f =
      remove_fields-get fields (json.remove value k) f ∙ ground (arith, json.get-remove value k f)

  module _ (route : RouteTarget) (caps : HasU32Caps route) where
    -- a cap on another field does not show
    cap_by-other :
        (field : Text) (o : Option ℕ) (body : Value) (f : Text)
        → (field == f) ≡ false
        → json.get (cap_by json field o body) f ≡ json.get body f
    cap_by-other field none body f differ = refl
    cap_by-other field (some limit) body f differ =
        cap_numeric_field-other body field f limit differ

    cap_by-IsCapped :
        (field : Text) (o : Option ℕ) (body : Value) (f : Text)
        → ((limit : ℕ) → o ≡ some limit → limit ≤ u32_max)
        → (field == f) ≡ true
        → IsCapped o body (cap_by json field o body) f
    cap_by-IsCapped field none body f small same = refl
    cap_by-IsCapped field (some limit) body f small same =
        subst (IsCapped (some limit) body (cap_numeric_field json body field limit))
          ((text_eq_iff field f).0 same)
          (cap_numeric_field-IsCapped body field limit (small limit refl))

    -- the statement only reads the one field
    IsCapped-read :
        (o : Option ℕ) (before before' after after' : Value) (f : Text)
        → json.get before' f ≡ json.get before f
        → json.get after' f ≡ json.get after f
        → IsCapped o before after f
        → IsCapped o before' after' f
    unfolding read_u64
    IsCapped-read none before before' after after' f b a c = a ∙ c ∙ sym b
    IsCapped-read (some limit) before before' after after' f b a (n, read, le, keeps) =
        (n, rw (a, read_u64) read, le, λ m e h. keeps m (rw (b, read_u64) at e) h)

    caps-IsCapped :
        (value : Value) (f : Text)
        → IsCapped (cap_of route f) value (apply_token_caps_to_value json value route) f
    unfolding apply_token_caps_to_value
    caps-IsCapped value f =
        let one = cap_by json (chars "max_tokens") route.max_tokens value in
        let two = cap_by json (chars "max_output_tokens") route.max_output_tokens one in
        let three = cap_by json (chars "max_completion_tokens") route.max_completion_tokens two in
        elim (Bool-cases (chars "max_tokens" == f)) [
          | inl first ↦ rw first (
              IsCapped-read route.max_tokens value value one three f refl
                (later (chars "max_tokens") one f first refl refl)
                (cap_by-IsCapped (chars "max_tokens") route.max_tokens value f caps.tokens first))
          | inr not_first ↦ elim (Bool-cases (chars "max_output_tokens" == f)) [
            | inl second ↦
                rw (not_first, second)
                  (IsCapped-read route.max_output_tokens one value two three f
                    (sym (cap_by-other (chars "max_tokens") route.max_tokens value f not_first))
                    (cap_by-other (chars "max_completion_tokens") route.max_completion_tokens two f
                      (apart_from (chars "max_completion_tokens") (chars "max_output_tokens") f refl
                        second))
                    (cap_by-IsCapped (chars "max_output_tokens") route.max_output_tokens one f
                      caps.output second))
            | inr not_second ↦
                let before : json.get two f ≡ json.get value f =
                  cap_by-other (chars "max_output_tokens") route.max_output_tokens one f not_second
                  ∙ cap_by-other (chars "max_tokens") route.max_tokens value f not_first in
                elim (Bool-cases (chars "max_completion_tokens" == f)) [
                  | inl third ↦
                      rw (not_first, not_second, third)
                        (IsCapped-read route.max_completion_tokens two value three three f
                          (sym before) refl
                          (cap_by-IsCapped (chars "max_completion_tokens")
                            route.max_completion_tokens two f caps.completion third))
                  | inr other ↦
                      rw (not_first, not_second, other)
                        (cap_by-other (chars "max_completion_tokens") route.max_completion_tokens
                            two f other
                          ∙ before)
                ]
          ]
        ]
      where
        later :
            (name : Text) (one : Value) (f : Text)
            → (name == f) ≡ true
            → (chars "max_output_tokens" == name) ≡ false
            → (chars "max_completion_tokens" == name) ≡ false
            → json.get
                (cap_by json
                  (chars "max_completion_tokens")
                  route.max_completion_tokens
                  (cap_by json (chars "max_output_tokens") route.max_output_tokens one))
                f
              ≡ json.get one f
        later name one f is second third =
            cap_by-other (chars "max_completion_tokens") route.max_completion_tokens _ f
              (apart_from (chars "max_completion_tokens") name f third is)
            ∙ cap_by-other (chars "max_output_tokens") route.max_output_tokens one f
                (apart_from (chars "max_output_tokens") name f second is)

    pub apply_egress_transforms-IsCapped :
        (value : Value) (model f : Text)
        → (Sets.holds (for_model route.drop_fields model) f ≡ true
            → json.get (apply_egress_transforms json value model route) f ≡ none)
          × (Sets.holds (for_model route.drop_fields model) f ≡ false
              → IsCapped (cap_of route f) value (apply_egress_transforms json value model route) f)
    unfolding apply_egress_transforms drop_fields_from_value
    apply_egress_transforms-IsCapped value model f =
        let capped = apply_token_caps_to_value json value route in
        let fields = for_model route.drop_fields model in
        let got =
          remove_fields-get (Dict.keys fields) capped f
          ∙ ap (λ b. if b then none else json.get capped f) (Sets.any-keys fields f) in
        (
          λ dropped. got ∙ (rw dropped refl),
          λ stays.
              IsCapped-read (cap_of route f) value value capped _ f refl (got ∙ (rw stays refl))
                (caps-IsCapped value f),
        )
