-- ===== src/Egress/Tests.antt =====
-- The theorem on egress bodies at a concrete body, with objects as chains of fields.
use inf_splitter.Prelude.{[], false, none, refl, some, true, ◌∷◌, ◌≡◌}
use inf_splitter.Prelude.Sets
use inf_splitter.Prelude.Text.{Text_eq, contains, starts_with}
use inf_splitter.Prelude.Bytes.{chars}
use inf_splitter.Egress.{
  apply_egress_transforms, apply_error_translation, apply_token_caps_to_value, cap_numeric_field,
  drop_fields_from_value, read_u64, remove_fields, rule_matches,
}
use inf_splitter.Config.Fields.{for_model}
use inf_splitter.Egress.Capped.{IsCapped, apply_egress_transforms-IsCapped, cap_of}
use inf_splitter.Egress.Samples.{body, docs, route, route_caps}

apply_egress_transforms-IsCapped_example :
    (Sets.holds (for_model route.drop_fields (chars "m")) (chars "max_tokens") ≡ true
      → docs.get (apply_egress_transforms docs body (chars "m") route) (chars "max_tokens") ≡ none)
    × (Sets.holds (for_model route.drop_fields (chars "m")) (chars "max_tokens") ≡ false
        → IsCapped docs
            (cap_of route (chars "max_tokens"))
            body
            (apply_egress_transforms docs body (chars "m") route)
            (chars "max_tokens"))
apply_egress_transforms-IsCapped_example =
    apply_egress_transforms-IsCapped docs route route_caps body (chars "m") (chars "max_tokens")

-- The limit is put down and the dropped field is gone; the first rule that matches gives the body.
egress_runs :
    (read_u64 docs (apply_egress_transforms docs body (chars "m") route) (chars "max_tokens")
      ≡ some 100)
    × (docs.get (apply_egress_transforms docs body (chars "m") route) (chars "seed") ≡ none)
    × (apply_error_translation 429
          (chars "quota exceeded")
          (record { status = 429; ingress = some (chars "quota"); egress = chars "slow down" } ∷ [])
        ≡ chars "slow down")
unfolding apply_egress_transforms drop_fields_from_value remove_fields apply_token_caps_to_value
    cap_numeric_field read_u64 for_model apply_error_translation rule_matches contains starts_with
egress_runs = (refl, refl, refl)
