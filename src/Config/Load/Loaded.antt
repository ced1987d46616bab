-- ===== src/Config/Load/Loaded.antt =====
-- src/config.rs, `from_file_config`: the invariant of a loaded configuration.
use inf_splitter.Prelude.{
  ==_refl, Bool-cases, List, Option, Option-cases, [], any, ap, arith, if◌then◌else◌, inl, inr,
  none, ok, refl, some, some-injective, subst, sym, true, ◌==◌, ◌∙◌, ◌∷◌, ◌≡◌, ◌⊎◌,
}
use inf_splitter.Prelude.Dict
use inf_splitter.Prelude.Sets
use inf_splitter.Prelude.Text.{Text_eq, Text, text_eq_iff}
use inf_splitter.Config.Load.{Config, add_routes}
use inf_splitter.Prelude.Dict.{HashMap}
use inf_splitter.Prelude.Sets.{HashSet}
use inf_splitter.Config.Provider.{ProviderSection, has_endpoint}

-- what the maps of a configuration promise each other
pub record IsRouted (sections : HashMap Text ProviderSection) (routes : HashMap Text Text)
    (default_section : Option Text) : Type 0 where
  -- a route leads to a section that lists the model
  pub routed :
      (model name : Text)
      → Dict.get routes model ≡ some name
      → (section : ProviderSection) × (Dict.get sections name ≡ some section)
        × (Sets.holds section.model_names model ≡ true)
  -- a model that a section lists has the route there
  pub listed :
      (model name : Text) (section : ProviderSection)
      → Dict.get sections name ≡ some section
      → Sets.holds section.model_names model ≡ true
      → Dict.get routes model ≡ some name
  -- the default section is there
  pub default_there :
      (name : Text)
      → default_section ≡ some name
      → (section : ProviderSection) × (Dict.get sections name ≡ some section)
  -- a section stands under its own name and has an endpoint
  pub served :
      (name : Text) (section : ProviderSection)
      → Dict.get sections name ≡ some section
      → (section.name ≡ name)
        × (has_endpoint section.endpoint_openai section.endpoint_anthropic
              section.endpoint_interactions
            ≡ true)

abbrev pub IsLoaded : Config → Type 0
IsLoaded c = IsRouted c.sections c.model_routes c.default_section

add_routes-get :
    (name : Text) (models : List Text) (routes routes' : HashMap Text Text) (m : Text)
    → add_routes name models routes ≡ ok routes'
    → (Dict.get routes' m ≡ (if any (λ k. k == m) models then some name else Dict.get routes m))
      × (any (λ k. k == m) models ≡ true → Dict.get routes m ≡ none)
unfolding add_routes
add_routes-get name [] routes routes' m e = (ground arith, λ h. cc)
add_routes-get name (k ∷ ks) routes routes' m e = elim (Option-cases (Dict.get routes k)) [
  | inr (existing, there) ↦ absurd (ground (arith, there))
  | inl absent ↦
      let (after, fresh) =
        add_routes-get name ks (Dict.insert routes k name) routes' m
          (rw (absent, add_routes) at e) in
      let step = Dict.get-insert routes k m name in
      (
        ground (arith, after, step),
        λ h. elim (Bool-cases (k == m)) [
          | inl same ↦ rw (sym ((text_eq_iff k m).0 same)) absent
          | inr differ ↦ ground (arith, fresh, step, differ)
        ],
      )
]

-- The maps after one section more: it was not there, and its models got their routes or there
-- are none of them and it is the default.
module _ (sections : HashMap Text ProviderSection) (section : ProviderSection)
    (fresh : Dict.get sections section.name ≡ none)
    (usable : has_endpoint section.endpoint_openai section.endpoint_anthropic
        section.endpoint_interactions
      ≡ true) where
  abbrev pub more : HashMap Text ProviderSection
  more = Dict.insert sections section.name section

  at :
      (k : Text)
      → Dict.get more k ≡ (if section.name == k then some section else Dict.get sections k)
  at k = Dict.get-insert sections section.name k section

  here : Dict.get more section.name ≡ some section
  here = rw (at section.name, ==_refl section.name) refl

  kept : (k : Text) (s : ProviderSection) → Dict.get sections k ≡ some s → Dict.get more k ≡ some s
  kept k s e = elim (Bool-cases (section.name == k)) [
    | inl same ↦ absurd (cc (fresh, e, (text_eq_iff section.name k).0 same))
    | inr differ ↦ rw (at k, differ) e
  ]

  -- what is there now is the new section or was there
  old_or_new :
      (k : Text) (s : ProviderSection)
      → Dict.get more k ≡ some s
      → ((section.name ≡ k) × (section ≡ s)) ⊎ (Dict.get sections k ≡ some s)
  old_or_new k s e = elim (Bool-cases (section.name == k)) [
    | inl same ↦
        inl ((text_eq_iff section.name k).0 same, some-injective _ _ (rw (at k, same) at e))
    | inr differ ↦ inr (rw (at k, differ) at e)
  ]

  served_more :
      (routes : HashMap Text Text) (d : Option Text)
      → IsRouted sections routes d
      → (name : Text) (s : ProviderSection) → Dict.get more name ≡ some s
      → (s.name ≡ name)
        × (has_endpoint s.endpoint_openai s.endpoint_anthropic s.endpoint_interactions ≡ true)
  served_more routes d r name s e = elim (old_or_new name s e) [
    | inl (same, is) ↦
        subst
          (λ (x : ProviderSection).
            (x.name ≡ name)
            × (has_endpoint x.endpoint_openai x.endpoint_anthropic x.endpoint_interactions ≡ true))
          is (same, usable)
    | inr old ↦ r.served name s old
  ]

  pub more-default :
      (routes : HashMap Text Text)
      → IsRouted sections routes none
      → section.model_names ≡ Dict.empty
      → IsRouted more routes (some section.name)
  unfolding Sets.holds Dict.get Dict.lookup
  more-default routes r nothing = record {
    routed = λ model name e.
        let (s, stored, lists) = r.routed model name e in (s, kept name s stored, lists);
    listed = λ model name s e lists. elim (old_or_new name s e) [
      | inl (same, is) ↦ absurd (cc (lists, nothing, is))
      | inr old ↦ r.listed model name s old lists
    ];
    default_there = λ name e.
        (section, subst (λ n. Dict.get more n ≡ some section) (some-injective _ _ e) here);
    served = served_more routes none r;
  }

  pub more-models :
      (routes routes' : HashMap Text Text) (d : Option Text)
      → IsRouted sections routes d
      → add_routes section.name (Dict.keys section.model_names) routes ≡ ok routes'
      → IsRouted more routes' d
  more-models routes routes' d r e = record {
    routed = λ model name there. elim (Bool-cases (Sets.holds section.model_names model)) [
      | inl lists ↦ (
        section,
        subst (λ n. Dict.get more n ≡ some section)
            (some-injective _ _ (rw (route model, lists) at there)) here,
        lists,
      )
      | inr other ↦
          let (s, stored, lists) = r.routed model name (rw (route model, other) at there) in
          (s, kept name s stored, lists)
    ];
    listed = λ model name s stored lists. elim (old_or_new name s stored) [
      | inl (same, is) ↦
          rw
            (
              route model,
              subst (λ (x : ProviderSection). Sets.holds x.model_names model ≡ true) (sym is) lists,
            )
            (ap some same)
      | inr old ↦ elim (Bool-cases (Sets.holds section.model_names model)) [
        | inl twice ↦ absurd (cc (r.listed model name s old lists, unrouted model twice))
        | inr other ↦ rw (route model, other) (r.listed model name s old lists)
      ]
    ];
    default_there =
        λ name there. let (s, stored) = r.default_there name there in (s, kept name s stored);
    served = served_more routes d r;
  }
    where
      route :
          (m : Text)
          → Dict.get routes' m
            ≡ (if Sets.holds section.model_names m then some section.name else Dict.get routes m)
      route m =
          rw (← Sets.any-keys section.model_names m)
            (add_routes-get section.name (Dict.keys section.model_names) routes routes' m e).0

      unrouted : (m : Text) → Sets.holds section.model_names m ≡ true → Dict.get routes m ≡ none
      unrouted m lists =
          (add_routes-get section.name (Dict.keys section.model_names) routes routes' m e).1
            (Sets.any-keys section.model_names m ∙ lists)
