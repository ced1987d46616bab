-- ===== src/Config/Route/Served.antt =====
-- src/config.rs: what `resolve_route` answers on a loaded configuration.
use inf_splitter.Prelude.{
  Bool-cases, Option-cases, Result, ap, err, false, inl, inr, none, ok, refl, some, subst, sym,
  true, ◌∙◌, ◌≡◌, ◌⊎◌,
}
use inf_splitter.Prelude.Dict
use inf_splitter.Prelude.Sets
use inf_splitter.Prelude.Text.{Text_eq, Text}
use inf_splitter.Config.Load.{Config, FileConfig, from_file_config}
use inf_splitter.Config.Route.{RouteTarget, resolve_route, section_name, target_of}
use inf_splitter.Config.Load.Loaded.{IsLoaded}
use inf_splitter.Config.Provider.{
  ConfigError, Host, ProviderSection, has_endpoint, unroutable_model,
}
use inf_splitter.Config.Load.Loop.{from_file_config-IsLoaded}

-- the two answers for a model
abbrev pub IsAnswer : Config → Text → Result ConfigError RouteTarget → Type 0
IsAnswer c model (ok target) =
    (has_endpoint target.endpoint_openai target.endpoint_anthropic target.endpoint_interactions
      ≡ true)
    × ((Sets.holds target.model_names model ≡ true) ⊎ (c.default_section ≡ some target.section))
IsAnswer c model (err e) =
    (e ≡ unroutable_model model)
    × (c.default_section ≡ none)
    × ((name : Text) (section : ProviderSection)
        → Dict.get c.sections name ≡ some section
        → Sets.holds section.model_names model ≡ false)

found :
    (c : Config) (model name : Text) (section : ProviderSection)
    → section_name c model ≡ some name
    → Dict.get c.sections name ≡ some section
    → resolve_route c model ≡ ok (target_of c section)
unfolding resolve_route
found c model name section named stored = rw (named, stored, resolve_route) refl

found-IsAnswer :
    (c : Config) (model name : Text) (section : ProviderSection)
    → IsLoaded c
    → Dict.get c.sections name ≡ some section
    → (Sets.holds section.model_names model ≡ true) ⊎ (c.default_section ≡ some name)
    → section_name c model ≡ some name
    → IsAnswer c model (resolve_route c model)
found-IsAnswer c model name section l stored why named =
    let (same, usable) = l.served name section stored in
    subst (IsAnswer c model) {x = ok (target_of c section)}
      (sym (found c model name section named stored))
      (
        usable,
        elim why [ inl lists ↦ inl lists | inr default ↦ inr (default ∙ ap some (sym same)) ],
      )

answer : (c : Config) (model : Text) → IsLoaded c → IsAnswer c model (resolve_route c model)
unfolding section_name resolve_route
answer c model l = elim (Option-cases (Dict.get c.model_routes model)) [
  | inr (name, routed) ↦
      let (section, stored, lists) = l.routed model name routed in
      found-IsAnswer c model name section l stored (inl lists) (rw routed refl)
  | inl unlisted ↦ elim (Option-cases c.default_section) [
    | inr (name, default) ↦
        let (section, stored) = l.default_there name default in
        found-IsAnswer c model name section l stored (inr default) (rw unlisted default)
    | inl no_default ↦
        subst (IsAnswer c model) {x = err (unroutable_model model)}
          (sym (nowhere (rw unlisted no_default)))
          (
            refl,
            no_default,
            λ name section stored. elim (Bool-cases (Sets.holds section.model_names model)) [
              | inl lists ↦ absurd (cc (l.listed model name section stored lists, unlisted))
              | inr other ↦ other
            ],
          )
  ]
]
  where
    nowhere : section_name c model ≡ none → resolve_route c model ≡ err (unroutable_model model)
    nowhere e = rw (e, resolve_route) refl

-- On a configuration loaded from a file with distinct section names, resolve_route never gives the internal error: it gives a target with an endpoint whose section lists the model or is the default section, or the error that the model is unroutable, and then no section lists it and there is no default section.
pub resolve_route-IsAnswer :
    (host : Host) (config_file : FileConfig) (c : Config) (model : Text)
    → Dict.Apart config_file.providers
    → from_file_config host config_file ≡ ok c
    → IsAnswer c model (resolve_route c model)
resolve_route-IsAnswer host config_file c model apart loaded =
    answer c model (from_file_config-IsLoaded host config_file c apart loaded)

-- On a configuration loaded from a file with distinct section names, a model that a section lists is routed to that section, with the section's own values and the defaults for the token limits that it leaves out, whatever the other sections are.
resolve_route-listed :
    (host : Host) (config_file : FileConfig) (c : Config) (model name : Text)
    (section : ProviderSection)
    → Dict.Apart config_file.providers
    → from_file_config host config_file ≡ ok c
    → Dict.get c.sections name ≡ some section
    → Sets.holds section.model_names model ≡ true
    → resolve_route c model ≡ ok (target_of c section)
unfolding section_name
resolve_route-listed host config_file c model name section apart loaded stored lists =
    let l = from_file_config-IsLoaded host config_file c apart loaded in
    found c model name section (rw (l.listed model name section stored lists) refl) stored
