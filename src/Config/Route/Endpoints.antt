-- ===== src/Config/Route/Endpoints.antt =====
-- src/config.rs: the endpoints that `upstream_endpoints` lists.
use inf_splitter.Prelude.{
  Bool, Bool-cases, List, Option, [], any, ap, arith, false, inl, inr, none, opt_eq, refl, some,
  true, ◌++◌, ◌==◌, ◌||◌, ◌∷◌, ◌≡◌,
}
use inf_splitter.Prelude.Dict
use inf_splitter.Prelude.Sets
use inf_splitter.Prelude.Text.{Text_eq, Text, text_eq_iff}
use inf_splitter.Prelude.Sets.{HashSet}
use inf_splitter.Config.Route.{
  Endpoint, note_endpoint, note_section, note_sections, upstream_endpoints,
}
use inf_splitter.Config.Provider.{ProviderSection}
use inf_splitter.Config.Load.{Config}

abbrev pub lists : List Endpoint → Text → Bool
lists result ep = any (λ entry. entry.1 == ep) result

-- no endpoint stands twice in the list
abbrev pub Once : List Endpoint → Type 0
Once [] = Unit {0}
Once (entry ∷ result) = (lists result entry.1 ≡ false) × Once result

-- the set of what was seen is what the list has
pub record IsNoted (seen : HashSet Text) (result : List Endpoint) : Type 0 where
  pub same : (ep : Text) → Sets.holds seen ep ≡ lists result ep
  pub once : Once result

lists-append :
    (result : List Endpoint) (entry : Endpoint) (ep : Text)
    → lists (result ++ entry ∷ []) ep ≡ (lists result ep || entry.1 == ep)
lists-append [] entry ep = ground arith
lists-append (x ∷ result) entry ep = ground (arith, lists-append result entry ep)

Once-append :
    (result : List Endpoint) (entry : Endpoint)
    → Once result
    → lists result entry.1 ≡ false
    → Once (result ++ entry ∷ [])
Once-append [] entry o fresh = (refl, tt)
Once-append (x ∷ result) entry (other, o) fresh = (
  ground (arith, lists-append result entry x.1, text_eq_iff x.1 entry.1, text_eq_iff entry.1 x.1),
  Once-append result entry o (ground arith),
)

note_endpoint-IsNoted :
    (name : Text) (ep : Option Text) (i : Bool) (seen : HashSet Text) (result : List Endpoint)
    → IsNoted seen result
    → let next = note_endpoint name ep i (seen, result) in
      IsNoted next.0 next.1 × ((e : Text) → lists next.1 e ≡ (lists result e || opt_eq ep (some e)))
unfolding note_endpoint
note_endpoint-IsNoted name none i seen result n = (n, λ e. ground arith)
note_endpoint-IsNoted name (some ep) i seen result n = elim (Bool-cases (Sets.holds seen ep)) [
  | inl there ↦
      rw (there, note_endpoint)
        (n, λ e. ground (arith, n.same ep, text_eq_iff ep e, there, same_at e))
  | inr fresh ↦
      rw (fresh, note_endpoint)
        (
          record {
            same = λ e.
                ground (
                  arith,
                  Sets.holds-insert seen ep e,
                  lists-append result (name, ep, i) e,
                  n.same e,
                );
            once = Once-append result (name, ep, i) n.once (ground (arith, n.same ep));
          },
          λ e. lists-append result (name, ep, i) e,
        )
]
  where
    same_at : (e : Text) → (ep == e) ≡ true → lists result ep ≡ lists result e
    same_at e h = ap (lists result) ((text_eq_iff ep e).0 h)

-- the section has the endpoint, under one of the three protocols
abbrev pub offers : ProviderSection → Text → Bool
offers section e =
    opt_eq section.endpoint_openai (some e)
    || opt_eq section.endpoint_anthropic (some e)
    || opt_eq section.endpoint_interactions (some e)

note_section-IsNoted :
    (section : ProviderSection) (acc : HashSet Text × List Endpoint)
    → IsNoted acc.0 acc.1
    → IsNoted (note_section section acc).0 (note_section section acc).1
      × ((e : Text) → lists (note_section section acc).1 e ≡ (lists acc.1 e || offers section e))
unfolding note_section
note_section-IsNoted section acc n =
    let one = note_endpoint section.name section.endpoint_openai false acc in
    let two = note_endpoint section.name section.endpoint_anthropic false one in
    let (n1, l1) = note_endpoint-IsNoted section.name section.endpoint_openai false acc.0 acc.1 n in
    let (n2, l2) =
      note_endpoint-IsNoted section.name section.endpoint_anthropic false one.0 one.1 n1 in
    let (n3, l3) =
      note_endpoint-IsNoted section.name section.endpoint_interactions true two.0 two.1 n2 in
    (n3, λ e. ground (arith, l1 e, l2 e, l3 e))

note_sections-IsNoted :
    (sections : List ProviderSection) (acc : HashSet Text × List Endpoint)
    → IsNoted acc.0 acc.1
    → IsNoted (note_sections sections acc).0 (note_sections sections acc).1
      × ((e : Text)
          → lists (note_sections sections acc).1 e
            ≡ (lists acc.1 e || any (λ section. offers section e) sections))
unfolding note_sections
note_sections-IsNoted [] acc n = (n, λ e. ground arith)
note_sections-IsNoted (section ∷ sections) acc n =
    let (n1, l1) = note_section-IsNoted section acc n in
    let (n2, l2) = note_sections-IsNoted sections (note_section section acc) n1 in
    (n2, λ e. ground (arith, l1 e, l2 e))

nothing-IsNoted : IsNoted Dict.empty []
unfolding Sets.holds Dict.get Dict.lookup
nothing-IsNoted = record { same = λ ep. refl; once = tt }

-- upstream_endpoints lists each endpoint once, and lists exactly the endpoints that some section has for one of the three protocols.
pub upstream_endpoints-Once :
    (c : Config)
    → Once (upstream_endpoints c)
      × ((e : Text)
          → lists (upstream_endpoints c) e
            ≡ any (λ section. offers section e) (Dict.values c.sections))
unfolding upstream_endpoints
upstream_endpoints-Once c =
    let (n, l) = note_sections-IsNoted (Dict.values c.sections) (Dict.empty, []) nothing-IsNoted in
    (n.once, l)
