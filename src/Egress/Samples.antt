-- ===== src/Egress/Samples.antt =====
-- JSON objects as chains of fields, and a route with limits, for the tests.
use inf_splitter.Prelude.{
  Option, [], arith, if◌then◌else◌, none, refl, some, some-injective, ℕ, ◌==◌, ◌∷◌, ◌≡◌,
}
use inf_splitter.Prelude.Text.{Text_eq, Text, text_eq_iff}
use inf_splitter.Egress.{JsonObject}
use inf_splitter.Config.Route.{RouteTarget, target_of}
use inf_splitter.Prelude.Bytes.{chars}
use inf_splitter.Egress.Capped.{HasU32Caps}
use inf_splitter.Config.Samples.{loaded, section_a}
use inf_splitter.Config.Fields.{for_all}

pub data Doc : Type 0 where
  nothing : Doc
  num : ℕ → Doc
  str : Text → Doc
  field : Text → Doc → Doc → Doc

abbrev pub doc_get : Doc → Text → Option Doc
doc_get (field k v rest) j = if k == j then some v else doc_get rest j
doc_get _ j = none

abbrev pub doc_remove : Doc → Text → Doc
doc_remove (field k v rest) j = let r = doc_remove rest j in if k == j then r else field k v r
doc_remove other j = other

pub doc_get-remove :
    (v : Doc) (k j : Text) → doc_get (doc_remove v k) j ≡ (if k == j then none else doc_get v j)
doc_get-remove nothing k j = ground arith
doc_get-remove (num n) k j = ground arith
doc_get-remove (str s) k j = ground arith
doc_get-remove (field i v rest) k j =
    ground (arith, doc_get-remove rest k j, text_eq_iff i k, text_eq_iff i j, text_eq_iff k j)

abbrev pub docs : JsonObject Doc
docs = record {
  get = doc_get;
  as_u64 = λ v. elim v [ num n ↦ some n | _ ↦ none ];
  number = num;
  set = λ v k x. field k x v;
  remove = doc_remove;
  as_u64-number = λ n small. refl;
  get-set = λ v k j x. refl;
  get-remove = doc_get-remove;
}

abbrev pub route : RouteTarget
route = record (target_of loaded section_a) {
  max_tokens = some 100;
  drop_fields = for_all (record { entries = (chars "seed", tt) ∷ [] });
}

pub route_caps : HasU32Caps route
route_caps = record {
  tokens = λ limit e. omega (arith, some-injective 100 limit e);
  output = λ limit e. absurd (cc e);
  completion = λ limit e. absurd (cc e);
}

abbrev pub body : Doc
body = field (chars "max_tokens") (num 500) (field (chars "seed") (num 1) nothing)
