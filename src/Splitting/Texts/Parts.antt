-- ===== src/Splitting/Texts/Parts.antt =====
-- src/interactions_handler.rs: the parts of a text at a delimiter, as `str::split` gives them.
use inf_splitter.Prelude.{
  All, Bool-cases, List, [], ap, append-nil, append_assoc, arith, drop, false, inl, inr, length,
  refl, subst, suc, sym, true, zero, ℕ, ◌++◌, ◌-◌, ◌∙◌, ◌∷◌, ◌≡◌,
}
use inf_splitter.Prelude.Text.{Text, contains, starts_with}
use inf_splitter.Splitting.Texts.{onto_first, split_on}

-- a contiguous part of a text
abbrev pub Inside : Text → Text → Type 0
Inside w s = (before : Text) × (after : Text) × (s ≡ before ++ (w ++ after))

pub Inside-self : (s : Text) → Inside s s
Inside-self s = ([], [], sym (append-nil s))

pub Inside-trans : (a b c : Text) → Inside a b → Inside b c → Inside a c
Inside-trans a b c (p, q, e) (p', q', e') = (
  p' ++ p,
  q ++ q',
  e'
      ∙ ap (λ r. p' ++ (r ++ q')) e
      ∙ ap (λ r. p' ++ r) (append_assoc p (a ++ q) q' ∙ ap (λ r. p ++ r) (append_assoc a q q'))
      ∙ sym (append_assoc p' p (a ++ (q ++ q'))),
)

Inside-cons : (c : ℕ) (w s : Text) → Inside w s → Inside w (c ∷ s)
Inside-cons c w s (p, q, e) = (c ∷ p, q, ap (λ r. c ∷ r) e)

Inside-drop : (n : ℕ) (w s : Text) → Inside w (drop n s) → Inside w s
Inside-drop zero w s i = i
Inside-drop (suc n) w [] i = i
Inside-drop (suc n) w (c ∷ s) i = Inside-cons c w s (Inside-drop n w s i)

starts_with-append : (d p q : Text) → starts_with d p ≡ true → starts_with d (p ++ q) ≡ true
unfolding starts_with
starts_with-append [] p q h = refl
starts_with-append (a ∷ d) [] q h = absurd (ground arith)
starts_with-append (a ∷ d) (c ∷ p) q h = ground (arith, starts_with-append d p q)

starts_with-prefix : (d p q : Text) → starts_with d (p ++ q) ≡ false → starts_with d p ≡ false
starts_with-prefix d p q h = elim (Bool-cases (starts_with d p)) [
  | inl match ↦ absurd (cc (starts_with-append d p q match, h))
  | inr other ↦ other
]

contains-prefix : (d p q : Text) → contains d (p ++ q) ≡ false → contains d p ≡ false
unfolding contains
contains-prefix d [] [] h = h
contains-prefix d [] (c ∷ q) h = ground (arith, starts_with-prefix d [] (c ∷ q))
contains-prefix d (c ∷ p) q h =
    ground (arith, starts_with-prefix d (c ∷ p) q, contains-prefix d p q)

contains-suffix : (d p q : Text) → contains d (p ++ q) ≡ false → contains d q ≡ false
unfolding contains
contains-suffix d [] q h = h
contains-suffix d (c ∷ p) q h = ground (arith, contains-suffix d p q)

pub contains-Inside : (d w s : Text) → Inside w s → contains d s ≡ false → contains d w ≡ false
contains-Inside d w s (p, q, e) h =
    contains-prefix d w q (contains-suffix d p (w ++ q) (ap (contains d) (sym e) ∙ h))

contains-cons :
    (d : Text) (c : ℕ) (s : Text)
    → starts_with d (c ∷ s) ≡ false
    → contains d s ≡ false
    → contains d (c ∷ s) ≡ false
unfolding contains
contains-cons d c s here rest = ground (arith, here, rest)

-- a part has no delimiter
abbrev pub IsPart : Text → Text → Text → Type 0
IsPart d s p = Inside p s × (contains d p ≡ false)

pub record Parts (d s : Text) (parts : List Text) : Type 0 where
  pub first : Text
  pub more : List Text
  pub after : Text
  pub is : parts ≡ first ∷ more
  pub begins : s ≡ first ++ after
  pub whole : contains d first ≡ false
  pub others : All (IsPart d s) more
  pub single : more ≡ [] → contains d s ≡ false

All-IsPart :
    (d s s' : Text) (parts : List Text)
    → ((w : Text) → Inside w s → Inside w s')
    → All (IsPart d s) parts
    → All (IsPart d s') parts
All-IsPart d s s' [] lift a = tt
All-IsPart d s s' (p ∷ parts) lift ((i, free), a) =
    ((lift p i, free), All-IsPart d s s' parts lift a)

pub Parts-All : (d s : Text) (parts : List Text) → Parts d s parts → All (IsPart d s) parts
Parts-All d s parts v =
    subst (All (IsPart d s)) (sym v.is) ((([], v.after, v.begins), v.whole), v.others)

contains-nil : (a : ℕ) (d : Text) → contains (a ∷ d) [] ≡ false
unfolding contains starts_with
contains-nil a d = refl

pub split_on-Parts :
    (a : ℕ) (d : Text) (skip : ℕ) (s : Text) → Parts (a ∷ d) (drop skip s) (split_on (a ∷ d) skip s)
unfolding split_on
split_on-Parts a d zero [] = record {
  first = [];
  more = [];
  after = [];
  is = refl;
  begins = refl;
  whole = contains-nil a d;
  others = tt;
  single = λ one. contains-nil a d;
}
split_on-Parts a d (suc skip) [] = record {
  first = [];
  more = [];
  after = [];
  is = refl;
  begins = refl;
  whole = contains-nil a d;
  others = tt;
  single = λ one. contains-nil a d;
}
split_on-Parts a d (suc skip) (c ∷ s) = split_on-Parts a d skip s
split_on-Parts a d zero (c ∷ s) = elim (Bool-cases (starts_with (a ∷ d) (c ∷ s))) [
  | inl match ↦
      let n = length (a ∷ d) - 1 in
      let v = split_on-Parts a d n s in
      rw (match, split_on)
        (record {
          first = [];
          more = split_on (a ∷ d) n s;
          after = c ∷ s;
          is = refl;
          begins = refl;
          whole = contains-nil a d;
          others =
              All-IsPart (a ∷ d) (drop n s) (c ∷ s) (split_on (a ∷ d) n s)
                (λ w i. Inside-cons c w s (Inside-drop n w s i))
                (Parts-All (a ∷ d) (drop n s) (split_on (a ∷ d) n s) v);
          single = λ one. absurd (cc (one, v.is));
        })
  | inr other ↦
      let v = split_on-Parts a d zero s in
      let starts : starts_with (a ∷ d) (c ∷ v.first) ≡ false =
        starts_with-prefix (a ∷ d) (c ∷ v.first) v.after
          (ap (λ r. starts_with (a ∷ d) (c ∷ r)) (sym v.begins) ∙ other) in
      rw (other, split_on)
        (record {
          first = c ∷ v.first;
          more = v.more;
          after = v.after;
          is = ap (onto_first c) v.is;
          begins = ap (λ r. c ∷ r) v.begins;
          whole = contains-cons (a ∷ d) c v.first starts v.whole;
          others = All-IsPart (a ∷ d) s (c ∷ s) v.more (λ w i. Inside-cons c w s i) v.others;
          single = λ one. contains-cons (a ∷ d) c s other (v.single one);
        })
]
