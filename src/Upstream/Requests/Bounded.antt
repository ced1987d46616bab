-- ===== src/Upstream/Requests/Bounded.antt =====
-- src/openai.rs: the token limits of a request that is sent to an OpenAI upstream.
use inf_splitter.Prelude.{
  Bool, Bool-cases, Option, Option-cases, ap, arith, if◌then◌else◌, inl, inr, ltb, none, refl, some,
  some-injective, subst, sym, ℕ, ◌==◌, ◌≡◌, ◌≤◌, ◌⊎◌,
}
use inf_splitter.Prelude.Dict
use inf_splitter.Prelude.Text.{Text_eq, Text, u64_max}
use inf_splitter.Upstream.Requests.{
  ChatCompletionRequest, cap_completion, cap_existing, cap_extra, cap_openai_max_tokens, cap_or_set,
  extra_u64, legacy_tokens, limited, openai_egress, sanitize_openai_egress,
}
use inf_splitter.Config.Route.{RouteTarget}
use inf_splitter.Diagnostics.Details.{JsonValues}
use inf_splitter.Prelude.Bytes.{chars}
use inf_splitter.Prelude.Dict.{HashMap}

-- the number is there, and within the limit
abbrev pub Within : ℕ → Option ℕ → Type 0
Within limit sent = (n : ℕ) × (sent ≡ some n) × (n ≤ limit)

cap_or_set-Within : (existing : Option ℕ) (limit : ℕ) → Within limit (cap_or_set existing limit)
unfolding cap_or_set
cap_or_set-Within none limit = (limit, refl, omega arith)
cap_or_set-Within (some existing) limit = elim (Bool-cases (ltb limit existing)) [
  | inl above ↦ rw (above, cap_or_set) (limit, refl, omega arith)
  | inr within ↦ rw (within, cap_or_set) (existing, refl, ground (arith, within))
]

pub record IsBounded {Value : Type 0} (json : JsonValues Value) (route : RouteTarget)
    (sent : ChatCompletionRequest Value) : Type 0 where
  pub completion :
      (limit : ℕ)
      → route.max_completion_tokens ≡ some limit
      → Within limit sent.max_completion_tokens
  pub tokens :
      (limit : ℕ)
      → route.max_completion_tokens ≡ none
      → route.max_tokens ≡ some limit
      → Within limit sent.max_tokens ⊎ Within limit sent.max_completion_tokens
  pub output :
      (limit : ℕ)
      → route.max_output_tokens ≡ some limit
      → limit ≤ u64_max
      → Within limit (extra_u64 json sent.extra (chars "max_output_tokens"))
  pub one : (sent.max_tokens ≡ none) ⊎ (sent.max_completion_tokens ≡ none)
  pub stripped :
      (Dict.get sent.extra (chars "context_management") ≡ none)
      × (Dict.get sent.extra (chars "output_config") ≡ none)

limited-Within :
    (configured existing : Option ℕ) (limit : ℕ)
    → configured ≡ some limit
    → Within limit (limited configured existing)
limited-Within none existing limit e = absurd (cc e)
limited-Within (some c) existing limit e =
    subst (λ x. Within x (cap_or_set existing c)) (some-injective c limit e)
      (cap_or_set-Within existing c)

cap_existing-own :
    (own limit existing : Option ℕ) (n : ℕ)
    → own ≡ some n
    → cap_existing own limit existing ≡ existing
unfolding cap_existing
cap_existing-own none limit existing n e = absurd (cc e)
cap_existing-own (some m) limit existing n e = refl

-- one of the two numbers is sent, and it is within the limit
legacy_tokens-Within :
    (own configured existing legacy : Option ℕ) (limit : ℕ)
    → own ≡ none
    → configured ≡ some limit
    → Within limit legacy
    → let completion = cap_existing own configured (limited own existing) in
      Within limit (legacy_tokens completion legacy) ⊎ Within limit completion
unfolding legacy_tokens cap_existing
legacy_tokens-Within (some _) configured existing legacy limit e1 e2 w = absurd (cc e1)
legacy_tokens-Within none none existing legacy limit e1 e2 w = absurd (cc e2)
legacy_tokens-Within none (some c) none legacy limit e1 e2 w = inl w
legacy_tokens-Within none (some c) (some existing) legacy limit e1 e2 w =
    elim (Bool-cases (ltb c existing)) [
      | inl above ↦ rw above (inr (c, refl, omega (arith, some-injective c limit e2)))
      | inr within ↦
          rw within (inr (existing, refl, ground (arith, within, some-injective c limit e2)))
    ]

legacy_tokens-one :
    (completion legacy : Option ℕ) → (legacy_tokens completion legacy ≡ none) ⊎ (completion ≡ none)
unfolding legacy_tokens
legacy_tokens-one (some _) legacy = inl refl
legacy_tokens-one none legacy = inr refl

module _ {Value : Type 0} (json : JsonValues Value) where
  -- only the entry of the limit is written, with a number that is within it
  cap_extra-Within :
      (extra : HashMap Text Value) (limit : ℕ)
      → limit ≤ u64_max
      → Within limit
          (extra_u64 json (cap_extra json (some limit) extra) (chars "max_output_tokens"))
  unfolding cap_extra extra_u64
  cap_extra-Within extra limit small =
      let key = chars "max_output_tokens" in
      let written : extra_u64 json (Dict.insert extra key (json.object.number limit)) key
          ≡ some limit =
        rw (Dict.get-insert extra key key (json.object.number limit), extra_u64)
          (json.object.as_u64-number limit small) in
      elim (Option-cases (extra_u64 json extra key)) [
        | inl missing ↦ rw (missing, cap_extra) (limit, written, omega arith)
        | inr (existing, there) ↦ elim (Bool-cases (ltb limit existing)) [
          | inl above ↦ rw (there, above, cap_extra) (limit, written, omega arith)
          | inr within ↦ rw (there, within, cap_extra) (existing, there, ground (arith, within))
        ]
      ]

  without_fields :
      (extra : HashMap Text Value) (key : Text)
      → Dict.get
          (Dict.remove (Dict.remove extra (chars "context_management")) (chars "output_config"))
          key
        ≡ (if chars "output_config" == key
            then none
            else (if chars "context_management" == key then none else Dict.get extra key))
  without_fields extra key =
      rw
        (Dict.get-remove (Dict.remove extra (chars "context_management")) (chars "output_config")
          key)
        (rw (Dict.get-remove extra (chars "context_management") key) refl)

  extra_u64-same :
      (a b : HashMap Text Value) (key : Text)
      → Dict.get a key ≡ Dict.get b key
      → extra_u64 json a key ≡ extra_u64 json b key
  unfolding extra_u64
  extra_u64-same a b key same =
      ap (λ o. elim o as (λ _. Option ℕ) [ none ↦ none | some v ↦ json.object.as_u64 v ]) same

  pub openai_egress-IsBounded :
      (streaming : Bool) (route : RouteTarget) (req : ChatCompletionRequest Value)
      → IsBounded json route (openai_egress json streaming route req)
  unfolding openai_egress sanitize_openai_egress cap_completion cap_openai_max_tokens
  openai_egress-IsBounded streaming route req = record {
    completion = λ limit e.
        subst (Within limit)
          (sym (
            cap_existing-own route.max_completion_tokens route.max_tokens
              (limited route.max_completion_tokens req.max_completion_tokens) limit e))
          (limited-Within route.max_completion_tokens req.max_completion_tokens limit e);
    tokens = λ limit e1 e2.
        legacy_tokens-Within route.max_completion_tokens route.max_tokens req.max_completion_tokens
          _ limit e1 e2 (limited-Within route.max_tokens req.max_tokens limit e2);
    output = λ limit e small. rw e (
        subst (Within limit)
          (sym (
            extra_u64-same _ (cap_extra json (some limit) req.extra) (chars "max_output_tokens")
              (without_fields _ (chars "max_output_tokens"))))
          (cap_extra-Within req.extra limit small));
    one = legacy_tokens-one _ _;
    stripped =
        (without_fields _ (chars "context_management"), without_fields _ (chars "output_config"));
  }
