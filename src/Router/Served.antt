-- ===== src/Router/Served.antt =====
-- src/router.rs: the answer of the dispatch on a loaded configuration.
use inf_splitter.Prelude.{
  ==_refl, Bool, Bool-cases, Option, Option-cases, Result, Result-cases, ap, arith, err,
  err-injective, false, inl, inr, none, ok, opt_eq, refl, some, subst, sym, true, ◌∙◌, ◌≡◌,
}
use inf_splitter.Prelude.Dict
use inf_splitter.Prelude.Text.{Text_eq, Text, trim}
use inf_splitter.Diagnostics.Masking.{Codec}
use inf_splitter.Router.{
  Peek, Protocol, Request, Upstream, anthropic, anthropic_messages, choose_upstream,
  dispatch_messages, find_route, interactions, open_ai, openai, peek_model, record_refusal,
  route_model, unknown,
}
use inf_splitter.Config.Route.{RouteTarget, resolve_route}
use inf_splitter.Config.Provider.{ConfigError, Host, empty_text, has_endpoint}
use inf_splitter.Config.Load.{Config, FileConfig, from_file_config}
use inf_splitter.Errors.{AppError, config_error_text, from_config_error, status}
use inf_splitter.Diagnostics.{Diagnostics}
use inf_splitter.Config.Route.Served.{IsAnswer, resolve_route-IsAnswer}

-- the endpoint is the target's own one for the protocol of the upstream
abbrev pub serves : RouteTarget → Upstream → Bool
serves t (openai _ endpoint) = opt_eq t.endpoint_openai (some endpoint)
serves t (anthropic_messages _ endpoint) = opt_eq t.endpoint_anthropic (some endpoint)
serves t (interactions _ endpoint) = opt_eq t.endpoint_interactions (some endpoint)

-- the conversion is from the protocol that the request came in by
abbrev pub accepts : Protocol → Upstream → Bool
accepts open_ai (openai open_ai _) = true
accepts open_ai (anthropic_messages open_ai _) = true
accepts open_ai (interactions open_ai _) = true
accepts anthropic (openai anthropic _) = true
accepts anthropic (anthropic_messages anthropic _) = true
accepts anthropic (interactions anthropic _) = true
accepts _ _ = false

-- whether the handler speaks the protocol that the request came in by
abbrev pub native : Protocol → Upstream → Bool
native open_ai (openai _ _) = true
native anthropic (anthropic_messages _ _) = true
native _ _ = false

abbrev pub native_endpoint : Protocol → RouteTarget → Option Text
native_endpoint open_ai t = t.endpoint_openai
native_endpoint anthropic t = t.endpoint_anthropic

pub record IsChoice (p : Protocol) (t : RouteTarget) (up : Upstream) : Type 0 where
  pub own : serves t up ≡ true
  pub fits : accepts p up ≡ true
  -- a request is converted only where the target has no endpoint of its protocol
  pub prefers : native p up ≡ false → native_endpoint p t ≡ none

-- the target, in a form that shows its three endpoints
with_endpoints : RouteTarget → Option Text → Option Text → Option Text → RouteTarget
with_endpoints t a b c = record t {
  endpoint_openai = a;
  endpoint_anthropic = b;
  endpoint_interactions = c;
}

choose_at :
    (p : Protocol) (t : RouteTarget) (a b c : Option Text)
    → has_endpoint a b c ≡ true
    → (up : Upstream) × (choose_upstream p (with_endpoints t a b c) ≡ ok up)
      × IsChoice p (with_endpoints t a b c) up
unfolding choose_upstream with_endpoints has_endpoint
choose_at open_ai t (some a) b c h = (
  openai open_ai a,
  refl,
  record { own = ==_refl a; fits = refl; prefers = λ n. absurd (ground arith) },
)
choose_at open_ai t none (some b) c h = (
  anthropic_messages open_ai b,
  refl,
  record { own = ==_refl b; fits = refl; prefers = λ n. refl },
)
choose_at open_ai t none none (some c) h =
    (interactions open_ai c, refl, record { own = ==_refl c; fits = refl; prefers = λ n. refl })
choose_at open_ai t none none none h = absurd (ground arith)
choose_at anthropic t a (some b) c h = (
  anthropic_messages anthropic b,
  refl,
  record { own = ==_refl b; fits = refl; prefers = λ n. absurd (ground arith) },
)
choose_at anthropic t (some a) none c h =
    (openai anthropic a, refl, record { own = ==_refl a; fits = refl; prefers = λ n. refl })
choose_at anthropic t none none (some c) h =
    (interactions anthropic c, refl, record { own = ==_refl c; fits = refl; prefers = λ n. refl })
choose_at anthropic t none none none h = absurd (ground arith)

choose_upstream-IsChoice :
    (p : Protocol) (t : RouteTarget)
    → has_endpoint t.endpoint_openai t.endpoint_anthropic t.endpoint_interactions ≡ true
    → (up : Upstream) × (choose_upstream p t ≡ ok up) × IsChoice p t up
unfolding with_endpoints
choose_upstream-IsChoice p t h =
    choose_at p t t.endpoint_openai t.endpoint_anthropic t.endpoint_interactions h

-- the body is text that names the model
abbrev pub Names : Codec → Peek → Request → Text → Type 0
Names codec peek r model =
    (body_str : Text) × (codec.from_utf8 r.body ≡ some body_str)
    × (peek.model_of body_str ≡ ok model)
    × (empty_text (trim model) ≡ false)

-- why a request is refused, with the model that is recorded
pub data Unserved (codec : Codec) (peek : Peek) (config : Config) (r : Request)
    : Text → Type 0 where
  not_text : codec.from_utf8 r.body ≡ none → Unserved codec peek config r unknown
  invalid :
      (body_str message : Text)
      → codec.from_utf8 r.body ≡ some body_str
      → peek.model_of body_str ≡ err message
      → Unserved codec peek config r unknown
  blank :
      (body_str model : Text)
      → codec.from_utf8 r.body ≡ some body_str
      → peek.model_of body_str ≡ ok model
      → empty_text (trim model) ≡ true
      → Unserved codec peek config r unknown
  unroutable :
      (model : Text) (e : ConfigError)
      → Names codec peek r model
      → resolve_route config model ≡ err e
      → Unserved codec peek config r model

-- the two ends of the dispatch
abbrev pub IsDispatched :
    Codec → Peek → Config → Request → Diagnostics → Result AppError Upstream × Diagnostics → Type 0
IsDispatched codec peek config r d (ok up, d') =
    (d' ≡ d)
    × ((model : Text) × Names codec peek r model
        × ((t : RouteTarget) × (resolve_route config model ≡ ok t) × IsChoice r.ingress t up))
IsDispatched codec peek config r d (err e, d') =
    (status e ≡ 400)
    × ((model : Text) × (error : Text) × Unserved codec peek config r model
        × (d' ≡ record_refusal codec r model error d))

abbrev Refused : Codec → Peek → Config → Request → Text × Text × AppError → Type 0
Refused codec peek config r refusal =
    (status refusal.2 ≡ 400) × Unserved codec peek config r refusal.0

peek_model-refusal :
    (codec : Codec) (peek : Peek) (config : Config) (r : Request) (refusal : Text × Text × AppError)
    → peek_model codec peek r ≡ err refusal
    → (status refusal.2 ≡ 400) × Unserved codec peek config r refusal.0
unfolding peek_model status
peek_model-refusal codec peek config r refusal e = elim (Option-cases (codec.from_utf8 r.body)) [
  | inl not_utf8 ↦
      subst (Refused codec peek config r) (err-injective (rw (not_utf8, peek_model) at e))
        (refl, not_text not_utf8)
  | inr (body_str, decoded) ↦ elim (Result-cases (peek.model_of body_str)) [
    | inr (message, bad) ↦
        subst (Refused codec peek config r) (err-injective (rw (decoded, bad, peek_model) at e))
          (refl, invalid body_str message decoded bad)
    | inl (model, parsed) ↦ elim (Bool-cases (empty_text (trim model))) [
      | inl is_blank ↦
          subst (Refused codec peek config r)
            (err-injective (rw (decoded, parsed, is_blank, peek_model) at e))
            (refl, blank body_str model decoded parsed is_blank)
      | inr named ↦ absurd (ground (arith, decoded, parsed, named))
    ]
  ]
]

peek_model-Names :
    (codec : Codec) (peek : Peek) (r : Request) (model : Text)
    → peek_model codec peek r ≡ ok model
    → Names codec peek r model
unfolding peek_model
peek_model-Names codec peek r model e = elim (Option-cases (codec.from_utf8 r.body)) [
  | inl not_utf8 ↦ absurd (ground (arith, not_utf8))
  | inr (body_str, decoded) ↦ elim (Result-cases (peek.model_of body_str)) [
    | inr (message, bad) ↦ absurd (ground (arith, decoded, bad))
    | inl (read, parsed) ↦ elim (Bool-cases (empty_text (trim read))) [
      | inl is_blank ↦ absurd (ground (arith, decoded, parsed, is_blank))
      | inr named ↦
          let same : read ≡ model = ground (arith, decoded, parsed, named) in
          (
            body_str,
            decoded,
            parsed ∙ ap (λ m. ok m) same,
            subst (λ m. empty_text (trim m) ≡ false) same named,
          )
    ]
  ]
]

refused :
    (codec : Codec) (peek : Peek) (config : Config) (r : Request) (d : Diagnostics)
    (refusal : Text × Text × AppError)
    → find_route codec peek config r ≡ err refusal
    → dispatch_messages codec peek config r d
      ≡ (err refusal.2, record_refusal codec r refusal.0 refusal.1 d)
unfolding dispatch_messages
refused codec peek config r d refusal e = rw (e, dispatch_messages) refl

passed_on :
    (codec : Codec) (peek : Peek) (config : Config) (r : Request) (d : Diagnostics)
    (found : Text × RouteTarget)
    → find_route codec peek config r ≡ ok found
    → dispatch_messages codec peek config r d ≡ (choose_upstream r.ingress found.1, d)
unfolding dispatch_messages
passed_on codec peek config r d found e = rw (e, dispatch_messages) refl

module _ (codec : Codec) (peek : Peek) (config : Config) (r : Request) (d : Diagnostics)
    (answer : (model : Text) → IsAnswer config model (resolve_route config model)) where
  refusal-IsDispatched :
      (refusal : Text × Text × AppError)
      → find_route codec peek config r ≡ err refusal
      → Refused codec peek config r refusal
      → IsDispatched codec peek config r d (dispatch_messages codec peek config r d)
  refusal-IsDispatched refusal e (is_400, why) =
      subst (IsDispatched codec peek config r d)
        {x = (err refusal.2, record_refusal codec r refusal.0 refusal.1 d)}
        (sym (refused codec peek config r d refusal e)) (is_400, (refusal.0, refusal.1, why, refl))

  route-IsDispatched :
      (model : Text) (t : RouteTarget)
      → peek_model codec peek r ≡ ok model
      → resolve_route config model ≡ ok t
      → IsDispatched codec peek config r d (dispatch_messages codec peek config r d)
  unfolding find_route route_model
  route-IsDispatched model t peeked resolved =
      let (usable, _) = subst (IsAnswer config model) resolved (answer model) in
      let (up, chosen, choice) = choose_upstream-IsChoice r.ingress t usable in
      subst (IsDispatched codec peek config r d) {x = (ok up, d)}
        (sym (
          passed_on codec peek config r d (model, t) (rw (peeked, resolved) refl)
          ∙ ap (λ c. (c, d)) chosen))
        (refl, (model, peek_model-Names codec peek r model peeked, (t, resolved, choice)))

  pub dispatch-IsDispatched :
      IsDispatched codec peek config r d (dispatch_messages codec peek config r d)
  unfolding find_route route_model from_config_error status
  dispatch-IsDispatched = elim (Result-cases (peek_model codec peek r)) [
    | inr (refusal, e) ↦
        refusal-IsDispatched refusal (rw e refl) (peek_model-refusal codec peek config r refusal e)
    | inl (model, peeked) ↦ elim (Result-cases (resolve_route config model)) [
      | inl (t, resolved) ↦ route-IsDispatched model t peeked resolved
      | inr (e, no_route) ↦
          let (is, _, _) = subst (IsAnswer config model) no_route (answer model) in
          refusal-IsDispatched (model, config_error_text e, from_config_error e)
            (rw (peeked, no_route) refl)
            (
              ap (λ x. status (from_config_error x)) is,
              unroutable model e (peek_model-Names codec peek r model peeked) no_route,
            )
    ]
  ]

-- On a configuration loaded from a file with distinct section names, a request is either handed to an upstream or refused. It is handed over only where its body is text in which the JSON library reads a model that is not blank: to an endpoint of the target that this model resolves to, in the handler for the protocol it came in by and by a conversion only where the target has no endpoint of that protocol, and nothing is recorded yet. It is refused with status 400 and one call of record_refusal where its body is no text, or no model is read in it, or the model is blank, or the model does not resolve, in which case the model is recorded. The error 500 for a target without an endpoint never occurs.
pub dispatch_messages-IsDispatched :
    (codec : Codec) (peek : Peek) (host : Host) (config_file : FileConfig) (config : Config)
    (r : Request) (d : Diagnostics)
    → Dict.Apart config_file.providers
    → from_file_config host config_file ≡ ok config
    → IsDispatched codec peek config r d (dispatch_messages codec peek config r d)
dispatch_messages-IsDispatched codec peek host config_file config r d apart loaded =
    dispatch-IsDispatched codec peek config r d
      (λ model. resolve_route-IsAnswer host config_file config model apart loaded)
