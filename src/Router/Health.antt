-- ===== src/Router/Health.antt =====
-- src/router.rs: `health`. Times are milliseconds; `Prober` is the HTTP client with its time limit.
use inf_splitter.Prelude.{
  ℕ_eq, Bool, List, Option, [], all, ap, arith, false, if◌then◌else◌, ltb, map, none, refl, some,
  subst, sym, true, ℕ, ◌&&◌, ◌++◌, ◌-◌, ◌<◌, ◌==◌, ◌∙◌, ◌∷◌, ◌≡◌,
}
use inf_splitter.Prelude.Dict
use inf_splitter.Prelude.Text.{Text_eq, Text}
use inf_splitter.Config.Route.{Endpoint, upstream_endpoints}
use inf_splitter.Config.Load.{Config}
use inf_splitter.Prelude.Bytes.{chars}
use inf_splitter.Prelude.Dict.{HashMap}

pub record HealthResponse : Type 0 where
  pub status : Text
  pub upstreams : HashMap Text Text

pub data Probe : Type 0 where
  answered : Probe
  unreachable : Probe
  timeout : Probe

-- GET (true) or HEAD of a URL
abbrev pub Prober : Type 0
Prober = Bool → Text → Probe

abbrev pub cache_ttl_ms : ℕ
cache_ttl_ms = 5000

-- the text before the first question mark
unfoldable pub before_query : Text → Text
before_query [] = []
before_query (c ∷ s) = let rest = before_query s in if c == b'?' then [] else c ∷ rest

unfoldable pub probe_url : Text → Bool → Text
probe_url endpoint true = endpoint
probe_url endpoint false = before_query endpoint ++ b'/' ∷ []

abbrev pub probe_text : Probe → Text
probe_text answered = chars "ok"
probe_text unreachable = chars "unreachable"
probe_text timeout = chars "timeout"

unfoldable pub check_endpoint : Prober → Endpoint → Text × Text
check_endpoint probe (name, endpoint, is_interactions) =
    (name, probe_text (probe is_interactions (probe_url endpoint is_interactions)))

-- the loop over the results: whether all are ok, and the statuses by section
unfoldable pub gather : List (Text × Text) → Bool → HashMap Text Text → Bool × HashMap Text Text
gather [] all_ok upstreams = (all_ok, upstreams)
gather ((name, status) ∷ results) all_ok upstreams =
    gather results (all_ok && status == chars "ok") (Dict.insert upstreams name status)

abbrev pub response_of : Bool × HashMap Text Text → HealthResponse
response_of (all_ok, upstreams) = record {
  status = if all_ok then chars "ok" else chars "degraded";
  upstreams = upstreams;
}

abbrev pub status_code : Bool → ℕ
status_code ok_now = if ok_now then 200 else 503

abbrev pub Cache : Type 0
Cache = Option (ℕ × HealthResponse)

-- the cached answer, where it is young enough
unfoldable pub cached_answer : ℕ → Cache → Option (ℕ × HealthResponse)
cached_answer now none = none
cached_answer now (some (cached_at, response)) =
    if ltb (now - cached_at) cache_ttl_ms
    then some (status_code (response.status == chars "ok"), response)
    else none

-- the answer of the probes of all endpoints
unfoldable pub probe_all : Prober → Config → Bool × HashMap Text Text
probe_all probe config =
    gather (map (check_endpoint probe) (upstream_endpoints config)) true Dict.empty

-- `now` is read at the start and `later` when the cache is written
unfoldable pub health : Prober → ℕ → ℕ → Config → Cache → (ℕ × HealthResponse) × Cache
health probe now later config cache = elim (cached_answer now cache) [
  | some answer ↦ (answer, cache)
  | none ↦
      let checked = probe_all probe config in
      ((status_code checked.0, response_of checked), some (later, response_of checked))
]

probe-ok : (p : Probe) → (probe_text p == chars "ok") ≡ elim p [ answered ↦ true | _ ↦ false ]
probe-ok answered = refl
probe-ok unreachable = refl
probe-ok timeout = refl

-- the probe of the endpoint gets an answer
abbrev pub answers : Prober → Endpoint → Bool
answers probe (name, endpoint, is_interactions) =
    elim (probe is_interactions (probe_url endpoint is_interactions)) [
      | answered ↦ true
      | _ ↦ false
    ]

gather-all :
    (probe : Prober) (endpoints : List Endpoint) (all_ok : Bool) (upstreams : HashMap Text Text)
    → (gather (map (check_endpoint probe) endpoints) all_ok upstreams).0
      ≡ (all_ok && all (answers probe) endpoints)
unfolding gather check_endpoint
gather-all probe [] all_ok upstreams = ground arith
gather-all probe ((name, endpoint, i) ∷ endpoints) all_ok upstreams =
    gather-all probe endpoints _ _ ∙ ground (arith, probe-ok (probe i (probe_url endpoint i)))

health-fresh :
    (probe : Prober) (now later : ℕ) (config : Config) (cache : Cache)
    → cached_answer now cache ≡ none
    → health probe now later config cache ≡ (
      (status_code (probe_all probe config).0, response_of (probe_all probe config)),
      some (later, response_of (probe_all probe config)),
    )
unfolding health
health-fresh probe now later config cache old = rw (old, health) refl

status-ok : (b : Bool) → ((if b then chars "ok" else chars "degraded") == chars "ok") ≡ b
status-ok true = refl
status-ok false = refl

health-cached :
    (probe : Prober) (now later cached_at : ℕ) (config : Config)
    (checked : Bool × HashMap Text Text)
    → now - cached_at < cache_ttl_ms
    → health probe now later config (some (cached_at, response_of checked))
      ≡ ((status_code checked.0, response_of checked), some (cached_at, response_of checked))
unfolding health cached_answer
health-cached probe now later cached_at config checked young =
    rw (is_young, health, cached_answer)
      (ap (λ b. ((status_code b, response_of checked), some (cached_at, response_of checked)))
        (status-ok checked.0))
  where
    is_young : ltb (now - cached_at) cache_ttl_ms ≡ true
    is_young = ground arith

-- A health check that finds no young answer in the cache answers 200 with the status ok exactly if the probe of every upstream endpoint gets an answer, and else 503 with the status degraded; and a second check within the cache's five seconds gives the very same answer, whatever the probes would say then, and leaves the cache.
pub health-probed :
    (probe probe' : Prober) (now later now' later' : ℕ) (config : Config) (cache : Cache)
    → cached_answer now cache ≡ none
    → now' - later < cache_ttl_ms
    → let first = health probe now later config cache in
      (first.0.0 ≡ (if all (answers probe) (upstream_endpoints config) then 200 else 503))
      × (first.0.1.status ≡ (
          if all (answers probe) (upstream_endpoints config) then chars "ok" else chars "degraded"))
      × (health probe' now' later' config first.1 ≡ first)
unfolding probe_all
health-probed probe probe' now later now' later' config cache old young =
    let is = health-fresh probe now later config cache old in
    let all_probes = gather-all probe (upstream_endpoints config) true Dict.empty in
    subst
      (λ (x : (ℕ × HealthResponse) × Cache).
        (x.0.0 ≡ (if all (answers probe) (upstream_endpoints config) then 200 else 503))
        × (x.0.1.status ≡ (
            if all (answers probe) (upstream_endpoints config)
            then chars "ok"
            else chars "degraded"))
        × (health probe' now' later' config x.1 ≡ x))
      (sym is)
      (
        ap (λ b. status_code b) all_probes,
        ap (λ b. if b then chars "ok" else chars "degraded") all_probes,
        health-cached probe' now' later' later config (probe_all probe config) young,
      )
