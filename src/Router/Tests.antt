-- ===== src/Router/Tests.antt =====
-- The theorems on the router at concrete inputs.
use inf_splitter.Prelude.{[], all, arith, if◌then◌else◌, none, ok, refl, some, ◌==◌, ◌≡◌}
use inf_splitter.Prelude.Dict
use inf_splitter.Prelude.Text.{Text_eq, trim}
use inf_splitter.Router.{
  Peek, Request, anthropic, choose_upstream, dispatch_messages, find_route, openai, peek_model,
  route_model,
}
use inf_splitter.Router.Health.{
  Prober, answered, answers, cached_answer, health, health-probed, timeout,
}
use inf_splitter.Diagnostics.{Diagnostics, new}
use inf_splitter.Diagnostics.Masking.{Codec}
use inf_splitter.Router.Served.{IsDispatched, dispatch_messages-IsDispatched}
use inf_splitter.Config.Outputs.{diagnostics_default}
use inf_splitter.Prelude.Bytes.{chars}
use inf_splitter.Config.Samples.{
  loaded, quiet_host, two_sections, two_sections-Apart, two_sections-loaded,
}
use inf_splitter.Config.Route.{resolve_route, section_name, upstream_endpoints}

abbrev plain_codec : Codec
plain_codec = record { from_utf8 = λ body. some body; encode = λ body. body }

-- a body that is the name of its model
abbrev bare_peek : Peek
bare_peek = record { model_of = λ body. ok body }

abbrev handle : Diagnostics
handle = new diagnostics_default 1700000000

abbrev request : Request
request = record { ingress = anthropic; headers = []; body = chars "m"; ts = chars "t" }

dispatch_messages-IsDispatched_example :
    IsDispatched plain_codec bare_peek loaded request handle
      (dispatch_messages plain_codec bare_peek loaded request handle)
dispatch_messages-IsDispatched_example =
    dispatch_messages-IsDispatched plain_codec bare_peek quiet_host two_sections loaded request
      handle two_sections-Apart two_sections-loaded

-- An Anthropic request for a section with an OpenAI endpoint is converted.
converted :
    dispatch_messages plain_codec bare_peek loaded request handle
    ≡ (ok (openai anthropic (chars "http://a")), handle)
unfolding dispatch_messages find_route peek_model route_model resolve_route section_name Dict.get
    Dict.lookup choose_upstream trim
converted = refl

-- only the first endpoint is there
abbrev half_up : Prober
half_up = λ uses_get url. if url == chars "http://a/" then answered else timeout

health-probed_example :
    ((health half_up 100 200 loaded none).0.0
      ≡ (if all (answers half_up) (upstream_endpoints loaded) then 200 else 503))
    × ((health half_up 100 200 loaded none).0.1.status ≡ (
        if all (answers half_up) (upstream_endpoints loaded) then chars "ok" else chars "degraded"))
    × (health half_up 5100 5200 loaded (health half_up 100 200 loaded none).1
        ≡ health half_up 100 200 loaded none)
unfolding cached_answer
health-probed_example =
    health-probed half_up half_up 100 200 5100 5200 loaded none refl (omega arith)
