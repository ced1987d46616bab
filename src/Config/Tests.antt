-- ===== src/Config/Tests.antt =====
-- The theorems on the configuration at concrete inputs.
use inf_splitter.Prelude.Dict
use inf_splitter.Prelude.Sets
use inf_splitter.Prelude.Text.{Text_eq, Text}
use inf_splitter.Prelude.{List, [], any, arith, ok, refl, ◌++◌, ◌||◌, ◌∷◌, ◌≡◌}
use inf_splitter.Config.Sizes.{parse_byte_size, parse_duration}
use inf_splitter.Config.Sizes.RoundTrip.{mib, parse_byte_size-print, parse_duration-print, print}
use inf_splitter.Config.Route.{resolve_route, section_name, target_of, upstream_endpoints}
use inf_splitter.Prelude.Bytes.{chars}
use inf_splitter.Config.Route.Served.{IsAnswer, resolve_route-IsAnswer}
use inf_splitter.Config.Load.Loaded.{IsLoaded}
use inf_splitter.Config.Route.Endpoints.{Once, lists, offers, upstream_endpoints-Once}
use inf_splitter.Config.Fields.{for_model, from_raw, table}
use inf_splitter.Config.Fields.Merge.{for_model-from_raw, named}
use inf_splitter.Config.Samples.{
  loaded, quiet_host, section_b, two_sections, two_sections-Apart, two_sections-loaded,
}
use inf_splitter.Config.Load.Loop.{from_file_config-IsLoaded}

parse_duration-print_example :
    (parse_duration (print 90 ++ b's' ∷ []) ≡ ok 90)
    × (parse_duration (print 90 ++ b'm' ∷ []) ≡ ok 5400)
parse_duration-print_example = parse_duration-print 90 (omega arith)

parse_byte_size-print_example : parse_byte_size (print 2 ++ b'm' ∷ []) ≡ ok 2097152
parse_byte_size-print_example = parse_byte_size-print mib 2 (omega arith)

from_file_config-IsLoaded_example : IsLoaded loaded
from_file_config-IsLoaded_example =
    from_file_config-IsLoaded quiet_host two_sections loaded two_sections-Apart two_sections-loaded

resolve_route-IsAnswer_example : IsAnswer loaded (chars "m") (resolve_route loaded (chars "m"))
resolve_route-IsAnswer_example =
    resolve_route-IsAnswer quiet_host two_sections loaded (chars "m") two_sections-Apart
      two_sections-loaded

upstream_endpoints-Once_example :
    Once (upstream_endpoints loaded)
    × ((e : Text)
        → lists (upstream_endpoints loaded) e
          ≡ any (λ section. offers section e) (Dict.values loaded.sections))
upstream_endpoints-Once_example = upstream_endpoints-Once loaded

abbrev drop_rows : List (Text × List Text)
drop_rows = (chars "all", chars "top_k" ∷ []) ∷ (chars "m", chars "seed" ∷ chars "top_k" ∷ []) ∷ []

for_model-from_raw_example :
    Sets.holds (for_model (from_raw (table drop_rows)) (chars "m")) (chars "seed")
    ≡ (named drop_rows (chars "all") (chars "seed") || named drop_rows (chars "m") (chars "seed"))
for_model-from_raw_example =
    for_model-from_raw (chars "m") (chars "seed") drop_rows ((refl, tt), (tt, tt))

-- The default section takes what is not listed.
default_route : resolve_route loaded (chars "other") ≡ ok (target_of loaded section_b)
unfolding resolve_route section_name Dict.get Dict.lookup
default_route = refl
