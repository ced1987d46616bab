-- ===== src/Diagnostics/Tests.antt =====
-- The theorems on the diagnostics guard at concrete inputs.
use inf_splitter.Prelude.{List, [], false, length, refl, some, ◌∷◌, ◌≡◌}
use inf_splitter.Prelude.Text.{Text_eq}
use inf_splitter.Diagnostics.{
  Diagnostics, lets_through, new, new_request_id, record_dump, record_stats,
}
use inf_splitter.Diagnostics.Guard.Once.{IsRecorded, first_ending, outcome_or_dropped}
use inf_splitter.Diagnostics.Guard.Steps.{
  GuardStep, dumps_ingress, fails, finishes, guard_life, guard_step, guard_steps,
}
use inf_splitter.Diagnostics.Masking.{Codec}
use inf_splitter.Diagnostics.Guard.{
  Ending, drop_guard, finish, finish_with_error, flush_deferred_dumps, flush_egresses, ingress_dump,
  new_guard,
}
use inf_splitter.Prelude.Bytes.{chars}
use inf_splitter.Config.Outputs.{always, diagnostics_default, on_error}
use inf_splitter.Diagnostics.Guard.Masked.{AreMasked}
use inf_splitter.Diagnostics.Guard.Masked.Life.{guard_life-AreMasked}
use inf_splitter.Diagnostics.Guard.Once.Life.{guard_life-IsRecorded}

abbrev plain_codec : Codec
plain_codec = record { from_utf8 = λ body. some body; encode = λ body. body }

abbrev handle : Diagnostics
handle = new (record diagnostics_default { stats_mode = on_error; dump_mode = always }) 1700000000

abbrev ending : Ending
ending = record {
  status = 200;
  duration_ms = 15;
  request_size = 2;
  response_size = some 3;
  upstream = chars "http://a";
  direction = chars "OPENAI";
  streaming = false;
  ts = chars "t";
}

abbrev failing : List GuardStep
failing =
    dumps_ingress (chars "{}") ((chars "Authorization", some (chars "secret")) ∷ []) (chars "t")
    ∷ fails ending (chars "boom")
    ∷ finishes ending
    ∷ []

guard_life-IsRecorded_example :
    IsRecorded handle
      (new_request_id handle).0
      (chars "a")
      (chars "m")
      (outcome_or_dropped (first_ending failing))
      (guard_life plain_codec handle (chars "a") (chars "m") failing 20 (chars "u")).stats_sent
guard_life-IsRecorded_example =
    guard_life-IsRecorded plain_codec handle (chars "a") (chars "m") failing 20 (chars "u")

-- The second ending is ignored, and one line is written.
one_line :
    length (guard_life plain_codec handle (chars "a") (chars "m") failing 20 (chars "u")).stats_sent
    ≡ 1
unfolding guard_life new_guard new_request_id guard_steps guard_step ingress_dump finish_with_error
    finish drop_guard flush_deferred_dumps flush_egresses record_dump record_stats lets_through new
one_line = refl

guard_life-AreMasked_example :
    AreMasked
      (guard_life plain_codec handle (chars "a") (chars "m") failing 20 (chars "u")).dumps_sent
unfolding new
guard_life-AreMasked_example =
    guard_life-AreMasked plain_codec handle (chars "a") (chars "m") failing 20 (chars "u") tt
