-- ===== src/Relay/Tests.antt =====
-- The theorem on the kept stream at concrete polls.
use inf_splitter.Prelude.{List, [], false, refl, some, ◌∷◌, ◌≡◌}
use inf_splitter.Prelude.Text.{Text_eq}
use inf_splitter.Relay.{DiagnosticStream, Poll, chunk, drop_stream, finished, not_ready, poll_all}
use inf_splitter.Diagnostics.Masking.{Codec}
use inf_splitter.Diagnostics.{Diagnostics, dump_enabled, new}
use inf_splitter.Config.Outputs.{always, diagnostics_default}
use inf_splitter.Prelude.Bytes.{chars}
use inf_splitter.Relay.Kept.{drop_stream-dump, ended, kept, one_dump, streamed}

abbrev plain_codec : Codec
plain_codec = record { from_utf8 = λ body. some body; encode = λ body. body }

abbrev handle : Diagnostics
handle = new (record diagnostics_default { dump_mode = always }) 1700000000

abbrev stream : DiagnosticStream
stream = record {
  buffer = [];
  request_id = chars "1-0";
  section = chars "a";
  model = chars "m";
  response_headers = [];
  status = 200;
  dumped = false;
}

abbrev polls : List Poll
polls = chunk (chars "ab") ∷ not_ready ∷ chunk (chars "c") ∷ finished ∷ finished ∷ []

drop_stream-dump_example :
    drop_stream plain_codec (chars "t") (poll_all plain_codec (chars "t") polls (stream, handle))
    ≡ one_dump plain_codec
        (chars "t")
        stream
        handle
        (ended polls)
        (kept (dump_enabled handle) (streamed polls))
drop_stream-dump_example = drop_stream-dump plain_codec (chars "t") stream handle polls refl refl
