-- ===== src/Session/Startup/Tests.antt =====
-- The clean-up at a store with one acked and one waiting batch.
use inf_splitter.Prelude.{String_eq, String, [], length, none, refl, ◌∷◌, ◌≡◌}
use inf_splitter.Prelude.Dict
use inf_splitter.Session.{InFlightBatch, InFlightPiece, InFlightStatus, StoreV2, acked, pending}
use inf_splitter.Session.Startup.{clean_in_flight}
use inf_splitter.Session.InFlight.{batch_is_complete, new_store}
use inf_splitter.Session.Startup.Cleaned.{clean_in_flight-Cleaned, complete_each, complete_ids}

abbrev piece : InFlightStatus → InFlightPiece
piece st = record { index = 0; content_hash = 7; request_body = []; status = st }

abbrev batch_of : String → InFlightStatus → InFlightBatch
batch_of id st = record {
  id = id;
  session_id = "s";
  prev_interaction_id = none;
  message_hashes = [];
  system_instruction_hash = none;
  pieces = piece st ∷ [];
  created_utc = 1;
  updated_utc = 1;
}

abbrev two_batches : StoreV2
two_batches = record new_store {
  in_flight = record {
    entries = ("a", batch_of "a" (acked "i")) ∷ ("b", batch_of "b" pending) ∷ [];
  };
}

clean_in_flight-Cleaned_example :
    let ids = complete_ids two_batches two_batches.in_flight.entries in
    (clean_in_flight 5 two_batches).0 ≡ record {
      store = record (complete_each 5 ids two_batches) { in_flight = Dict.empty };
      completed = length ids;
      failed = 0;
    }
clean_in_flight-Cleaned_example = clean_in_flight-Cleaned 5 two_batches ((refl, tt), (tt, tt))

one_completed : complete_ids two_batches two_batches.in_flight.entries ≡ "a" ∷ []
unfolding batch_is_complete Dict.get Dict.lookup
one_completed = refl
