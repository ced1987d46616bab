-- ===== src/Session/Startup.antt =====
-- src/lib.rs, `build_app`: what is done at startup with the batches of the previous run. The ids are
-- those of the map when the pass begins.
pub mod Cleaned
mod Tests
use inf_splitter.Prelude.{String_eq, List, Result, String, [], err, false, ok, true, ℕ, ◌+◌, ◌∷◌}
use inf_splitter.Prelude.Dict
use inf_splitter.Session.InFlight.{StoreError, batch_is_complete, complete_batch}
use inf_splitter.Session.Cleanup.{discard_all_inflight}
use inf_splitter.Session.{ClientInteractionNode, StoreV2}

pub record Startup : Type 0 where
  pub store : StoreV2
  pub completed : ℕ
  -- the warnings that complete_batch failed
  pub failed : ℕ

-- the two arms of the match on `complete_batch`
abbrev pub settle : String → Result StoreError ClientInteractionNode × StoreV2 → Startup → Startup
settle batch_id (ok node, s) r = record {
  store = s;
  completed = r.completed + 1;
  failed = r.failed;
}
settle batch_id (err e, s) r = record {
  store = record s { in_flight = Dict.remove s.in_flight batch_id };
  completed = r.completed;
  failed = r.failed + 1;
}

-- one round of the first pass; its test for acked pieces is that of `batch_is_complete`
unfoldable pub complete_if_acked : ℕ → String → Startup → Startup
complete_if_acked now batch_id r = elim (batch_is_complete r.store batch_id) [
  | false ↦ r
  | true ↦ settle batch_id (complete_batch r.store now batch_id) r
]

unfoldable pub complete_acked : ℕ → List String → Startup → Startup
complete_acked now [] r = r
complete_acked now (batch_id ∷ batch_ids) r =
    complete_acked now batch_ids (complete_if_acked now batch_id r)

-- both passes; the number is that of the discarded batches
unfoldable pub clean_in_flight : ℕ → StoreV2 → Startup × ℕ
clean_in_flight now s =
    let r =
      complete_acked now (Dict.keys s.in_flight)
        (record { store = s; completed = 0; failed = 0 }) in
    let (discarded, store) = discard_all_inflight r.store in (record r { store = store }, discarded)
