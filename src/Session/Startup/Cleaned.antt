-- ===== src/Session/Startup/Cleaned.antt =====
-- src/lib.rs, `build_app`: the result of the clean-up of in-flight batches.
use inf_splitter.Prelude.{
  String_eq, All, Bool-cases, List, Option-cases, Result-cases, String, [], ap, arith, false,
  if◌then◌else◌, inl, inr, length, map, refl, true, ℕ, ◌+◌, ◌==◌, ◌∙◌, ◌∷◌, ◌≡◌,
}
use inf_splitter.Prelude.Dict
use inf_splitter.Session.InFlight.{batch_is_complete, complete_batch, insert_pieces}
use inf_splitter.Session.Cleanup.{discard_all_inflight}
use inf_splitter.Session.{InFlightBatch, StoreV2}
use inf_splitter.Session.Startup.{
  Startup, clean_in_flight, complete_acked, complete_if_acked, settle,
}
use inf_splitter.Session.InFlight.Completion.{complete_batch_iff}

complete_batch-others :
    (s : StoreV2) (now : ℕ) (batch_id k : String)
    → (batch_id == k) ≡ false
    → Dict.get (complete_batch s now batch_id).1.in_flight k ≡ Dict.get s.in_flight k
unfolding complete_batch
complete_batch-others s now batch_id k differ =
    elim (Option-cases (Dict.get s.in_flight batch_id)) [
      | inl absent ↦ rw (absent, complete_batch) refl
      | inr (batch, there) ↦
          elim (Result-cases
            (insert_pieces batch now s.interactions [] batch.prev_interaction_id batch.pieces).0) [
              | inl (ids, done) ↦
                  rw (there, done, complete_batch)
                    (rw (Dict.get-remove s.in_flight batch_id k, differ) refl)
              | inr (e, failed_at) ↦
                  rw (there, failed_at, complete_batch)
                    (rw (Dict.get-remove s.in_flight batch_id k, differ) refl)
            ]
    ]

batch_is_complete-get :
    (s s' : StoreV2) (k : String)
    → Dict.get s'.in_flight k ≡ Dict.get s.in_flight k
    → batch_is_complete s' k ≡ batch_is_complete s k
unfolding batch_is_complete
batch_is_complete-get s s' k same = rw (same, batch_is_complete) refl

-- a complete batch is completed
settle-ok :
    (s : StoreV2) (now : ℕ) (id : String) (r : Startup)
    → batch_is_complete s id ≡ true
    → settle id (complete_batch s now id) r ≡ record {
      store = (complete_batch s now id).1;
      completed = r.completed + 1;
      failed = r.failed;
    }
settle-ok s now id r complete =
    let (node, done) = (complete_batch_iff s now id).0 complete in
    ap (λ c. settle id (c, (complete_batch s now id).1) r) done

-- the ids of the batches that are complete in a store
abbrev pub complete_ids : StoreV2 → List (String × InFlightBatch) → List String
complete_ids s [] = []
complete_ids s ((id, _) ∷ rest) =
    if batch_is_complete s id then id ∷ complete_ids s rest else complete_ids s rest

-- the batches of these ids completed one after another
abbrev pub complete_each : ℕ → List String → StoreV2 → StoreV2
complete_each now [] s = s
complete_each now (id ∷ ids) s = complete_each now ids (complete_batch s now id).1

complete_ids-same :
    (s : StoreV2) (now : ℕ) (id : String) (rest : List (String × InFlightBatch))
    → All (λ p. (id == p.0) ≡ false) rest
    → complete_ids (complete_batch s now id).1 rest ≡ complete_ids s rest
complete_ids-same s now id [] differ = refl
complete_ids-same s now id ((k, b) ∷ rest) (differs, differ) =
    rw
      (
        batch_is_complete-get s (complete_batch s now id).1 k
            (complete_batch-others s now id k differs),
        complete_ids-same s now id rest differ,
      )
      refl

complete_acked-each :
    (now : ℕ) (es : List (String × InFlightBatch)) (r : Startup)
    → Dict.Apart es
    → complete_acked now (map (λ p. p.0) es) r ≡ record {
      store = complete_each now (complete_ids r.store es) r.store;
      completed = r.completed + length (complete_ids r.store es);
      failed = r.failed;
    }
unfolding complete_acked complete_if_acked
complete_acked-each now [] r apart = ap (λ n. record r { completed = n }) (omega arith)
complete_acked-each now ((id, b) ∷ es) r (differ, apart) =
    elim (Bool-cases (batch_is_complete r.store id)) [
      | inr waits ↦
          rw (waits, complete_acked, complete_if_acked) (complete_acked-each now es r apart)
      | inl complete ↦
          let next : Startup = record {
            store = (complete_batch r.store now id).1;
            completed = r.completed + 1;
            failed = r.failed;
          } in
          rw (complete, settle-ok r.store now id r complete, complete_acked, complete_if_acked)
            (complete_acked-each now es next apart
              ∙ ap
                  (λ (ids : List String). record {
                    store = complete_each now ids next.store;
                    completed = r.completed + 1 + length ids;
                    failed = r.failed;
                  })
                  (complete_ids-same r.store now id es differ)
              ∙ ap
                  (λ n. record {
                    store = complete_each now (complete_ids r.store es) next.store;
                    completed = n;
                    failed = r.failed;
                  })
                  (omega arith))
    ]

pub clean_in_flight-Cleaned :
    (now : ℕ) (s : StoreV2)
    → Dict.Apart s.in_flight.entries
    → let ids = complete_ids s s.in_flight.entries in
      (clean_in_flight now s).0 ≡ record {
        store = record (complete_each now ids s) { in_flight = Dict.empty };
        completed = length ids;
        failed = 0;
      }
unfolding clean_in_flight discard_all_inflight
clean_in_flight-Cleaned now s apart =
    ap (λ (r : Startup). record r { store = record r.store { in_flight = Dict.empty } })
      (complete_acked-each now s.in_flight.entries (record { store = s; completed = 0; failed = 0 })
          apart
        ∙ ap
            (λ n. record {
              store = complete_each now (complete_ids s s.in_flight.entries) s;
              completed = n;
              failed = 0;
            })
            (omega arith))
