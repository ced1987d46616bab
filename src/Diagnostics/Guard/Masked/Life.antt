-- ===== src/Diagnostics/Guard/Masked/Life.antt =====
-- src/diagnostics.rs: the headers of the dumps over the whole life of a guard.
use inf_splitter.Prelude.{
  All, Bool, Bool-cases, List, Option, [], false, if◌then◌else◌, inl, inr, none, some, subst, sym,
  true, ℕ, ◌++◌, ◌∷◌,
}
use inf_splitter.Prelude.Sets
use inf_splitter.Prelude.Text.{Text_eq, Text}
use inf_splitter.Diagnostics.Guard.Steps.{
  GuardStep, abort_bad_request, abort_internal, abort_upstream, abort_with, aborts_bad_request,
  aborts_internal, aborts_upstream, dumps_egress, dumps_ingress, dumps_response, fails,
  fails_upstream, finishes, guard_life, guard_step, guard_steps,
}
use inf_splitter.Diagnostics.Guard.{
  Ending, RequestDiagnostics, State, StoredDump, drop_guard, dropped_stats, egress_dump, end_with,
  ending_stats, finish, finish_with_error, finish_with_upstream_error, flush_deferred_dumps,
  ingress_dump, ingress_response_dump, new_guard, response_dump,
}
use inf_splitter.Diagnostics.{Diagnostics, StatsEvent, lets_through, new_request_id, record_stats}
use inf_splitter.Diagnostics.Guard.Masked.{
  AllMasked, AreMasked, IsMasked, flush_deferred_dumps-masked, header_pairs-IsMasked,
  mask_header_values-IsMasked,
}
use inf_splitter.Diagnostics.Masking.{Codec}

record_stats-masked :
    (event : StatsEvent) (d : Diagnostics)
    → AreMasked d.dumps_sent
    → AreMasked (record_stats event d).dumps_sent
unfolding record_stats
record_stats-masked event d a =
    elim (Bool-cases (lets_through d.stats_mode (Sets.is_some event.error))) [
      | inl through ↦ rw (through, record_stats) a
      | inr held ↦ rw (held, record_stats) a
    ]

-- the end of a request, where the flag is not set
ended-masked :
    (e : Ending) (error : Option Text) (g : RequestDiagnostics) (d : Diagnostics) (b : Bool)
    → AllMasked (g, d)
    → AllMasked (if b then (g, d) else end_with e error (g, d))
ended-masked e error g d true v = v
ended-masked e error g d false v =
    let flushed =
      flush_deferred_dumps-masked (Sets.is_some error) (some e.status)
        (record g { finished = true }) d
        (record {
          ingress = v.ingress;
          egresses = v.egresses;
          response = v.response;
          sent = v.sent;
        }) in
    record {
      ingress = flushed.ingress;
      egresses = flushed.egresses;
      response = flushed.response;
      sent = record_stats-masked (ending_stats g e error) _ flushed.sent;
    }

All-stored_last :
    (egresses : List StoredDump) (stored : StoredDump)
    → All (λ (x : StoredDump). IsMasked x.headers) egresses
    → IsMasked stored.headers
    → All (λ (x : StoredDump). IsMasked x.headers) (egresses ++ stored ∷ [])
All-stored_last [] stored a m = (m, tt)
All-stored_last (x ∷ egresses) stored (p, a) m = (p, All-stored_last egresses stored a m)

guard_step-masked :
    (codec : Codec) (step : GuardStep) (s : State)
    → AllMasked s
    → AllMasked (guard_step codec step s)
unfolding guard_step finish finish_with_error finish_with_upstream_error ingress_dump egress_dump
    response_dump ingress_response_dump abort_with abort_upstream abort_internal abort_bad_request
guard_step-masked codec (finishes e) (g, d) v = ended-masked e none g d g.finished v
guard_step-masked codec (fails e error) (g, d) v = ended-masked e (some error) g d g.finished v
guard_step-masked codec (aborts_upstream e error) (g, d) v =
    ended-masked _ (some error) g d g.finished v
guard_step-masked codec (aborts_internal e error) (g, d) v =
    ended-masked _ (some error) g d g.finished v
guard_step-masked codec (aborts_bad_request e error) (g, d) v =
    ended-masked _ (some error) g d g.finished v
guard_step-masked codec (fails_upstream e body bytes headers) (g, d) v =
    ended-masked _ (some body) _ d g.finished (record {
      ingress = v.ingress;
      egresses = v.egresses;
      response = mask_header_values-IsMasked headers;
      sent = v.sent;
    })
guard_step-masked codec (dumps_ingress body headers ts) (g, d) v = record {
  ingress = header_pairs-IsMasked headers;
  egresses = v.egresses;
  response = v.response;
  sent = v.sent;
}
guard_step-masked codec (dumps_egress body headers ts) (g, d) v = record {
  ingress = v.ingress;
  egresses = All-stored_last g.egress_dumps_pending _ v.egresses (header_pairs-IsMasked headers);
  response = v.response;
  sent = v.sent;
}
guard_step-masked codec (dumps_response body st headers ts) (g, d) v = record {
  ingress = v.ingress;
  egresses = v.egresses;
  response = mask_header_values-IsMasked headers;
  sent = v.sent;
}
guard_step-masked codec _ (g, d) v = record {
  ingress = v.ingress;
  egresses = v.egresses;
  response = v.response;
  sent = v.sent;
}

guard_steps-masked :
    (codec : Codec) (steps : List GuardStep) (s : State)
    → AllMasked s
    → AllMasked (guard_steps codec steps s)
unfolding guard_steps
guard_steps-masked codec [] s v = v
guard_steps-masked codec (step ∷ steps) s v =
    guard_steps-masked codec steps (guard_step codec step s) (guard_step-masked codec step s v)

drop_guard-masked :
    (duration_ms : ℕ) (ts : Text) (s : State)
    → AllMasked s
    → AreMasked (drop_guard duration_ms ts s).dumps_sent
unfolding drop_guard
drop_guard-masked duration_ms ts (g, d) v = elim (Bool-cases g.finished) [
  | inl finished ↦ subst (λ b. AreMasked (dropped b).dumps_sent) (sym finished) v.sent
  | inr open_still ↦
      subst (λ b. AreMasked (dropped b).dumps_sent) (sym open_still)
        (record_stats-masked (dropped_stats g duration_ms ts) _
          (flush_deferred_dumps-masked true none g d v).sent)
]
  where
    dropped : Bool → Diagnostics
    dropped b =
        if b
        then d
        else record_stats (dropped_stats g duration_ms ts) (flush_deferred_dumps true none (g, d)).1

-- Whatever a handler does with a guard and whatever headers it is given, no dump that is handed to the writers from its creation to its drop shows the value of a sensitive header (x-goog-api-key, authorization, x-api-key, in any case of letters): every such value is three stars, if it was so of the dumps before.
pub guard_life-AreMasked :
    (codec : Codec) (d : Diagnostics) (section model : Text) (steps : List GuardStep)
    (duration_ms : ℕ) (ts : Text)
    → AreMasked d.dumps_sent
    → AreMasked (guard_life codec d section model steps duration_ms ts).dumps_sent
unfolding guard_life new_guard new_request_id
guard_life-AreMasked codec d section model steps duration_ms ts a =
    drop_guard-masked duration_ms ts (guard_steps codec steps (new_guard d section model)) (
      guard_steps-masked codec steps (new_guard d section model)
        (record { ingress = tt; egresses = tt; response = tt; sent = a }))
