-- ===== src/Diagnostics/Guard/Masked.antt =====
-- src/diagnostics.rs: the headers of the dumps that a guard holds and sends.
pub mod Life
use mathlib.Core.Option
use inf_splitter.Prelude.Sets
use inf_splitter.Prelude.{
  All, Bool, Bool-cases, List, Option, [], inl, inr, none, refl, some, subst, sym, true, ℕ, ◌++◌,
  ◌∷◌, ◌≡◌,
}
use inf_splitter.Prelude.Text.{Text_eq, Text}
use inf_splitter.Diagnostics.{Diagnostics, DumpEvent, channel_of, lets_through, record_dump}
use inf_splitter.Diagnostics.Masking.{
  header_pairs_with_masking, is_sensitive_header, mask_header_values, shown,
}
use inf_splitter.Diagnostics.Guard.{
  RequestDiagnostics, State, StoredDump, as_dump, flush_deferred_dumps, flush_egresses, flush_one,
}
use inf_splitter.Prelude.Bytes.{chars}
use inf_splitter.Diagnostics.Guard.Steps.{
  GuardStep, abort_bad_request, abort_internal, abort_upstream, abort_with, aborts_bad_request,
  aborts_internal, aborts_upstream, dumps_egress, dumps_ingress, dumps_response, fails,
  fails_upstream, finishes, guard_life, guard_step, guard_steps,
}

abbrev pub IsMasked : List (Text × Text) → Type 0
IsMasked headers = All (λ h. is_sensitive_header h.0 ≡ true → h.1 ≡ chars "***") headers

abbrev pub AreMasked : List (Option Text × DumpEvent) → Type 0
AreMasked sent = All (λ (line : Option Text × DumpEvent). IsMasked line.1.headers) sent

shown-masked :
    (name value : Text) → is_sensitive_header name ≡ true → shown name value ≡ chars "***"
shown-masked name value h = rw h refl

pub header_pairs-IsMasked :
    (headers : List (Text × Option Text)) → IsMasked (header_pairs_with_masking headers)
unfolding header_pairs_with_masking
header_pairs-IsMasked [] = tt
header_pairs-IsMasked ((name, none) ∷ headers) = header_pairs-IsMasked headers
header_pairs-IsMasked ((name, some value) ∷ headers) =
    (shown-masked name value, header_pairs-IsMasked headers)

pub mask_header_values-IsMasked :
    (headers : List (Text × Text)) → IsMasked (mask_header_values headers)
unfolding mask_header_values
mask_header_values-IsMasked [] = tt
mask_header_values-IsMasked ((name, value) ∷ headers) =
    (shown-masked name value, mask_header_values-IsMasked headers)

abbrev PendingMasked : Option StoredDump → Type 0
PendingMasked none = Unit {0}
PendingMasked (some stored) = IsMasked stored.headers

abbrev EventMasked : Option DumpEvent → Type 0
EventMasked none = Unit {0}
EventMasked (some event) = IsMasked event.headers

-- all that waits is masked, and all that was sent
pub record AllMasked (s : State) : Type 0 where
  pub ingress : PendingMasked s.0.ingress_dump_pending
  pub egresses : All (λ (stored : StoredDump). IsMasked stored.headers) s.0.egress_dumps_pending
  pub response : PendingMasked s.0.response_dump_pending
  pub sent : AreMasked s.1.dumps_sent

All-last :
    (sent : List (Option Text × DumpEvent)) (line : Option Text × DumpEvent)
    → AreMasked sent
    → IsMasked line.1.headers
    → AreMasked (sent ++ line ∷ [])
All-last [] line a m = (m, tt)
All-last (x ∷ sent) line (p, a) m = (p, All-last sent line a m)

record_dump-masked :
    (event : DumpEvent) (is_error : Bool) (d : Diagnostics)
    → AreMasked d.dumps_sent
    → IsMasked event.headers
    → AreMasked (record_dump event is_error d).dumps_sent
unfolding record_dump
record_dump-masked event is_error d a m = elim (Bool-cases (lets_through d.dump_mode is_error)) [
  | inl through ↦
      rw (through, record_dump) (All-last d.dumps_sent (channel_of d event.section, event) a m)
  | inr held ↦ rw (held, record_dump) a
]

flush_one-masked :
    (is_error : Bool) (event : Option DumpEvent) (d : Diagnostics)
    → AreMasked d.dumps_sent
    → EventMasked event
    → AreMasked (flush_one is_error event d).dumps_sent
flush_one-masked is_error none d a m = a
flush_one-masked is_error (some event) d a m = record_dump-masked event is_error d a m

flush_egresses-masked :
    (g : RequestDiagnostics) (is_error : Bool) (status : Option ℕ) (egresses : List StoredDump)
    (d : Diagnostics)
    → AreMasked d.dumps_sent
    → All (λ (stored : StoredDump). IsMasked stored.headers) egresses
    → AreMasked (flush_egresses g is_error status egresses d).dumps_sent
unfolding flush_egresses
flush_egresses-masked g is_error status [] d a m = a
flush_egresses-masked g is_error status (stored ∷ egresses) d a (p, m) =
    flush_egresses-masked g is_error status egresses _
      (record_dump-masked
        (as_dump g (chars "egress") (chars "request") stored.headers status stored) is_error d a p)
      m

-- a dump that is taken shows the headers it was stored with
taken_masked :
    (f : StoredDump → DumpEvent)
    → ((stored : StoredDump) → IsMasked stored.headers → IsMasked (f stored).headers)
    → (pending : Option StoredDump) → PendingMasked pending
    → EventMasked (Option.map f pending)
taken_masked f keeps none m = tt
taken_masked f keeps (some stored) m = keeps stored m

no_headers :
    (f : StoredDump → DumpEvent)
    → ((stored : StoredDump) → (f stored).headers ≡ [])
    → (pending : Option StoredDump) → EventMasked (Option.map f pending)
no_headers f none_there none = tt
no_headers f none_there (some stored) = subst IsMasked (sym (none_there stored)) tt

pub flush_deferred_dumps-masked :
    (is_error : Bool) (status : Option ℕ) (g : RequestDiagnostics) (d : Diagnostics)
    → AllMasked (g, d)
    → AllMasked (flush_deferred_dumps is_error status (g, d))
unfolding flush_deferred_dumps
flush_deferred_dumps-masked is_error status g d v = record {
  ingress = tt;
  egresses = tt;
  response = tt;
  sent =
      flush_one-masked is_error _ _
        (flush_one-masked is_error _ _
          (flush_egresses-masked g is_error status g.egress_dumps_pending _
            (flush_one-masked is_error _ d v.sent
              (taken_masked _ (λ stored m. m) g.ingress_dump_pending v.ingress))
            v.egresses)
          (taken_masked _ (λ stored m. m) g.response_dump_pending v.response))
        (no_headers _ (λ stored. refl) g.ingress_response_dump_pending);
}
