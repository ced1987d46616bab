-- ===== src/Diagnostics/Guard/Once.antt =====
-- src/diagnostics.rs, `RequestDiagnostics`: how many statistics a guard records, and which.
pub mod Life
use inf_splitter.Prelude.{
  Bool, Bool-cases, List, Option, [], ap, append-nil, if◌then◌else◌, inl, inr, none, refl, some,
  sym, ℕ, ◌++◌, ◌∙◌, ◌∷◌, ◌≡◌,
}
use inf_splitter.Prelude.Sets
use inf_splitter.Prelude.Text.{Text_eq, Text}
use inf_splitter.Diagnostics.{
  Diagnostics, DumpEvent, StatsEvent, channel_of, lets_through, record_dump, record_stats,
}
use inf_splitter.Diagnostics.Guard.{
  RequestDiagnostics, StoredDump, dropped_without_finish, flush_deferred_dumps, flush_egresses,
  flush_one,
}
use inf_splitter.Diagnostics.Guard.Steps.{
  GuardStep, aborts_bad_request, aborts_internal, aborts_upstream, fails, fails_upstream, finishes,
}
use inf_splitter.Config.Route.{or}
use inf_splitter.Diagnostics.Masking.{Codec}

-- a status and an error: what the statistics say of the request
abbrev pub Outcome : Type 0
Outcome = ℕ × Option Text

-- the outcome that a step ends a guard with, if it is one that ends it
abbrev pub ending_of : GuardStep → Option Outcome
ending_of (finishes e) = some (e.status, none)
ending_of (fails e error) = some (e.status, some error)
ending_of (fails_upstream e body _ _) = some (e.status, some body)
ending_of (aborts_upstream e error) = some (502, some error)
ending_of (aborts_internal e error) = some (500, some error)
ending_of (aborts_bad_request e error) = some (400, some error)
ending_of _ = none

-- the outcome of the first step that ends it
abbrev pub first_ending : List GuardStep → Option Outcome
first_ending [] = none
first_ending (step ∷ steps) = or (ending_of step) (first_ending steps)

abbrev pub outcome_or_dropped : Option Outcome → Outcome
outcome_or_dropped none = (0, some dropped_without_finish)
outcome_or_dropped (some o) = o

-- what one event adds to the lines handed to the writers
abbrev pub stats_line : Diagnostics → StatsEvent → List (Option Text × StatsEvent)
stats_line d event =
    if lets_through d.stats_mode (Sets.is_some event.error)
    then (channel_of d event.section, event) ∷ []
    else []

-- no statistics recorded since, and the same handle
pub record SameStats (d0 d : Diagnostics) : Type 0 where
  pub mode : d.stats_mode ≡ d0.stats_mode
  pub channels : d.per_section ≡ d0.per_section
  pub sent : d.stats_sent ≡ d0.stats_sent

record_dump-SameStats :
    (d0 d : Diagnostics) (event : DumpEvent) (is_error : Bool)
    → SameStats d0 d
    → SameStats d0 (record_dump event is_error d)
unfolding record_dump
record_dump-SameStats d0 d event is_error s =
    elim (Bool-cases (lets_through d.dump_mode is_error)) [
      | inl through ↦
          rw (through, record_dump) (record { mode = s.mode; channels = s.channels; sent = s.sent })
      | inr held ↦ rw (held, record_dump) s
    ]

flush_one-SameStats :
    (d0 d : Diagnostics) (is_error : Bool) (event : Option DumpEvent)
    → SameStats d0 d
    → SameStats d0 (flush_one is_error event d)
flush_one-SameStats d0 d is_error none s = s
flush_one-SameStats d0 d is_error (some event) s = record_dump-SameStats d0 d event is_error s

flush_egresses-SameStats :
    (d0 : Diagnostics) (g : RequestDiagnostics) (is_error : Bool) (status : Option ℕ)
    (egresses : List StoredDump) (d : Diagnostics)
    → SameStats d0 d
    → SameStats d0 (flush_egresses g is_error status egresses d)
unfolding flush_egresses
flush_egresses-SameStats d0 g is_error status [] d s = s
flush_egresses-SameStats d0 g is_error status (stored ∷ egresses) d s =
    flush_egresses-SameStats d0 g is_error status egresses _
      (record_dump-SameStats d0 d _ is_error s)

pub flush_deferred_dumps-SameStats :
    (d0 d : Diagnostics) (g : RequestDiagnostics) (is_error : Bool) (status : Option ℕ)
    → SameStats d0 d
    → SameStats d0 (flush_deferred_dumps is_error status (g, d)).1
unfolding flush_deferred_dumps
flush_deferred_dumps-SameStats d0 d g is_error status s = flush_one-SameStats d0 _ is_error _ (
    flush_one-SameStats d0 _ is_error _ (
      flush_egresses-SameStats d0 g is_error status g.egress_dumps_pending _
        (flush_one-SameStats d0 d is_error _ s)))

pub record_stats-sent :
    (d0 d : Diagnostics) (event : StatsEvent)
    → SameStats d0 d
    → (record_stats event d).stats_sent ≡ d0.stats_sent ++ stats_line d0 event
unfolding record_stats
record_stats-sent d0 d event s =
    elim (Bool-cases (lets_through d0.stats_mode (Sets.is_some event.error))) [
      | inl through ↦
          rw (s.mode, s.channels, through, record_stats)
            (ap (λ l. l ++ (channel_of d0 event.section, event) ∷ []) s.sent)
      | inr held ↦ rw (s.mode, held, record_stats) (s.sent ∙ sym (append-nil d0.stats_sent))
    ]

-- the event is about this request, with that outcome, and is the only one since
pub record IsRecorded (d0 : Diagnostics) (id section model : Text) (o : Outcome)
    (sent : List (Option Text × StatsEvent)) : Type 0 where
  pub event : StatsEvent
  pub only : sent ≡ d0.stats_sent ++ stats_line d0 event
  pub its_id : event.request_id ≡ id
  pub its_section : event.section ≡ section
  pub its_model : event.model ≡ model
  pub its_outcome : (event.status, event.error) ≡ o

pub or_none : (o : Option Outcome) → or o none ≡ o
or_none none = refl
or_none (some o) = refl

pub or_assoc : (a b c : Option Outcome) → or (or a b) c ≡ or a (or b c)
or_assoc none b c = refl
or_assoc (some a) b c = refl
