-- ===== src/Diagnostics/Guard/Once/Life.antt =====
-- src/diagnostics.rs: the statistics over the whole life of a guard.
use inf_splitter.Prelude.{
  Bool, List, Option, [], if◌then◌else◌, none, refl, some, subst, sym, true, ℕ, ◌∙◌, ◌∷◌, ◌≡◌,
}
use inf_splitter.Prelude.Sets
use inf_splitter.Prelude.Text.{Text_eq, Text}
use inf_splitter.Diagnostics.Guard.Steps.{
  GuardStep, abort_bad_request, abort_internal, abort_upstream, abort_with, aborts_bad_request,
  aborts_internal, aborts_upstream, fails, fails_upstream, finishes, guard_life, guard_step,
  guard_steps,
}
use inf_splitter.Diagnostics.{Diagnostics, new_request_id}
use inf_splitter.Diagnostics.Guard.{
  Ending, RequestDiagnostics, State, drop_guard, dropped_stats, egress_dump, end_with, ending_stats,
  finish, finish_with_error, finish_with_upstream_error, flush_deferred_dumps, flush_egresses,
  ingress_dump, ingress_response_dump, new_guard, response_dump,
}
use inf_splitter.Diagnostics.Guard.Once.{
  IsRecorded, Outcome, SameStats, ending_of, first_ending, flush_deferred_dumps-SameStats, or_assoc,
  or_none, outcome_or_dropped, record_stats-sent,
}
use inf_splitter.Diagnostics.Masking.{Codec}
use inf_splitter.Config.Route.{or}

abbrev Logged : Diagnostics → Text → Text → Text → Option Outcome → Diagnostics → Type 0
Logged d0 id section model none d = SameStats d0 d
Logged d0 id section model (some o) d = IsRecorded d0 id section model o d.stats_sent

-- the state of a guard between its steps, by the outcome it has ended with so far
record IsGuard (d0 : Diagnostics) (id section model : Text) (o : Option Outcome) (s : State)
    : Type 0 where
  finished : s.0.finished ≡ Sets.is_some o
  same_id : s.0.request_id ≡ id
  same_section : s.0.section ≡ section
  same_model : s.0.model ≡ model
  log : Logged d0 id section model o s.1

module _ (d0 : Diagnostics) (id section model : Text) where
  -- a step that only writes fields which the statistics do not depend on
  quiet :
      (o : Option Outcome) (g g' : RequestDiagnostics) (d : Diagnostics)
      → g'.finished ≡ g.finished
      → g'.request_id ≡ g.request_id
      → g'.section ≡ g.section
      → g'.model ≡ g.model
      → IsGuard d0 id section model o (g, d)
      → IsGuard d0 id section model o (g', d)
  quiet o g g' d f i s m v = record {
    finished = f ∙ v.finished;
    same_id = i ∙ v.same_id;
    same_section = s ∙ v.same_section;
    same_model = m ∙ v.same_model;
    log = v.log;
  }

  recorded :
      (g : RequestDiagnostics) (d : Diagnostics) (e : Ending) (error : Option Text)
      → IsGuard d0 id section model none (g, d)
      → IsGuard d0 id section model (some (e.status, error)) (end_with e error (g, d))
  unfolding flush_deferred_dumps
  recorded g d e error v = record {
    finished = refl;
    same_id = v.same_id;
    same_section = v.same_section;
    same_model = v.same_model;
    log = record {
      event = ending_stats g e error;
      only =
          record_stats-sent d0 _ (ending_stats g e error)
            (flush_deferred_dumps-SameStats d0 d (record g { finished = true }) _ _ v.log);
      its_id = v.same_id;
      its_section = v.same_section;
      its_model = v.same_model;
      its_outcome = refl;
    };
  }

  silent :
      (o : Option Outcome) (g g' : RequestDiagnostics) (d : Diagnostics)
      → g'.finished ≡ g.finished
      → g'.request_id ≡ g.request_id
      → g'.section ≡ g.section
      → g'.model ≡ g.model
      → IsGuard d0 id section model o (g, d)
      → IsGuard d0 id section model (or o none) (g', d)
  silent o g g' d f i s m v =
      subst (λ x. IsGuard d0 id section model x (g', d)) (sym (or_none o))
        (quiet o g g' d f i s m v)

  branch :
      (o : Option Outcome) (g : RequestDiagnostics) (d : Diagnostics) (e : Ending)
      (error : Option Text) {b : Bool}
      → b ≡ g.finished
      → IsGuard d0 id section model
          (or o (some (e.status, error)))
          (if b then (g, d) else end_with e error (g, d))
      → IsGuard d0 id section model
          (or o (some (e.status, error)))
          (if g.finished then (g, d) else end_with e error (g, d))
  branch o g d e error same v =
      subst
        (λ b.
          IsGuard d0 id section model (or o (some (e.status, error)))
            (if b then (g, d) else end_with e error (g, d)))
        same v

  -- a step that ends the guard, once
  ends :
      (o : Option Outcome) (g : RequestDiagnostics) (d : Diagnostics) (e : Ending)
      (error : Option Text)
      → IsGuard d0 id section model o (g, d)
      → IsGuard d0 id section model
          (or o (some (e.status, error)))
          (if g.finished then (g, d) else end_with e error (g, d))
  ends none g d e error v = branch none g d e error (sym v.finished) (recorded g d e error v)
  ends (some o) g d e error v = branch (some o) g d e error (sym v.finished) v

  guard_step-IsGuard :
      (codec : Codec) (step : GuardStep) (o : Option Outcome) (s : State)
      → IsGuard d0 id section model o s
      → IsGuard d0 id section model (or o (ending_of step)) (guard_step codec step s)
  unfolding guard_step finish finish_with_error finish_with_upstream_error ingress_dump egress_dump
      response_dump ingress_response_dump abort_with abort_upstream abort_internal abort_bad_request
  guard_step-IsGuard codec (finishes e) o (g, d) v = ends o g d e none v
  guard_step-IsGuard codec (fails e error) o (g, d) v = ends o g d e (some error) v
  guard_step-IsGuard codec (aborts_upstream e error) o (g, d) v = ends o g d _ (some error) v
  guard_step-IsGuard codec (aborts_internal e error) o (g, d) v = ends o g d _ (some error) v
  guard_step-IsGuard codec (aborts_bad_request e error) o (g, d) v = ends o g d _ (some error) v
  guard_step-IsGuard codec (fails_upstream e body bytes headers) o (g, d) v =
      ends o _ d _ (some body) (quiet o g _ d refl refl refl refl v)
  guard_step-IsGuard codec _ o (g, d) v = silent o g _ d refl refl refl refl v

  guard_steps-IsGuard :
      (codec : Codec) (steps : List GuardStep) (o : Option Outcome) (s : State)
      → IsGuard d0 id section model o s
      → IsGuard d0 id section model (or o (first_ending steps)) (guard_steps codec steps s)
  unfolding guard_steps
  guard_steps-IsGuard codec [] o s v =
      subst (λ x. IsGuard d0 id section model x s) (sym (or_none o)) v
  guard_steps-IsGuard codec (step ∷ steps) o s v =
      subst (λ x. IsGuard d0 id section model x (guard_steps codec steps (guard_step codec step s)))
        (or_assoc o (ending_of step) (first_ending steps))
        (guard_steps-IsGuard codec steps (or o (ending_of step)) (guard_step codec step s)
          (guard_step-IsGuard codec step o s v))

  drop_guard-IsRecorded :
      (o : Option Outcome) (s : State) (duration_ms : ℕ) (ts : Text)
      → IsGuard d0 id section model o s
      → IsRecorded d0 id section model
          (outcome_or_dropped o)
          (drop_guard duration_ms ts s).stats_sent
  unfolding drop_guard flush_deferred_dumps flush_egresses
  drop_guard-IsRecorded none (g, d) duration_ms ts v =
      rw (v.finished, drop_guard)
        (record {
          event = dropped_stats g duration_ms ts;
          only =
              record_stats-sent d0 _ (dropped_stats g duration_ms ts)
                (flush_deferred_dumps-SameStats d0 d g true none v.log);
          its_id = v.same_id;
          its_section = v.same_section;
          its_model = v.same_model;
          its_outcome = refl;
        })
  drop_guard-IsRecorded (some o) (g, d) duration_ms ts v = rw (v.finished, drop_guard) v.log

-- Whatever a handler does with a guard, from its creation to its drop exactly one event is handed to record_stats for it: the event has the guard's request id, section and model, and the status and error of the first call that finished the guard, or status 0 and the error of a dropped guard where none did. So the statistics grow by that one line, if the mode lets it through, and by nothing else.
pub guard_life-IsRecorded :
    (codec : Codec) (d : Diagnostics) (section model : Text) (steps : List GuardStep)
    (duration_ms : ℕ) (ts : Text)
    → IsRecorded d
        (new_request_id d).0
        section
        model
        (outcome_or_dropped (first_ending steps))
        (guard_life codec d section model steps duration_ms ts).stats_sent
unfolding guard_life new_guard new_request_id
guard_life-IsRecorded codec d section model steps duration_ms ts =
    drop_guard-IsRecorded d _ section model (first_ending steps) _ duration_ms ts (
      guard_steps-IsGuard d _ section model codec steps none (new_guard d section model) (record {
        finished = refl;
        same_id = refl;
        same_section = refl;
        same_model = refl;
        log = record { mode = refl; channels = refl; sent = refl };
      }))
