-- ===== src/Upstream/Reported.antt =====
-- src/openai.rs and src/anthropic.rs: what the statistics say of a request against what its client
-- gets, for the calls that a handler makes on its guard.
pub mod Relayed
pub mod Passed
pub mod Noted
pub mod Translated
pub mod Polled
pub mod Answered
use inf_splitter.Prelude.{
  List, Option, Option-cases, Result, [], ap, err, false, inl, inr, none, ok, refl, some, subst,
  sym, ℕ, ◌++◌, ◌∙◌, ◌∷◌, ◌≡◌,
}
use inf_splitter.Prelude.Text.{Text}
use inf_splitter.Upstream.{Handled, Libraries, Response, built, is_success}
use inf_splitter.Diagnostics.Masking.{Codec}
use inf_splitter.Diagnostics.Guard.Steps.{GuardStep, guard_life, guard_step, guard_steps}
use inf_splitter.Diagnostics.Guard.Once.{
  IsRecorded, Outcome, ending_of, first_ending, or_assoc, outcome_or_dropped,
}
use inf_splitter.Diagnostics.{Diagnostics, new_request_id}
use inf_splitter.Diagnostics.Guard.{State, drop_guard, new_guard}
use inf_splitter.Errors.{AppError, internal, status}
use inf_splitter.Config.Route.{or}
use inf_splitter.Diagnostics.Guard.Once.Life.{guard_life-IsRecorded}

-- The outcome that is recorded, by the result that the client gets. The last case is an error
-- answer of the upstream that the response builder does not take.
pub data Reported {Value : Type 0} (fault : Response Value → Option Text)
    : Result AppError (Response Value) → Outcome → Type 0 where
  answered : (r : Response Value) → Reported fault (ok r) (r.status, none)
  passed_error :
      (r : Response Value) (t : Text)
      → is_success r.status ≡ false
      → Reported fault (ok r) (r.status, some t)
  refused : (e : AppError) (t : Text) → Reported fault (err e) (status e, some t)
  unbuilt :
      (r : Response Value) (m t : Text)
      → is_success r.status ≡ false
      → fault r ≡ some m
      → Reported fault (err (internal m)) (r.status, some t)

-- steps that do not end the guard
pub record Quiet (codec : Codec) (s s' : State) : Type 0 where
  pub steps : List GuardStep
  pub runs : guard_steps codec steps s ≡ s'
  pub unended : first_ending steps ≡ none

-- steps that end it with what is reported of the result
pub record Lived {M Value : Type 0} (lib : Libraries M Value) (s : State) (h : Handled Value)
    : Type 0 where
  pub steps : List GuardStep
  pub runs : guard_steps lib.codec steps s ≡ h.1
  pub reported : Reported lib.fault h.0 (outcome_or_dropped (first_ending steps))

pub guard_steps-append :
    (codec : Codec) (a b : List GuardStep) (s : State)
    → guard_steps codec (a ++ b) s ≡ guard_steps codec b (guard_steps codec a s)
unfolding guard_steps
guard_steps-append codec [] b s = refl
guard_steps-append codec (step ∷ a) b s = guard_steps-append codec a b (guard_step codec step s)

pub first_ending-append :
    (a b : List GuardStep) → first_ending (a ++ b) ≡ or (first_ending a) (first_ending b)
first_ending-append [] b = refl
first_ending-append (step ∷ a) b =
    ap (or (ending_of step)) (first_ending-append a b)
    ∙ sym (or_assoc (ending_of step) (first_ending a) (first_ending b))

pub Quiet-none : (codec : Codec) (s : State) → Quiet codec s s
unfolding guard_steps
Quiet-none codec s = record { steps = []; runs = refl; unended = refl }

pub Quiet-step :
    (codec : Codec) (step : GuardStep) (s : State)
    → ending_of step ≡ none
    → Quiet codec s (guard_step codec step s)
unfolding guard_steps
Quiet-step codec step s quiet = record {
  steps = step ∷ [];
  runs = refl;
  unended = ap (λ o. or o none) quiet;
}

pub Quiet-then :
    (codec : Codec) (s1 s2 s3 : State) → Quiet codec s1 s2 → Quiet codec s2 s3 → Quiet codec s1 s3
Quiet-then codec s1 s2 s3 a b = record {
  steps = a.steps ++ b.steps;
  runs =
      guard_steps-append codec a.steps b.steps s1 ∙ ap (guard_steps codec b.steps) a.runs ∙ b.runs;
  unended =
      first_ending-append a.steps b.steps
      ∙ ap (λ o. or o (first_ending b.steps)) a.unended
      ∙ b.unended;
}

module _ {M Value : Type 0} (lib : Libraries M Value) where
  pub Lived-after :
      (s s' : State) (h : Handled Value) → Quiet lib.codec s s' → Lived lib s' h → Lived lib s h
  Lived-after s s' h a b = record {
    steps = a.steps ++ b.steps;
    runs =
        guard_steps-append lib.codec a.steps b.steps s
        ∙ ap (guard_steps lib.codec b.steps) a.runs
        ∙ b.runs;
    reported =
        subst (λ o. Reported lib.fault h.0 (outcome_or_dropped o))
          (sym
            (first_ending-append a.steps b.steps ∙ ap (λ o. or o (first_ending b.steps)) a.unended))
          b.reported;
  }

  -- one step that ends the guard
  pub Lived-end :
      (s : State) (h : Handled Value) (step : GuardStep) (o : Outcome)
      → guard_step lib.codec step s ≡ h.1
      → ending_of step ≡ some o
      → Reported lib.fault h.0 o
      → Lived lib s h
  unfolding guard_steps
  Lived-end s h step o runs ends reported = record {
    steps = step ∷ [];
    runs = runs;
    reported =
        subst (λ x. Reported lib.fault h.0 (outcome_or_dropped (or x none))) (sym ends) reported;
  }

  pub built-Reported :
      (r : Response Value) (t : Text)
      → is_success r.status ≡ false
      → Reported lib.fault (built lib r) (r.status, some t)
  unfolding built
  built-Reported r t bad = elim (Option-cases (lib.fault r)) [
    | inl fine ↦ rw (fine, built) (passed_error r t bad)
    | inr (m, fault) ↦ rw (fault, built) (unbuilt r m t bad fault)
  ]

  -- a step after the one that ended the guard
  pub Lived-twice :
      (s s' : State) (h : Handled Value) (step : GuardStep) (o : Outcome) (steps : List GuardStep)
      → guard_steps lib.codec steps s ≡ s'
      → guard_step lib.codec step s' ≡ h.1
      → first_ending steps ≡ some o
      → Reported lib.fault h.0 o
      → Lived lib s h
  unfolding guard_steps
  Lived-twice s s' h step o steps runs last ends reported = record {
    steps = steps ++ step ∷ [];
    runs =
        guard_steps-append lib.codec steps (step ∷ []) s
        ∙ ap (guard_step lib.codec step) runs
        ∙ last;
    reported =
        subst (λ x. Reported lib.fault h.0 (outcome_or_dropped x))
          (sym (
            first_ending-append steps (step ∷ []) ∙ ap (λ x. or x (first_ending (step ∷ []))) ends))
          reported;
  }

  -- the whole life of a guard whose handler has ended it
  pub Lived-IsRecorded :
      (d : Diagnostics) (section model : Text) (h : Handled Value) (duration_ms : ℕ) (ts : Text)
      → Lived lib (new_guard d section model) h
      → (o : Outcome) × IsRecorded d
          (new_request_id d).0
          section
          model
          o
          (drop_guard duration_ms ts h.1).stats_sent
        × Reported lib.fault h.0 o
  unfolding guard_life
  Lived-IsRecorded d section model h duration_ms ts v = (
    outcome_or_dropped (first_ending v.steps),
    subst
        (λ s.
          IsRecorded d (new_request_id d).0 section model
            (outcome_or_dropped (first_ending v.steps)) (drop_guard duration_ms ts s).stats_sent)
        v.runs (guard_life-IsRecorded lib.codec d section model v.steps duration_ms ts),
    v.reported,
  )
