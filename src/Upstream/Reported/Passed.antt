-- ===== src/Upstream/Reported/Passed.antt =====
-- src/openai.rs and src/anthropic.rs: the statistics of a request that is passed through.
use inf_splitter.Prelude.{
  Bool-cases, List, Option, Option-cases, Result, Result-cases, [], arith, err, false, inl, inr,
  none, ok, refl, some, true, ℕ, ◌∷◌, ◌≡◌, ◌⊎◌,
}
use inf_splitter.Errors
use inf_splitter.Prelude.Text.{Text_eq, Text}
use inf_splitter.Upstream.{
  Answer, Clock, Handled, Libraries, Response, Trip, ending, header_of, is_success,
}
use inf_splitter.Errors.{AppError, app_error_text, internal, upstream}
use inf_splitter.Diagnostics.Guard.{State, new_guard}
use inf_splitter.Upstream.Passthrough.{
  Side, after_relay, after_send, handle, is_error_answer, note_detail, note_egress, relay_ending,
  relay_error, relay_upstream, send_body, validate_upstream_body, with_guard,
}
use inf_splitter.Diagnostics.Guard.Once.{IsRecorded, Outcome, ending_of, first_ending}
use inf_splitter.Diagnostics.Guard.Steps.{
  GuardStep, abort_internal, abort_upstream, abort_with, aborts_internal, aborts_upstream,
  dumps_egress, dumps_ingress, dumps_response, fails_upstream, finishes, guard_step, guard_steps,
  sets_detail_egress, sets_detail_ingress,
}
use inf_splitter.Config.Load.{ErrorTranslationRule}
use inf_splitter.Sse.{is_event_stream}
use inf_splitter.Prelude.Bytes.{chars}
use inf_splitter.Upstream.Reported.{
  Lived, Lived-IsRecorded, Lived-after, Lived-end, Lived-twice, Quiet, Quiet-none, Quiet-step,
  Reported, answered, built-Reported, refused,
}
use inf_splitter.Diagnostics.{Diagnostics, dump_enabled, new_request_id, stats_enabled}
use inf_splitter.Config.Route.{RouteTarget}
use inf_splitter.Egress.{apply_egress_transforms}
use inf_splitter.Diagnostics.Details.{messages_detail_from_value, text_of, text_or}
use inf_splitter.Upstream.Reported.Relayed.{IsPassedOn, send_body-IsPassedOn}

-- a step that aborted already, or none that ended the guard
abbrev Aborted : {Value : Type 0} → Result AppError (Response Value) → Option Outcome → Type 0
Aborted r o = (o ≡ none) ⊎ ((e : AppError) × (t : Text) × (r ≡ err e) × (o ≡ some (502, some t)))

record Relays {M Value : Type 0} (lib : Libraries M Value) (s : State) (h : Handled Value)
    : Type 0 where
  steps : List GuardStep
  runs : guard_steps lib.codec steps s ≡ h.1
  aborted : Aborted h.0 (first_ending steps)

module _ {M Value : Type 0} (lib : Libraries M Value) (side : Side)
    (rules : List ErrorTranslationRule) where
  relay_upstream-Relays :
      (answer : Answer) (trip : Trip) (clock : Clock) (s : State)
      → Relays lib s (relay_upstream lib side rules answer trip clock s)
  unfolding relay_upstream guard_steps guard_step abort_upstream abort_with
  relay_upstream-Relays answer trip clock (g, d) =
      elim (Bool-cases (is_event_stream (header_of (chars "content-type") answer.headers))) [
        | inl stream ↦
            rw (stream, relay_upstream) (record { steps = []; runs = refl; aborted = inl refl })
        | inr not_stream ↦ elim (Result-cases answer.bytes) [
          | inr (e, failed) ↦
              rw (not_stream, failed, relay_upstream)
                (record {
                  steps = aborts_upstream (relay_ending trip clock g) e ∷ [];
                  runs = refl;
                  aborted = inr (upstream e, e, refl, refl);
                })
          | inl (bytes, read) ↦ elim (Result-cases (validate_upstream_body lib.codec bytes)) [
            | inr ((e, dump), bad) ↦
                rw (not_stream, read, bad, relay_upstream)
                  (record {
                    steps =
                        dumps_response dump answer.status (side.relay_headers answer.headers)
                          clock.at_response
                        ∷ aborts_upstream (relay_ending trip clock g) (app_error_text e)
                        ∷ [];
                    runs = refl;
                    aborted = inr (upstream (app_error_text e), app_error_text e, refl, refl);
                  })
            | inl (dump, valid) ↦
                rw (not_stream, read, valid, relay_upstream)
                  (record {
                    steps =
                        dumps_response dump answer.status (side.relay_headers answer.headers)
                          clock.at_response
                        ∷ [];
                    runs = refl;
                    aborted = inl refl;
                  })
          ]
        ]
      ]

  after_relay-Lived :
      (trip : Trip) (clock : Clock) (s : State) (h : Handled Value)
      → Relays lib s h
      → Lived lib s (after_relay lib side rules trip clock h)
  unfolding after_relay guard_steps guard_step abort_upstream abort_with Errors.status
  after_relay-Lived trip clock s (ok r, s') v = elim v.aborted [
    | inr (e, t, is_err, _) ↦ absurd (cc is_err)
    | inl unended ↦
        Lived-after lib s s' _ (record { steps = v.steps; runs = v.runs; unended = unended })
          (Lived-end lib s' _ (finishes _) (r.status, none) refl refl (answered r))
  ]
  after_relay-Lived trip clock s (err e, s') v =
      let ended = ending trip 502 clock.duration_ms clock.at_end in
      let message = app_error_text e in
      elim v.aborted [
        | inl unended ↦
            Lived-after lib s s' _ (record { steps = v.steps; runs = v.runs; unended = unended })
              (Lived-end lib s' _ (aborts_upstream ended message) (502, some message) refl refl
                (refused (upstream message) message))
        | inr (_, t, _, ends) ↦
            Lived-twice lib s s' _ (aborts_upstream ended message) (502, some t) v.steps v.runs refl
              ends (refused (upstream message) t)
      ]

  is_error_answer-bad :
      (answer : Answer)
      → is_error_answer lib side rules answer ≡ true
      → is_success answer.status ≡ false
  is_error_answer-bad answer bad = elim (Bool-cases (is_success answer.status)) [
    | inl success ↦ absurd (ground (arith, success, bad))
    | inr failed ↦ failed
  ]

  relay_error-Lived :
      (answer : Answer) (trip : Trip) (clock : Clock) (s : State)
      → is_success answer.status ≡ false
      → Lived lib s (relay_error lib side rules answer trip clock s)
  unfolding relay_error guard_step
  relay_error-Lived answer trip clock s bad =
      let error_body : Text = elim answer.text [ ok t ↦ t | err _ ↦ [] ] in
      Lived-end lib s _
        (fails_upstream (ending trip answer.status clock.duration_ms clock.at_end) error_body
          (lib.json.as_bytes error_body) (side.dump_headers answer.headers))
        (answer.status, some error_body) refl refl (built-Reported lib _ error_body bad)

  after_send-Lived :
      (sent : Result Text Answer) (trip : Trip) (clock : Clock) (s : State)
      → Lived lib s (after_send lib side rules sent trip clock s)
  unfolding after_send guard_step abort_upstream abort_with Errors.status
  after_send-Lived (err e) trip clock s =
      Lived-end lib s _ (aborts_upstream (ending trip 502 clock.duration_ms clock.at_end) e)
        (502, some e) refl refl (refused (upstream e) e)
  after_send-Lived (ok answer) trip clock s =
      elim (Bool-cases (is_error_answer lib side rules answer)) [
        | inl bad ↦
            rw (bad, after_send)
              (relay_error-Lived answer trip clock s (is_error_answer-bad answer bad))
        | inr good ↦
            rw (good, after_send)
              (after_relay-Lived trip clock s (relay_upstream lib side rules answer trip clock s)
                (relay_upstream-Relays answer trip clock s))
      ]

  note_detail-Quiet :
      (sets : Text → GuardStep) (value : Value) (s : State)
      → ((t : Text) → ending_of (sets t) ≡ none)
      → Quiet lib.codec s (note_detail lib side rules sets value s)
  note_detail-Quiet sets value (g, d) quiet = elim (Bool-cases (stats_enabled d)) [
    | inr off ↦ rw off (Quiet-none lib.codec (g, d))
    | inl on ↦ elim (Option-cases (messages_detail_from_value lib.json value)) [
      | inl without ↦ rw (on, without) (Quiet-none lib.codec (g, d))
      | inr (detail, there) ↦
          rw (on, there)
            (Quiet-step lib.codec (sets (lib.json.to_text detail)) (g, d)
              (quiet (lib.json.to_text detail)))
    ]
  ]

  note_egress-Quiet :
      (headers : M) (route : RouteTarget) (body : List ℕ) (clock : Clock) (s : State)
      → Quiet lib.codec s (note_egress lib side rules headers route body clock s)
  unfolding guard_step
  note_egress-Quiet headers route body clock (g, d) = elim (Bool-cases (dump_enabled d)) [
    | inr off ↦ rw off (Quiet-none lib.codec (g, d))
    | inl on ↦ rw on (Quiet-step lib.codec (dumps_egress body _ clock.at_egress) (g, d) refl)
  ]

  send_body-Lived :
      (headers : M) (route : RouteTarget) (trip : Trip) (clock : Clock)
      (serialised : Result Text (List ℕ)) (s : State)
      → Lived lib s (send_body lib side rules headers route trip clock serialised s)
  unfolding send_body guard_step abort_internal abort_with Errors.status
  send_body-Lived headers route trip clock (err e) s =
      Lived-end lib s _ (aborts_internal (ending trip 500 0 clock.at_end) e) (500, some e) refl refl
        (refused (internal e) e)
  send_body-Lived headers route trip clock (ok body) s =
      Lived-after lib s _ _ (note_egress-Quiet headers route body clock s)
        (after_send-Lived _ trip clock _)

  with_guard-Lived :
      (body : List ℕ) (value : Value) (model : Text) (headers : M) (route : RouteTarget)
      (endpoint : Text) (clock : Clock) (s : State)
      → Lived lib s (with_guard lib side rules body value model headers route endpoint clock s)
  unfolding with_guard guard_step
  with_guard-Lived body value model headers route endpoint clock s =
      let value' = apply_egress_transforms lib.json.object value model route in
      let dumped =
        Quiet-step lib.codec (dumps_ingress body (lib.pairs headers) clock.at_ingress) s refl in
      let noted = note_detail-Quiet sets_detail_ingress value _ (λ t. refl) in
      let noted' = note_detail-Quiet sets_detail_egress value' _ (λ t. refl) in
      Lived-after lib s _ _ dumped (
        Lived-after lib _ _ _ noted (
          Lived-after lib _ _ _ noted'
            (send_body-Lived headers route _ clock (lib.to_vec value') _)))

  pub handle-Reported :
      (body : List ℕ) (headers : M) (route : RouteTarget) (endpoint : Text) (clock : Clock)
      (d : Diagnostics) (value : Value)
      → lib.from_slice body ≡ ok value
      → let (result, d') = handle lib side rules body headers route endpoint clock d in
        let model = text_or (chars "?") (text_of lib.json value (chars "model")) in
        IsPassedOn lib side rules headers route endpoint
          (lib.to_vec (apply_egress_transforms lib.json.object value model route))
          result
        × ((o : Outcome) × IsRecorded d (new_request_id d).0 route.section model o d'.stats_sent
            × Reported lib.fault result o)
  unfolding handle with_guard
  handle-Reported body headers route endpoint clock d value parsed =
      let model = text_or (chars "?") (text_of lib.json value (chars "model")) in
      rw (parsed, handle)
        (
          send_body-IsPassedOn lib side rules headers route _ clock
              (lib.to_vec (apply_egress_transforms lib.json.object value model route)) _,
          Lived-IsRecorded lib d route.section model _ clock.duration_ms clock.at_end (
              with_guard-Lived body value model headers route endpoint clock
                (new_guard d route.section model)),
        )
