-- ===== src/Upstream/Reported/Noted.antt =====
-- src/openai.rs and src/anthropic.rs: what the guard of a translated request is told before the
-- request is sent does not end it.
use inf_splitter.Prelude.{Bool-cases, List, Option, Option-cases, inl, inr, none, refl, some, ◌≡◌}
use inf_splitter.Prelude.Text.{Text_eq, Text}
use inf_splitter.Upstream.{Clock, Libraries}
use inf_splitter.Diagnostics.Guard.{State}
use inf_splitter.Config.Load.{ErrorTranslationRule}
use inf_splitter.Upstream.Converted.{
  Exchange, dump_converted_egress, dump_converted_ingress, note_request,
}
use inf_splitter.Upstream.Reported.{Quiet, Quiet-none, Quiet-step, Quiet-then}
use inf_splitter.Diagnostics.Guard.Steps.{
  GuardStep, dumps_egress, dumps_ingress, guard_step, sets_detail_egress, sets_detail_ingress,
  sets_input_messages, sets_max_tokens,
}
use inf_splitter.Config.Route.{RouteTarget}
use inf_splitter.Diagnostics.{dump_enabled, stats_enabled}
use inf_splitter.Diagnostics.Guard.Once.{ending_of}
use inf_splitter.Diagnostics.Details.{messages_detail_from_value}

module _ {M Value Reply : Type 0} (lib : Libraries M Value) (rules : List ErrorTranslationRule)
    (ex : Exchange Value Reply) (endpoint : Text) (clock : Clock) where
  pub note_request-Quiet :
      (value : Value) (s : State)
      → Quiet lib.codec s (note_request lib rules ex endpoint clock value s)
  unfolding note_request guard_step
  note_request-Quiet value (g, d) = elim (Bool-cases (stats_enabled d)) [
    | inr off ↦ rw (off, note_request) (Quiet-none lib.codec (g, d))
    | inl on ↦
        let set = λ (step : GuardStep) (s : State).
          λ (e : ending_of step ≡ none). Quiet-step lib.codec step s e in
        let three =
          Quiet-then lib.codec _ _ _ (set (sets_input_messages ex.input_messages) (g, d) refl) (
            Quiet-then lib.codec _ _ _ (set (sets_max_tokens ex.max_tokens) _ refl)
              (set (sets_detail_ingress (lib.json.to_text ex.messages_detail)) _ refl)) in
        elim (Option-cases (messages_detail_from_value lib.json value)) [
          | inl without ↦ rw (on, without, note_request) three
          | inr (detail, there) ↦
              rw (on, there, note_request)
                (Quiet-then lib.codec _ _ _ three
                  (set (sets_detail_egress (lib.json.to_text detail)) _ refl))
        ]
  ]

  ingress-Quiet :
      (headers : M) (s : State)
      → Quiet lib.codec s (dump_converted_ingress lib rules ex endpoint clock headers s)
  unfolding dump_converted_ingress guard_step
  ingress-Quiet headers (g, d) = elim (Bool-cases (dump_enabled d)) [
    | inr off ↦ rw (off, dump_converted_ingress) (Quiet-none lib.codec (g, d))
    | inl on ↦ elim (Option-cases ex.ingress) [
      | inl without ↦ rw (on, without, dump_converted_ingress) (Quiet-none lib.codec (g, d))
      | inr (str, there) ↦
          rw (on, there, dump_converted_ingress)
            (Quiet-step lib.codec
              (dumps_ingress (lib.json.as_bytes str) (lib.pairs headers) clock.at_ingress) (g, d)
              refl)
    ]
  ]

  egress-Quiet :
      (headers : M) (route : RouteTarget) (str : Option Text) (s : State)
      → Quiet lib.codec s (dump_converted_egress lib rules ex endpoint clock headers route str s)
  unfolding dump_converted_egress guard_step
  egress-Quiet headers route none s = Quiet-none lib.codec s
  egress-Quiet headers route (some str) s =
      Quiet-step lib.codec (dumps_egress (lib.json.as_bytes str) _ clock.at_egress) s refl

  pub dumps-Quiet :
      (headers : M) (route : RouteTarget) (str : Option Text) (s : State)
      → Quiet lib.codec s (
          dump_converted_ingress lib rules ex endpoint clock headers
            (dump_converted_egress lib rules ex endpoint clock headers route str s))
  dumps-Quiet headers route str s =
      Quiet-then lib.codec s _ _ (egress-Quiet headers route str s) (ingress-Quiet headers _)
