-- ===== src/Upstream/Reported/Answered.antt =====
-- src/openai.rs and src/anthropic.rs: every way in which a request that is to be translated is
-- answered.
use inf_splitter.Prelude.{
  List, Option, Result, Result-cases, err, inl, inr, length, none, ok, refl, some, subst, sym, ℕ,
  ◌++◌, ◌≡◌,
}
use inf_splitter.Prelude.Text.{Text_eq, Text}
use inf_splitter.Upstream.{Clock, Libraries, Response}
use inf_splitter.Config.Load.{ErrorTranslationRule}
use inf_splitter.Diagnostics.{Diagnostics, new_request_id}
use inf_splitter.Upstream.Openai.{
  ToOpenai, handle_from_anthropic, handle_manual, invalid_stats, is_true, openai_body,
  openai_exchange, refuse_body,
}
use inf_splitter.Upstream.Converted.{Exchange, Left, convert, dropped}
use inf_splitter.Errors.{AppError, bad_request}
use inf_splitter.Upstream.Anthropic.{
  ToAnthropic, anthropic_body, anthropic_exchange, handle_converted, handle_translated,
}
use inf_splitter.Config.Route.{RouteTarget}
use inf_splitter.Diagnostics.Guard.Once.{IsRecorded, record_stats-sent}
use inf_splitter.Upstream.Requests.{
  ChatCompletionRequest, MessageCreateRequest, PreparedBody, cap_anthropic_max_tokens,
  cap_openai_max_tokens, strip_adaptive_thinking,
}
use inf_splitter.Prelude.Bytes.{chars}
use inf_splitter.Upstream.Reported.Translated.{Settled, convert-Settled}

-- what is answered and recorded, by what the parsing of the body gave, and the preparing of what
-- was parsed
pub data Answered {M Value Reply Req : Type 0} (lib : Libraries M Value) (d : Diagnostics)
    (section what : Text) (parsed : Result Text Req)
    (prepare : Req → Result AppError (PreparedBody Value)) (exchange : Req → Exchange Value Reply)
    : Result AppError (Response Value) × Left → Type 0 where
  -- one event with the status of the error
  invalid :
      (e : Text) (d' : Diagnostics)
      → parsed ≡ err e
      → IsRecorded d (new_request_id d).0 section (chars "?") (400, some (what ++ e)) d'.stats_sent
      → Answered lib d section what parsed prepare exchange (err (bad_request e), dropped d')
  -- no guard was made, and nothing was recorded
  unprepared :
      (req : Req) (e : AppError)
      → parsed ≡ ok req
      → prepare req ≡ err e
      → Answered lib d section what parsed prepare exchange (err e, dropped d)
  settled :
      (req : Req) (prepared : PreparedBody Value) (x : Result AppError (Response Value) × Left)
      → parsed ≡ ok req
      → prepare req ≡ ok prepared
      → Settled lib d section (exchange req).model (exchange req).streaming x
      → Answered lib d section what parsed prepare exchange x

refuse_body-IsRecorded :
    {Value : Type 0} (section direction endpoint : Text) (n : ℕ) (ts what error : Text)
    (d : Diagnostics)
    → (d' : Diagnostics) × (refuse_body {Value = Value} section direction endpoint n ts what error d
        ≡ (err (bad_request error), dropped d'))
      × IsRecorded d
          (new_request_id d).0
          section
          (chars "?")
          (400, some (what ++ error))
          d'.stats_sent
unfolding refuse_body new_request_id
refuse_body-IsRecorded section direction endpoint n ts what error d =
    let event =
      invalid_stats section (new_request_id d).0 direction endpoint n ts (what ++ error) in
    (
      _,
      refl,
      record {
        event = event;
        only =
            record_stats-sent d (new_request_id d).1 event
              (record { mode = refl; channels = refl; sent = refl });
        its_id = refl;
        its_section = refl;
        its_model = refl;
        its_outcome = refl;
      },
    )

module _ {M Value Reply : Type 0} (lib : Libraries M Value)
    (rules : List ErrorTranslationRule) where
  convert-Answered :
      {Req : Type 0} (what : Text) (parsed : Result Text Req)
      (prepare : Req → Result AppError (PreparedBody Value)) (exchange : Req → Exchange Value Reply)
      (req : Req) (endpoint : Text) (clock : Clock) (headers : M) (route : RouteTarget)
      (d : Diagnostics)
      → parsed ≡ ok req
      → Answered lib d route.section what parsed prepare exchange
          (convert lib rules (exchange req) endpoint clock headers route (prepare req) d)
  unfolding convert
  convert-Answered what parsed prepare exchange req endpoint clock headers route d good =
      elim (Result-cases (prepare req)) [
        | inr (e, bad) ↦ rw (bad, convert) (unprepared req e good bad)
        | inl (p, ready) ↦
            subst
              (λ x.
                Answered lib d route.section what parsed prepare exchange
                  (convert lib rules (exchange req) endpoint clock headers route x d))
              (sym ready)
              (settled req p _ good ready
                (convert-Settled lib rules (exchange req) endpoint clock headers route p d))
      ]

  -- by what the body is parsed to
  by_parsed :
      {Req : Type 0} (direction endpoint what : Text) (n : ℕ)
      (prepare : Req → Result AppError (PreparedBody Value)) (exchange : Req → Exchange Value Reply)
      (clock : Clock) (headers : M) (route : RouteTarget) (d : Diagnostics)
      (parsed : Result Text Req)
      → let answer : Result AppError (Response Value) × Left = elim parsed [
        | err e ↦ refuse_body route.section direction endpoint n clock.at_end what e d
        | ok req ↦ convert lib rules (exchange req) endpoint clock headers route (prepare req) d
      ] in
        Answered lib d route.section what parsed prepare exchange answer
  by_parsed direction endpoint what n prepare exchange clock headers route d (err e) =
      let (d', refuses, recorded) =
        refuse_body-IsRecorded route.section direction endpoint n clock.at_end what e d in
      subst (Answered lib d route.section what (err e) prepare exchange) (sym refuses)
        (invalid e d' refl recorded)
  by_parsed direction endpoint what n prepare exchange clock headers route d (ok req) =
      convert-Answered what (ok req) prepare exchange req endpoint clock headers route d refl

  pub handle_from_anthropic-Answered :
      (t : ToOpenai Value Reply) (body : List ℕ) (headers : M) (route : RouteTarget)
      (endpoint : Text) (clock : Clock) (d : Diagnostics)
      → let json : Option Value = elim (lib.from_slice body) [ ok v ↦ some v | err _ ↦ none ] in
        let capped =
          λ (req : MessageCreateRequest Value). cap_anthropic_max_tokens req route.max_tokens in
        Answered lib d route.section
          (chars "invalid Anthropic body: ")
          (t.from_value (strip_adaptive_thinking lib.json json t.null))
          (λ req. openai_body lib rules t (is_true (capped req).stream) (capped req) route d)
          (λ req. openai_exchange lib rules t (is_true (capped req).stream) (capped req))
          (handle_from_anthropic lib rules t body headers route endpoint clock d)
  unfolding handle_from_anthropic handle_manual
  handle_from_anthropic-Answered t body headers route endpoint clock d =
      by_parsed (chars "anthropic->openai") endpoint (chars "invalid Anthropic body: ")
        (length body) _ _ clock headers route d _

  pub handle_converted-Answered :
      (t : ToAnthropic Value Reply) (body : List ℕ) (headers : M) (route : RouteTarget)
      (endpoint : Text) (clock : Clock) (d : Diagnostics)
      → let capped =
          λ (req : ChatCompletionRequest Value). cap_openai_max_tokens lib.json req route in
        Answered lib d route.section
          (chars "invalid OpenAI body: ")
          (t.from_slice body)
          (λ req. anthropic_body lib rules t (is_true (capped req).stream) (capped req) route d)
          (λ req.
            anthropic_exchange lib rules t (is_true (capped req).stream) (length body) (capped req))
          (handle_converted lib rules t body headers route endpoint clock d)
  unfolding handle_converted handle_translated
  handle_converted-Answered t body headers route endpoint clock d =
      by_parsed (chars "openai->anthropic") endpoint (chars "invalid OpenAI body: ") (length body) _
        _ clock headers route d _
