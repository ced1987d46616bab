-- ===== src/Upstream/Reported/Translated.antt =====
-- src/openai.rs and src/anthropic.rs: the statistics of a request that is translated.
use inf_splitter.Prelude.{
  Bool, Bool-cases, List, Option-cases, Result, Result-cases, [], err, false, if◌then◌else◌, inl,
  inr, none, ok, refl, some, true, ◌++◌, ◌∷◌, ◌≡◌,
}
use inf_splitter.Errors
use inf_splitter.Prelude.Text.{Text_eq, Text}
use inf_splitter.Upstream.{
  Answer, Clock, Handled, Libraries, Response, built, ending, error_text, is_success, json_content,
  translated,
}
use inf_splitter.Diagnostics.Guard.{State, new_guard}
use inf_splitter.Config.Load.{ErrorTranslationRule}
use inf_splitter.Upstream.Converted.{
  Exchange, Left, convert, convert_answer, convert_error, convert_reply, convert_stream,
  convert_with_guard, dropped, held, is_translated, leave, sse_headers, trip, upstream_fails,
}
use inf_splitter.Upstream.Reported.{
  Lived, Lived-IsRecorded, Lived-after, Lived-end, Quiet, Quiet-none, Quiet-step, Quiet-then,
  Reported, answered, built-Reported, refused,
}
use inf_splitter.Diagnostics.Guard.Steps.{
  abort_internal, abort_upstream, abort_with, aborts_internal, aborts_upstream, dumps_response,
  fails_upstream, finishes, guard_step,
}
use inf_splitter.Errors.{AppError, app_error_text, internal, status, upstream}
use inf_splitter.Diagnostics.Masking.{dump_body_from_bytes}
use inf_splitter.Prelude.Bytes.{chars}
use inf_splitter.Config.Route.{RouteTarget}
use inf_splitter.Diagnostics.{Diagnostics, new_request_id}
use inf_splitter.Diagnostics.Guard.Once.{IsRecorded, Outcome}
use inf_splitter.Upstream.Requests.{PreparedBody}
use inf_splitter.Egress.{apply_error_translation}
use inf_splitter.Upstream.Reported.Noted.{dumps-Quiet, note_request-Quiet}

-- the guard has ended with what is reported, or goes open into the stream of the response
pub data Open {M Value : Type 0} (lib : Libraries M Value) (is_streaming : Bool) (s : State)
    : Handled Value → Type 0 where
  closes :
      (h : Handled Value) → is_translated h.0 ≡ false → Lived lib s h → Open lib is_streaming s h
  opens :
      (r : Response Value) (s' : State)
      → is_streaming ≡ true
      → is_translated (ok r) ≡ true
      → Quiet lib.codec s s'
      → Open lib is_streaming s (ok r, s')

pub data Settled {M Value : Type 0} (lib : Libraries M Value) (d : Diagnostics)
    (section model : Text) (is_streaming : Bool)
    : Result AppError (Response Value) × Left → Type 0 where
  settles :
      (r : Result AppError (Response Value)) (d' : Diagnostics) (o : Outcome)
      → IsRecorded d (new_request_id d).0 section model o d'.stats_sent
      → Reported lib.fault r o
      → Settled lib d section model is_streaming (r, dropped d')
  streaming :
      (r : Response Value) (s : State)
      → is_streaming ≡ true
      → Quiet lib.codec (new_guard d section model) s
      → Settled lib d section model is_streaming (ok r, held s)

module _ {M Value Reply : Type 0} (lib : Libraries M Value) (rules : List ErrorTranslationRule)
    (ex : Exchange Value Reply) (endpoint : Text) (clock : Clock) where
  upstream_fails-Lived :
      (e : Text) (s : State) → Lived lib s (upstream_fails lib rules ex endpoint clock e s)
  unfolding guard_step abort_upstream abort_with Errors.status
  upstream_fails-Lived e s =
      Lived-end lib s _
        (aborts_upstream
          (ending (trip lib rules ex endpoint clock) 502 clock.duration_ms clock.at_end) e)
        (502, some e) refl refl (refused (upstream e) e)

  convert_error-Lived :
      (answer : Answer) (s : State)
      → is_success answer.status ≡ false
      → Lived lib s (convert_error lib rules ex endpoint clock answer s)
  unfolding convert_error guard_step
  convert_error-Lived answer s bad =
      let error_body : Text = elim answer.text [
        | ok t ↦ t
        | err e ↦ chars "(failed to read error body: " ++ e ++ chars ")"
      ] in
      Lived-end lib s _
        (fails_upstream
          (ending (trip lib rules ex endpoint clock) answer.status clock.duration_ms clock.at_end)
          error_body (lib.json.as_bytes error_body) (ex.dump_headers answer.headers))
        (answer.status, some error_body) refl refl (built-Reported lib _ error_body bad)

  convert_reply-Lived :
      (answer : Answer) (s : State)
      → Lived lib s (convert_reply lib rules ex endpoint clock answer s)
  unfolding convert_reply guard_step
  convert_reply-Lived answer s = elim (Result-cases answer.bytes) [
    | inr (e, failed) ↦ rw (failed, convert_reply) (upstream_fails-Lived e s)
    | inl (bytes, there) ↦ elim (Result-cases (ex.read bytes)) [
      | inr (e, unread) ↦ rw (there, unread, convert_reply) (upstream_fails-Lived _ s)
      | inl (reply, read) ↦
          rw (there, read, convert_reply)
            (Lived-after lib s _ _
              (Quiet-step lib.codec
                (dumps_response (dump_body_from_bytes lib.codec bytes) 200
                  (ex.dump_headers answer.headers) clock.at_response)
                s refl)
              (Lived-end lib _ _ (finishes _) (200, none) refl refl (answered _)))
    ]
  ]

  built-plain :
      (r : Response Value) → is_translated (ok r) ≡ false → is_translated (built lib r) ≡ false
  unfolding built
  built-plain r plain = elim (Option-cases (lib.fault r)) [
    | inl fine ↦ rw (fine, built) plain
    | inr (m, fault) ↦ rw (fault, built) refl
  ]

  convert_error-plain :
      (answer : Answer) (s : State)
      → is_translated (convert_error lib rules ex endpoint clock answer s).0 ≡ false
  unfolding convert_error built
  convert_error-plain answer s =
      let error_body : Text = elim answer.text [
        | ok t ↦ t
        | err e ↦ chars "(failed to read error body: " ++ e ++ chars ")"
      ] in
      built-plain
        (record {
          status = answer.status;
          headers = json_content ∷ [];
          body = error_text (apply_error_translation answer.status error_body rules);
        })
        refl

  convert_reply-plain :
      (answer : Answer) (s : State)
      → is_translated (convert_reply lib rules ex endpoint clock answer s).0 ≡ false
  unfolding convert_reply
  convert_reply-plain answer s = elim (Result-cases answer.bytes) [
    | inr (e, failed) ↦ rw (failed, convert_reply) refl
    | inl (bytes, there) ↦ elim (Result-cases (ex.read bytes)) [
      | inr (e, unread) ↦ rw (there, unread, convert_reply) refl
      | inl (reply, read) ↦ rw (there, read, convert_reply) refl
    ]
  ]

  convert_stream-Open :
      (s : State)
      → ex.streaming ≡ true
      → Open lib ex.streaming s (convert_stream lib rules ex endpoint clock s)
  unfolding convert_stream guard_step abort_internal abort_with Errors.status
  convert_stream-Open s streams =
      let response : Response Value = record {
        status = 200;
        headers = sse_headers;
        body = translated;
      } in
      elim (Option-cases (lib.fault response)) [
        | inl fine ↦ rw (fine, convert_stream) (opens _ s streams refl (Quiet-none lib.codec s))
        | inr (e, fault) ↦
            let error = app_error_text (internal e) in
            rw (fault, convert_stream)
              (closes _ refl (
                Lived-end lib s _
                  (aborts_internal
                    (ending (trip lib rules ex endpoint clock) 500 clock.duration_ms clock.at_end)
                    error)
                  (500, some error) refl refl (refused (internal error) error)))
      ]

  either :
      (streams test : Bool) (s : State) (x y : Handled Value)
      → (test ≡ true → Open lib streams s x)
      → (test ≡ false → Open lib streams s y)
      → Open lib streams s (if test then x else y)
  either streams true s x y t f = t refl
  either streams false s x y t f = f refl

  convert_answer-Open :
      (sent : Result Text Answer) (s : State)
      → Open lib ex.streaming s (convert_answer lib rules ex endpoint clock sent s)
  unfolding convert_answer
  convert_answer-Open (err e) s = closes _ refl (upstream_fails-Lived e s)
  convert_answer-Open (ok answer) s = elim (Bool-cases (is_success answer.status)) [
    | inr bad ↦
        rw (bad, convert_answer)
          (closes _ (convert_error-plain answer s) (convert_error-Lived answer s bad))
    | inl good ↦
        rw (good, convert_answer)
          (either ex.streaming ex.streaming s _ _ (convert_stream-Open s)
            (λ plain. closes _ (convert_reply-plain answer s) (convert_reply-Lived answer s)))
  ]

  Open-after :
      (streams : Bool) (s s' : State) (h : Handled Value)
      → Quiet lib.codec s s'
      → Open lib streams s' h
      → Open lib streams s h
  Open-after streams s s' h a (closes _ plain b) = closes h plain (Lived-after lib s s' h a b)
  Open-after streams s s' _ a (opens r s'' y is_stream b) =
      opens r s'' y is_stream (Quiet-then lib.codec s s' s'' a b)

  pub convert_with_guard-Open :
      (headers : M) (route : RouteTarget) (prepared : PreparedBody Value) (s : State)
      → Open lib ex.streaming s
          (convert_with_guard lib rules ex endpoint clock headers route prepared s)
  unfolding convert_with_guard
  convert_with_guard-Open headers route prepared s =
      Open-after ex.streaming s _ _
        (Quiet-then lib.codec s _ _
          (note_request-Quiet lib rules ex endpoint clock prepared.value s)
          (dumps-Quiet lib rules ex endpoint clock headers route prepared.egress_str _))
        (convert_answer-Open _ _)

  leave-Settled :
      (d : Diagnostics) (section : Text) (h : Handled Value)
      → Open lib ex.streaming (new_guard d section ex.model) h
      → Settled lib d section ex.model ex.streaming (leave lib rules ex endpoint clock h)
  unfolding leave
  leave-Settled d section h (closes _ plain v) =
      let (o, recorded, reported) =
        Lived-IsRecorded lib d section ex.model h clock.duration_ms clock.at_end v in
      rw (plain, leave) (settles h.0 _ o recorded reported)
  leave-Settled d section _ (opens r s streams is_stream v) =
      rw (is_stream, leave) (streaming r s streams v)

  -- Where the body of a translated request was prepared, the guard that is made for it either has ended and is dropped, or is held by the stream of the response and has not ended. In the first case exactly one event is handed to record_stats, about this request, and the client gets what it says, as for a request that is passed through. The second case only happens to a streamed request whose upstream answered with success.
  pub convert-Settled :
      (headers : M) (route : RouteTarget) (prepared : PreparedBody Value) (d : Diagnostics)
      → Settled lib d route.section ex.model ex.streaming
          (convert lib rules ex endpoint clock headers route (ok prepared) d)
  unfolding convert
  convert-Settled headers route prepared d =
      leave-Settled d route.section _
        (convert_with_guard-Open headers route prepared (new_guard d route.section ex.model))
