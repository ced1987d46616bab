-- ===== src/Upstream/Reported/Relayed.antt =====
-- src/openai.rs and src/anthropic.rs: what the client of a request that is passed through gets, by
-- what the upstream answered.
use inf_splitter.Errors
use inf_splitter.Prelude.{
  Bool-cases, List, Option-cases, Result, Result-cases, [], err, inl, inr, ok, refl, ℕ, ◌∷◌, ◌≡◌,
  ◌⊎◌,
}
use inf_splitter.Upstream.{
  Answer, Clock, Handled, Libraries, Response, Trip, built, error_text, header_of, json_content,
}
use inf_splitter.Prelude.Text.{Text}
use inf_splitter.Upstream.Passthrough.{
  Side, after_relay, after_send, is_error_answer, outgoing, relay_error, relay_upstream, send_body,
  validate_upstream_body,
}
use inf_splitter.Errors.{AppError, internal, status, upstream}
use inf_splitter.Config.Load.{ErrorTranslationRule}
use inf_splitter.Diagnostics.Guard.Steps.{abort_internal, abort_upstream, abort_with}
use inf_splitter.Config.Route.{RouteTarget}
use inf_splitter.Diagnostics.Guard.{State}
use inf_splitter.Sse.{is_event_stream}
use inf_splitter.Egress.{apply_error_translation}
use inf_splitter.Prelude.Bytes.{chars}

pub data IsRelayed {Value : Type 0} (sent : Result Text Answer)
    : Result AppError (Response Value) → Type 0 where
  relayed :
      (answer : Answer) (r : Response Value)
      → sent ≡ ok answer
      → r.status ≡ answer.status
      → IsRelayed sent (ok r)
  lost : (e : Text) → sent ≡ err e → IsRelayed sent (err (upstream e))
  -- its body is lost or no text, or the response builder refuses it
  unusable :
      (answer : Answer) (e : AppError)
      → sent ≡ ok answer
      → (Errors.status e ≡ 500) ⊎ (Errors.status e ≡ 502)
      → IsRelayed sent (err e)

module _ {M Value : Type 0} (lib : Libraries M Value) (side : Side)
    (rules : List ErrorTranslationRule) where
  -- the status of the answer, or an error
  data Keeps (code : ℕ) : Handled Value → Type 0 where
    keeps : (r : Response Value) (s : State) → r.status ≡ code → Keeps code (ok r, s)
    refuses : (e : AppError) (s : State) → Keeps code (err e, s)

  built-Keeps :
      (code : ℕ) (r : Response Value) (s : State) → r.status ≡ code → Keeps code (built lib r, s)
  unfolding built
  built-Keeps code r s same = elim (Option-cases (lib.fault r)) [
    | inl fine ↦ rw (fine, built) (keeps r s same)
    | inr (m, fault) ↦ rw (fault, built) (refuses (internal m) s)
  ]

  relay_upstream-Keeps :
      (answer : Answer) (trip : Trip) (clock : Clock) (s : State)
      → Keeps answer.status (relay_upstream lib side rules answer trip clock s)
  unfolding relay_upstream
  relay_upstream-Keeps answer trip clock (g, d) =
      elim (Bool-cases (is_event_stream (header_of (chars "content-type") answer.headers))) [
        | inl stream ↦ rw (stream, relay_upstream) (built-Keeps answer.status _ _ refl)
        | inr not_stream ↦ elim (Result-cases answer.bytes) [
          | inr (e, failed) ↦ rw (not_stream, failed, relay_upstream) (refuses _ _)
          | inl (bytes, read) ↦ elim (Result-cases (validate_upstream_body lib.codec bytes)) [
            | inr ((e, dump), bad) ↦ rw (not_stream, read, bad, relay_upstream) (refuses _ _)
            | inl (dump, valid) ↦
                rw (not_stream, read, valid, relay_upstream) (built-Keeps answer.status _ _ refl)
          ]
        ]
      ]

  after_relay-IsRelayed :
      (answer : Answer) (trip : Trip) (clock : Clock) (h : Handled Value)
      → Keeps answer.status h
      → IsRelayed (ok answer) (after_relay lib side rules trip clock h).0
  unfolding after_relay abort_upstream abort_with Errors.status
  after_relay-IsRelayed answer trip clock _ (keeps r s same) = relayed answer r refl same
  after_relay-IsRelayed answer trip clock _ (refuses e s) = unusable answer _ refl (inr refl)

  relay_error-IsRelayed :
      (answer : Answer) (trip : Trip) (clock : Clock) (s : State)
      → IsRelayed (ok answer) (relay_error lib side rules answer trip clock s).0
  unfolding relay_error built Errors.status
  relay_error-IsRelayed answer trip clock s =
      let error_body : Text = elim answer.text [ ok t ↦ t | err _ ↦ [] ] in
      let r : Response Value = record {
        status = answer.status;
        headers = json_content ∷ side.relay_headers answer.headers;
        body = error_text (apply_error_translation answer.status error_body rules);
      } in
      elim (Option-cases (lib.fault r)) [
        | inl fine ↦ rw (fine, built) (relayed answer r refl refl)
        | inr (m, fault) ↦ rw (fault, built) (unusable answer (internal m) refl (inl refl))
      ]

  after_send-IsRelayed :
      (sent : Result Text Answer) (trip : Trip) (clock : Clock) (s : State)
      → IsRelayed sent (after_send lib side rules sent trip clock s).0
  unfolding after_send abort_upstream abort_with
  after_send-IsRelayed (err e) trip clock s = lost e refl
  after_send-IsRelayed (ok answer) trip clock s =
      elim (Bool-cases (is_error_answer lib side rules answer)) [
        | inl bad ↦ rw (bad, after_send) (relay_error-IsRelayed answer trip clock s)
        | inr good ↦
            rw (good, after_send)
              (after_relay-IsRelayed answer trip clock _ (relay_upstream-Keeps answer trip clock s))
      ]

  -- by the serialised body
  abbrev pub IsPassedOn :
      M → RouteTarget → Text → Result Text (List ℕ) → Result AppError (Response Value) → Type 0
  IsPassedOn headers route endpoint (err e) result = result ≡ err (internal e)
  IsPassedOn headers route endpoint (ok body) result =
      IsRelayed (lib.send (outgoing lib side rules headers route endpoint body)) result

  pub send_body-IsPassedOn :
      (headers : M) (route : RouteTarget) (trip : Trip) (clock : Clock)
      (serialised : Result Text (List ℕ)) (s : State)
      → IsPassedOn headers route trip.endpoint serialised
          (send_body lib side rules headers route trip clock serialised s).0
  unfolding send_body abort_internal abort_with
  send_body-IsPassedOn headers route trip clock (err e) s = refl
  send_body-IsPassedOn headers route trip clock (ok body) s = after_send-IsRelayed _ trip clock _
