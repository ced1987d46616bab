-- ===== src/Diagnostics/Guard/Steps.antt =====
-- src/diagnostics.rs: the calls that a handler makes on a guard, as steps, and the whole life of a
-- guard: the steps of the request and then the drop.
use inf_splitter.Prelude.{List, Option, [], none, some, ℕ, ◌∷◌}
use inf_splitter.Diagnostics.Guard.{
  Ending, State, drop_guard, egress_dump, finish, finish_with_error, finish_with_upstream_error,
  ingress_dump, ingress_response_dump, new_guard, response_dump,
}
use inf_splitter.Prelude.Text.{Text}
use inf_splitter.Diagnostics.Masking.{Codec}
use inf_splitter.Diagnostics.{Diagnostics, DumpBody}
use inf_splitter.Errors.{AppError, bad_request, internal, status, upstream}

-- abort_with: the guard is ended before the error is given back
unfoldable pub abort_with : Ending → Text → (Text → AppError) → State → AppError × State
abort_with e error into_app_error s =
    (into_app_error error, finish_with_error (record e { response_size = none }) error s)

abbrev pub with_status : Ending → ℕ → Ending
with_status e status = record e { status = status }

unfoldable pub abort_upstream : Ending → Text → State → AppError × State
abort_upstream e error s = abort_with (with_status e 502) error upstream s

unfoldable pub abort_internal : Ending → Text → State → AppError × State
abort_internal e error s = abort_with (with_status e 500) error internal s

unfoldable pub abort_bad_request : Ending → Text → State → AppError × State
abort_bad_request e error s = abort_with (with_status e 400) error bad_request s

pub data GuardStep : Type 0 where
  sets_input_messages : ℕ → GuardStep
  sets_max_tokens : ℕ → GuardStep
  sets_detail_ingress : Text → GuardStep
  sets_detail_egress : Text → GuardStep
  dumps_ingress : List ℕ → List (Text × Option Text) → (ts : Text) → GuardStep
  dumps_egress : List ℕ → List (Text × Option Text) → (ts : Text) → GuardStep
  dumps_response : DumpBody → ℕ → List (Text × Text) → (ts : Text) → GuardStep
  dumps_ingress_response : DumpBody → ℕ → (ts : Text) → GuardStep
  finishes : Ending → GuardStep
  fails : Ending → (error : Text) → GuardStep
  fails_upstream : Ending → Text → List ℕ → List (Text × Text) → GuardStep
  aborts_upstream : Ending → (error : Text) → GuardStep
  aborts_internal : Ending → (error : Text) → GuardStep
  aborts_bad_request : Ending → (error : Text) → GuardStep

unfoldable pub guard_step : Codec → GuardStep → State → State
guard_step codec (sets_input_messages n) (g, d) = (record g { input_messages = some n }, d)
guard_step codec (sets_max_tokens n) (g, d) = (record g { max_tokens = some n }, d)
guard_step codec (sets_detail_ingress v) (g, d) = (record g { messages_detail_ingress = some v }, d)
guard_step codec (sets_detail_egress v) (g, d) = (record g { messages_detail_egress = some v }, d)
guard_step codec (dumps_ingress body headers ts) s = ingress_dump codec body headers ts s
guard_step codec (dumps_egress body headers ts) s = egress_dump codec body headers ts s
guard_step codec (dumps_response body st headers ts) s = response_dump body st headers ts s
guard_step codec (dumps_ingress_response body st ts) s = ingress_response_dump body st ts s
guard_step codec (finishes e) s = finish e s
guard_step codec (fails e error) s = finish_with_error e error s
guard_step codec (fails_upstream e body bytes headers) s =
    finish_with_upstream_error codec e body bytes headers s
guard_step codec (aborts_upstream e error) s = (abort_upstream e error s).1
guard_step codec (aborts_internal e error) s = (abort_internal e error s).1
guard_step codec (aborts_bad_request e error) s = (abort_bad_request e error s).1

unfoldable pub guard_steps : Codec → List GuardStep → State → State
guard_steps codec [] s = s
guard_steps codec (step ∷ steps) s = guard_steps codec steps (guard_step codec step s)

-- from the creation of the guard to its end
unfoldable pub guard_life :
    Codec → Diagnostics → Text → Text → List GuardStep → ℕ → Text → Diagnostics
guard_life codec d section model steps duration_ms ts =
    drop_guard duration_ms ts (guard_steps codec steps (new_guard d section model))
