-- ===== src/Upstream.antt =====
-- What src/openai.rs and src/anthropic.rs share: the answer of an upstream as the HTTP client gives
-- it, the response to the client, and what the handlers call of the libraries. A handler passes on
-- the state of its guard. The time is an argument of what reads it.
pub mod Headers
pub mod Passthrough
pub mod Reported
pub mod Requests
pub mod Converted
pub mod Events
pub mod Streamed
pub mod Openai
pub mod Anthropic
pub mod Samples
mod Tests
use inf_splitter.Prelude.{
  Bool, List, Option, Result, [], err, false, leb, map, none, ok, some, true, ℕ, ◌&&◌, ◌==◌, ◌∷◌,
}
use inf_splitter.Prelude.Text.{Text_eq, Text}
use inf_splitter.Prelude.Bytes.{chars}
use inf_splitter.Relay.{DiagnosticStream}
use inf_splitter.Auth.{HeaderMap}
use inf_splitter.Egress.{JsonObject}
use inf_splitter.Diagnostics.Masking.{Codec}
use inf_splitter.Diagnostics.Guard.{Ending, State}
use inf_splitter.Errors.{AppError, internal, upstream}
use inf_splitter.Diagnostics.Details.{JsonValues}

-- the names of an answer in lower case, each with what `to_str` gives of its value
abbrev pub AnswerHeaders : Type 0
AnswerHeaders = List (Text × Option Text)

-- the body is there once, as text or as bytes
pub record Answer : Type 0 where
  pub status : ℕ
  pub headers : AnswerHeaders
  pub text : Result Text Text
  pub bytes : Result Text (List ℕ)

-- a POST, by the client that is built for the proxy
pub record Outgoing : Type 0 where
  pub proxy : Option Text
  pub url : Text
  pub headers : List (Text × Text)
  pub body : List ℕ

pub data Body (Value : Type 0) : Type 0 where
  whole : List ℕ → Body Value
  error_text : Text → Body Value
  json_body : Value → Body Value
  relayed_stream : DiagnosticStream → Body Value
  translated : Body Value

pub record Response (Value : Type 0) : Type 0 where
  pub status : ℕ
  pub headers : List (Text × Text)
  pub body : Body Value

-- The calls of the libraries, and the upstream. `fault` is the error of the response builder.
pub record Libraries (M Value : Type 0) : Type 0 where
  pub http : HeaderMap M
  pub pairs : M → List (Text × Option Text)
  pub json : JsonValues Value
  pub from_slice : List ℕ → Result Text Value
  pub to_vec : Value → Result Text (List ℕ)
  pub codec : Codec
  pub fault : Response Value → Option Text
  pub send : Outgoing → Result Text Answer

-- the time at the calls of the guard, and the time that the upstream took
pub record Clock : Type 0 where
  pub at_ingress : Text
  pub at_egress : Text
  pub at_response : Text
  pub at_end : Text
  pub duration_ms : ℕ

-- the arguments that a handler gives to every call that ends its guard
pub record Trip : Type 0 where
  pub endpoint : Text
  pub direction : Text
  pub streaming : Bool
  pub request_size : ℕ

abbrev pub Handled : Type 0 → Type 0
Handled Value = Result AppError (Response Value) × State

abbrev pub ending : Trip → ℕ → ℕ → Text → Ending
ending trip status duration_ms ts = record {
  status = status;
  duration_ms = duration_ms;
  request_size = trip.request_size;
  response_size = none;
  upstream = trip.endpoint;
  direction = trip.direction;
  streaming = trip.streaming;
  ts = ts;
}

-- map_err with a call that aborts the guard
abbrev pub refuse : {Value : Type 0} → AppError × State → Handled Value
refuse (error, s) = (err error, s)

-- StatusCode::is_success
unfoldable pub is_success : ℕ → Bool
is_success status = leb 200 status && leb status 299

-- headers.get(name), the first value, where it is a text
unfoldable pub header_of : Text → AnswerHeaders → Option Text
header_of name [] = none
header_of name ((n, value) ∷ headers) =
    let rest = header_of name headers in elim (n == name) [ true ↦ value | false ↦ rest ]

abbrev pub as_answer : List (Text × Text) → AnswerHeaders
as_answer headers = map (λ (h : Text × Text). (h.0, some h.1)) headers

module _ {M Value : Type 0} (lib : Libraries M Value) where
  -- Response::builder() up to body(), with its error
  unfoldable pub built : Response Value → Result AppError (Response Value)
  built response = elim (lib.fault response) [
    | none ↦ ok response
    | some message ↦ err (internal message)
  ]

abbrev pub json_content : Text × Text
json_content = (chars "content-type", chars "application/json")
