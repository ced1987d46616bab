-- ===== src/Interactions/Chunks.antt =====
-- src/interactions_handler.rs: the requests of a split send, what it does on the session store for a
-- piece, and the headers of the upstream that the guard is told.
use inf_splitter.Prelude.{
  ℕ_eq, Bool, List, Option, Result, String, [], err, if◌then◌else◌, none, ok, ℕ, ◌++◌, ◌==◌, ◌||◌,
  ◌∷◌,
}
use inf_splitter.Prelude.Text.{Text_eq, Text, starts_with}
use inf_splitter.Upstream.{Answer, AnswerHeaders, Response}
use inf_splitter.Diagnostics.Masking.{to_ascii_lowercase}
use inf_splitter.Session.InFlight.{
  StoreError, ack_piece, complete_batch, fail_batch, mark_response_started, mark_sent,
  set_piece_body,
}
use inf_splitter.Diagnostics.Guard.{State}
use inf_splitter.Errors.{AppError}
use inf_splitter.Diagnostics.{DumpBody, base64, utf8}
use inf_splitter.Session.{ClientInteractionNode, StoreV2}
use inf_splitter.Prelude.Bytes.{chars}
use inf_splitter.Auth.{or_empty}

pub record ChunkRequest (Content Config : Type 0) : Type 0 where
  pub model : Text
  pub input : List Content
  pub system_instruction : Option Text
  pub tools_config : Option Config
  pub previous_interaction_id : Option String
  pub stream : Bool

-- tools and generation_config, which are set or left out together
pub record SplitParams (Content Config : Type 0) : Type 0 where
  pub model : Text
  pub system_instruction : Option Text
  pub tools_config : Option Config
  pub previous_interaction_id : Option String

-- `body_size` is the length of the serialised body that build_pack_body makes of a chunk.
pub record SplitCalls (Value Reply Content Config : Type 0) : Type 0 where
  pub to_value : ChunkRequest Content Config → Result Text Value
  pub send : List ℕ → Result Text Answer
  pub from_str : Text → Result Text Reply
  pub id : Reply → String
  pub body_size : String → List Content → ℕ
  pub text_len : Reply → ℕ
  pub build_response : List Reply → String → Result Text Value
  pub to_string : Text → String
  pub translate_error : Text → Text
  pub store_error : StoreError → Text

-- the store, the guard, and the interactions that were cancelled
pub record Sending : Type 0 where
  pub store : StoreV2
  pub guard : State
  pub cancelled : List String

-- an operation whose error is only logged
abbrev pub attempt : Result StoreError StoreV2 → StoreV2 → StoreV2
attempt (ok s') s = s'
attempt (err _) s = s

unfoldable pub build_chunk_request :
    {Content Config : Type 0}
    → Text
    → List Content
    → Option Text
    → Option String
    → Bool
    → ChunkRequest Content Config
build_chunk_request model input system_instruction prev stream = record {
  model = model;
  input = input;
  system_instruction = system_instruction;
  tools_config = none;
  previous_interaction_id = prev;
  stream = stream;
}

unfoldable pub mark_started_and_persist : ℕ → String → ℕ → List ℕ → Sending → Sending
mark_started_and_persist now batch_id i body st =
    let s1 = attempt (set_piece_body st.store now batch_id i body) st.store in
    record st { store = attempt (mark_response_started s1 now batch_id i) s1 }

unfoldable pub ack_and_persist : ℕ → String → ℕ → String → Sending → Sending
ack_and_persist now batch_id i int_id st =
    let s1 = attempt (mark_sent st.store now batch_id i int_id) st.store in
    record st { store = attempt (ack_piece s1 now batch_id i int_id) s1 }

unfoldable pub complete_batch_and_persist :
    ℕ → String → Sending → Result StoreError ClientInteractionNode × Sending
complete_batch_and_persist now batch_id st =
    let (completed, store) = complete_batch st.store now batch_id in
    (completed, record st { store = store })

-- unwrap_or_default on the identifiers, and a cancellation of each
unfoldable pub fail_batch_and_cancel : ℕ → String → String → Sending → Sending
fail_batch_and_cancel now batch_id reason st = elim (fail_batch st.store now batch_id reason) [
  | err _ ↦ st
  | ok (ids, s') ↦ record st { store = s'; cancelled = st.cancelled ++ ids }
]

abbrev pub on_guard : (State → State) → Sending → Sending
on_guard f st = record st { guard = f st.guard }

-- why the sending stops: after the batch was failed, or without that
pub data Stopped (Value : Type 0) : Type 0 where
  failed_batch : Result AppError (Response Value) → Stopped Value
  aborted : AppError → Stopped Value

abbrev pub stopped_result : {Value : Type 0} → Stopped Value → Result AppError (Response Value)
stopped_result (failed_batch r) = r
stopped_result (aborted e) = err e

abbrev pub dumped_text : DumpBody → Text
dumped_text (utf8 s) = s
dumped_text (base64 s) = s

unfoldable pub is_interactions_response_header_whitelisted : Text → Bool
is_interactions_response_header_whitelisted name =
    let lower = to_ascii_lowercase name in
    lower == chars "x-request-id"
    || lower == chars "x-claude-code-session-id"
    || starts_with (chars "x-ratelimit-") lower
    || lower == chars "request-id"

unfoldable pub response_headers_to_pairs : AnswerHeaders → List (Text × Text)
response_headers_to_pairs [] = []
response_headers_to_pairs ((name, value) ∷ headers) =
    let rest = response_headers_to_pairs headers in
    if is_interactions_response_header_whitelisted name then (name, or_empty value) ∷ rest else rest
