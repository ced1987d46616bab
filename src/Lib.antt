-- ===== src/Lib.antt =====
-- inf-splitter: a proxy that takes OpenAI and Anthropic requests, routes them by model to a
-- provider section of its configuration, and, for Gemini Interactions upstreams, keeps chains of
-- interactions and splits what is too large for an upstream.
--
-- The parts and how they interact. A request comes to the router (src/router.rs), which reads the
-- model, asks the configuration (src/config.rs) for a route and gives the request to a handler; a
-- refusal is recorded in the diagnostics (src/diagnostics.rs) and answered by an error
-- (src/error.rs). A handler holds a diagnostics guard for the request. The Interactions handler
-- (src/interactions_handler.rs, src/interactions.rs) asks the session store (src/session.rs) how
-- much of a conversation an upstream knows, splits system instruction and content by the section's
-- limit, sends the pieces as a batch of the store, and buffers their streams (src/sse.rs).
--
-- Which file models which part:
--   Session, Session/Store: the data of src/session.rs and the store of nodes with its indexes
--     (insert_client, insert_upstream, the chain walks). Session/Frontier: find_frontier and its
--     loop over candidates. Session/Walks: its walks. Session/InFlight: the operations of StoreV2 on
--     batches (create_batch, mark_response_started, mark_sent, ack_piece, complete_batch,
--     fail_batch). Session/Cleanup: those on sessions and clean-up (clean_all, extend_lifetime,
--     remove_batch and the others).
--     Session/Startup: the clean-up of batches in build_app of src/lib.rs.
--   Config/Sizes: parse_duration, parse_byte_size. Config/Fields: DropFields. Config/Provider: one
--     section from its raw form (endpoints, secrets, models). Config/Outputs: the diagnostics'
--     settings. Config/Load: from_file_config with the loop over the sections. Config/Route:
--     resolve_route, sorted_model_ids, upstream_endpoints.
--   Errors: AppError and the messages of configuration errors.
--   Diagnostics: the handle (record_stats, record_dump). Diagnostics/Masking: bodies and headers
--     of dumps. Diagnostics/Guard: RequestDiagnostics; Diagnostics/Guard/Steps: the calls on it as
--     steps, and its life from new to drop.
--   Router: dispatch_messages, build_models_response, control_constants. Router/Health: health and
--     its cache.
--   Sse: MemSseBuffer. Splitting/Pack: split_content_for_limit, pack_content_into_chunks.
--     Splitting/Plans: build_split_plans. Splitting/Texts: split_text_for_limit.
--   Control: scan_control_messages of src/control.rs, with the texts and constants it looks for.
--   Auth: forward_request_headers_map of src/auth.rs.
--   Egress: apply_egress_transforms and apply_error_translation of src/lib.rs, and
--     cap_numeric_field of src/config.rs.
--   Relay: DiagnosticStream of src/relay.rs.
--   Diagnostics/Details: messages_detail_from_value.
--   Upstream: what the handlers of src/openai.rs and src/anthropic.rs share. Upstream/Passthrough:
--     the requests whose protocol the upstream speaks (handle). Upstream/Converted: the translated
--     ones from a prepared body on (convert). Upstream/Requests: the changes to a request
--     (cap_openai_max_tokens, sanitize_openai_egress, prepare_egress_body). Upstream/Openai and
--     Upstream/Anthropic: the handlers of each file. Upstream/Headers: the headers that are passed
--     on. Upstream/Events: the lines and events of src/sse.rs. Upstream/Streamed: the translated
--     response streams, poll by poll (poll_openai, poll_anthropic).
--   Interactions/Send: handle_split_send, from the creation of its batch on, and send_chunk.
--     Interactions/Chunks: its requests, and what it does on the session store for a piece.
--     Interactions/Send/Conversation: the reference of what the upstream says to the chunks, without
--     the store and the guard.
--   Prelude: numbers, lists, results, maps and sets as association lists, texts.
-- A function keeps its name, or says in a comment above it which lines it is. Maps are iterated
-- over in the order of their entries, which stands for the unspecified order of a HashMap.
--
-- Numbers and loops. Hashes, times and sizes are natural numbers; what the source checks or wraps
-- (checked_mul, the u64 counter) is written out. The loops along prev_id take fuel, for which a
-- number above the length of the longest chain is enough; the loop over the lines of a buffer takes
-- its length, since every round takes a line off. All other loops are structural. A saturating or checked subtraction is that of the natural numbers.
--
-- Parameters: what is read from the process and the libraries. Host (environment, secret files,
-- header values, socket addresses), Codec (UTF-8 and base64), Peek (the JSON parser), Prober (the
-- HTTP client of the health check), Json and Scanner (what is read of JSON values, and a hash),
-- HeaderMap and JsonObject (the map of the http crate and the objects of the JSON library, with
-- their documented laws), the sizes of serialised bodies, and the clock, as arguments.
--
-- Libraries, ToOpenai and ToAnthropic (the HTTP client with the answer of the upstream, the response
-- builder, and the translation library with its requests), StreamingTranslator and
-- ReverseTranslator (its translators of streams), SplitCalls (the serialised pieces, the upstream, and the response made of the replies).
--
-- Not modelled: of src/interactions_handler.rs, what is not listed above, and the split send with
-- streamed answers; the detail of typed messages in the statistics; the background writers and
-- their rotated files; the files of the session store; the TOML and JSON formats; the construction
-- of servers and clients; the types generated from a schema.
pub mod Prelude
pub mod Session
pub mod Config
pub mod Diagnostics
pub mod Errors
pub mod Router
pub mod Sse
pub mod Splitting
pub mod Control
pub mod Auth
pub mod Egress
pub mod Relay
pub mod Upstream
pub mod Interactions
