-- ===== src/Interactions.antt =====
-- src/interactions_handler.rs: the sending of a request to an Interactions upstream in pieces, which
-- it does on the session store and on the guard of the request.
pub mod Chunks
pub mod Send
