-- ===== src/Splitting.antt =====
-- How a request that exceeds a section's `proxy_limit` is split: src/interactions.rs packs content
-- into chunks, and src/interactions_handler.rs splits the system instruction and plans the pieces.
-- The size of a serialised body is a parameter, a function of the content.
pub mod Pack
pub mod Plans
pub mod Texts
mod Tests
