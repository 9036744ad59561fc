-- ===== src/Language.antt =====
-- The tasks that a language model does for src/unhalted/core: what is asked of it is outside the
-- model, and what the program makes of its answers is here.
pub mod Json
pub mod Evidence
pub mod Calls
pub mod Fence
pub mod Reply
pub mod Quotes
pub mod Attempts
pub mod Fenced
pub mod Reading
