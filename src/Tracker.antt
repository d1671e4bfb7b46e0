-- ===== src/Tracker.antt =====
-- The tracker under tracker/, one module for each source file, over the state that they share.
pub mod Env
pub mod State
pub mod File
pub mod Client
pub mod Look
pub mod Protocol
pub mod Prompt
pub mod Config
pub mod Network
