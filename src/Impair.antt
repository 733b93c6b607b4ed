-- ===== src/Impair.antt =====
-- internal/impair: a packet impairment pipeline for one direction of a proxied session.
pub mod Heap
pub mod Config
pub mod Profiles
pub mod Rate
pub mod Pipeline
