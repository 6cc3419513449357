-- ===== src/Generation.antt =====
-- Executable generations of the App Server (app-server/src/executable-generation-*.mjs): the
-- durable store of reloads, and the manager that fences work, drains it and replaces a generation.
pub mod Types
pub mod Stages
pub mod Extension
pub mod Store
pub mod Reloads
pub mod Admission
pub mod Advance
pub mod Jobs
