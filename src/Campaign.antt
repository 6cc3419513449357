-- ===== src/Campaign.antt =====
-- The slice campaign service (app-server/src/services/slice-campaign/).
pub mod Types
pub mod Contract
pub mod Claims
pub mod Selections
pub mod Stores
pub mod Publishing
pub mod Admission
pub mod Phases
pub mod Candidates
pub mod Reviews
pub mod Natives
pub mod Requests
pub mod Retries
pub mod Corrections
pub mod Remediations
pub mod Successors
pub mod Successions
pub mod Completeness
pub mod Terminals
pub mod Moves
pub mod Exclusive
pub mod Bootstrap
pub mod Operations
pub mod Runs
pub mod Sqlite
pub mod Replays
pub mod Completion
pub mod Stranded
