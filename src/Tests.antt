-- ===== src/Tests.antt =====
-- Requests, databases and libraries on which the theorems about app/ are tried.
pub mod Codec
pub mod Data
pub mod Routes
pub mod Decisions
pub mod Tables
pub mod Replays
pub mod Edges
pub mod Overlaps
pub mod Migrations
pub mod Deployments
pub mod Applications
pub mod Verdicts
pub mod Retries
pub mod Tokens
pub mod Ports
