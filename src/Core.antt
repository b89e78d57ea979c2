-- ===== src/Core.antt =====
-- The package molly.core, a child for each of its files; core/errors.py is in Prelude/Errors.
pub mod Json
pub mod Host
pub mod Freeze
pub mod Equality
pub mod Dumps
pub mod Ids
pub mod Values
pub mod Ledger
pub mod Tools
pub mod Lineage
pub mod Artifacts
pub mod Reviews
pub mod Validation
pub mod Approvals
pub mod Runs
pub mod AgentLoop
