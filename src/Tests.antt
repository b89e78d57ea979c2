-- ===== src/Tests.antt =====
-- The properties at concrete inputs.
mod Artifacts
mod Machine
mod Ledgers
mod Lineages
mod Execution
mod Loops
mod Reviews
mod Runs
mod Records
mod Rejections
