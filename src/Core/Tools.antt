-- ===== src/Core/Tools.antt =====
-- core/tools.py, a child for each of its classes.
pub mod Spec
pub mod Registry
pub mod Policy
pub mod Actions
pub mod Call
pub mod Authority
pub mod Codec
pub mod Selection
pub mod Execution
