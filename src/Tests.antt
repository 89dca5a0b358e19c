-- ===== src/Tests.antt =====
-- Concrete documents, runs of the modelled code on them, and the theorems at concrete inputs.
pub mod Data
mod Parsing
mod Checking
mod Executing
mod Schemas
mod Changes
mod Validating
mod Selecting
