-- ===== src/Schema/Literals.antt =====
-- schema/literals.go: literals, their parser, and what they evaluate to.
pub mod Parse
pub mod Grammar
pub mod Sound
pub mod Complete
pub mod Evaluate
pub mod Total
pub mod Meaning
pub mod Outcome
