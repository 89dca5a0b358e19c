-- ===== src/Validation.antt =====
-- internal/validation/: the validator of query documents.
pub mod Suggestion
pub mod Types
pub mod Depth
pub mod Errors
pub mod Values
pub mod Context
pub mod Arguments
pub mod Fragments
pub mod Compatible
