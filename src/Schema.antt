-- ===== src/Schema.antt =====
-- schema/: the syntax of types, literals and queries, and their parsers.
pub mod Types
pub mod Literals
pub mod Values
pub mod Query
pub mod Definitions
