-- ===== src/Schema/Query.antt =====
-- schema/query.go: query documents, their parser, and the choice of an operation.
pub mod Parse
pub mod Grammar
pub mod Sound
pub mod Operations
