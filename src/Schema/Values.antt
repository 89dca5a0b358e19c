-- ===== src/Schema/Values.antt =====
-- schema/values.go and schema/directive.go: input values, arguments and directives.
pub mod Parse
pub mod Grammar
pub mod Sound
