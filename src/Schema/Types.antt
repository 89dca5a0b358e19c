-- ===== src/Schema/Types.antt =====
-- schema/types.go and the types of schema/schema.go: type references.
-- A named type of a schema is referred to by its kind and its name, which is its key in
-- `Schema.Types`; Go's comparison of pointers to named types is the comparison of these.
pub mod Parse
pub mod Grammar
pub mod Sound
pub mod Complete
pub mod Resolve
