-- ===== src/Schema/Query/Sound.antt =====
-- The parser of query documents ends, and what it accepts is spelled by the grammar.
pub mod Selections
pub mod Document
