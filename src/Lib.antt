-- ===== src/Lib.antt =====
-- A verification library for the GraphQL library in this repository: a model of its query lexer
-- and parser, of its parser of schemas and of what is done to a schema before it is used, of rules
-- of the validation of queries, and of the map that the execution of queries uses, with the
-- theorems that make them correct.
--
-- A query goes through these parts. internal/scanner splits the text into tokens. internal/lexer
-- (`Lexer`) keeps one token of look-ahead, passes over commas, and turns a syntax error, a panic
-- in Go, into an error value with the position where the lexer stands. schema (types.go,
-- literals.go, values.go, directive.go, query.go) holds the recursive-descent parsers, which call
-- the lexer and each other, from type references and literals up to documents. internal/validation
-- then checks the document against the schema, which schema.go parses with the same lexer,
-- completes (`ResolveTypes`) and changes (`@graphql` in a type); suggestion.go finds the names
-- that an error message suggests.
--
-- The files, and the code that they model:
--   Prelude, Prelude/: numbers, texts, lists, and `Result`, the type of runs that may fail or use
--     up their fuel, with `Ensures` for what holds of every run.
--   Qerrors: `Location` of qerrors/qerrors.go and the order `Before`.
--   Lexer/Token: the token types of internal/scanner/scanner.go. Lexer/Consume: `Lexer`, `Get`,
--     `Peek` and `Consume` of internal/lexer/lexer.go; the scanner's state is the list of tokens
--     that `Scan` still returns. Lexer/Parser: the other methods, over the stream of tokens
--     without commas. `Lexer.Consume.ahead-consume` relates the two. Lexer/Loop: the loops `for
--     l.Peek() != close` of the parsers. Lexer/Laws: what each method reads.
--   Schema/Types: schema/types.go. Schema/Literals: `ParseLiteral` of schema/literals.go.
--     Schema/Values: schema/values.go and schema/directive.go. Schema/Query: schema/query.go, with
--     `GetOperation` in Operations. Types/Resolve is about `ResolveType`. Each has the parsers in
--     Parse, a grammar as an indexed data type in Grammar, that what is read is spelled by the
--     grammar in Sound and, where proved, that what the grammar spells is read in Complete.
--   Schema/Literals/Evaluate: `Evaluate` of the literals; Meaning says what a literal stands for,
--     and Total and Outcome are about its runs.
--   Schema/Definitions: schema/schema.go. The file itself holds the records of a schema, and Maps
--     stands for Go's maps. Parse has the declarations, Alter the changes of `@graphql`, Document
--     `parseSchema`; Alter/Keys and Alter/Undo are about the changes; Lengths and Declarations
--     count the tokens that each reads, and Keys is about the whole parser. Sort has the methods
--     `Sort`. Resolve has `ResolveTypes`; Sound, Sorted, Kinds and Links are about it. Visit has
--     `VisitDirective`, and Places lists the places of a schema. AddMissing has the methods of
--     schema/type_add_if_missing.go; Kept and Merged are about them.
--   Validation/Errors: the errors of internal/validation/validation.go as values, with what their
--     texts are made of. Validation/Context: what `context` collects, `validateName` and
--     `validateLiteral`. Validation/Values: `validateValueType` and `validateBasicLit`; Spec says
--     which literals a type takes. Validation/Arguments: `validateArgumentLiterals`,
--     `validateArgumentTypes` and `validateDirectives`; Clean, Names and Literals carry the proof
--     of Fit. Validation/Fragments: `markUsedFragments` and `detectFragmentCycle`; Reach says what
--     spreads reach. Validation/Compatible: `possibleTypes` and `compatible`.
--   Validation/Suggestion: `levenshteinDistance` of internal/validation/suggestion.go.
--     Validation/Types: the tests on types at the end of internal/validation/validation.go.
--     Validation/Depth: `validateMaxDepth` of the same file; Spec describes the depth of a query
--     on its own.
--   Exec/Store: internal/linkedmap/linkedmap.go, the map that keeps the selected fields of an
--     object in order, with its entries in a store by address; Layout lays a list out in the
--     store, and Order says that the operations act on this list.
--   Exec/Selection: `SkipByDirective` of exec/directive.go and `Apply` of exec/field_selection.go;
--     Spec says what selections ask for, and Skip and Sound are about the functions.
--   Tests: concrete documents, schemas, values and directives.
--
-- A parser is a function from the tokens that are left to a value and the tokens behind it, or to
-- an error. Where Go recurses or loops, the model has fuel: a parser gets one unit more than there
-- are tokens, and each round of a loop and each call inside brackets reads at least one token, so
-- the fuel is enough for every input. `markUsedFragments` and `detectFragmentCycle` enter a
-- fragment once, and `AddIfMissing` a type, so one unit more than there are fragments, or types,
-- is enough. `validateMaxDepth` and `Apply` have no such bound, and the theorems say when they
-- return, and that `validateMaxDepth` may not.
--
-- Texts are the native strings. Positions and numbers are natural numbers; the columns from which
-- the code subtracts 1 are at least 1. The functions that the code calls of Go's library
-- (`strconv.Unquote`, `sort.Slice`, and splitting, trimming and joining of texts) are the
-- parameter `GoLibrary`; no law of them is assumed but one: the theorem on `ResolveTypes` has the
-- hypothesis `SortLaws`, that `sort.Slice` keeps what holds of every item. Go's numbers, with
-- `ParseInt` and `ParseFloat`, are the parameter `Numbers`. A Go map is an association list; where
-- the code ranges over one, the model goes in the order of the list, and the theorems hold for
-- every order. A pointer to a named type is its name and kind, and leads to the type that the
-- schema holds under the name. A schema with a pointer to a type that a later `Parse` has replaced
-- has no such model: in Go the pointer still leads to the type as it was, so what is said of a
-- schema whose types are resolved is said of one in which none of them has been declared anew
-- since. `levenshteinDistance` is modelled on ASCII texts, for which a byte is a character.
--
-- Not modelled: the scanner itself, which is a copy of Go's text/scanner; the pools of lexers and
-- fields, which only reuse memory; `New` and the built-in types of schema/meta.go, the validation
-- of selections and of their overlap, `RenameTypes`, which through pointers renames types wherever
-- they are mentioned, the copying of schemas, the execution of queries, the resolvers, the
-- printers, introspection, and the servers and clients.
pub mod Prelude
pub mod Qerrors
pub mod Lexer
pub mod Schema
pub mod Validation
pub mod Exec
pub mod Tests
