-- ===== src/Schema/Definitions.antt =====
-- schema/schema.go: the types of a schema, its directives, and the maps that hold them.
-- A pointer to a named type is its key in the schema, a kind and a name.
pub mod Maps
pub mod Parse
pub mod Alter
pub mod Document
pub mod Lengths
pub mod Declarations
pub mod Keys
pub mod Sort
pub mod Resolve
pub mod Visit
pub mod AddMissing
use graphql.Prelude.{String, List, Option}
use graphql.Lexer.Parser.{Description}
use graphql.Schema.Types.Parse.{Kind, NamedType, SchemaType}
use graphql.Schema.Values.Parse.{DirectiveList, InputValueList}
use graphql.Schema.Query.Parse.{OperationType}

-- `Field`. `Extension` is set by users of the library only.
pub record Field : Type 0 where
  pub name : String
  pub args : InputValueList
  pub type : SchemaType
  pub directives : DirectiveList
  pub desc : Description

abbrev pub FieldList : Type 0
FieldList = List Field

-- `Scalar`.
pub record Scalar : Type 0 where
  pub name : String
  pub desc : Description
  pub directives : DirectiveList

-- `Object`; `interfaces` are the names of the interfaces that the pointers lead to.
pub record Object : Type 0 where
  pub name : String
  pub interfaces : List String
  pub fields : FieldList
  pub desc : Description
  pub directives : DirectiveList
  pub interface_names : List String

-- `Interface`; `possible_types` are the names of the objects that the pointers lead to.
pub record Interface : Type 0 where
  pub name : String
  pub possible_types : List String
  pub fields : FieldList
  pub desc : Description
  pub directives : DirectiveList

-- `Union`.
pub record Union : Type 0 where
  pub name : String
  pub possible_types : List String
  pub desc : Description
  pub type_names : List String
  pub directives : DirectiveList

-- `EnumValue`.
pub record EnumValue : Type 0 where
  pub name : String
  pub directives : DirectiveList
  pub desc : Description

-- `Enum`.
pub record Enum : Type 0 where
  pub name : String
  pub values : List EnumValue
  pub desc : Description
  pub directives : DirectiveList

-- `InputObject`.
pub record InputObject : Type 0 where
  pub name : String
  pub desc : Description
  pub fields : InputValueList
  pub directives : DirectiveList

-- The six implementations of `NamedType`.
pub data TypeDef : Type 0 where
  scalar_def : Scalar → TypeDef
  object_def : Object → TypeDef
  interface_def : Interface → TypeDef
  union_def : Union → TypeDef
  enum_def : Enum → TypeDef
  input_def : InputObject → TypeDef

-- `TypeName`.
abbrev pub name_of : TypeDef → String
name_of (scalar_def t) = t.name
name_of (object_def t) = t.name
name_of (interface_def t) = t.name
name_of (union_def t) = t.name
name_of (enum_def t) = t.name
name_of (input_def t) = t.name

-- `Kind`.
abbrev pub kind_of : TypeDef → Kind
kind_of (scalar_def t) = Kind.scalar
kind_of (object_def t) = Kind.object
kind_of (interface_def t) = Kind.interface
kind_of (union_def t) = Kind.union
kind_of (enum_def t) = Kind.enum
kind_of (input_def t) = Kind.input_object

-- `DirectiveDecl`.
pub record DirectiveDecl : Type 0 where
  pub name : String
  pub desc : Description
  pub locs : List String
  pub args : InputValueList

-- `map[string]*DirectiveDecl`, whose entries may be nil.
abbrev pub DirectiveMap : Type 0
DirectiveMap = List (String × Option DirectiveDecl)

-- `Schema`. A Go map is an association list; where the code ranges over a map, its order is that of
-- the list, which the theorems leave open.
pub record Schema : Type 0 where
  pub directives : DirectiveList
  pub entry_points : List (OperationType × NamedType)
  pub types : List (String × TypeDef)
  pub declared_directives : DirectiveMap
  pub entry_point_names : List (OperationType × String)
