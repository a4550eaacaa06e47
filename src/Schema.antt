-- ===== src/Schema.antt =====
-- The schema that Alembic migrates: the columns, tables, indexes and enumerated types that the
-- migrations of backend/python/alembic/versions name, and the operations that they call.
pub mod Catalog
pub mod Frame
pub mod Grow
pub mod Types
pub mod Laws
pub mod Initial
pub mod Migrations
mod Tests
use intelli_attend_smart_boa.Base.{ℕ, String, Bool, true, false, Option, none, some, List, [], ◌∷◌}

pub data Kind : Type 0 where
  string : ℕ → Kind
  integer : Kind
  long_text : Kind
  date_time : Kind
  enum : String → List String → Kind

-- `sa.Column`
pub record Column : Type 0 where
  pub name : String
  pub kind : Kind
  pub primary_key : Bool
  pub nullable : Bool
  pub unique : Bool
  pub index : Bool
  pub server_default : Option String
  pub foreign_key : Option (String × String)

-- A column with the defaults of `sa.Column`, and what its keyword arguments set.
abbrev pub column : String → Kind → Column
column name kind = record {
  name = name;
  kind = kind;
  primary_key = false;
  nullable = true;
  unique = false;
  index = false;
  server_default = none;
  foreign_key = none;
}

abbrev pub primary : Column → Column
primary c = record c { primary_key = true; nullable = false }

abbrev pub required : Column → Column
required c = record c { nullable = false }

abbrev pub unique : Column → Column
unique c = record c { unique = true }

abbrev pub indexed : Column → Column
indexed c = record c { index = true }

abbrev pub default : String → Column → Column
default value c = record c { server_default = some value }

abbrev pub references : String → String → Column → Column
references table name c = record c { foreign_key = some (table, name) }

-- The calls of `alembic.op` in the migrations; the two types of `op.execute` are operations too.
pub data Op : Type 0 where
  create_type : String → List String → Op
  drop_type : String → Op
  create_table : String → List Column → Op
  drop_table : String → Op
  create_index : (name table : String) → List String → Op
  create_unique_constraint : (name table : String) → List String → Op
  add_column : String → Column → Op
  drop_index : (name table : String) → Op
  drop_column : (table name : String) → Op
