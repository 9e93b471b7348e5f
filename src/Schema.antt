-- ===== src/Schema.antt =====
-- Schemas of a database as data, and the operations of alembic that make and drop them: what app/db/models.py
-- declares and what migrations/versions/1fe27f129dda_initial_schema.py executes.

pub mod Declared
pub mod Initial
pub mod Run
pub mod Beside
pub mod Migrated
pub mod Rows
pub mod Enforced
use content_approval.Common.{ℕ, String, Bool, Option, List}

-- The types of a column. An enumeration is stored as a text of at most 32 characters, with a check of its
-- values; a JSON column is JSONB on Postgres.
pub data ColumnType : Type 0 where
  string text integer json timestamp : ColumnType
  -- the name and the values
  enumeration : String → List String → ColumnType

pub record Column : Type 0 where
  pub name : String
  pub type_of : ColumnType
  pub nullable : Bool

pub record ForeignKey : Type 0 where
  pub name : String
  pub columns : List String
  pub target : String
  pub target_columns : List String
  pub cascades : Bool

pub record Key : Type 0 where
  pub name : String
  pub columns : List String

pub record Index : Type 0 where
  pub name : String
  pub columns : List String

pub record Table : Type 0 where
  pub name : String
  pub columns : List Column
  pub primary_key : Key
  pub unique : List Key
  pub foreign_keys : List ForeignKey
  pub indexes : List Index

-- The operations of `op`.
pub data Operation : Type 0 where
  create_table : Table → Operation
  -- the index's name, its table and its columns
  create_index : String → String → List String → Operation
  -- the index's name and its table
  drop_index : String → String → Operation
  drop_table : String → Operation
