-- ===== src/Schema/Run.antt =====
-- What the operations of a migration do to the tables of a database, and when the database refuses them.
use content_approval.Common.{
  String, Bool, true, false, not, ◌&&◌, ◌||◌, ◌==◌, Option, none, some, List, [], ◌∷◌, ◌++◌, any,
  filter, update_where,
}
use content_approval.Schema.{
  Table, ForeignKey, Index, Operation, create_table, create_index, drop_index, drop_table,
}

-- A database's tables, in the order of their creation.
abbrev pub Catalog : Type 0
Catalog = List Table

abbrev pub is_table : String → Table → Bool
is_table name t = t.name == name

abbrev pub has_columns : List String → Table → Bool
has_columns [] t = true
has_columns (c ∷ cs) t = any (λ x. x.name == c) t.columns && has_columns cs t

abbrev pub same_names : List String → List String → Bool
same_names [] [] = true
same_names (x ∷ xs) (y ∷ ys) = x == y && same_names xs ys
same_names _ _ = false

-- The columns are a key of the table.
abbrev pub is_key : List String → Table → Bool
is_key cs t = same_names t.primary_key.columns cs || any (λ k. same_names k.columns cs) t.unique

-- A foreign key names a table that is there, by columns that are a key of it.
abbrev pub refers : Catalog → ForeignKey → Bool
refers tables f = any (λ t. is_table f.target t && is_key f.target_columns t) tables

abbrev pub all_refer : Catalog → List ForeignKey → Bool
all_refer tables [] = true
all_refer tables (f ∷ fs) = refers tables f && all_refer tables fs

abbrev pub is_referred : String → Catalog → Bool
is_referred name [] = false
is_referred name (t ∷ ts) = any (λ f. f.target == name) t.foreign_keys || is_referred name ts

abbrev pub has_index : String → Table → Bool
has_index name t = any (λ i. i.name == name) t.indexes

abbrev pub guarded : Bool → Catalog → Option Catalog
guarded true c = some c
guarded false c = none

abbrev pub with_index : Index → Table → Table
with_index i t = record t { indexes = t.indexes ++ i ∷ [] }

abbrev pub without_index : String → Table → Table
without_index name t = record t { indexes = filter (λ i. not (i.name == name)) t.indexes }

-- `none`: the database refuses the operation.
unfoldable pub execute : Operation → Catalog → Option Catalog
execute (create_table t) c =
    guarded (not (any (is_table t.name) c) && all_refer c t.foreign_keys) (c ++ t ∷ [])
execute (create_index name table columns) c =
    guarded (any (λ t. is_table table t && has_columns columns t) c && not (any (has_index name) c))
      (update_where (is_table table) (with_index (record { name = name; columns = columns })) c)
execute (drop_index name table) c =
    guarded (any (λ t. is_table table t && has_index name t) c)
      (update_where (is_table table) (without_index name) c)
execute (drop_table name) c =
    guarded
      (any (is_table name) c && not (is_referred name (filter (λ t. not (is_table name t)) c)))
      (filter (λ t. not (is_table name t)) c)

infixl 5 ◌>>=◌
abbrev pub ◌>>=◌ {ℓ κ} : {A : Type ℓ} {B : Type κ} → Option A → (A → Option B) → Option B
none >>= k = none
some a >>= k = k a

unfoldable pub execute_all : List Operation → Catalog → Option Catalog
unfolding execute
execute_all [] c = some c
execute_all (o ∷ os) c = execute o c >>= execute_all os
