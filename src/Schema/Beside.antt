-- ===== src/Schema/Beside.antt =====
-- Operations of a migration on a catalog that stands beside tables with other names.
use mathlib.Core.List.{append_assoc}
use content_approval.Common.{
  String, ◌≡◌, refl, ap, Bool, true, false, not, ◌&&◌, ◌||◌, Option, none, some, List, [], ◌∷◌,
  ◌++◌, any, any-append, filter, filter-append, update_where, arith, All, if◌then◌else◌,
}
use content_approval.Schema.{
  Table, ForeignKey, Operation, create_table, create_index, drop_index, drop_table,
}
use content_approval.Schema.Run.{
  Catalog, is_table, is_key, all_refer, is_referred, has_index, guarded, execute, execute_all,
  ◌>>=◌, has_columns, with_index, without_index,
}

-- The names that an operation uses.
abbrev targets : List ForeignKey → List String
targets [] = []
targets (f ∷ fs) = f.target ∷ targets fs

abbrev names_of : Operation → List String
names_of (create_table t) = t.name ∷ targets t.foreign_keys
names_of (create_index name table columns) = table ∷ name ∷ []
names_of (drop_index name table) = table ∷ []
names_of (drop_table name) = name ∷ []

-- No table of the catalog has the name, refers to it or has an index of that name.
abbrev pub IsFree : Catalog → String → Type 0
IsFree c name =
    (any (is_table name) c ≡ false)
    × (is_referred name c ≡ false)
    × (any (has_index name) c ≡ false)

-- What is beside an operation's tables stays beside them.
abbrev pub beside : Catalog → Option Catalog → Option Catalog
beside c none = none
beside c (some m) = some (c ++ m)

any-miss :
    (p q : Table → Bool) (ts : Catalog)
    → any p ts ≡ false
    → ((t : Table) → q t ≡ true → p t ≡ true)
    → any q ts ≡ false
any-miss p q [] miss narrow = refl
any-miss p q (t ∷ ts) miss narrow = ground (arith, any-miss p q ts, narrow t)

update-miss :
    (name : String) (f : Table → Table) (ts : Catalog)
    → any (is_table name) ts ≡ false
    → update_where (is_table name) f ts ≡ ts
update-miss name f [] miss = refl
update-miss name f (t ∷ ts) miss = ground (arith, update-miss name f ts)

filter-miss :
    (name : String) (ts : Catalog)
    → any (is_table name) ts ≡ false
    → filter (λ t. not (is_table name t)) ts ≡ ts
filter-miss name [] miss = refl
filter-miss name (t ∷ ts) miss = ground (arith, filter-miss name ts)

update-append :
    (name : String) (f : Table → Table) (ts us : Catalog)
    → update_where (is_table name) f (ts ++ us)
      ≡ update_where (is_table name) f ts ++ update_where (is_table name) f us
update-append name f [] us = refl
update-append name f (t ∷ ts) us =
    ap (λ r. (if is_table name t then f t else t) ∷ r) (update-append name f ts us)

is_referred-append :
    (name : String) (ts us : Catalog)
    → is_referred name (ts ++ us) ≡ (is_referred name ts || is_referred name us)
is_referred-append name [] us = refl
is_referred-append name (t ∷ ts) us = ground (arith, is_referred-append name ts us)

module _ (c : Catalog) where
  -- A test that only tables of a free name pass is not passed beside.
  any-beside :
      (name : String) (q : Table → Bool) (m : Catalog)
      → IsFree c name
      → ((t : Table) → q t ≡ true → is_table name t ≡ true)
      → any q (c ++ m) ≡ any q m
  any-beside name q m (free, _, _) narrow =
      rw (any-append q c m, any-miss (is_table name) q c free narrow) refl

  update-beside :
      (name : String) (f : Table → Table) (m : Catalog)
      → IsFree c name
      → update_where (is_table name) f (c ++ m) ≡ c ++ update_where (is_table name) f m
  update-beside name f m (free, _, _) =
      rw (update-append name f c m, update-miss name f c free) refl

  filter-beside :
      (name : String) (m : Catalog)
      → IsFree c name
      → filter (λ t. not (is_table name t)) (c ++ m) ≡ c ++ filter (λ t. not (is_table name t)) m
  filter-beside name m (free, _, _) =
      rw (filter-append (λ t. not (is_table name t)) c m, filter-miss name c free) refl

  all_refer-beside :
      (m : Catalog) (fs : List ForeignKey)
      → All (IsFree c) (targets fs)
      → all_refer (c ++ m) fs ≡ all_refer m fs
  all_refer-beside m [] free = refl
  all_refer-beside m (f ∷ fs) (free, rest) =
      rw
        (
          any-beside f.target (λ t. is_table f.target t && is_key f.target_columns t) m free
              (λ t h. ground arith),
          all_refer-beside m fs rest,
        )
        refl

  guarded-beside : (b : Bool) (x : Catalog) → guarded b (c ++ x) ≡ beside c (guarded b x)
  guarded-beside true x = refl
  guarded-beside false x = refl

  execute-beside :
      (o : Operation) (m : Catalog)
      → All (IsFree c) (names_of o)
      → execute o (c ++ m) ≡ beside c (execute o m)
  unfolding execute
  execute-beside (create_table t) m (free, rest) =
      rw
        (
          any-beside t.name (is_table t.name) m free (λ u h. h),
          all_refer-beside m t.foreign_keys rest,
          append_assoc c m (t ∷ []),
        )
        (guarded-beside _ (m ++ t ∷ []))
  execute-beside (create_index name table columns) m (free, ((_, _, unindexed), _)) =
      rw
        (
          any-append (has_index name) c m,
          unindexed,
          any-beside table (λ t. is_table table t && has_columns columns t) m free
              (λ t h. ground arith),
          update-beside table (with_index (record { name = name; columns = columns })) m free,
        )
        (guarded-beside _ _)
  execute-beside (drop_index name table) m (free, _) =
      rw
        (
          any-beside table (λ t. is_table table t && has_index name t) m free (λ t h. ground arith),
          update-beside table (without_index name) m free,
        )
        (guarded-beside _ _)
  execute-beside (drop_table name) m ((free, unreferred, unindexed), _) =
      rw
        (
          any-beside name (is_table name) m (free, unreferred, unindexed) (λ u h. h),
          filter-beside name m (free, unreferred, unindexed),
          is_referred-append name c (filter (λ t. not (is_table name t)) m),
          unreferred,
        )
        (guarded-beside _ _)

  then-beside :
      (k : Catalog → Option Catalog) (r : Option Catalog)
      → ((x : Catalog) → k (c ++ x) ≡ beside c (k x))
      → (beside c r >>= k) ≡ beside c (r >>= k)
  then-beside k none h = refl
  then-beside k (some x) h = h x

  pub execute_all-beside :
      (os : List Operation) (m : Catalog)
      → All (λ o. All (IsFree c) (names_of o)) os
      → execute_all os (c ++ m) ≡ beside c (execute_all os m)
  unfolding execute_all
  execute_all-beside [] m free = refl
  execute_all-beside (o ∷ os) m (free, rest) =
      rw (execute-beside o m free)
        (then-beside (execute_all os) (execute o m) (λ x. execute_all-beside os x rest))
