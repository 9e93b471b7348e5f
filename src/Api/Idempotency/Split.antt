-- ===== src/Api/Idempotency/Split.antt =====
-- The flush that app/api/idempotency.py makes after adding its key, as the flush of what waited before
-- and the insertion of the key.
use content_approval.Common.{
  suc, ◌≡◌, refl, sym, ap, ◌∙◌, inl, inr, Option-cases, List, [], ◌∷◌, ◌++◌, some, none,
}
use content_approval.Domain.Exceptions.{Failure, integrity_error}
use content_approval.Db.Models.{Db}
use content_approval.Db.Session.{World, returned, raised, and_then, NewRow, world_of}
use content_approval.Db.Repository.Transition.{next_now}
use content_approval.Db.Session.Flush.{insert_row, flush_rows, flush}

-- The world after a row's insertion.
abbrev pub after_row : World → Db → World
after_row w db' = record w { clock = λ n. w.clock (suc n); db = db' }

pub flush_rows-append :
    (xs ys : List NewRow) (w : World)
    → flush_rows (xs ++ ys) w ≡ and_then (flush_rows xs w) (λ _. flush_rows ys)
unfolding flush_rows
flush_rows-append [] ys w = refl
flush_rows-append (x ∷ xs) ys w = elim (Option-cases (insert_row x (next_now w) w.db)) [
  | inl refused ↦ rw refused
  | inr (db', stored) ↦ rw stored (flush_rows-append xs ys (after_row w db'))
]

-- A flush adds no waiting row.
pub new-flush_rows : (xs : List NewRow) (w : World) → (world_of (flush_rows xs w)).new ≡ w.new
unfolding flush_rows
new-flush_rows [] w = refl
new-flush_rows (x ∷ xs) w = elim (Option-cases (insert_row x (next_now w) w.db)) [
  | inl refused ↦ rw refused
  | inr (db', stored) ↦ rw stored (new-flush_rows xs (after_row w db'))
]

-- A flush that succeeded leaves no waiting row, and one more row is then inserted after it.
pub flush-one_more :
    (w w' : World) (row : NewRow) (db' : Db)
    → flush w ≡ returned tt w'
    → insert_row row (next_now w') w'.db ≡ some db'
    → flush (record w { new = w.new ++ row ∷ [] }) ≡ returned tt (after_row w' db')
unfolding flush
flush-one_more w w' row db' flushed stored =
    rw (flush_rows-append w.new (row ∷ []) (record w { new = [] }), flushed)
      (unfold flush_rows in rw stored)

pub new-flush : (w w' : World) → flush w ≡ returned tt w' → w'.new ≡ []
unfolding flush
new-flush w w' flushed =
    ap (λ o. (world_of o).new) (sym flushed) ∙ new-flush_rows w.new (record w { new = [] })

-- A flush with no waiting row changes nothing.
pub flush-idle : (w : World) → w.new ≡ [] → flush w ≡ returned tt w
unfolding flush flush_rows
flush-idle w idle = rw idle

-- One more row does not help a flush that raises.
pub flush-raised :
    (w w' : World) (e : Failure) (row : NewRow)
    → flush w ≡ raised e w'
    → flush (record w { new = w.new ++ row ∷ [] }) ≡ raised e w'
unfolding flush
flush-raised w w' e row refused =
    rw (flush_rows-append w.new (row ∷ []) (record w { new = [] }), refused)

-- A row that its table refuses makes a flush raise, whatever waited before it.
pub flush-one_refused :
    (w w' : World) (row : NewRow)
    → flush w ≡ returned tt w'
    → insert_row row (next_now w') w'.db ≡ none
    → (e : World) × (flush (record w { new = w.new ++ row ∷ [] }) ≡ raised integrity_error e)
unfolding flush
flush-one_refused w w' row flushed refused = (
  record w' { clock = λ n. w'.clock (suc n) },
  rw (flush_rows-append w.new (row ∷ []) (record w { new = [] }), flushed)
      (unfold flush_rows in rw refused),
)
