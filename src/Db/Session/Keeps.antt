-- ===== src/Db/Session/Keeps.antt =====
-- Predicates on the database that an action keeps, whether it returns or raises, with a rule for each
-- way in which app/db and app/domain build their actions.
use content_approval.Common.{
  ◌≡◌, refl, Bool, true, false, Option, none, some, List, [], ◌∷◌, if◌then◌else◌,
}
use content_approval.Domain.DateTime.{DateTime}
use content_approval.Domain.Exceptions.{Failure}
use content_approval.Db.Models.{ApprovalRequestReviewer, Db}
use content_approval.Db.Session.{
  World, Outcome, returned, raised, Exec, ◌>>=◌, ◌>>◌, and_then, world_of, NewRow, utcnow,
}
use content_approval.Db.Session.Flush.{
  execute, replace_db, insert_reviewer, insert_reviewers, insert_row, flush_rows, flush,
}
use content_approval.Db.Session.Transaction.{get_db, finish}

pub record Keeps {ℓ} {A : Type ℓ} (P : Db → Type 0) (m : Exec A) : Type ℓ where
  pub run : (w : World) → P w.db → P (world_of (m w)).db

-- A statement that the database accepts keeps the predicate.
pub record Accepts (P : Db → Type 0) (statement : Db → Option Db) : Type 0 where
  pub run : (db : Db) → P db → (db' : Db) → statement db ≡ some db' → P db'

finish-keeps {ℓ} :
    {A : Type ℓ} (P : Db → Type 0) (before : Db) (o : Outcome A)
    → P before
    → P (world_of o).db
    → P (world_of (finish before o)).db
finish-keeps P before (returned a w) hb h = h
finish-keeps P before (raised e w) hb h = hb

module _ {P : Db → Type 0} where
  pub Keeps-bind {ℓ κ} :
      {A : Type ℓ} {B : Type κ} (m : Exec A) (f : A → Exec B)
      → Keeps P m
      → ((a : A) → Keeps P (f a))
      → Keeps P (m >>= f)
  Keeps-bind m f km kf = record { run = λ w h. go (m w) (km.run w h) }
    where
      go : (o : Outcome _) → P (world_of o).db → P (world_of (and_then o f)).db
      go (returned a w') h = (kf a).run w' h
      go (raised e w') h = h

  pub Keeps-returned {ℓ} : {A : Type ℓ} (a : A) → Keeps P (λ w. returned a w)
  Keeps-returned a = record { run = λ w h. h }

  pub Keeps-raised {ℓ} : {A : Type ℓ} (e : Failure) → Keeps {A = A} P (λ w. raised e w)
  Keeps-raised e = record { run = λ w h. h }

  pub Keeps-gets {ℓ} : {A : Type ℓ} (f : World → A) → Keeps P (λ w. returned (f w) w)
  Keeps-gets f = record { run = λ w h. h }

  pub Keeps-if {ℓ} :
      {A : Type ℓ} (b : Bool) (m n : Exec A) → Keeps P m → Keeps P n → Keeps P (if b then m else n)
  Keeps-if true m n km kn = km
  Keeps-if false m n km kn = kn

  pub Keeps-execute :
      (statement : Db → Option Db) → Accepts P statement → Keeps P (execute statement)
  Keeps-execute statement accepts = record {
    run = λ w h. go w (statement w.db) h (accepts.run w.db h);
  }
    where
      go :
          (w : World) (o : Option Db)
          → P w.db
          → ((db' : Db) → o ≡ some db' → P db')
          → P (world_of (replace_db o w)).db
      go w none h k = h
      go w (some db') h k = k db' refl

  -- A transaction keeps what its body and the flush of the commit keep.
  pub Keeps-get_db {ℓ} :
      {A : Type ℓ} (body : Exec A) → Keeps P flush → Keeps P body → Keeps P (get_db body)
  unfolding get_db
  Keeps-get_db body kf kb = record {
    run = λ w h.
        finish-keeps P w.db ((body >>= λ a. flush >> λ w'. returned a w') (record w { new = [] })) h
          ((Keeps-bind body _ kb (λ a. Keeps-bind flush _ kf (λ _. Keeps-returned a))).run
            (record w { new = [] }) h);
  }

  pub Keeps-insert_reviewers :
      (vs : List ApprovalRequestReviewer)
      → ((v : ApprovalRequestReviewer) → Accepts P (insert_reviewer v))
      → Keeps P (insert_reviewers vs)
  unfolding insert_reviewers
  Keeps-insert_reviewers [] k = Keeps-returned tt
  Keeps-insert_reviewers (v ∷ vs) k =
      Keeps-bind (execute (insert_reviewer v)) _ (Keeps-execute _ (k v))
        (λ _. Keeps-insert_reviewers vs k)

  Keeps-flush_rows :
      (rows : List NewRow)
      → ((row : NewRow) (now : DateTime) → Accepts P (insert_row row now))
      → Keeps P (flush_rows rows)
  unfolding flush_rows
  Keeps-flush_rows [] k = Keeps-returned tt
  Keeps-flush_rows (row ∷ rows) k =
      Keeps-bind utcnow _ (record { run = λ w h. h })
        (λ now.
          Keeps-bind (execute (insert_row row now)) _ (Keeps-execute _ (k row now))
            (λ _. Keeps-flush_rows rows k))

  pub Keeps-flush :
      ((row : NewRow) (now : DateTime) → Accepts P (insert_row row now)) → Keeps P flush
  unfolding flush
  Keeps-flush k = record { run = λ w h. (Keeps-flush_rows w.new k).run (record w { new = [] }) h }
