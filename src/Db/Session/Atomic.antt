-- ===== src/Db/Session/Atomic.antt =====
-- One transaction of `get_db` in app/db/session.py, by how it ends.
use content_approval.Common.{[], ◌≡◌, refl}
use content_approval.Domain.Exceptions.{Failure}
use content_approval.Db.Models.{Db}
use content_approval.Db.Session.{
  World, Outcome, returned, raised, Exec, ◌>>=◌, pure, Result, ok, err, effect, answer, world_of,
}
use content_approval.Db.Session.Flush.{flush}
use content_approval.Db.Session.Transaction.{get_db, finish}

module _ {ℓ} {A : Type ℓ} where
  finished-raises :
      (before : Db) (o : Outcome A) (e : Failure)
      → answer (finish before o) ≡ err e
      → (world_of (finish before o)).db ≡ before
  finished-raises before (returned a w) e h = cc
  finished-raises before (raised e' w) e h = refl

  -- A request whose answer is an exception leaves the database as it found it, whatever its handler
  -- had written, flushed or added by then.
  pub get_db-atomic :
      (body : Exec A) (w : World) (e : Failure)
      → answer (get_db body w) ≡ err e
      → (world_of (get_db body w)).db ≡ w.db
  unfolding get_db
  get_db-atomic body w e h = finished-raises w.db _ e h

  -- How a transaction ended: it raised, or its body returned and the flush of the commit succeeded.
  pub data Ended (body : Exec A) (w : World) : Type ℓ where
    body_raised :
        (e : Failure) (w' : World) → body (record w { new = [] }) ≡ raised e w' → Ended body w
    flush_raised :
        (a : A) (mid : World) (e : Failure) (w' : World)
        → body (record w { new = [] }) ≡ returned a mid
        → flush mid ≡ raised e w'
        → Ended body w
    kept :
        (a : A) (mid end : World)
        → body (record w { new = [] }) ≡ returned a mid
        → flush mid ≡ returned tt end
        → Ended body w

  pub ended : (body : Exec A) (w : World) → Ended body w
  ended body w = of_body (body (record w { new = [] })) refl
    where
      of_flush :
          (a : A) (mid : World) (o : Outcome (Unit {0}))
          → body (record w { new = [] }) ≡ returned a mid
          → flush mid ≡ o
          → Ended body w
      of_flush a mid (returned x w') returns e = kept a mid w' returns e
      of_flush a mid (raised f w') returns e = flush_raised a mid f w' returns e

      of_body : (o : Outcome A) → body (record w { new = [] }) ≡ o → Ended body w
      of_body (returned a mid) e = of_flush a mid (flush mid) e refl
      of_body (raised f w') e = body_raised f w' e

-- What a transaction answers is mapped where its body's result is; the database is the same.
abbrev pub map_result {ℓ κ} : {A : Type ℓ} {B : Type κ} → (A → B) → Result A → Result B
map_result f (ok a) = ok (f a)
map_result f (err e) = err e

of_Ended {ℓ κ} :
    {A : Type ℓ} {B : Type κ} (f : A → B) (m : Exec A) (w : World)
    → Ended m w
    → effect (get_db (m >>= λ a. pure (f a)) w)
      ≡ (map_result f (effect (get_db m w)).0, (effect (get_db m w)).1)
unfolding get_db
of_Ended f m w (body_raised e w' raises) = rw raises
of_Ended f m w (flush_raised a mid e w' returns raises) = rw (returns, raises)
of_Ended f m w (kept a mid end returns flushes) = rw (returns, flushes)

pub get_db-map {ℓ κ} :
    {A : Type ℓ} {B : Type κ} (f : A → B) (m : Exec A) (w : World)
    → effect (get_db (m >>= λ a. pure (f a)) w)
      ≡ (map_result f (effect (get_db m w)).0, (effect (get_db m w)).1)
get_db-map f m w = of_Ended f m w (ended m w)

world_of_Ended {ℓ κ} :
    {A : Type ℓ} {B : Type κ} (f : A → B) (m : Exec A) (w : World)
    → Ended m w
    → world_of (get_db (m >>= λ a. pure (f a)) w) ≡ world_of (get_db m w)
unfolding get_db
world_of_Ended f m w (body_raised e w' raises) = rw raises refl
world_of_Ended f m w (flush_raised a mid e w' returns raises) = rw (returns, raises) refl
world_of_Ended f m w (kept a mid end returns flushes) = rw (returns, flushes) refl

pub get_db-map_world {ℓ κ} :
    {A : Type ℓ} {B : Type κ} (f : A → B) (m : Exec A) (w : World)
    → world_of (get_db (m >>= λ a. pure (f a)) w) ≡ world_of (get_db m w)
get_db-map_world f m w = world_of_Ended f m w (ended m w)
