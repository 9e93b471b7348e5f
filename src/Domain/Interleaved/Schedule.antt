-- ===== src/Domain/Interleaved/Schedule.antt =====
-- Schedules of overlapping transactions of app/domain/service.py: decisions that have read and wait to
-- write, and operations that commit meanwhile.
use content_approval.Common.{String, ◌≡◌, sym, subst, List, [], ◌∷◌, ◌++◌, All, All-imp}
use content_approval.Db.Models.{Db}
use content_approval.Db.Session.{World, effect}
use content_approval.Db.Session.Transaction.{get_db}
use content_approval.Db.Session.Keeps.{Keeps-get_db}
use content_approval.Db.Integrity.{IsSound}
use content_approval.Domain.Service.{Draft, create_request}
use content_approval.Domain.Service.Sound.{flush-IsSound, create_request-IsSound}
use content_approval.Domain.Changes.{Choice, Reaches, start, Reaches-trans}
use content_approval.Domain.Changes.Done.{create-Done}
use content_approval.Domain.Interleaved.{late}
use content_approval.Auth.{AuthProvider}
use content_approval.Api.Schemas.{Libraries}
use content_approval.Api.Schemas.Validation.{ApprovalRequestCreate}
use content_approval.Db.Models.{JsonObject}
use content_approval.Domain.Interleaved.Keyed.{Kept}
use content_approval.Domain.Interleaved.Posts.{late_post, post-Kept}
use content_approval.Domain.Interleaved.Decisions.{
  Done-Reaches, late-Kept, late_decision, late_decision-Kept,
}

-- A decision whose transaction has read and not yet written, with the world in which it read.
pub record Pending : Type 0 where
  pub workspace_id : String
  pub request_id : String
  pub actor_user_id : String
  pub choice : Choice
  pub read_at : World

-- What is committed, and the decisions under way.
pub record System : Type 0 where
  pub db : Db
  pub pending : List Pending

module _ (p : Pending) where
  -- The writing of a decision under way, without a key, and under one that was looked for at some time.
  abbrev pub written : World → Db
  written now = (late p.workspace_id p.request_id p.actor_user_id p.choice p.read_at now).1

  abbrev pub written_under : Libraries → String → JsonObject → World → World → Db
  written_under lib key payload looked now =
      late_decision lib p.workspace_id p.request_id p.actor_user_id key p.choice payload looked
        p.read_at now

-- One event. The tokens, the clock and the dialect of each are any, and so is the moment at which a
-- creation under a key looked for it. Two decisions that write to one row wait for each other, so a
-- writing and its commit are one event.
pub data Step (s s' : System) : Type 0 where
  reads :
      (p : Pending) → p.read_at.db ≡ s.db → s' ≡ record s { pending = p ∷ s.pending } → Step s s'
  writes :
      (xs : List Pending) (p : Pending) (ys : List Pending) (now : World)
      → s.pending ≡ xs ++ p ∷ ys
      → now.db ≡ s.db
      → s' ≡ record { db = written p now; pending = xs ++ ys }
      → Step s s'
  keyed_writes :
      (xs : List Pending) (p : Pending) (ys : List Pending) (lib : Libraries) (key : String)
      (payload : JsonObject) (looked now : World)
      → s.pending ≡ xs ++ p ∷ ys
      → now.db ≡ s.db
      → s' ≡ record { db = written_under p lib key payload looked now; pending = xs ++ ys }
      → Step s s'
  creates :
      (d : Draft) (now : World)
      → now.db ≡ s.db
      → s' ≡ record s { db = (effect (get_db (create_request d) now)).1 }
      → Step s s'
  posts :
      (provider : AuthProvider) (lib : Libraries) (ws user key : String) (payload : JsonObject)
      (body : ApprovalRequestCreate) (before now : World)
      → now.db ≡ s.db
      → s' ≡ record s { db = late_post provider lib ws user key payload body before now }
      → Step s s'

-- The systems that events lead to.
pub data Runs (s : System) : System → Type 0 where
  idle : Runs s s
  then_step : {mid s' : System} → Runs s mid → Step mid s' → Runs s s'

-- What a pending decision read is the past of what is committed.
abbrev pub IsPast : Db → Pending → Type 0
IsPast db p = IsSound p.read_at.db × Reaches p.read_at.db db

pub record Inv (s : System) : Type 0 where
  pub sound : IsSound s.db
  pub past : All (IsPast s.db) s.pending

create-Kept :
    (d : Draft) (now : World)
    → IsSound now.db
    → Kept now.db (effect (get_db (create_request d) now)).1
create-Kept d now sound = (
  (Keeps-get_db _ flush-IsSound (create_request-IsSound d)).run now sound,
  Done-Reaches (create-Done d now),
)

IsPast-later : {db db' : Db} → Reaches db db' → (p : Pending) → IsPast db p → IsPast db' p
IsPast-later reached p (sound, before) = (sound, Reaches-trans before reached)

All-without {ℓ κ} :
    {A : Type ℓ} (P : A → Type κ) (xs : List A) (x : A) (ys : List A)
    → All P (xs ++ x ∷ ys)
    → P x × All P (xs ++ ys)
All-without P [] x ys (p, h) = (p, h)
All-without P (y ∷ xs) x ys (q, h) = let (p, rest) = All-without P xs x ys h in (p, (q, rest))

-- The decisions that wait after an event, and what the event left.
after_event :
    {db : Db} (waiting : List Pending) (db' : Db)
    → All (IsPast db) waiting
    → Kept db db'
    → Inv (record { db = db'; pending = waiting }) × Reaches db db'
after_event {db} waiting db' past (sound, reached) = (
  record { sound = sound; past = All-imp (IsPast db) _ waiting (IsPast-later reached) past },
  reached,
)

Step-Kept : {s s' : System} → Step s s' → Inv s → Inv s' × Reaches s.db s'.db
Step-Kept {s} (reads p same e) inv =
    rw e (record { sound = inv.sound; past = (rw same (inv.sound, start), inv.past) }, start)
Step-Kept {s} (writes xs p ys now waits same e) inv =
    let (past, rest) = All-without (IsPast s.db) xs p ys (rw (sym waits) inv.past) in
    rw e (
      after_event (xs ++ ys) (written p now) rest (
        subst (λ db. Kept db (written p now)) same
          (late-Kept p.workspace_id p.request_id p.actor_user_id p.choice p.read_at now past.0
            (rw same inv.sound) (rw same past.1))))
Step-Kept {s} (keyed_writes xs p ys lib key payload looked now waits same e) inv =
    let (past, rest) = All-without (IsPast s.db) xs p ys (rw (sym waits) inv.past) in
    rw e (
      after_event (xs ++ ys) (written_under p lib key payload looked now) rest (
        subst (λ db. Kept db (written_under p lib key payload looked now)) same
          (late_decision-Kept lib p.workspace_id p.request_id p.actor_user_id key p.choice payload
            looked p.read_at now past.0 (rw same inv.sound) (rw same past.1))))
Step-Kept {s} (creates d now same e) inv = rw e (
    after_event s.pending (effect (get_db (create_request d) now)).1 inv.past (
      subst (λ db. Kept db (effect (get_db (create_request d) now)).1) same
        (create-Kept d now (rw same inv.sound))))
Step-Kept {s} (posts provider lib ws user key payload body before now same e) inv = rw e (
    after_event s.pending (late_post provider lib ws user key payload body before now) inv.past (
      subst (λ db. Kept db (late_post provider lib ws user key payload body before now)) same
        (post-Kept provider lib ws user key payload body before now (rw same inv.sound))))

Runs-Kept : {s s' : System} → Runs s s' → Inv s → Inv s' × Reaches s.db s'.db
Runs-Kept idle inv = (inv, start)
Runs-Kept (then_step runs last) inv =
    let (inv', before) = Runs-Kept runs inv in
    let (inv'', after) = Step-Kept last inv' in (inv'', Reaches-trans before after)

-- However decisions, split into a reading and a writing with its commit, and creations overlap, each
-- of them with or without a key that was looked for at some other time: from a database that meets its
-- constraints, with no decision under way, every schedule leads to a database that meets them and is
-- the end of a history of operations that are each made at once.
pub Runs-Reaches :
    {db : Db} {s : System}
    → IsSound db
    → Runs (record { db = db; pending = [] }) s
    → IsSound s.db × Reaches db s.db
Runs-Reaches sound runs =
    let (inv, reached) = Runs-Kept runs (record { sound = sound; past = tt }) in
    (inv.sound, reached)
