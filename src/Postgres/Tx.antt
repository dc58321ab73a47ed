-- ===== src/Postgres/Tx.antt =====
-- internal/postgres/tx.go. A transaction works on a copy of the database, which COMMIT puts in
-- place; a failed statement aborts it. The context carries at most one, the ambient one.
use gogolook_task_api.Prelude.{
  String, Bool, true, false, ◌||◌, Option, none, some, List, [], ◌∷◌, ◌++◌, if◌then◌else◌,
}
use gogolook_task_api.Postgres.Tables.{Database}

-- `unitOfWork`: the transaction, and the kinds to notify after its commit.
pub record Work : Type 0 where
  pub db : Database
  pub is_aborted : Bool
  pub after : List String

-- The database as others see it, and the ambient transaction of the context.
pub record Session : Type 0 where
  pub committed : Database
  pub ambient : Option Work

-- A transaction that begins now.
abbrev pub fresh_work : Database → Work
fresh_work db = record { db = db; is_aborted = false; after = [] }

-- `WithTx`.
abbrev pub with_tx : Work → Session → Session
with_tx w s = record s { ambient = some w }

-- `TxFrom`.
abbrev pub tx_from : Session → Option Work
tx_from s = s.ambient

-- `AfterCommit`, of a notification: false where there is nothing to register it with.
unfoldable pub register : String → Option Work → Bool × Option Work
register kind none = (false, none)
register kind (some w) = (true, some (record w { after = w.after ++ kind ∷ [] }))

unfoldable pub after_commit : String → Session → Bool × Session
unfolding register
after_commit kind s =
    let (registered, a) = register kind s.ambient in (registered, record s { ambient = a })

-- NOTIFY outside a transaction.
abbrev pub notify : String → Database → Database
notify kind db = record db { notified = db.notified ++ kind ∷ [] }

unfoldable pub notify_all : List String → Database → Database
notify_all [] db = db
notify_all (k ∷ ks) db = notify_all ks (notify k db)

-- `RunAfterCommit`: the hooks of the unit of work, in order.
unfoldable pub run_after_commit : Work → Database → Database
unfolding notify_all
run_after_commit w db = notify_all w.after db

-- COMMIT: it fails where it is refused or a statement has failed before, and the copy is gone.
abbrev pub commit_work : Bool → Work → Option Database
commit_work refused w = if refused || w.is_aborted then none else some w.db
