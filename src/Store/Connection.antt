-- ===== src/Store/Connection.antt =====
-- The connection of internal/store to Postgres, through Go's database/sql. A statement reads and
-- changes the tables, or fails by a constraint. A connection also knows which of its next statements
-- fail for reasons of their own: those fail whatever they are, and change nothing.
pub mod Rollback
pub mod Rules
pub mod Leaving
use wacht.Shared.{Option, none, some, List, [], ◌∷◌}
use wacht.Shared.Action.{Result, ok, err, Action}
use wacht.Monitoring.Types.{Error}
use wacht.Store.Tables.{Tables}

pub record Connection : Type 0 where
  pub tables : Tables
  pub faults : List (Option Error)

-- The answer to a statement: one that fails changes no table.
abbrev pub answer :
    {A : Type 0} → Connection → Tables × Result Error A → Connection × Result Error A
answer c (t, ok a) = (record c { tables = t }, ok a)
answer c (t, err e) = (c, err e)

abbrev pub exec_next :
    {A : Type 0}
    → Action Tables Error A
    → Tables
    → List (Option Error)
    → Connection × Result Error A
exec_next statement t [] = answer (record { tables = t; faults = [] }) (statement t)
exec_next statement t (some e ∷ faults) = (record { tables = t; faults = faults }, err e)
exec_next statement t (none ∷ faults) =
    answer (record { tables = t; faults = faults }) (statement t)

-- db.Exec, db.Query and db.QueryRow with their rows read.
unfoldable pub exec : {A : Type 0} → Action Tables Error A → Action Connection Error A
exec statement c = exec_next statement c.tables c.faults

-- A statement that changes no table: BEGIN and COMMIT.
abbrev pub control : Action Tables Error (Unit {0})
control t = (t, ok tt)

-- What follows the body: a result is committed, an error is rolled back.
abbrev pub committed :
    {A : Type 0} → Tables → A → Connection × Result Error (Unit {0}) → Connection × Result Error A
committed before a (c, ok _) = (c, ok a)
committed before a (c, err e) = (record c { tables = before }, err e)

abbrev pub finish_body :
    {A : Type 0} → Tables → Connection × Result Error A → Connection × Result Error A
finish_body before (c, err e) = (record c { tables = before }, err e)
finish_body before (c, ok a) = committed before a (exec control c)

abbrev pub run_body :
    {A : Type 0}
    → Tables
    → Action Connection Error A
    → Connection × Result Error (Unit {0})
    → Connection × Result Error A
run_body before body (c, err e) = (c, err e)
run_body before body (c, ok _) = finish_body before (body c)

-- db.BeginTx, the body, tx.Commit, and the deferred tx.Rollback.
unfoldable pub transaction : {A : Type 0} → Action Connection Error A → Action Connection Error A
transaction body c = run_body c.tables body (exec control c)

-- A body that returns before tx.Commit answers `none`; the deferred tx.Rollback puts the tables back,
-- and the call answers `otherwise`.
abbrev pub leave_or_commit :
    {A : Type 0} → A → Tables → Connection × Result Error (Option A) → Connection × Result Error A
leave_or_commit otherwise before (c, err e) = (record c { tables = before }, err e)
leave_or_commit otherwise before (c, ok none) = (record c { tables = before }, ok otherwise)
leave_or_commit otherwise before (c, ok (some a)) = committed before a (exec control c)

abbrev pub run_or_leave :
    {A : Type 0}
    → A
    → Tables
    → Action Connection Error (Option A)
    → Connection × Result Error (Unit {0})
    → Connection × Result Error A
run_or_leave otherwise before body (c, err e) = (c, err e)
run_or_leave otherwise before body (c, ok _) = leave_or_commit otherwise before (body c)

unfoldable pub transaction_or :
    {A : Type 0} → A → Action Connection Error (Option A) → Action Connection Error A
transaction_or otherwise body c = run_or_leave otherwise c.tables body (exec control c)
