-- ===== src/Store/Connection/Rollback.antt =====
-- Transactions (internal/store): the call that ends in an error.
use wacht.Store.Connection.{
  exec_next, Connection, exec, control, committed, finish_body, run_body, transaction,
}
use wacht.Shared.{Option, List, ◌≡◌, refl, none, some, [], ◌∷◌}
use wacht.Shared.Action.{Result, ok, err, Action}
use wacht.Monitoring.Types.{Error}
use wacht.Store.Tables.{Tables}

-- BEGIN and COMMIT change no table.
exec_next-control :
    (t : Tables) (faults : List (Option Error)) → (exec_next control t faults).0.tables ≡ t
exec_next-control t [] = refl
exec_next-control t (some e ∷ faults) = refl
exec_next-control t (none ∷ faults) = refl

pub exec-control : (c : Connection) → (exec control c).0.tables ≡ c.tables
unfolding exec
exec-control c = exec_next-control c.tables c.faults

committed_refused :
    {A : Type 0} (before : Tables) (a : A) (r : Connection × Result Error (Unit {0})) {e : Error}
    → (committed before a r).1 ≡ err e
    → (committed before a r).0.tables ≡ before
committed_refused before a (c, ok x) h = absurd cc
committed_refused before a (c, err x) h = refl

finish_body_refused :
    {A : Type 0} (before : Tables) (r : Connection × Result Error A) {e : Error}
    → (finish_body before r).1 ≡ err e
    → (finish_body before r).0.tables ≡ before
finish_body_refused before (c, err x) h = refl
finish_body_refused before (c, ok a) h = committed_refused before a (exec control c) h

run_body_refused :
    {A : Type 0} (before : Tables) (body : Action Connection Error A)
    (r : Connection × Result Error (Unit {0})) {e : Error}
    → r.0.tables ≡ before
    → (run_body before body r).1 ≡ err e
    → (run_body before body r).0.tables ≡ before
run_body_refused before body (c, err x) same h = same
run_body_refused before body (c, ok x) same h = finish_body_refused before (body c) h

pub transaction_refused :
    {A : Type 0} (body : Action Connection Error A) (c : Connection) {e : Error}
    → (transaction body c).1 ≡ err e
    → (transaction body c).0.tables ≡ c.tables
unfolding transaction
transaction_refused body c h = run_body_refused c.tables body (exec control c) (exec-control c) h
