-- ===== src/Store/Connection/Leaving.antt =====
-- Transactions that a body may leave before the commit (internal/store): what the tables are like after.
use wacht.Shared.{ap, sym, ◌≡◌, refl, Option, none, some, [], arith}
use mathlib.Core.Path.{ap, sym, subst}
use wacht.Shared.Action.{Result, ok, err, Action}
use wacht.Monitoring.Types.{Error}
use wacht.Store.Tables.{Tables}
use wacht.Store.Connection.{
  Connection, exec, control, leave_or_commit, run_or_leave, transaction_or,
}
use wacht.Store.Connection.Rollback.{exec-control}
use wacht.Store.Connection.Rules.{Ensures, committed-Ensures}

-- The body ensures `Q` of what it commits, and what it leaves ensures `Q` of the other answer.
module _ {A : Type 0} (P : Tables → Type 0) (Q : A → Tables → Type 0) (otherwise : A) where
  abbrev pub OrLeft : Option A → Tables → Type 0
  OrLeft none t = Unit
  OrLeft (some a) t = Q a t

  leave_or_commit-Ensures :
      (before : Tables) (r : Connection × Result Error (Option A)) (a : A)
      → P before
      → ((t : Tables) → P t → Q otherwise t)
      → ((o : Option A) → r.1 ≡ ok o → OrLeft o r.0.tables)
      → (leave_or_commit otherwise before r).1 ≡ ok a
      → Q a (leave_or_commit otherwise before r).0.tables
  leave_or_commit-Ensures before (c, err e) a p left f h = absurd cc
  leave_or_commit-Ensures before (c, ok none) a p left f h =
      subst (λ (x : A). Q x before) (ground arith) (left before p)
  leave_or_commit-Ensures before (c, ok (some b)) a p left f h =
      committed-Ensures Q before b (exec control c) a
        (subst (λ (t : Tables). Q b t) (sym (exec-control c)) (f (some b) refl)) h

  run_or_leave-Ensures :
      (before : Tables) (body : Action Connection Error (Option A))
      (r : Connection × Result Error (Unit {0})) (a : A)
      → P before
      → P r.0.tables
      → ((t : Tables) → P t → Q otherwise t)
      → Ensures P body OrLeft
      → (run_or_leave otherwise before body r).1 ≡ ok a
      → Q a (run_or_leave otherwise before body r).0.tables
  run_or_leave-Ensures before body (c, err e) a b p left f h = absurd cc
  run_or_leave-Ensures before body (c, ok u) a b p left f h =
      leave_or_commit-Ensures before (body c) a b left (λ o. f c o p) h

  pub transaction_or-Ensures :
      (body : Action Connection Error (Option A))
      → ((t : Tables) → P t → Q otherwise t)
      → Ensures P body OrLeft
      → Ensures P (transaction_or otherwise body) Q
  unfolding transaction_or
  transaction_or-Ensures body left f c a p h =
      run_or_leave-Ensures c.tables body (exec control c) a p (subst P (sym (exec-control c)) p)
        left f h

-- A body that leaves without a change, where no statement fails by itself.
pub transaction_or_left :
    {A : Type 0} (otherwise : A) (body : Action Connection Error (Option A)) (t : Tables)
    → body (record { tables = t; faults = [] }) ≡ (record { tables = t; faults = [] }, ok none)
    → (transaction_or otherwise body (record { tables = t; faults = [] })).1 ≡ ok otherwise
unfolding transaction_or exec
transaction_or_left otherwise body t h =
    ap (λ (r : Connection × Result Error (Option _)). (leave_or_commit otherwise t r).1) h
