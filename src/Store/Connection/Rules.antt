-- ===== src/Store/Connection/Rules.antt =====
-- Statements in sequence (internal/store): what the tables are like after a body that succeeds, and
-- after a transaction.
use wacht.Shared.{
  true, false, if◌then◌else◌, Bool, sym, ◌≡◌, refl, Option, none, some, List, [], ◌∷◌, inl, inr,
  arith,
}
use mathlib.Core.Path.{sym, subst}
use wacht.Shared.Action.{Result, Result-cases, ok, err, Action, ◌>>=◌, continue}
use wacht.Monitoring.Types.{Error}
use wacht.Store.Tables.{Tables}
use wacht.Store.Connection.{
  Connection, exec, exec_next, answer, control, committed, finish_body, run_body, transaction,
}
use wacht.Store.Connection.Rollback.{transaction_refused, exec-control}

module _ {A : Type 0} where
  -- Where `P` holds before and the call succeeds, `Q` holds after.
  abbrev pub Ensures :
      (Tables → Type 0) → Action Connection Error A → (A → Tables → Type 0) → Type 0
  Ensures P m Q = (c : Connection) (a : A) → P c.tables → (m c).1 ≡ ok a → Q a (m c).0.tables

  answer-Ensures :
      (Q : A → Tables → Type 0) (c : Connection) (r : Tables × Result Error A) (a : A)
      → (r.1 ≡ ok a → Q a r.0)
      → (answer c r).1 ≡ ok a
      → Q a (answer c r).0.tables
  answer-Ensures Q c (t, ok b) a f h = f h
  answer-Ensures Q c (t, err e) a f h = absurd cc

  exec_next-Ensures :
      (Q : A → Tables → Type 0) (statement : Action Tables Error A) (t : Tables)
      (faults : List (Option Error)) (a : A)
      → ((statement t).1 ≡ ok a → Q a (statement t).0)
      → (exec_next statement t faults).1 ≡ ok a
      → Q a (exec_next statement t faults).0.tables
  exec_next-Ensures Q statement t [] a f h =
      answer-Ensures Q (record { tables = t; faults = [] }) (statement t) a f h
  exec_next-Ensures Q statement t (some e ∷ faults) a f h = absurd cc
  exec_next-Ensures Q statement t (none ∷ faults) a f h =
      answer-Ensures Q (record { tables = t; faults = faults }) (statement t) a f h

  pub exec-Ensures :
      (P : Tables → Type 0) (Q : A → Tables → Type 0) (statement : Action Tables Error A)
      → ((t : Tables) (a : A) → P t → (statement t).1 ≡ ok a → Q a (statement t).0)
      → Ensures P (exec statement) Q
  unfolding exec
  exec-Ensures P Q statement f c a p h =
      exec_next-Ensures Q statement c.tables c.faults a (f c.tables a p) h

  pub committed-Ensures :
      (Q : A → Tables → Type 0) (before : Tables) (b : A) (r : Connection × Result Error (Unit {0}))
      (a : A)
      → Q b r.0.tables
      → (committed before b r).1 ≡ ok a
      → Q a (committed before b r).0.tables
  committed-Ensures Q before b (c, ok u) a q h = subst (λ (x : A). Q x c.tables) (ground arith) q
  committed-Ensures Q before b (c, err e) a q h = absurd cc

  finish_body-Ensures :
      (Q : A → Tables → Type 0) (before : Tables) (r : Connection × Result Error A) (a : A)
      → ((b : A) → r.1 ≡ ok b → Q b r.0.tables)
      → (finish_body before r).1 ≡ ok a
      → Q a (finish_body before r).0.tables
  finish_body-Ensures Q before (c, err e) a f h = absurd cc
  finish_body-Ensures Q before (c, ok b) a f h =
      committed-Ensures Q before b (exec control c) a
        (subst (λ (t : Tables). Q b t) (sym (exec-control c)) (f b refl)) h

  run_body-Ensures :
      (P : Tables → Type 0) (Q : A → Tables → Type 0) (before : Tables)
      (body : Action Connection Error A) (r : Connection × Result Error (Unit {0})) (a : A)
      → Ensures P body Q
      → P r.0.tables
      → (run_body before body r).1 ≡ ok a
      → Q a (run_body before body r).0.tables
  run_body-Ensures P Q before body (c, err e) a f p h = absurd cc
  run_body-Ensures P Q before body (c, ok u) a f p h =
      finish_body-Ensures Q before (body c) a (λ b. f c b p) h

  pub transaction-Ensures :
      (P : Tables → Type 0) (Q : A → Tables → Type 0) (body : Action Connection Error A)
      → Ensures P body Q
      → Ensures P (transaction body) Q
  unfolding transaction
  transaction-Ensures P Q body f c a p h =
      run_body-Ensures P Q c.tables body (exec control c) a f (subst P (sym (exec-control c)) p) h

  -- A property that a body keeps when it succeeds, a transaction of it keeps always.
  pub transaction-Keeps :
      (P : Tables → Type 0) (body : Action Connection Error A)
      → Ensures P body (λ a. P)
      → (c : Connection) → P c.tables
      → P (transaction body c).0.tables
  transaction-Keeps P body f c p = elim (Result-cases (transaction body c).1) [
    | inl (a, e) ↦ transaction-Ensures P (λ a. P) body f c a p e
    | inr (x, e) ↦ subst P (sym (transaction_refused body c e)) p
  ]

module _ {A B : Type 0} where
  continue-Ensures :
      (Q : A → Tables → Type 0) (R : B → Tables → Type 0) (c : Connection) (r : Result Error A)
      (k : A → Action Connection Error B) (b : B)
      → ((a : A) → Ensures (Q a) (k a) R)
      → ((a : A) → r ≡ ok a → Q a c.tables)
      → (continue c r k).1 ≡ ok b
      → R b (continue c r k).0.tables
  continue-Ensures Q R c (err e) k b g q h = absurd cc
  continue-Ensures Q R c (ok a) k b g q h = g a c b (q a refl) h

  pub bind-Ensures :
      (P : Tables → Type 0) (Q : A → Tables → Type 0) (R : B → Tables → Type 0)
      (m : Action Connection Error A) (k : A → Action Connection Error B)
      → Ensures P m Q
      → ((a : A) → Ensures (Q a) (k a) R)
      → Ensures P (m >>= k) R
  bind-Ensures P Q R m k f g c b p h = continue-Ensures Q R (m c).0 (m c).1 k b g (λ a. f c a p) h

-- A statement that is left out under a condition.
pub unless-Ensures :
    (P : Tables → Type 0) (Q : Unit {0} → Tables → Type 0) (b : Bool)
    (m : Action Connection Error (Unit {0}))
    → ((t : Tables) → P t → Q tt t)
    → Ensures P m Q
    → Ensures P (λ (c : Connection). if b then (c, ok tt) else m c) Q
unless-Ensures P Q true m f g c a p h = f c.tables p
unless-Ensures P Q false m f g c a p h = g c a p h

pub pure-Ensures :
    {A : Type 0} (P : Tables → Type 0) (a : A) → Ensures P (λ (c : Connection). (c, ok a)) (λ _. P)
pure-Ensures P a c b p h = p

-- A statement by itself: one that fails changes nothing.
answer-Keeps :
    {A : Type 0} (P : Tables → Type 0) (c : Connection) (r : Tables × Result Error A)
    → P c.tables
    → P r.0
    → P (answer c r).0.tables
answer-Keeps P c (t, ok a) p q = q
answer-Keeps P c (t, err e) p q = p

exec_next-Keeps :
    {A : Type 0} (P : Tables → Type 0) (statement : Action Tables Error A) (t : Tables)
    (faults : List (Option Error))
    → P t
    → P (statement t).0
    → P (exec_next statement t faults).0.tables
exec_next-Keeps P statement t [] p q =
    answer-Keeps P (record { tables = t; faults = [] }) (statement t) p q
exec_next-Keeps P statement t (some e ∷ faults) p q = p
exec_next-Keeps P statement t (none ∷ faults) p q =
    answer-Keeps P (record { tables = t; faults = faults }) (statement t) p q

pub exec-Keeps :
    {A : Type 0} (P : Tables → Type 0) (statement : Action Tables Error A)
    → ((t : Tables) → P t → P (statement t).0)
    → (c : Connection) → P c.tables
    → P (exec statement c).0.tables
unfolding exec
exec-Keeps P statement f c p = exec_next-Keeps P statement c.tables c.faults p (f c.tables p)

pub raise-Ensures :
    {A : Type 0} (P : Tables → Type 0) (Q : A → Tables → Type 0) (e : Error)
    → Ensures P (λ (c : Connection). (c, err e)) Q
raise-Ensures P Q e c a p h = absurd cc
