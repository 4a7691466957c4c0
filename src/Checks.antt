-- ===== src/Checks.antt =====
-- internal/checks/check.go: the definition of a check.
use wacht.Shared.{ℕ, String}
use wacht.Shared.Int.{ℤ}

abbrev pub default_interval : ℕ
default_interval = 30

-- `Type` is the field `check_type`; the interval is in seconds.
pub record Check : Type 0 where
  pub id : String
  pub name : String
  pub check_type : String
  pub target : String
  pub webhook : String
  pub interval : ℤ
