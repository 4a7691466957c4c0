-- ===== src/Proto.antt =====
-- internal/proto: result.go, what a probe reports, and check.go, what it is to run.
use wacht.Shared.{String, Bool}
use wacht.Shared.Int.{ℤ}
use wacht.Shared.Time.{Time, Duration}

pub record CheckResult : Type 0 where
  pub check_id : String
  pub check_name : String
  pub probe_id : String
  pub check_type : String
  pub target : String
  pub up : Bool
  pub latency : Duration
  pub error : String
  pub timestamp : Time

-- check.go
pub record ProbeCheck : Type 0 where
  pub id : String
  pub name : String
  pub check_type : String
  pub target : String
  pub interval : ℤ
