-- ===== src/Alert/Payload.antt =====
-- internal/alert/webhook.go: the body of a webhook.
use wacht.Shared.{ℕ, String}

pub record AlertPayload : Type 0 where
  pub check_id : String
  pub check_name : String
  pub target : String
  pub status : String
  pub probes_down : ℕ
  pub probes_total : ℕ
