-- ===== src/Server/ProbeProcessor/Vouched.antt =====
-- internal/server/probe_processor.go: what a batch of results is to be normalized to.
use wacht.Shared.{true, String, ◌≡◌, ◌⊎◌, none, some, List, [], ◌∷◌}
use wacht.Store.CheckId.{is_invalid_check_id}
use wacht.Store.Probes.{Probe}
use wacht.Shared.Time.{Time}
use wacht.Shared.Action.{ok, err}
use wacht.Checks.{Check}
use wacht.Proto.{CheckResult}
use wacht.Store.Writes.{MonitoringStore}
use wacht.Monitoring.Types.{Error}
use wacht.Monitoring.Result.{ObservedResult}

-- What a result that was sent is handed on as. It was sent in no other probe's name; it keeps what the
-- probe has measured, and all that names it comes from the probe, the check and the clock.
pub record IsVouched (probe : Probe) (now : Time) (sent : CheckResult) (o : ObservedResult)
    : Type 0 where
  pub own : (sent.probe_id ≡ "") ⊎ (sent.probe_id ≡ probe.probe_id)
  pub probe_id : o.result.probe_id ≡ probe.probe_id
  pub check_id : o.result.check_id ≡ o.check.id
  pub check_name : o.result.check_name ≡ o.check.name
  pub check_type : o.result.check_type ≡ o.check.check_type
  pub target : o.result.target ≡ o.check.target
  pub timestamp : o.result.timestamp ≡ now
  pub up : o.result.up ≡ sent.up
  pub latency : o.result.latency ≡ sent.latency
  pub error : o.result.error ≡ sent.error

module _ {S : Type 0} (st : MonitoringStore S Error) where
  -- In some state the store answers this ID with this check.
  abbrev pub Knows : String → Check → Type 0
  Knows id check = (s : S) × ((st.get_check_by_id id s).1 ≡ ok (some check))

  -- In some state the store has no check for this ID, or refuses it as no ID of a check.
  abbrev pub Misses : String → Type 0
  Misses id =
      (s : S) × (((st.get_check_by_id id s).1 ≡ ok none)
        ⊎ ((e : Error) × ((st.get_check_by_id id s).1 ≡ err e) × (is_invalid_check_id e ≡ true)))

-- The results that are handed on, in the order of those that were sent. One is handed on with the check
-- that the store knows by the ID that was sent with it; one is dropped only without an ID, or
-- with one that the store misses.
pub data Vouched {S : Type 0} (st : MonitoringStore S Error) (probe : Probe) (now : Time)
    : List CheckResult → List ObservedResult → Type 0 where
  over : Vouched st probe now [] []
  kept :
      {sent : CheckResult} {rest : List CheckResult} {o : ObservedResult}
      {out : List ObservedResult}
      → IsVouched probe now sent o
      → Knows st sent.check_id o.check
      → Vouched st probe now rest out
      → Vouched st probe now (sent ∷ rest) (o ∷ out)
  dropped :
      {sent : CheckResult} {rest : List CheckResult} {out : List ObservedResult}
      → (sent.check_id ≡ "") ⊎ Misses st sent.check_id
      → Vouched st probe now rest out
      → Vouched st probe now (sent ∷ rest) out
