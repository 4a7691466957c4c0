-- ===== src/Server/ProbeProcessor.antt =====
-- internal/server/probe_processor.go: what an authenticated probe sends, checked and handed to the
-- monitoring package. The state is the runtime with that of the store; `now` is what the clock shows
-- during a call. The log lines are left out.
pub mod Vouched
pub mod Normalized
pub mod AllOrNothing
use wacht.Store.Probes.{Probe}
use wacht.Shared.{String, Bool, not, ◌&&◌, Option, none, some, List, [], ◌∷◌, ◌==◌, if◌then◌else◌}
use wacht.Shared.Dict.{Dict, lookup, insert}
use wacht.Shared.Time.{Time}
use wacht.Shared.Action.{Result, ok, err, Action}
use wacht.Checks.{Check}
use wacht.Proto.{CheckResult}
use wacht.Alert.Payload.{AlertPayload}
use wacht.Store.Writes.{MonitoringStore}
use wacht.Store.CheckId.{is_invalid_check_id}
use wacht.Monitoring.Types.{Error}
use wacht.Monitoring.Stateless.{Stateless}
use wacht.Monitoring.Runtime.{Runtime, add_probe}
use wacht.Monitoring.Heartbeat.{heartbeat}
use wacht.Monitoring.Result.{ObservedResult}
use wacht.Monitoring.Batch.{observed_result_batch}
use wacht.Server.Errors.{ServerError}

-- internal/api/probe/types.go
pub record HeartbeatRequest : Type 0 where
  pub probe_id : String

pub record RegisterRequest : Type 0 where
  pub probe_id : String
  pub version : String

abbrev probe_required : ServerError
probe_required = ServerError.internal "probe is required" (Error.required "probe")

abbrev pub mismatch : ServerError
mismatch = ServerError.bad_request "probe_id does not match authenticated probe"

-- The test that refuses a request or a result in the name of another probe.
abbrev pub is_other : Probe → String → Bool
is_other probe probe_id = not (probe_id == "") && not (probe_id == probe.probe_id)

-- The result as the server vouches for it.
unfoldable pub accept : Probe → Time → Check → CheckResult → ObservedResult
accept probe now check incoming = record {
  check = check;
  result = record incoming {
    check_id = check.id;
    check_name = check.name;
    probe_id = probe.probe_id;
    check_type = check.check_type;
    target = check.target;
    timestamp = now;
  };
}

abbrev pub keep_accepted : Option ObservedResult → List ObservedResult → List ObservedResult
keep_accepted none out = out
keep_accepted (some item) out = item ∷ out

abbrev pub wrap : {S A : Type 0} → String → S × Result Error A → S × Result ServerError A
wrap message (s, ok a) = (s, ok a)
wrap message (s, err e) = (s, err (ServerError.internal message e))

module _ {S : Type 0} where
  unfoldable pub heartbeat_request :
      ⦃lib : Stateless⦄
      → MonitoringStore S Error
      → Time
      → Option Probe
      → HeartbeatRequest
      → Action (Runtime × S) ServerError (Unit {0})
  heartbeat_request st now none req state = (state, err probe_required)
  heartbeat_request st now (some probe) req (r, s) =
      if is_other probe req.probe_id
      then ((r, s), err mismatch)
      else wrap "apply heartbeat"
          (heartbeat st probe.probe_id now ((add_probe probe.probe_id r).0, s))

  abbrev added :
      Probe → Runtime → S × Result Error (Unit {0}) → (Runtime × S) × Result ServerError (Unit {0})
  added probe r (s, err e) = ((r, s), err (ServerError.internal "" e))
  added probe r (s, ok _) = (((add_probe probe.probe_id r).0, s), ok tt)

  -- `register_probe` is the store's method.
  unfoldable pub register :
      (String → String → Action S Error (Unit {0}))
      → Option Probe
      → RegisterRequest
      → Action (Runtime × S) ServerError (Unit {0})
  register register_probe none req state = (state, err probe_required)
  register register_probe (some probe) req (r, s) =
      if is_other probe req.probe_id
      then ((r, s), err mismatch)
      else added probe r (register_probe probe.probe_id req.version s)

  -- What GetCheckByID answers; a result that is dropped is `none`.
  abbrev pub loaded :
      Probe
      → Time
      → Dict Check
      → CheckResult
      → S × Result Error (Option Check)
      → S × Result ServerError (Dict Check × Option ObservedResult)
  loaded probe now cache incoming (s, err e) =
      if is_invalid_check_id e
      then (s, ok (cache, none))
      else (s, err (ServerError.internal "look up check" e))
  loaded probe now cache incoming (s, ok none) = (s, ok (cache, none))
  loaded probe now cache incoming (s, ok (some check)) =
      (s, ok (insert incoming.check_id check cache, some (accept probe now check incoming)))

  abbrev pub cached :
      MonitoringStore S Error
      → Probe
      → Time
      → Dict Check
      → CheckResult
      → Option Check
      → S
      → S × Result ServerError (Dict Check × Option ObservedResult)
  cached st probe now cache incoming (some check) s =
      (s, ok (cache, some (accept probe now check incoming)))
  cached st probe now cache incoming none s =
      loaded probe now cache incoming (st.get_check_by_id incoming.check_id s)

  unfoldable pub normalize_with_cache :
      MonitoringStore S Error
      → Probe
      → Time
      → Dict Check
      → CheckResult
      → S
      → S × Result ServerError (Dict Check × Option ObservedResult)
  unfolding accept
  normalize_with_cache st probe now cache incoming s =
      if is_other probe incoming.probe_id
      then (s, err mismatch)
      else if incoming.check_id == ""
      then (s, ok (cache, none))
      else cached st probe now cache incoming (lookup incoming.check_id cache) s

  abbrev pub prepend :
      Option ObservedResult
      → S × Result ServerError (List ObservedResult)
      → S × Result ServerError (List ObservedResult)
  prepend item (s, err e) = (s, err e)
  prepend item (s, ok out) = (s, ok (keep_accepted item out))

  abbrev pub after_item :
      S × Result ServerError (Dict Check × Option ObservedResult)
      → (Dict Check → S → S × Result ServerError (List ObservedResult))
      → S × Result ServerError (List ObservedResult)
  after_item (s, err e) rest = (s, err e)
  after_item (s, ok (cache, item)) rest = prepend item (rest cache s)

  -- The loop of normalizeBatch, with the cache that it has so far.
  unfoldable pub normalize_each :
      MonitoringStore S Error
      → Probe
      → Time
      → Dict Check
      → List CheckResult
      → S
      → S × Result ServerError (List ObservedResult)
  unfolding normalize_with_cache
  normalize_each st probe now cache [] s = (s, ok [])
  normalize_each st probe now cache (incoming ∷ rest) s =
      after_item (normalize_with_cache st probe now cache incoming s)
        (λ cache' s'. normalize_each st probe now cache' rest s')

  unfoldable pub normalize_batch :
      MonitoringStore S Error
      → Probe
      → Time
      → List CheckResult
      → S
      → S × Result ServerError (List ObservedResult)
  unfolding normalize_each
  normalize_batch st probe now incoming = normalize_each st probe now [] incoming

  module _ ⦃lib : Stateless⦄ (marshal : AlertPayload → Result Error String) where
    -- ApplyResultBatch of a runtime and a store that are there.
    abbrev pub apply_batch :
        MonitoringStore S Error
        → List ObservedResult
        → Runtime
        → S
        → (Runtime × S) × Result Error (Unit {0})
    apply_batch st [] r s = ((r, s), ok tt)
    apply_batch st (item ∷ items) r s = observed_result_batch marshal st (item ∷ items) (r, s)

    abbrev pub apply_normalized :
        MonitoringStore S Error
        → Runtime
        → S × Result ServerError (List ObservedResult)
        → (Runtime × S) × Result ServerError (Unit {0})
    apply_normalized st r (s, err e) = ((r, s), err e)
    apply_normalized st r (s, ok items) = wrap "apply result batch" (apply_batch st items r s)

    unfoldable pub process_batch :
        MonitoringStore S Error
        → Time
        → Option Probe
        → List CheckResult
        → Action (Runtime × S) ServerError (Unit {0})
    unfolding normalize_batch
    process_batch st now none incoming state = (state, err probe_required)
    process_batch st now (some probe) [] state =
        (state, err (ServerError.bad_request "results is required"))
    process_batch st now (some probe) (item ∷ items) (r, s) =
        apply_normalized st r (normalize_batch st probe now (item ∷ items) s)
