-- ===== src/Server/ProbeProcessor/AllOrNothing.antt =====
-- ProcessBatch (internal/server/probe_processor.go) over the store of internal/store.
use wacht.Shared.{
  ◌==◌, ap, Bool-cases, ◌≡◌, ◌≢◌, refl, String, Option, none, some, List, [], ◌∷◌, inl, inr, ◌∙◌,
}
use wacht.Store.CheckId.{is_invalid_check_id, normalize_check_id}
use wacht.Server.ProbeProcessor.{
  is_invalid_check_id, loaded, cached, normalize_with_cache, normalize_each, normalize_batch,
  prepend, after_item, apply_batch, apply_normalized, process_batch, is_other, wrap,
}
use wacht.Store.Probes.{Probe}
use wacht.Shared.Time.{Time}
use wacht.Shared.Dict.{Dict, lookup}
use wacht.Shared.Action.{Result, ok, err}
use wacht.Checks.{Check}
use wacht.Proto.{CheckResult}
use wacht.Alert.Payload.{AlertPayload}
use wacht.Store.Writes.{MonitoringStore}
use wacht.Store.CheckRows.{get_check_by_id, query_by_id}
use wacht.Store.Connection.{Connection}
use wacht.Store.Connection.Rules.{exec-Keeps}
use wacht.Store.Recovered.{monitoring_store}
use wacht.Store.Recovered.Together.{observed_result_batch_refused}
use wacht.Store.Tables.{Tables}
use wacht.Monitoring.Types.{Error}
use wacht.Monitoring.Stateless.{Stateless}
use wacht.Monitoring.Runtime.{Runtime}
use wacht.Monitoring.Result.{ObservedResult}
use wacht.Monitoring.Batch.{observed_result_batch, apply_each, nothing_applied}
use wacht.Monitoring.Batch.Atomicity.{batch_atomic}
use wacht.Server.Errors.{ServerError}

-- A query changes no table.
query_by_id-tables :
    (id : Result Error String) (c : Connection) → (query_by_id id c).0.tables ≡ c.tables
query_by_id-tables (err e) c = refl
query_by_id-tables (ok id) c = exec-Keeps (λ (t : Tables). t ≡ c.tables) _ (λ t h. h) c refl

module _ (canonical : String → Option String) (now : Time) where
  abbrev st : MonitoringStore Connection Error
  st = monitoring_store canonical now

  get_check-tables : (id : String) (c : Connection) → (st.get_check_by_id id c).0.tables ≡ c.tables
  unfolding monitoring_store get_check_by_id
  get_check-tables id c = query_by_id-tables (normalize_check_id canonical id) c

  module _ (probe : Probe) where
    loaded-state :
        (cache : Dict Check) (incoming : CheckResult) (r : Connection × Result Error (Option Check))
        → (loaded probe now cache incoming r).0 ≡ r.0
    loaded-state cache incoming (s, err e) = elim (Bool-cases (is_invalid_check_id e)) [
      | inl invalid ↦ rw invalid refl
      | inr other ↦ rw other refl
    ]
    loaded-state cache incoming (s, ok none) = refl
    loaded-state cache incoming (s, ok (some check)) = refl

    cached-tables :
        (cache : Dict Check) (incoming : CheckResult) (found : Option Check) (c : Connection)
        → (cached st probe now cache incoming found c).0.tables ≡ c.tables
    cached-tables cache incoming (some check) c = refl
    cached-tables cache incoming none c =
        ap (λ (d : Connection). d.tables)
          (loaded-state cache incoming (st.get_check_by_id incoming.check_id c))
        ∙ get_check-tables incoming.check_id c

    with_cache-tables :
        (cache : Dict Check) (incoming : CheckResult) (c : Connection)
        → (normalize_with_cache st probe now cache incoming c).0.tables ≡ c.tables
    unfolding normalize_with_cache
    with_cache-tables cache incoming c = elim (Bool-cases (is_other probe incoming.probe_id)) [
      | inl other ↦ rw other refl
      | inr own ↦ elim (Bool-cases (incoming.check_id == "")) [
        | inl empty ↦ rw (own, empty) refl
        | inr named ↦
            rw (own, named) (cached-tables cache incoming (lookup incoming.check_id cache) c)
      ]
    ]

    prepend-state :
        (item : Option ObservedResult) (r : Connection × Result ServerError (List ObservedResult))
        → (prepend item r).0 ≡ r.0
    prepend-state item (s, err e) = refl
    prepend-state item (s, ok out) = refl

    after_item-tables :
        (step : Connection × Result ServerError (Dict Check × Option ObservedResult))
        (rest : Dict Check → Connection → Connection × Result ServerError (List ObservedResult))
        → ((cache : Dict Check) (c : Connection) → (rest cache c).0.tables ≡ c.tables)
        → (after_item step rest).0.tables ≡ step.0.tables
    after_item-tables (s, err e) rest h = refl
    after_item-tables (s, ok (cache, item)) rest h =
        ap (λ (d : Connection). d.tables) (prepend-state item (rest cache s)) ∙ h cache s

    normalize_each-tables :
        (cache : Dict Check) (incoming : List CheckResult) (c : Connection)
        → (normalize_each st probe now cache incoming c).0.tables ≡ c.tables
    unfolding normalize_each
    normalize_each-tables cache [] c = refl
    normalize_each-tables cache (incoming ∷ rest) c =
        after_item-tables (normalize_with_cache st probe now cache incoming c)
          (λ cache' s'. normalize_each st probe now cache' rest s')
          (λ cache' s'. normalize_each-tables cache' rest s')
        ∙ with_cache-tables cache incoming c

  module _ ⦃lib : Stateless⦄ (marshal : AlertPayload → Result Error String)
      (marshal_total : (p : AlertPayload) (e : Error) → marshal p ≢ err e) where
    abbrev AllOrNothing :
        {E : Type 0} → Runtime → Tables → (Runtime × Connection) × Result E (Unit {0}) → Type 0
    AllOrNothing r t ((r', c'), err e) = (r' ≡ r) × (c'.tables ≡ t)
    AllOrNothing r t ((r', c'), ok _) = Unit

    all_or_nothing :
        (r : Runtime) (t : Tables) (after : (Runtime × Connection) × Result Error (Unit {0}))
        → ((e : Error) → after.1 ≡ err e → (after.0.0 ≡ r) × (after.0.1.tables ≡ t))
        → AllOrNothing r t (wrap "apply result batch" after)
    all_or_nothing r t (s, ok u) f = tt
    all_or_nothing r t (s, err e) f = f e refl

    use_error :
        (r : Runtime) (t : Tables) (after : (Runtime × Connection) × Result ServerError (Unit {0}))
        {e : ServerError}
        → AllOrNothing r t after
        → after.1 ≡ err e
        → (after.0.0 ≡ r) × (after.0.1.tables ≡ t)
    use_error r t (s, ok u) a h = absurd cc
    use_error r t (s, err x) a h = a

    apply_batch-AllOrNothing :
        (items : List ObservedResult) (r : Runtime) (c : Connection) (e : Error)
        → (apply_batch marshal st items r c).1 ≡ err e
        → ((apply_batch marshal st items r c).0.0 ≡ r)
          × ((apply_batch marshal st items r c).0.1.tables ≡ c.tables)
    unfolding observed_result_batch
    apply_batch-AllOrNothing [] r c e h = (refl, refl)
    apply_batch-AllOrNothing (item ∷ items) r c e h = (
      batch_atomic marshal marshal_total st (item ∷ items) r c h,
      observed_result_batch_refused marshal canonical now (item ∷ items)
          (apply_each marshal (item ∷ items) nothing_applied r) c h,
    )

    apply_normalized-AllOrNothing :
        (r : Runtime) (t : Tables) (n : Connection × Result ServerError (List ObservedResult))
        → n.0.tables ≡ t
        → AllOrNothing r t (apply_normalized marshal st r n)
    apply_normalized-AllOrNothing r t (c, err e) h = (refl, h)
    apply_normalized-AllOrNothing r t (c, ok items) h =
        all_or_nothing r t (apply_batch marshal st items r c)
          (λ e f. let both = apply_batch-AllOrNothing items r c e f in (both.0, both.1 ∙ h))

    -- If the encoder never fails, a request with results that is answered with an error, whatever the
    -- error is, leaves the runtime and every table as they were.
    pub process_batch_all_or_nothing :
        (probe : Option Probe) (incoming : List CheckResult) (r : Runtime) (c : Connection)
        {e : ServerError}
        → (process_batch marshal st now probe incoming (r, c)).1 ≡ err e
        → let after = process_batch marshal st now probe incoming (r, c) in
          (after.0.0 ≡ r) × (after.0.1.tables ≡ c.tables)
    unfolding process_batch normalize_batch
    process_batch_all_or_nothing none incoming r c h = (refl, refl)
    process_batch_all_or_nothing (some probe) [] r c h = (refl, refl)
    process_batch_all_or_nothing (some probe) (item ∷ items) r c h =
        use_error r c.tables
          (apply_normalized marshal st r (normalize_each st probe now [] (item ∷ items) c))
          (apply_normalized-AllOrNothing r c.tables
            (normalize_each st probe now [] (item ∷ items) c)
            (normalize_each-tables probe [] (item ∷ items) c))
          h
