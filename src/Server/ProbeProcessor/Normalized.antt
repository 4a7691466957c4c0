-- ===== src/Server/ProbeProcessor/Normalized.antt =====
-- normalizeBatch (internal/server/probe_processor.go): which results pass, and as what.
use wacht.Shared.{
  ◌==◌, false, Bool-cases, String-cases, String, ◌≡◌, refl, ◌⊎◌, Option, none, some, List, [], ◌∷◌,
  inl, inr, arith, eq_iff, ap, ◌∙◌,
}
use wacht.Store.CheckId.{is_invalid_check_id}
use wacht.Server.ProbeProcessor.{
  after_item, accept, loaded, cached, normalize_with_cache, normalize_each, normalize_batch,
  prepend, is_other,
}
use wacht.Server.ProbeProcessor.Vouched.{IsVouched, Knows, Misses, Vouched}
use wacht.Store.Probes.{Probe}
use mathlib.Core.Path.{subst}
use wacht.Shared.Dict.{Dict, lookup, insert, lookup-insert}
use wacht.Shared.Time.{Time}
use wacht.Shared.Action.{Result, ok, err}
use wacht.Checks.{Check}
use wacht.Proto.{CheckResult}
use wacht.Store.Writes.{MonitoringStore}
use wacht.Monitoring.Types.{Error}
use wacht.Monitoring.Result.{ObservedResult}
use wacht.Server.Errors.{ServerError}

is_other-own :
    (probe : Probe) (id : String) → is_other probe id ≡ false → (id ≡ "") ⊎ (id ≡ probe.probe_id)
is_other-own probe id h = elim (String-cases id "") [
  | inl blank ↦ inl blank
  | inr named ↦ elim (String-cases id probe.probe_id) [
    | inl own ↦ inr own
    | inr other ↦ absurd (ground arith)
  ]
]

accept-IsVouched :
    (probe : Probe) (now : Time) (check : Check) (sent : CheckResult)
    → (sent.probe_id ≡ "") ⊎ (sent.probe_id ≡ probe.probe_id)
    → IsVouched probe now sent (accept probe now check sent)
unfolding accept
accept-IsVouched probe now check sent own = record {
  own = own;
  probe_id = refl;
  check_id = refl;
  check_name = refl;
  check_type = refl;
  target = refl;
  timestamp = refl;
  up = refl;
  latency = refl;
  error = refl;
}

module _ {S : Type 0} (st : MonitoringStore S Error) (probe : Probe) (now : Time) where
  IsKnown : Dict Check → Type 0
  IsKnown cache = (id : String) (check : Check) → lookup id cache ≡ some check → Knows st id check

  abbrev VouchedItem : CheckResult → Option ObservedResult → Type 0
  VouchedItem sent none = (sent.check_id ≡ "") ⊎ Misses st sent.check_id
  VouchedItem sent (some o) = IsVouched probe now sent o × Knows st sent.check_id o.check

  abbrev VouchedStep :
      CheckResult → Result ServerError (Dict Check × Option ObservedResult) → Type 0
  VouchedStep sent (err e) = Unit
  VouchedStep sent (ok (cache, item)) = IsKnown cache × VouchedItem sent item

  abbrev AreVouched : List CheckResult → Result ServerError (List ObservedResult) → Type 0
  AreVouched sent (err e) = Unit
  AreVouched sent (ok out) = Vouched st probe now sent out

  IsKnown-insert :
      (cache : Dict Check) (id : String) (check : Check)
      → IsKnown cache
      → Knows st id check
      → IsKnown (insert id check cache)
  unfolding IsKnown
  IsKnown-insert cache id check known k asked c h = elim (String-cases id asked) [
    | inl same ↦
        let found : check ≡ c =
          ground (arith, lookup-insert id asked check cache, eq_iff id asked) in
        (
          k.0,
          subst (λ (x : String). (st.get_check_by_id x k.0).1 ≡ ok (some c)) same
              (k.1 ∙ ap (λ (x : Check). ok (some x)) found),
        )
    | inr other ↦ known asked c (ground (arith, lookup-insert id asked check cache))
  ]

  loaded-VouchedStep :
      (cache : Dict Check) (sent : CheckResult) (s0 : S) (r : S × Result Error (Option Check))
      → IsKnown cache
      → (sent.probe_id ≡ "") ⊎ (sent.probe_id ≡ probe.probe_id)
      → (st.get_check_by_id sent.check_id s0).1 ≡ r.1
      → VouchedStep sent (loaded probe now cache sent r).1
  loaded-VouchedStep cache sent s0 (s, err e) known own h =
      elim (Bool-cases (is_invalid_check_id e)) [
        | inl invalid ↦ rw invalid (known, inr (s0, inr (e, h, invalid)))
        | inr other ↦ rw other tt
      ]
  loaded-VouchedStep cache sent s0 (s, ok none) known own h = (known, inr (s0, inl h))
  loaded-VouchedStep cache sent s0 (s, ok (some check)) known own h = (
    IsKnown-insert cache sent.check_id check known (s0, h),
    (accept-IsVouched probe now check sent own, unfold accept in (s0, h)),
  )

  cached-VouchedStep :
      (cache : Dict Check) (sent : CheckResult) (found : Option Check) (s : S)
      → IsKnown cache
      → (sent.probe_id ≡ "") ⊎ (sent.probe_id ≡ probe.probe_id)
      → lookup sent.check_id cache ≡ found
      → VouchedStep sent (cached st probe now cache sent found s).1
  unfolding IsKnown
  cached-VouchedStep cache sent (some check) s known own h = (
    known,
    (accept-IsVouched probe now check sent own, unfold accept in known sent.check_id check h),
  )
  cached-VouchedStep cache sent none s known own h =
      loaded-VouchedStep cache sent s (st.get_check_by_id sent.check_id s) known own refl

  normalize_with_cache-VouchedStep :
      (cache : Dict Check) (sent : CheckResult) (s : S)
      → IsKnown cache
      → VouchedStep sent (normalize_with_cache st probe now cache sent s).1
  unfolding normalize_with_cache
  normalize_with_cache-VouchedStep cache sent s known =
      elim (Bool-cases (is_other probe sent.probe_id)) [
        | inl other ↦ rw other tt
        | inr own ↦ elim (Bool-cases (sent.check_id == "")) [
          | inl empty ↦ rw (own, empty) (known, inl ((eq_iff sent.check_id "").0 empty))
          | inr named ↦
              rw (own, named)
                (cached-VouchedStep cache sent (lookup sent.check_id cache) s known
                  (is_other-own probe sent.probe_id own) refl)
        ]
      ]

  prepend-AreVouched :
      (sent : CheckResult) (rest : List CheckResult) (item : Option ObservedResult)
      (r : S × Result ServerError (List ObservedResult))
      → VouchedItem sent item
      → AreVouched rest r.1
      → AreVouched (sent ∷ rest) (prepend item r).1
  prepend-AreVouched sent rest item (s, err e) v vs = tt
  prepend-AreVouched sent rest none (s, ok out) v vs = Vouched.dropped v vs
  prepend-AreVouched sent rest (some o) (s, ok out) v vs = Vouched.kept v.0 v.1 vs

  after_item-AreVouched :
      (sent : CheckResult) (rest : List CheckResult)
      (step : S × Result ServerError (Dict Check × Option ObservedResult))
      (next : Dict Check → S → S × Result ServerError (List ObservedResult))
      → VouchedStep sent step.1
      → ((cache : Dict Check) (s : S) → IsKnown cache → AreVouched rest (next cache s).1)
      → AreVouched (sent ∷ rest) (after_item step next).1
  after_item-AreVouched sent rest (s, err e) next v vs = tt
  after_item-AreVouched sent rest (s, ok (cache, item)) next v vs =
      prepend-AreVouched sent rest item (next cache s) v.1 (vs cache s v.0)

  normalize_each-AreVouched :
      (cache : Dict Check) (sent : List CheckResult) (s : S)
      → IsKnown cache
      → AreVouched sent (normalize_each st probe now cache sent s).1
  unfolding normalize_each
  normalize_each-AreVouched cache [] s known = Vouched.over
  normalize_each-AreVouched cache (sent ∷ rest) s known =
      after_item-AreVouched sent rest (normalize_with_cache st probe now cache sent s)
        (λ cache' s'. normalize_each st probe now cache' rest s')
        (normalize_with_cache-VouchedStep cache sent s known)
        (λ cache' s' k. normalize_each-AreVouched cache' rest s' k)

  -- Whatever a probe sends and whatever the store answers, the results that are handed on are those
  -- sent, in their order. Each was sent in the name of the authenticated probe or in no name, and keeps
  -- what was measured; its check is the store's answer to the ID that was sent with it, its
  -- identity and target are those of that check, and its time is the server's. A result is dropped
  -- only if it has no check ID, or the store has no check for its ID or refuses the ID as invalid.
  pub normalize_batch-Vouched :
      (sent : List CheckResult) (s : S) {out : List ObservedResult}
      → (normalize_batch st probe now sent s).1 ≡ ok out
      → Vouched st probe now sent out
  unfolding normalize_batch IsKnown lookup
  normalize_batch-Vouched sent s h =
      subst (AreVouched sent) h (normalize_each-AreVouched [] sent s (λ id check e. absurd cc))
