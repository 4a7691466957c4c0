-- ===== src/Store/Probes/Credentials.antt =====
-- CreateProbeCredential and AuthenticateProbe (internal/store/probes.go).
use wacht.Shared.{
  zero, suc, ap, ℕ, refl, [], ◌∷◌, none, some, ◌≡◌, String, Option, List, arith, Bool, true, false,
  ◌==◌, ◌++◌, eq_refl, inl, inr, Bool-cases,
}
use mathlib.Core.Path.{ap, subst}
use wacht.Shared.Text.{append_text, trim_space}
use wacht.Store.Probes.{
  is_taken, invalid_probe_id, probe_already_exists, create_probe_credential, generate, generate_one,
  retry_taken, retry_if, insert_valid, insert_unless, ProbeCredential, Probe, has_id,
  is_active_probe, insert_probe, inserted, new_row, insert_probe_credential, authenticate_probe,
  authenticated, from_result, is_probe_id,
}
use wacht.Store.Connection.Rules.{raise-Ensures, Ensures, exec-Ensures, bind-Ensures}
use wacht.Shared.Rows.{any, find}
use wacht.Shared.Time.{Time}
use wacht.Shared.Action.{Result, ok, err, Action}
use wacht.Monitoring.Types.{Error}
use wacht.Store.Tables.{Tables, ProbeRow}
use wacht.Store.Connection.{Connection, exec}

find-append :
    (probe_id : String) (p : ProbeRow) (ps : List ProbeRow)
    → any (has_id p.probe_id) ps ≡ false
    → p.revoked_at ≡ none
    → find (is_active_probe p.probe_id) (ps ++ (p ∷ [])) ≡ some p
find-append probe_id p [] h k = ground (arith, eq_refl p.probe_id)
find-append probe_id p (q ∷ ps) h k = ground (arith, find-append probe_id p ps)

-- What a probe sees of its row before it has registered.
abbrev pub fresh_probe : String → Probe
fresh_probe probe_id = record {
  probe_id = probe_id;
  version = "";
  registered_at = none;
  last_seen_at = none;
}

module _ (hash : String → String) where
  abbrev Admits : ProbeCredential → Tables → Type 0
  Admits credential t =
      authenticated hash credential.secret (find (is_active_probe credential.probe_id) t.probes)
      ≡ some (fresh_probe credential.probe_id)

  abbrev Any : Tables → Type 0
  Any t = Unit

  pure_credential :
      (credential : ProbeCredential)
      → Ensures (Admits credential) (λ (c : Connection). (c, ok credential)) Admits
  pure_credential credential c a p h =
      let same : credential ≡ a = ground arith in
      subst (λ (x : ProbeCredential). Admits x c.tables) same p

  -- After the INSERT.
  abbrev Added : String → Option String → Tables → Type 0
  Added secret none t = Unit
  Added secret (some probe_id) t = Admits (record { probe_id = probe_id; secret = secret }) t

  admits_new :
      (probe_id secret : String) (now : Time) (ps : List ProbeRow)
      → any (has_id probe_id) ps ≡ false
      → authenticated hash secret
          (find (is_active_probe probe_id) (ps ++ (new_row probe_id (hash secret) "api" now ∷ [])))
        ≡ some (fresh_probe probe_id)
  admits_new probe_id secret now ps h =
      rw (find-append probe_id (new_row probe_id (hash secret) "api" now) ps h refl)
        (rw (eq_refl (hash secret)) refl)

  insert_unless-Added :
      (probe_id secret : String) (now : Time) (t : Tables) (taken : Bool) (o : Option String)
      → any (has_id probe_id) t.probes ≡ taken
      → (insert_unless taken (new_row probe_id (hash secret) "api" now) t).1 ≡ ok o
      → Added secret o (insert_unless taken (new_row probe_id (hash secret) "api" now) t).0
  insert_unless-Added probe_id secret now t true none f h = tt
  insert_unless-Added probe_id secret now t true (some id) f h = absurd cc
  insert_unless-Added probe_id secret now t false none f h = tt
  insert_unless-Added probe_id secret now t false (some id) f h =
      let same : probe_id ≡ id = ground arith in
      subst
        (λ (x : String).
          Added secret (some x)
            (insert_unless false (new_row probe_id (hash secret) "api" now) t).0)
        same (admits_new probe_id secret now t.probes f)

  inserted-Ensures :
      (secret : String) (added : Option String)
      → Ensures (Added secret added) (inserted secret added) Admits
  inserted-Ensures secret none = raise-Ensures Any Admits probe_already_exists
  inserted-Ensures secret (some probe_id) =
      pure_credential (record { probe_id = probe_id; secret = secret })

  insert_valid-Ensures :
      (valid : Bool) (probe_id : String) (drawn : Result Error String) (now : Time)
      → Ensures Any (insert_valid hash valid probe_id drawn now) Admits
  insert_valid-Ensures false probe_id drawn now =
      raise-Ensures Any Admits (Error.wrapped probe_id invalid_probe_id)
  insert_valid-Ensures true probe_id drawn now =
      bind-Ensures Any (λ _. Any) Admits (from_result drawn) _ (λ c a h e. tt)
        (λ secret.
          bind-Ensures Any (Added secret) Admits
            (exec (insert_probe (new_row probe_id (hash secret) "api" now))) (inserted secret)
            (exec-Ensures Any (Added secret)
              (insert_probe (new_row probe_id (hash secret) "api" now))
              (λ t o h e.
                insert_unless-Added probe_id secret now t (any (has_id probe_id) t.probes) o refl
                  e))
            (inserted-Ensures secret))

  insert_probe_credential-Ensures :
      (raw : String) (drawn : Result Error String) (now : Time)
      → Ensures Any (insert_probe_credential hash raw drawn now) Admits
  unfolding insert_probe_credential
  insert_probe_credential-Ensures raw drawn now =
      insert_valid-Ensures (is_probe_id (trim_space raw)) (trim_space raw) drawn now

  retry_if-Ensures :
      (retried : Bool) (e : Error) (again : Action Connection Error ProbeCredential)
      → Ensures Any again Admits
      → Ensures Any (retry_if hash retried e again) Admits
  retry_if-Ensures true e again f = f
  retry_if-Ensures false e again f = raise-Ensures Any Admits e

  retry_taken-Ensures :
      (again : Action Connection Error ProbeCredential)
      (r : Connection × Result Error ProbeCredential) (credential : ProbeCredential)
      → Ensures Any again Admits
      → (r.1 ≡ ok credential → Admits credential r.0.tables)
      → (retry_taken hash again r).1 ≡ ok credential
      → Admits credential (retry_taken hash again r).0.tables
  retry_taken-Ensures again (c, ok x) credential f g h = g h
  retry_taken-Ensures again (c, err e) credential f g h =
      retry_if-Ensures (is_taken e) e again f c credential tt h

  generate_one-Ensures :
      (again : Action Connection Error ProbeCredential) (suffix drawn : Result Error String)
      (now : Time)
      → Ensures Any again Admits
      → Ensures Any (generate_one hash again suffix drawn now) Admits
  generate_one-Ensures again (err e) drawn now f c credential p h = absurd cc
  generate_one-Ensures again (ok suffix) drawn now f c credential p h =
      retry_taken-Ensures again
        (insert_probe_credential hash (append_text "probe-" suffix) drawn now c) credential f
        (insert_probe_credential-Ensures (append_text "probe-" suffix) drawn now c credential tt) h

  generate-Ensures :
      (n : ℕ) (draws : ℕ → Result Error String × Result Error String) (now : Time)
      → Ensures Any (generate hash n draws now) Admits
  unfolding generate
  generate-Ensures zero draws now =
      raise-Ensures Any Admits (Error.wrapped "generated id collision" probe_already_exists)
  generate-Ensures (suc n) draws now =
      generate_one-Ensures (generate hash n draws now) (draws n).0 (draws n).1 now
        (generate-Ensures n draws now)

  create-Ensures :
      (requested : String) (drawn : Result Error String)
      (draws : ℕ → Result Error String × Result Error String) (now : Time)
      → Ensures Any (create_probe_credential hash requested drawn draws now) Admits
  unfolding create_probe_credential
  create-Ensures requested drawn draws now = elim (Bool-cases (trim_space requested == "")) [
    | inl blank ↦ rw blank (generate-Ensures 8 draws now)
    | inr named ↦ rw named (insert_probe_credential-Ensures (trim_space requested) drawn now)
  ]

  -- The credential that a call gives out, whether its ID was asked for or generated, and however
  -- many generated IDs were taken, admits the probe that shows it: its ID and its secret
  -- authenticate, on the tables as the call left them, the probe of that ID, if the query does not
  -- fail.
  pub authenticate_probe-create :
      (requested : String) (drawn : Result Error String)
      (draws : ℕ → Result Error String × Result Error String) (now : Time) (c : Connection)
      (credential : ProbeCredential)
      → (create_probe_credential hash requested drawn draws now c).1 ≡ ok credential
      → (authenticate_probe hash credential.probe_id credential.secret (record {
        tables = (create_probe_credential hash requested drawn draws now c).0.tables;
        faults = [];
      })).1
        ≡ ok (some (fresh_probe credential.probe_id))
  unfolding authenticate_probe exec
  authenticate_probe-create requested drawn draws now c credential h =
      ap ok (create-Ensures requested drawn draws now c credential tt h)
