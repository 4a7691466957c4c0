-- ===== src/Store/Probes.antt =====
-- internal/store/probes.go: the probes that may speak to the server. A call gets what the random
-- source gives it; `hash` is SHA-256 in hexadecimal digits, and `now` what the clock shows.
pub mod Credentials
pub mod Seeded
pub mod Active
use wacht.Shared.Text.{append_text, trim_space}
use wacht.Shared.{
  ℕ, zero, suc, String, Bool, true, false, not, ◌&&◌, ◌||◌, Option, none, some, List, [], ◌∷◌, ◌++◌,
  map, ◌==◌, nat_eq, leb, ltb, if◌then◌else◌, is_some,
}
use wacht.Shared.Rows.{any, find, select}
use wacht.Shared.Time.{Time}
use wacht.Shared.Action.{Result, ok, err, Action, ◌>>=◌, ◌>>◌, pure}
use wacht.Monitoring.Types.{Error}
use wacht.Store.Tables.{Tables, ProbeRow}
use wacht.Store.Connection.{Connection, exec}
use Prim.Native.Char.{Char, code}

pub record ProbeSeed : Type 0 where
  pub probe_id : String
  pub secret : String

pub record ProbeCredential : Type 0 where
  pub probe_id : String
  pub secret : String

pub record Probe : Type 0 where
  pub probe_id : String
  pub version : String
  pub registered_at : Option Time
  pub last_seen_at : Option Time

abbrev pub invalid_probe_id : Error
invalid_probe_id = Error.external "store: invalid probe id"

abbrev pub probe_already_exists : Error
probe_already_exists = Error.external "store: probe id already exists"

-- probeIDPattern
abbrev is_alphanumeric : Char → Bool
is_alphanumeric ch =
    let c = code ch in
    (leb 0x30 c && leb c 0x39) || (leb 0x41 c && leb c 0x5a) || (leb 0x61 c && leb c 0x7a)

abbrev is_id_char : Char → Bool
is_id_char ch =
    is_alphanumeric ch || nat_eq (code ch) 0x2e || nat_eq (code ch) 0x5f || nat_eq (code ch) 0x2d

-- At most `n` characters, each of the second class.
unfoldable pub is_tail : ℕ → String → Bool
is_tail n String.[] = true
is_tail zero (String.◌∷◌ c s) = false
is_tail (suc n) (String.◌∷◌ c s) = is_id_char c && is_tail n s

unfoldable pub is_probe_id : String → Bool
unfolding is_tail
is_probe_id String.[] = false
is_probe_id (String.◌∷◌ c s) = is_alphanumeric c && is_tail 63 s

abbrev new_row : String → String → String → Time → ProbeRow
new_row probe_id secret_hash provisioned_by now = record {
  probe_id = probe_id;
  secret_hash = secret_hash;
  provisioned_by = provisioned_by;
  version = "";
  created_at = now;
  registered_at = none;
  last_seen_at = none;
  revoked_at = none;
}

abbrev has_id : String → ProbeRow → Bool
has_id probe_id p = p.probe_id == probe_id

abbrev add_probe_row : ProbeRow → Tables → Tables
add_probe_row p t = record t { probes = t.probes ++ (p ∷ []) }

-- INSERT ... ON CONFLICT (probe_id) DO NOTHING RETURNING probe_id
abbrev pub insert_unless : Bool → ProbeRow → Action Tables Error (Option String)
insert_unless true p t = (t, ok none)
insert_unless false p t = (add_probe_row p t, ok (some p.probe_id))

abbrev pub insert_probe : ProbeRow → Action Tables Error (Option String)
insert_probe p t = insert_unless (any (has_id p.probe_id) t.probes) p t

abbrev pub inserted : String → Option String → Action Connection Error ProbeCredential
inserted secret none c = (c, err probe_already_exists)
inserted secret (some probe_id) c = (c, ok (record { probe_id = probe_id; secret = secret }))

abbrev from_result : {A : Type 0} → Result Error A → Action Connection Error A
from_result r c = (c, r)

-- DO UPDATE of SeedProbes
abbrev reseed : String → ProbeRow → ProbeRow
reseed secret_hash p = record p {
  secret_hash = secret_hash;
  provisioned_by = "config";
  revoked_at = none;
}

abbrev reseed_row : String → String → ProbeRow → ProbeRow
reseed_row probe_id secret_hash p = if has_id probe_id p then reseed secret_hash p else p

abbrev revoke_row : String → Time → ProbeRow → ProbeRow
revoke_row probe_id now p = if has_id probe_id p then record p { revoked_at = some now } else p

unfoldable pub revoke_probe : String → Time → Action Connection Error (Unit {0})
revoke_probe probe_id now =
    exec (λ (t : Tables). (record t { probes = map (revoke_row probe_id now) t.probes }, ok tt))

abbrev unless_kept : List ProbeSeed → String → Time → Action Connection Error (Unit {0})
unless_kept seeds probe_id now c =
    if any (λ (s : ProbeSeed). s.probe_id == probe_id) seeds
    then (c, ok tt)
    else revoke_probe probe_id now c

-- The loop over the rows that were provisioned by the configuration.
unfoldable pub revoke_others :
    List ProbeSeed → Time → List String → Action Connection Error (Unit {0})
unfolding revoke_probe
revoke_others seeds now [] = pure tt
revoke_others seeds now (probe_id ∷ ids) =
    unless_kept seeds probe_id now >> revoke_others seeds now ids

abbrev config_ids : Tables → List String
config_ids t =
    map (λ (p : ProbeRow). p.probe_id)
      (select (λ (p : ProbeRow). p.provisioned_by == "config") t.probes)

abbrev see_registration : String → String → Time → ProbeRow → ProbeRow
see_registration probe_id version now p =
    if has_id probe_id p && not (is_some p.revoked_at)
    then record p {
      version = version;
      registered_at = if is_some p.registered_at then p.registered_at else some now;
      last_seen_at = some now;
    }
    else p

unfoldable pub register_probe : Time → String → String → Action Connection Error (Unit {0})
register_probe now probe_id version = exec (λ (t : Tables).
    (record t { probes = map (see_registration probe_id version now) t.probes }, ok tt))

abbrev is_active_probe : String → ProbeRow → Bool
is_active_probe probe_id p = has_id probe_id p && not (is_some p.revoked_at)

abbrev probe_of : ProbeRow → Probe
probe_of p = record {
  probe_id = p.probe_id;
  version = p.version;
  registered_at = p.registered_at;
  last_seen_at = p.last_seen_at;
}

-- errors.Is(err, ErrProbeAlreadyExists)
abbrev is_taken : Error → Bool
is_taken (Error.external message) = message == "store: probe id already exists"
is_taken _ = false

module _ (hash : String → String) where
  abbrev pub insert_valid :
      Bool → String → Result Error String → Time → Action Connection Error ProbeCredential
  insert_valid false probe_id drawn now =
      from_result (err (Error.wrapped probe_id invalid_probe_id))
  insert_valid true probe_id drawn now = do
    secret ← from_result drawn
    added ← exec (insert_probe (new_row probe_id (hash secret) "api" now))
    inserted secret added

  unfoldable pub insert_probe_credential :
      String → Result Error String → Time → Action Connection Error ProbeCredential
  unfolding is_probe_id
  insert_probe_credential raw drawn now =
      insert_valid (is_probe_id (trim_space raw)) (trim_space raw) drawn now

  abbrev pub retry_if :
      Bool
      → Error
      → Action Connection Error ProbeCredential
      → Action Connection Error ProbeCredential
  retry_if true e again c = again c
  retry_if false e again c = (c, err e)

  abbrev pub retry_taken :
      Action Connection Error ProbeCredential
      → Connection × Result Error ProbeCredential
      → Connection × Result Error ProbeCredential
  retry_taken again (c, ok credential) = (c, ok credential)
  retry_taken again (c, err e) = retry_if (is_taken e) e again c

  -- A round of the loop: `suffix` and `drawn` are what the random source gives it.
  abbrev pub generate_one :
      Action Connection Error ProbeCredential
      → Result Error String
      → Result Error String
      → Time
      → Action Connection Error ProbeCredential
  generate_one again (err e) drawn now c = (c, err e)
  generate_one again (ok suffix) drawn now c =
      retry_taken again (insert_probe_credential (append_text "probe-" suffix) drawn now c)

  unfoldable pub generate :
      ℕ
      → (ℕ → Result Error String × Result Error String)
      → Time
      → Action Connection Error ProbeCredential
  unfolding insert_probe_credential
  generate zero draws now c = (c, err (Error.wrapped "generated id collision" probe_already_exists))
  generate (suc n) draws now c = generate_one (generate n draws now) (draws n).0 (draws n).1 now c

  unfoldable pub create_probe_credential :
      String
      → Result Error String
      → (ℕ → Result Error String × Result Error String)
      → Time
      → Action Connection Error ProbeCredential
  unfolding generate
  create_probe_credential requested drawn draws now =
      if trim_space requested == ""
      then generate 8 draws now
      else insert_probe_credential (trim_space requested) drawn now

  abbrev authenticated : String → Option ProbeRow → Option Probe
  authenticated secret none = none
  authenticated secret (some p) = if p.secret_hash == hash secret then some (probe_of p) else none

  unfoldable pub authenticate_probe : String → String → Action Connection Error (Option Probe)
  authenticate_probe probe_id secret =
      exec
        (λ (t : Tables). (t, ok (authenticated secret (find (is_active_probe probe_id) t.probes))))

  abbrev upsert_seed : ProbeSeed → Time → Action Tables Error (Unit {0})
  upsert_seed s now t =
      if any (has_id s.probe_id) t.probes
      then (record t { probes = map (reseed_row s.probe_id (hash s.secret)) t.probes }, ok tt)
      else (add_probe_row (new_row s.probe_id (hash s.secret) "config" now) t, ok tt)

  unfoldable pub upsert_seeds : List ProbeSeed → Time → Action Connection Error (Unit {0})
  upsert_seeds [] now = pure tt
  upsert_seeds (s ∷ seeds) now = exec (upsert_seed s now) >> upsert_seeds seeds now

  unfoldable pub seed_probes : List ProbeSeed → Time → Action Connection Error (Unit {0})
  unfolding upsert_seeds revoke_others
  seed_probes [] now = pure tt
  seed_probes (s ∷ seeds) now = do
    upsert_seeds (s ∷ seeds) now
    ids ← exec (λ (t : Tables). (t, ok (config_ids t)))
    revoke_others (s ∷ seeds) now ids
