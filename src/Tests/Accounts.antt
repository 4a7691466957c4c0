-- ===== src/Tests/Accounts.antt =====
-- Concrete calls: the accounts and the probes of internal/store, and logging in (internal/server).
use wacht.Shared.{arith, ◌<◌, refl, String, true, some, [], ◌∷◌, ℕ, ◌≡◌, ◌+◌, ◌==◌, All}
use wacht.Shared.Text.{trim_space}
use wacht.Shared.Action.{Result, ok}
use wacht.Store.Connection.{Connection, exec, transaction_or}
use wacht.Store.Accounts.{setup_password, authenticate_user, normalize_email}
use wacht.Store.AccountRows.{
  insert_session, create_session_in_querier, get_session_user, Crypto, SetupPasswordOutcome,
  no_outcome,
}
use wacht.Store.Accounts.Once.{setup_password_once}
use wacht.Store.Probes.{
  ProbeCredential, create_probe_credential, insert_probe_credential, is_probe_id, is_tail,
  authenticate_probe, ProbeSeed, seed_probes, upsert_seeds, revoke_others, revoke_probe,
}
use wacht.Store.Probes.Credentials.{authenticate_probe-create, fresh_probe}
use wacht.Shared.Rows.{any}
use wacht.Store.Probes.Active.{is_active_seed, seed_probes-is_active_seed}
use wacht.Store.Probes.Seeded.{is_settled, seed_probes-is_settled}
use wacht.Store.Tables.{ProbeRow, User}
use wacht.Server.AuthProcessor.{LoginOutcome, login}
use wacht.Server.AuthProcessor.Login.{LogsIn, login-get_session_user}
use wacht.Monitoring.Types.{Error}
use wacht.Tests.Data.{interpreter}
use wacht.Tests.Tables.{healthy}

instance abbrev plain : Crypto
plain = record {
  to_lower = λ s. s;
  generate_from_password = λ s. ok s;
  matches_password = λ hash s. hash == s;
  sha256_hex = λ s. s;
}

abbrev session : SetupPasswordOutcome
session = record { email = "owner@shop.test"; session_token = "s1" }

first_use : (setup_password " token" "secret" (ok "s1") 500 healthy).1 ≡ ok session
unfolding setup_password trim_space exec transaction_or
first_use = refl

setup_password_once_example :
    (setup_password " token" "other" (ok "s2") 600 (record {
      tables = (setup_password " token" "secret" (ok "s1") 500 healthy).0.tables;
      faults = [];
    })).1
    ≡ ok no_outcome
setup_password_once_example =
    setup_password_once " token" "secret" (ok "s1") 500 healthy session (refl, tt) first_use refl
      "other" (ok "s2") 600

abbrev draws : ℕ → Result Error String × Result Error String
draws n = (ok "x", ok "y")

abbrev credential : ProbeCredential
credential = record { probe_id = "a1"; secret = "s" }

created : (create_probe_credential (λ s. s) " a1" (ok "s") draws 500 healthy).1 ≡ ok credential
unfolding create_probe_credential insert_probe_credential is_probe_id is_tail trim_space exec
created = refl

authenticate_probe-create_example :
    (authenticate_probe
      (λ s. s)
      "a1"
      "s"
      (record {
        tables = (create_probe_credential (λ s. s) " a1" (ok "s") draws 500 healthy).0.tables;
        faults = [];
      })).1
    ≡ ok (some (fresh_probe "a1"))
authenticate_probe-create_example =
    authenticate_probe-create (λ s. s) " a1" (ok "s") draws 500 healthy credential created

abbrev logged_in : LoginOutcome
logged_in = record { token = "s1"; email = "owner@shop.test" }

abbrev after_login : Connection
after_login = record {
  tables = (login "owner@shop.test" "#old" (ok "s1") 500 healthy).0.tables;
  faults = [];
}

session_opened : (login "owner@shop.test" "#old" (ok "s1") 500 healthy).1 ≡ ok logged_in
unfolding login authenticate_user normalize_email create_session_in_querier insert_session
    trim_space exec
session_opened = refl

before_end : 600 < 500 + 2592000000000000
before_end = omega arith

login-get_session_user_example :
    (u : User) × LogsIn "owner@shop.test" "#old" healthy.tables.users u
    × ("owner@shop.test" ≡ u.email)
    × ((get_session_user "s1" 600 after_login).1 ≡ ok (some u))
login-get_session_user_example =
    login-get_session_user "owner@shop.test" "#old" (ok "s1") 500 healthy logged_in 600 (tt, tt)
      session_opened before_end

abbrev kept_seed : ProbeSeed
kept_seed = record { probe_id = "b"; secret = "t" }

-- The configuration held the probes "b" and "c" and now holds "b".
abbrev seeded : Connection
seeded = record {
  tables =
      (seed_probes (λ s. s) (record { probe_id = "c"; secret = "s" } ∷ kept_seed ∷ []) 400
        healthy).0.tables;
  faults = [];
}

seeded_again : (seed_probes (λ s. s) (kept_seed ∷ []) 500 seeded).1 ≡ ok tt
unfolding seed_probes upsert_seeds revoke_others revoke_probe exec
seeded_again = refl

seed_probes-is_settled_example :
    All
      (λ (p : ProbeRow). is_settled (kept_seed ∷ []) p ≡ true)
      (seed_probes (λ s. s) (kept_seed ∷ []) 500 seeded).0.tables.probes
seed_probes-is_settled_example =
    seed_probes-is_settled (λ s. s) kept_seed [] 500 seeded seeded_again

seed_probes-is_active_seed_example :
    any (is_active_seed "b") (seed_probes (λ s. s) (kept_seed ∷ []) 500 seeded).0.tables.probes
    ≡ true
seed_probes-is_active_seed_example =
    seed_probes-is_active_seed (λ s. s) "b" kept_seed [] 500 seeded refl seeded_again
