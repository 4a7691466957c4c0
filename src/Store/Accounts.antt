-- ===== src/Store/Accounts.antt =====
-- internal/store/auth.go: users, sessions and requests for an account. A call gets what the random
-- source and the default of public_status_slug give it; `now` is what the clock shows during a call.
pub mod Once
use wacht.Store.AccountRows.{
  Crypto, SetupPasswordOutcome, SignupApproval, approval_is_over, approved_row, completed_row,
  create_session_in_querier, delete_session, duplicate, found_request, from_result,
  get_session_user, has_email, hours, insert_request, insert_session, insert_user, is_empty_list,
  is_pending, is_pending_id, is_token, is_usable, is_valid_session, list_pending_signup_requests,
  new_email, new_request, no_approval, no_outcome, password_row, query, reject_row,
  reject_signup_request, rejected_row, rejection_is_over, reopen_if, reopened, reopens, same_status,
  same_token, session_owner, session_ttl, setup_token_ttl, signup_retry_window, unexpired,
  update_password, update_request, update_row, user_exists,
}
use wacht.Shared.{
  ℕ, ◌+◌, ◌*◌, String, Bool, true, false, not, ◌&&◌, ◌||◌, Option, none, some, List, [], ◌∷◌, ◌++◌,
  map, ◌==◌, nat_eq, ltb, leb, if◌then◌else◌, is_some,
}
use wacht.Shared.Rows.{any, find, select, sort_by}
use wacht.Shared.Text.{trim_space}
use wacht.Shared.Time.{Time, is_after, second, zero_time}
use wacht.Shared.Action.{Result, ok, err, Action, ◌>>=◌, ◌>>◌, pure}
use wacht.Monitoring.Types.{Error}
use wacht.Store.Tables.{Tables, User, Session, SignupStatus, SignupRequest}
use wacht.Store.Connection.{Connection, exec, transaction, transaction_or}

module _ ⦃crypto : Crypto⦄ where
  unfoldable pub normalize_email : String → String
  normalize_email email = crypto.to_lower (trim_space email)

  unfoldable pub create_user : String → String → Bool → String → Time → Action Connection Error User
  unfolding insert_user normalize_email
  create_user email password is_admin slug now = do
    hash ← from_result (crypto.generate_from_password password)
    exec (insert_user (normalize_email email) hash is_admin slug now)

  abbrev pub verified : String → Option User → Option User
  verified password none = none
  verified password (some u) =
      if crypto.matches_password u.password_hash password then some u else none

  unfoldable pub authenticate_user : String → String → Action Connection Error (Option User)
  unfolding normalize_email
  authenticate_user email password =
      query (λ (t : Tables). verified password (find (has_email (normalize_email email)) t.users))

  unfoldable pub set_user_password : ℕ → String → Action Connection Error (Unit {0})
  unfolding update_password
  set_user_password user_id new_password = do
    hash ← from_result (crypto.generate_from_password new_password)
    exec (update_password user_id hash)

  abbrev replace_if : ℕ → String → Bool → Action Connection Error Bool
  replace_if user_id new true = set_user_password user_id new >> pure true
  replace_if user_id new false = pure false

  abbrev replace_password : String → String → Option User → Action Connection Error Bool
  replace_password current new none =
      from_result (err (Error.external "sql: no rows in result set"))
  replace_password current new (some u) =
      replace_if u.id new (crypto.matches_password u.password_hash current)

  unfoldable pub update_user_password : ℕ → String → String → Action Connection Error Bool
  unfolding set_user_password
  update_user_password user_id current new = do
    found ← query (λ (t : Tables). find (λ (u : User). nat_eq u.id user_id) t.users)
    replace_password current new found

  unfoldable pub create_signup_request : String → Time → Action Connection Error (Unit {0})
  unfolding normalize_email insert_request update_request reopens
  create_signup_request raw now c =
      let email = normalize_email raw in
      if email == ""
      then (c, ok tt)
      else transaction
          (do
            request ←
                query
                  (λ (t : Tables). find (λ (r : SignupRequest). r.email == email) t.signup_requests)
            found_request email now request)
          c

  -- The user that has the email, or a new one with a placeholder for a password.
  abbrev ensure_user :
      String → Result Error String → String → Time → Option User → Action Connection Error ℕ
  ensure_user email placeholder slug now (some u) = pure u.id
  ensure_user email placeholder slug now none = do
    password ← from_result placeholder
    hash ← from_result (crypto.generate_from_password password)
    u ← exec (insert_user email hash false slug now)
    pure u.id

  abbrev approve_pending :
      SignupRequest
      → Result Error String
      → Result Error String
      → String
      → Time
      → Action Connection Error (Option SignupApproval)
  approve_pending r placeholder drawn slug now = do
    found ← query (λ (t : Tables). find (has_email r.email) t.users)
    user_id ← ensure_user r.email placeholder slug now found
    setup_token ← from_result drawn
    exec (update_request r.id (approved_row user_id (crypto.sha256_hex setup_token) now))
    pure (
        some (record {
          email = r.email;
          setup_token = setup_token;
          expires_at = now + setup_token_ttl;
        }))

  abbrev approve_found :
      Result Error String
      → Result Error String
      → String
      → Time
      → Option SignupRequest
      → Action Connection Error (Option SignupApproval)
  approve_found placeholder drawn slug now none c = (c, ok none)
  approve_found placeholder drawn slug now (some r) c =
      if is_pending r then approve_pending r placeholder drawn slug now c else (c, ok none)

  unfoldable pub approve_signup_request :
      ℕ
      → Result Error String
      → Result Error String
      → String
      → Time
      → Action Connection Error SignupApproval
  unfolding insert_user update_request
  approve_signup_request id placeholder drawn slug now = transaction_or no_approval (do
    request ← query (λ (t : Tables). find (λ (r : SignupRequest). nat_eq r.id id) t.signup_requests)
    approve_found placeholder drawn slug now request)

  abbrev pub complete :
      SignupRequest
      → String
      → Result Error String
      → Time
      → Option ℕ
      → Action Connection Error (Option SetupPasswordOutcome)
  complete r new_password drawn now none = pure none
  complete r new_password drawn now (some user_id) = do
    set_user_password user_id new_password
    session_token ← create_session_in_querier drawn user_id now
    exec (update_request r.id (completed_row now))
    pure (some (record { email = r.email; session_token = session_token }))

  abbrev pub use_found :
      String
      → Result Error String
      → Time
      → Option SignupRequest
      → Action Connection Error (Option SetupPasswordOutcome)
  use_found new_password drawn now none c = (c, ok none)
  use_found new_password drawn now (some r) c =
      if is_usable r now then complete r new_password drawn now r.user_id c else (c, ok none)

  abbrev pub use_token :
      String
      → String
      → Result Error String
      → Time
      → Action Connection Error (Option SetupPasswordOutcome)
  use_token token new_password drawn now = do
    request ← query (λ (t : Tables). find (is_token (crypto.sha256_hex token)) t.signup_requests)
    use_found new_password drawn now request

  unfoldable pub setup_password :
      String → String → Result Error String → Time → Action Connection Error SetupPasswordOutcome
  unfolding set_user_password create_session_in_querier update_request
  setup_password raw new_password drawn now c =
      let token = trim_space raw in
      if token == "" || new_password == ""
      then (c, ok no_outcome)
      else transaction_or no_outcome (use_token token new_password drawn now) c
