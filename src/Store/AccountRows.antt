-- ===== src/Store/AccountRows.antt =====
-- internal/store/auth.go: the statements on users, sessions and requests for an account.
use wacht.Shared.{
  ℕ, ◌+◌, ◌*◌, String, Bool, true, false, not, ◌&&◌, ◌||◌, Option, none, some, List, [], ◌∷◌, ◌++◌,
  map, ◌==◌, nat_eq, leb, if◌then◌else◌, is_some,
}
use wacht.Shared.Rows.{any, find, select, sort_by}
use wacht.Shared.Time.{Time, is_after, second, zero_time}
use wacht.Shared.Action.{Result, ok, err, Action, ◌>>=◌, pure}
use wacht.Monitoring.Types.{Error}
use wacht.Store.Tables.{Tables, User, Session, SignupStatus, SignupRequest}
use wacht.Store.Connection.{Connection, exec}

-- strings.ToLower, bcrypt.GenerateFromPassword, whether bcrypt.CompareHashAndPassword returns nil, and
-- SHA-256 in hexadecimal digits.
pub record Crypto : Type 0 where
  pub to_lower : String → String
  pub generate_from_password : String → Result Error String
  pub matches_password : String → String → Bool
  pub sha256_hex : String → String

pub record SignupApproval : Type 0 where
  pub email : String
  pub setup_token : String
  pub expires_at : Time

pub record SetupPasswordOutcome : Type 0 where
  pub email : String
  pub session_token : String

abbrev pub no_approval : SignupApproval
no_approval = record { email = ""; setup_token = ""; expires_at = zero_time }

abbrev pub no_outcome : SetupPasswordOutcome
no_outcome = record { email = ""; session_token = "" }

abbrev pub hours : ℕ → ℕ
hours n = n * (3600 * second)

abbrev pub signup_retry_window : ℕ
signup_retry_window = hours 24

abbrev pub setup_token_ttl : ℕ
setup_token_ttl = hours 24

abbrev pub session_ttl : ℕ
session_ttl = hours 720

-- A step that asks nothing of the database.
abbrev pub from_result : {A : Type 0} → Result Error A → Action Connection Error A
from_result r c = (c, r)

abbrev pub duplicate : Error
duplicate = Error.external "duplicate key value violates unique constraint"

abbrev pub same_status : SignupStatus → SignupStatus → Bool
same_status SignupStatus.pending SignupStatus.pending = true
same_status SignupStatus.approved SignupStatus.approved = true
same_status SignupStatus.rejected SignupStatus.rejected = true
same_status SignupStatus.completed SignupStatus.completed = true
same_status _ _ = false

abbrev pub query : {A : Type 0} → (Tables → A) → Action Connection Error A
query f = exec (λ (t : Tables). (t, ok (f t)))

abbrev pub has_email : String → User → Bool
has_email email u = u.email == email

-- createUserWithPasswordHash
unfoldable pub insert_user : String → String → Bool → String → Time → Action Tables Error User
insert_user email password_hash is_admin slug now t =
    let u : User = record {
      id = t.next_id;
      email = email;
      password_hash = password_hash;
      public_status_slug = slug;
      is_admin = is_admin;
      created_at = now;
    } in
    if any (λ (v : User). v.email == email || v.public_status_slug == slug) t.users
    then (t, err duplicate)
    else (record t { users = t.users ++ (u ∷ []); next_id = t.next_id + 1 }, ok u)

abbrev pub new_session : String → ℕ → Time → Session
new_session token user_id now = record {
  token = token;
  user_id = user_id;
  created_at = now;
  expires_at = now + session_ttl;
}

-- The constraints of the table: whether the token is taken, and whether the user is known.
abbrev pub insert_checked : Bool → Bool → Session → Action Tables Error String
insert_checked true known s t = (t, err duplicate)
insert_checked false false s t =
    (t, err (Error.external "insert or update violates foreign key constraint"))
insert_checked false true s t = (record t { sessions = t.sessions ++ (s ∷ []) }, ok s.token)

-- createSessionInQuerier after its token has been drawn.
unfoldable pub insert_session : String → ℕ → Time → Action Tables Error String
insert_session token user_id now t =
    insert_checked (any (λ (r : Session). r.token == token) t.sessions)
      (any (λ (u : User). nat_eq u.id user_id) t.users) (new_session token user_id now) t

unfoldable pub create_session_in_querier :
    Result Error String → ℕ → Time → Action Connection Error String
unfolding insert_session
create_session_in_querier drawn user_id now = do
  token ← from_result drawn
  exec (insert_session token user_id now)

abbrev pub password_row : ℕ → String → User → User
password_row user_id hash u = if nat_eq u.id user_id then record u { password_hash = hash } else u

unfoldable pub update_password : ℕ → String → Action Tables Error (Unit {0})
update_password user_id hash t =
    (record t { users = map (password_row user_id hash) t.users }, ok tt)

-- GetSessionUser: the session that is not over, with its user.
abbrev pub is_valid_session : String → Time → Session → Bool
is_valid_session token now s = s.token == token && is_after s.expires_at now

abbrev pub session_owner : List User → Option Session → Option User
session_owner users none = none
session_owner users (some s) = find (λ (u : User). nat_eq u.id s.user_id) users

unfoldable pub get_session_user : String → Time → Action Connection Error (Option User)
get_session_user token now =
    query (λ (t : Tables). session_owner t.users (find (is_valid_session token now) t.sessions))

unfoldable pub delete_session : String → Action Connection Error (Unit {0})
delete_session token = exec (λ (t : Tables).
    (record t { sessions = select (λ (s : Session). not (s.token == token)) t.sessions }, ok tt))

abbrev pub is_empty_list : List User → Bool
is_empty_list [] = true
is_empty_list (u ∷ us) = false

unfoldable pub user_exists : Action Connection Error Bool
user_exists = query (λ (t : Tables). not (is_empty_list t.users))

abbrev pub is_pending : SignupRequest → Bool
is_pending r = same_status r.status SignupStatus.pending

-- ORDER BY requested_at ASC
unfoldable pub list_pending_signup_requests : Action Connection Error (List SignupRequest)
list_pending_signup_requests = query (λ (t : Tables).
    sort_by (λ (r q : SignupRequest). leb r.requested_at q.requested_at)
      (select is_pending t.signup_requests))

-- The switch of CreateSignupRequest: whether the request is opened again.
abbrev pub rejection_is_over : Option Time → Time → Bool
rejection_is_over none now = false
rejection_is_over (some at) now = not (is_after (at + signup_retry_window) now)

abbrev pub approval_is_over : Option Time → Option Time → Time → Bool
approval_is_over (some used) expires_at now = false
approval_is_over none none now = false
approval_is_over none (some expires_at) now = not (is_after expires_at now)

unfoldable pub reopens : SignupRequest → Time → SignupStatus → Bool
reopens r now SignupStatus.pending = false
reopens r now SignupStatus.completed = false
reopens r now SignupStatus.rejected = rejection_is_over r.rejected_at now
reopens r now SignupStatus.approved =
    approval_is_over r.setup_token_used_at r.setup_token_expires_at now

abbrev pub new_request : String → Time → ℕ → SignupRequest
new_request email now id = record {
  id = id;
  user_id = none;
  email = email;
  requested_at = now;
  approved_at = none;
  rejected_at = none;
  completed_at = none;
  setup_token_hash = none;
  setup_token_expires_at = none;
  setup_token_used_at = none;
  status = SignupStatus.pending;
}

unfoldable pub insert_request : String → Time → Action Tables Error (Unit {0})
insert_request email now t =
    if any (λ (r : SignupRequest). r.email == email) t.signup_requests then (t, ok tt) else (
      record t {
        signup_requests = t.signup_requests ++ (new_request email now t.next_id ∷ []);
        next_id = t.next_id + 1;
      },
      ok tt,
    )

-- UPDATE signup_requests ... WHERE id = $1
abbrev pub update_row : ℕ → (SignupRequest → SignupRequest) → SignupRequest → SignupRequest
update_row id f r = if nat_eq r.id id then f r else r

unfoldable pub update_request : ℕ → (SignupRequest → SignupRequest) → Action Tables Error (Unit {0})
update_request id f t =
    (record t { signup_requests = map (update_row id f) t.signup_requests }, ok tt)

abbrev pub reopened : Time → SignupRequest → SignupRequest
reopened now r = record r {
  status = SignupStatus.pending;
  requested_at = now;
  approved_at = none;
  rejected_at = none;
  completed_at = none;
  setup_token_hash = none;
  setup_token_expires_at = none;
  setup_token_used_at = none;
}

abbrev pub approved_row : ℕ → String → Time → SignupRequest → SignupRequest
approved_row user_id hash now r = record r {
  status = SignupStatus.approved;
  user_id = some user_id;
  approved_at = some now;
  rejected_at = none;
  completed_at = none;
  setup_token_hash = some hash;
  setup_token_expires_at = some (now + setup_token_ttl);
  setup_token_used_at = none;
}

abbrev pub rejected_row : Time → SignupRequest → SignupRequest
rejected_row now r = record r {
  status = SignupStatus.rejected;
  rejected_at = some now;
  approved_at = none;
  completed_at = none;
  setup_token_hash = none;
  setup_token_expires_at = none;
  setup_token_used_at = none;
}

abbrev pub completed_row : Time → SignupRequest → SignupRequest
completed_row now r = record r {
  status = SignupStatus.completed;
  completed_at = some now;
  setup_token_hash = none;
  setup_token_expires_at = none;
  setup_token_used_at = some now;
}

abbrev pub new_email : String → Time → Bool → Action Connection Error (Unit {0})
new_email email now true = pure tt
new_email email now false = exec (insert_request email now)

abbrev pub reopen_if : SignupRequest → Time → Bool → Action Connection Error (Unit {0})
reopen_if r now true = exec (update_request r.id (reopened now))
reopen_if r now false = pure tt

abbrev pub found_request : String → Time → Option SignupRequest → Action Connection Error (Unit {0})
found_request email now none = do
  taken ← query (λ (t : Tables). any (has_email email) t.users)
  new_email email now taken
found_request email now (some r) = reopen_if r now (reopens r now r.status)

-- The one UPDATE of RejectSignupRequest, with the number of its rows.
abbrev pub is_pending_id : ℕ → SignupRequest → Bool
is_pending_id id r = nat_eq r.id id && is_pending r

abbrev pub reject_row : ℕ → Time → SignupRequest → SignupRequest
reject_row id now r = if is_pending_id id r then rejected_row now r else r

unfoldable pub reject_signup_request : ℕ → Time → Action Connection Error Bool
reject_signup_request id now = exec (λ (t : Tables). (
  record t { signup_requests = map (reject_row id now) t.signup_requests },
  ok (any (is_pending_id id) t.signup_requests),
))

abbrev pub same_token : String → Option String → Bool
same_token hash none = false
same_token hash (some h) = h == hash

abbrev pub is_token : String → SignupRequest → Bool
is_token hash r = same_token hash r.setup_token_hash

-- The guards of SetupPassword, with the user that the request is for.
abbrev pub unexpired : Option Time → Time → Bool
unexpired none now = false
unexpired (some expires_at) now = is_after expires_at now

abbrev pub is_usable : SignupRequest → Time → Bool
is_usable r now =
    same_status r.status SignupStatus.approved
    && not (is_some r.setup_token_used_at)
    && unexpired r.setup_token_expires_at now
