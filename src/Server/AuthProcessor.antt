-- ===== src/Server/AuthProcessor.antt =====
-- internal/server/auth_processor.go: what users and administrators ask of the accounts.
pub mod Login
use wacht.Shared.{ℕ, String, Bool, true, false, ◌||◌, Option, none, some, List, ◌==◌, if◌then◌else◌}
use wacht.Shared.Time.{Time}
use wacht.Shared.Action.{Result, ok, err, Action}
use wacht.Monitoring.Types.{Error}
use wacht.Store.Connection.{Connection}
use wacht.Store.Tables.{User, SignupRequest}
use wacht.Store.AccountRows.{
  Crypto, SignupApproval, SetupPasswordOutcome, create_session_in_querier,
  list_pending_signup_requests, reject_signup_request,
}
use wacht.Store.Accounts.{
  authenticate_user, update_user_password, create_signup_request, approve_signup_request,
  setup_password,
}
use wacht.Server.Errors.{ServerError}

pub record LoginOutcome : Type 0 where
  pub token : String
  pub email : String

-- fmt.Errorf around an error of the store, and what follows an answer.
abbrev pub answered :
    {A B : Type 0}
    → String
    → (A → Action Connection ServerError B)
    → Connection × Result Error A
    → Connection × Result ServerError B
answered message next (c, err e) = (c, err (ServerError.internal message e))
answered message next (c, ok a) = next a c

abbrev pub give : {B : Type 0} → B → Action Connection ServerError B
give b c = (c, ok b)

abbrev pub refuse : {B : Type 0} → ServerError → Action Connection ServerError B
refuse e c = (c, err e)

abbrev if_so : Bool → ServerError → Action Connection ServerError (Unit {0})
if_so true e = give tt
if_so false e = refuse e

abbrev no_request : ServerError
no_request = ServerError.not_found "request not found or already processed"

unfoldable pub list_pending : Action Connection ServerError (List SignupRequest)
list_pending c = answered "list pending signup requests" give (list_pending_signup_requests c)

unfoldable pub reject_request : ℕ → Time → Action Connection ServerError (Unit {0})
reject_request id now c =
    answered "reject signup request" (λ done. if_so done no_request)
      (reject_signup_request id now c)

abbrev pub logged_in : String → String → Action Connection ServerError LoginOutcome
logged_in email token = give (record { token = token; email = email })

module _ ⦃crypto : Crypto⦄ where
  -- CreateSession after the user is known; `drawn` is the new token.
  abbrev pub open_session :
      Result Error String → Time → Option User → Action Connection ServerError LoginOutcome
  open_session drawn now none c = (c, err (ServerError.unauthorized "invalid credentials"))
  open_session drawn now (some u) c =
      answered "create session" (logged_in u.email) (create_session_in_querier drawn u.id now c)

  unfoldable pub login :
      String → String → Result Error String → Time → Action Connection ServerError LoginOutcome
  login email password drawn now c =
      answered "authenticate user" (open_session drawn now) (authenticate_user email password c)

  unfoldable pub change_password :
      Option User → String → String → Action Connection ServerError (Unit {0})
  change_password none current new c =
      (c, err (ServerError.internal "user is required" (Error.required "user")))
  change_password (some u) current new c =
      if current == "" || new == ""
      then (c, err (ServerError.bad_request "current_password and new_password are required"))
      else answered "update password"
          (λ done. if_so done (ServerError.unauthorized "current password is incorrect"))
          (update_user_password u.id current new c)

  unfoldable pub request_access : String → Time → Action Connection ServerError (Unit {0})
  request_access email now c =
      answered "create signup request" give (create_signup_request email now c)

  abbrev approved : SignupApproval → Action Connection ServerError SignupApproval
  approved approval c = if approval.email == "" then (c, err no_request) else (c, ok approval)

  unfoldable pub approve_request :
      ℕ
      → Result Error String
      → Result Error String
      → String
      → Time
      → Action Connection ServerError SignupApproval
  approve_request id placeholder drawn slug now c =
      answered "approve signup request" approved
        (approve_signup_request id placeholder drawn slug now c)

  abbrev used : SetupPasswordOutcome → Action Connection ServerError LoginOutcome
  used outcome c =
      if outcome.session_token == ""
      then (c, err (ServerError.unauthorized "invalid or expired setup token"))
      else (c, ok (record { token = outcome.session_token; email = outcome.email }))

  unfoldable pub choose_password :
      String → String → Result Error String → Time → Action Connection ServerError LoginOutcome
  choose_password token new drawn now c =
      if token == "" || new == ""
      then (c, err (ServerError.bad_request "token and new_password are required"))
      else answered "setup password" used (setup_password token new drawn now c)
