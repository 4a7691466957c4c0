-- ===== src/Store/Accounts/Once.antt =====
-- SetupPassword (internal/store/auth.go): a setup token is good for one time.
use wacht.Store.Connection.Leaving.{transaction_or_left, transaction_or-Ensures}
use wacht.Store.Connection.Rules.{Ensures, exec-Ensures, bind-Ensures}
use wacht.Shared.{
  if◌then◌else◌, refl, [], ◌∷◌, none, some, ◌≡◌, String, Option, List, arith, Bool, true, false,
  not, ◌||◌, ◌==◌, ℕ, map, eq_iff, Bool-cases, inl, inr,
}
use mathlib.Core.Path.{subst}
use wacht.Store.Accounts.{set_user_password, complete, use_found, use_token, setup_password}
use wacht.Store.AccountRows.{
  same_token, Crypto, SetupPasswordOutcome, no_outcome, is_token, is_usable, update_row,
  update_request, completed_row, from_result, update_password, insert_session,
  create_session_in_querier,
}
use wacht.Shared.Rows.{any, find}
use wacht.Shared.Text.{trim_space}
use wacht.Shared.Time.{Time}
use wacht.Shared.Action.{Result, ok}
use wacht.Monitoring.Types.{Error}
use wacht.Store.Tables.{Tables, SignupRequest}
use wacht.Store.Connection.{Connection, exec, transaction_or}

-- The index idx_signup_requests_setup_token_hash.
abbrev is_alone : Option String → List SignupRequest → Bool
is_alone none rs = true
is_alone (some hash) rs = not (any (is_token hash) rs)

abbrev pub OneToken : List SignupRequest → Type 0
OneToken [] = Unit
OneToken (r ∷ rs) = (is_alone r.setup_token_hash rs ≡ true) × OneToken rs

completed_none :
    (hash : String) (id : ℕ) (now : Time) (rs : List SignupRequest)
    → any (is_token hash) rs ≡ false
    → find (is_token hash) (map (update_row id (completed_row now)) rs) ≡ none
completed_none hash id now [] h = refl
completed_none hash id now (r ∷ rs) h = ground (arith, completed_none hash id now rs)

alone :
    (hash : String) (token : Option String) (rs : List SignupRequest)
    → same_token hash token ≡ true
    → is_alone token rs ≡ true
    → any (is_token hash) rs ≡ false
alone hash none rs h a = absurd cc
alone hash (some other) rs h a =
    let same : other ≡ hash = (eq_iff other hash).0 h in
    subst (λ (x : String). any (is_token x) rs ≡ false) same (ground arith)

-- When the request that has the token is completed, no request has it.
find-completed :
    (hash : String) (now : Time) (rs : List SignupRequest) (r : SignupRequest)
    → OneToken rs
    → find (is_token hash) rs ≡ some r
    → find (is_token hash) (map (update_row r.id (completed_row now)) rs) ≡ none
find-completed hash now [] r o f = absurd cc
find-completed hash now (q ∷ rs) r o f = elim (Bool-cases (is_token hash q)) [
  | inl here ↦
      ground (arith, completed_none hash r.id now rs, alone hash q.setup_token_hash rs here o.0)
  | inr there ↦ ground (arith, find-completed hash now rs r o.1)
]

-- The request with the token, before and after it is completed.
abbrev Holds : String → Option SignupRequest → Tables → Type 0
Holds hash found t = OneToken t.signup_requests × (find (is_token hash) t.signup_requests ≡ found)

abbrev Spent : String → SetupPasswordOutcome → Tables → Type 0
Spent hash out t = (out.session_token == "") ≡ false → find (is_token hash) t.signup_requests ≡ none

abbrev nothing_used : Result Error SetupPasswordOutcome
nothing_used = ok no_outcome

unnamed :
    (out : SetupPasswordOutcome) → nothing_used ≡ ok out → (out.session_token == "") ≡ false → ⊥
unnamed out e named =
    let same : no_outcome ≡ out = ground arith in
    subst (λ (o : SetupPasswordOutcome). (o.session_token == "") ≡ false → ⊥) same (λ h. absurd cc)
      named

-- After the body of the transaction.
abbrev Left : String → Option SetupPasswordOutcome → Tables → Type 0
Left hash none t = Unit
Left hash (some out) t = Spent hash out t

abbrev nothing : Result Error (Option SetupPasswordOutcome)
nothing = ok none

unused :
    (hash : String) (t : Tables) (o : Option SetupPasswordOutcome) → nothing ≡ ok o → Left hash o t
unused hash t none e = tt
unused hash t (some out) e = absurd cc

spent :
    (hash : String) (t : Tables) (given : SetupPasswordOutcome) (o : Option SetupPasswordOutcome)
    → find (is_token hash) t.signup_requests ≡ none
    → Path (Result Error (Option SetupPasswordOutcome)) (ok (some given)) (ok o)
    → Left hash o t
spent hash t given none h e = tt
spent hash t given (some out) h e = λ named. h

module _ ⦃crypto : Crypto⦄ where
  set_user_password-Ensures :
      (hash : String) (found : Option SignupRequest) (user_id : ℕ) (password : String)
      → Ensures (Holds hash found) (set_user_password user_id password) (λ _. Holds hash found)
  unfolding set_user_password update_password
  set_user_password-Ensures hash found user_id password =
      bind-Ensures (Holds hash found) (λ _. Holds hash found) (λ _. Holds hash found)
        (from_result (crypto.generate_from_password password)) _ (λ c a h e. h)
        (λ hashed.
          exec-Ensures (Holds hash found) (λ _. Holds hash found) (update_password user_id hashed)
            (λ t a h e. h))

  create_session-Ensures :
      (hash : String) (found : Option SignupRequest) (drawn : Result Error String) (user_id : ℕ)
      (now : Time)
      → Ensures
          (Holds hash found)
          (create_session_in_querier drawn user_id now)
          (λ _. Holds hash found)
  unfolding create_session_in_querier insert_session
  create_session-Ensures hash found drawn user_id now =
      bind-Ensures (Holds hash found) (λ _. Holds hash found) (λ _. Holds hash found)
        (from_result drawn) _ (λ c a h e. h)
        (λ token.
          exec-Ensures (Holds hash found) (λ _. Holds hash found) (insert_session token user_id now)
            (λ t a h e. ground arith))

  complete-Ensures :
      (hash : String) (r : SignupRequest) (password : String) (drawn : Result Error String)
      (now : Time) (user_id : Option ℕ)
      → Ensures (Holds hash (some r)) (complete r password drawn now user_id) (Left hash)
  unfolding update_request
  complete-Ensures hash r password drawn now none = λ c a h e. unused hash c.tables a e
  complete-Ensures hash r password drawn now (some user_id) =
      bind-Ensures (Holds hash (some r)) (λ _. Holds hash (some r)) (Left hash)
        (set_user_password user_id password) _
        (set_user_password-Ensures hash (some r) user_id password)
        (λ _.
          bind-Ensures (Holds hash (some r)) (λ _. Holds hash (some r)) (Left hash)
            (create_session_in_querier drawn user_id now) _
            (create_session-Ensures hash (some r) drawn user_id now)
            (λ token.
              bind-Ensures (Holds hash (some r))
                (λ _ t. find (is_token hash) t.signup_requests ≡ none) (Left hash)
                (exec (update_request r.id (completed_row now))) _
                (exec-Ensures (Holds hash (some r))
                  (λ _ t. find (is_token hash) t.signup_requests ≡ none)
                  (update_request r.id (completed_row now))
                  (λ t a h e. find-completed hash now t.signup_requests r h.0 h.1))
                (λ _ c a h e. spent hash c.tables _ a h e)))

  use_if :
      (hash password : String) (drawn : Result Error String) (now : Time) (r : SignupRequest)
      (usable : Bool)
      → Ensures
          (Holds hash (some r))
          (λ (c : Connection).
            if usable then complete r password drawn now r.user_id c else (c, ok none))
          (Left hash)
  use_if hash password drawn now r true = complete-Ensures hash r password drawn now r.user_id
  use_if hash password drawn now r false = λ c a h e. unused hash c.tables a e

  use_found-Ensures :
      (hash password : String) (drawn : Result Error String) (now : Time)
      (found : Option SignupRequest)
      → Ensures (Holds hash found) (use_found password drawn now found) (Left hash)
  use_found-Ensures hash password drawn now none = λ c a h e. unused hash c.tables a e
  use_found-Ensures hash password drawn now (some r) =
      use_if hash password drawn now r (is_usable r now)

  use_token-Ensures :
      (token password : String) (drawn : Result Error String) (now : Time)
      → Ensures
          (λ (t : Tables). OneToken t.signup_requests)
          (use_token token password drawn now)
          (Left (crypto.sha256_hex token))
  use_token-Ensures token password drawn now =
      let hash = crypto.sha256_hex token in
      bind-Ensures (λ (t : Tables). OneToken t.signup_requests) (Holds hash) (Left hash)
        (exec (λ (t : Tables). (t, ok (find (is_token hash) t.signup_requests)))) _
        (exec-Ensures (λ (t : Tables). OneToken t.signup_requests) (Holds hash)
          (λ (t : Tables). (t, ok (find (is_token hash) t.signup_requests)))
          (λ t a o e. (o, ground arith)))
        (λ found. use_found-Ensures hash password drawn now found)

  use_token_unknown :
      (token password : String) (drawn : Result Error String) (now : Time) (t : Tables)
      → find (is_token (crypto.sha256_hex token)) t.signup_requests ≡ none
      → use_token token password drawn now (record { tables = t; faults = [] })
        ≡ (record { tables = t; faults = [] }, ok none)
  unfolding exec
  use_token_unknown token password drawn now t h = rw h refl

  -- Without the token's hash in the table, the call does nothing.
  setup_password_unknown :
      (raw password : String) (drawn : Result Error String) (now : Time) (t : Tables)
      → find (is_token (crypto.sha256_hex (trim_space raw))) t.signup_requests ≡ none
      → (setup_password raw password drawn now (record { tables = t; faults = [] })).1
        ≡ ok no_outcome
  unfolding setup_password
  setup_password_unknown raw password drawn now t h =
      elim (Bool-cases (trim_space raw == "" || password == "")) [
        | inl empty ↦ rw empty refl
        | inr named ↦ rw named (
            transaction_or_left no_outcome (use_token (trim_space raw) password drawn now) t
              (use_token_unknown (trim_space raw) password drawn now t h))
      ]

  setup_if :
      (raw password : String) (drawn : Result Error String) (now : Time) (c : Connection)
      (out : SetupPasswordOutcome) (empty : Bool)
      → OneToken c.tables.signup_requests
      → (if empty
          then (c, ok no_outcome)
          else transaction_or no_outcome (use_token (trim_space raw) password drawn now) c).1
        ≡ ok out
      → (out.session_token == "") ≡ false
      → find
          (is_token (crypto.sha256_hex (trim_space raw)))
          (if empty
            then (c, ok no_outcome)
            else transaction_or no_outcome
                (use_token (trim_space raw) password drawn now)
                c).0.tables.signup_requests
        ≡ none
  setup_if raw password drawn now c out true o h named = absurd (unnamed out h named)
  setup_if raw password drawn now c out false o h named =
      transaction_or-Ensures (λ (t : Tables). OneToken t.signup_requests)
        (Spent (crypto.sha256_hex (trim_space raw))) no_outcome
        (use_token (trim_space raw) password drawn now)
        (λ t h' named'. absurd (unnamed no_outcome refl named'))
        (use_token-Ensures (trim_space raw) password drawn now) c out o h named

  setup_password-Spent :
      (raw password : String) (drawn : Result Error String) (now : Time) (c : Connection)
      (out : SetupPasswordOutcome)
      → OneToken c.tables.signup_requests
      → (setup_password raw password drawn now c).1 ≡ ok out
      → (out.session_token == "") ≡ false
      → find
          (is_token (crypto.sha256_hex (trim_space raw)))
          (setup_password raw password drawn now c).0.tables.signup_requests
        ≡ none
  unfolding setup_password
  setup_password-Spent raw password drawn now c out o h named =
      setup_if raw password drawn now c out (trim_space raw == "" || password == "") o h named

  -- Where no two requests have one token, as the table's index has it: after a call with a setup
  -- token has given out a session, every later call with the same token, whatever its password and
  -- its time, is refused without an error, if the tables are as the first call left them and no
  -- statement fails.
  pub setup_password_once :
      (raw password : String) (drawn : Result Error String) (now : Time) (c : Connection)
      (out : SetupPasswordOutcome)
      → OneToken c.tables.signup_requests
      → (setup_password raw password drawn now c).1 ≡ ok out
      → (out.session_token == "") ≡ false
      → (password' : String) (drawn' : Result Error String) (now' : Time)
      → (setup_password raw password' drawn' now'
          (record { tables = (setup_password raw password drawn now c).0.tables; faults = [] })).1
        ≡ ok no_outcome
  setup_password_once raw password drawn now c out o h named password' drawn' now' =
      setup_password_unknown raw password' drawn' now'
        (setup_password raw password drawn now c).0.tables
        (setup_password-Spent raw password drawn now c out o h named)
