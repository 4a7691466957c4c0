-- ===== src/Server/AuthProcessor/Login.antt =====
-- Login (internal/server/auth_processor.go) and the session that it opens.
use wacht.Shared.{
  refl, none, some, ◌∙◌, ap, sym, inr, inl, ◌+◌, Bool-cases, Option, true, nat_eq, Bool, ℕ, String,
  [], ◌∷◌, ◌≡◌, ◌≢◌, ◌<◌, List, arith, false, ◌==◌, ◌++◌, eq_refl, All,
}
use wacht.Shared.Action.{err, ok, Result}
use wacht.Shared.Text.{trim_space}
use wacht.Shared.Keyed.{Unique}
use wacht.Store.Connection.Rules.{exec-Ensures, bind-Ensures, Ensures}
use wacht.Store.AccountRows.{
  from_result, session_ttl, new_session, insert_checked, get_session_user, session_owner,
  insert_session, Crypto, create_session_in_querier, is_valid_session, has_email,
}
use mathlib.Core.Path.{subst}
use wacht.Store.Accounts.{authenticate_user, verified, normalize_email}
use wacht.Server.AuthProcessor.{answered, open_session, LoginOutcome, login, logged_in}
use wacht.Store.Connection.{exec, Connection}
use wacht.Monitoring.Types.{Error}
use wacht.Store.Tables.{User, Tables, Session}
use wacht.Shared.Rows.{any, find}
use wacht.Shared.Time.{Time}

-- The new session is the one that its token names.
find-session :
    (s : Session) (now : Time) (ss : List Session)
    → any (λ (r : Session). r.token == s.token) ss ≡ false
    → now < s.expires_at
    → find (is_valid_session s.token now) (ss ++ (s ∷ [])) ≡ some s
find-session s now [] h k = ground (arith, eq_refl s.token)
find-session s now (r ∷ ss) h k = ground (arith, find-session s now ss)

abbrev has_user_id : ℕ → User → Bool
has_user_id id u = nat_eq u.id id

All-find :
    (P : User → Type 0) (p : User → Bool) (us : List User) (u : User)
    → All P us
    → find p us ≡ some u
    → P u
All-find P p [] u h f = absurd cc
All-find P p (v ∷ us) u h f = elim (Bool-cases (p v)) [
  | inl here ↦ subst P (ground arith) h.0
  | inr there ↦ All-find P p us u h.1 (ground arith)
]

-- A user that a test finds is the one with that user's id.
find-has_user_id :
    (p : User → Bool) (us : List User) (u : User)
    → Unique (λ (v : User). v.id) us
    → find p us ≡ some u
    → find (has_user_id u.id) us ≡ some u
find-has_user_id p [] u h f = absurd cc
find-has_user_id p (v ∷ us) u h f = elim (Bool-cases (p v)) [
  | inl here ↦ ground arith
  | inr there ↦
      let rest : find p us ≡ some u = ground arith in
      let other = All-find (λ (w : User). w.id ≢ v.id) p us u h.0 rest in
      ground (arith, find-has_user_id p us u h.1 rest, other)
]

-- Until the session is over, its token leads to the user.
abbrev LeadsTo : User → String → Time → Tables → Type 0
LeadsTo u token end t =
    (later : Time)
    → later < end
    → session_owner t.users (find (is_valid_session token later) t.sessions) ≡ some u

abbrev Has : User → Tables → Type 0
Has u t = find (has_user_id u.id) t.users ≡ some u

insert_checked-LeadsTo :
    (u : User) (taken known : Bool) (token : String) (now : Time) (t : Tables) (out : String)
    → any (λ (r : Session). r.token == token) t.sessions ≡ taken
    → Has u t
    → (insert_checked taken known (new_session token u.id now) t).1 ≡ ok out
    → LeadsTo u out
        (now + session_ttl)
        (insert_checked taken known (new_session token u.id now) t).0
insert_checked-LeadsTo u true known token now t out f g h later before = absurd cc
insert_checked-LeadsTo u false false token now t out f g h later before = absurd cc
insert_checked-LeadsTo u false true token now t out f g h later before =
    let same : token ≡ out = ground arith in
    let s = new_session token u.id now in
    subst
      (λ (x : String).
        session_owner t.users (find (is_valid_session x later) (t.sessions ++ (s ∷ []))) ≡ some u)
      same (ap (session_owner t.users) (find-session s later t.sessions f before) ∙ g)

create_session-Ensures :
    (drawn : Result Error String) (u : User) (now : Time)
    → Ensures
        (Has u)
        (create_session_in_querier drawn u.id now)
        (λ token. LeadsTo u token (now + session_ttl))
unfolding create_session_in_querier insert_session
create_session-Ensures drawn u now =
    bind-Ensures (Has u) (λ _. Has u) (λ token. LeadsTo u token (now + session_ttl))
      (from_result drawn) _ (λ c a h e. h)
      (λ token.
        exec-Ensures (Has u) (λ out. LeadsTo u out (now + session_ttl))
          (insert_session token u.id now)
          (λ t out h e.
            insert_checked-LeadsTo u (any (λ (r : Session). r.token == token) t.sessions)
              (any (has_user_id u.id) t.users) token now t out refl h e))

give_session :
    (u : User) (email : String) (end : Time) (r : Connection × Result Error String)
    (out : LoginOutcome)
    → ((token : String) → r.1 ≡ ok token → LeadsTo u token end r.0.tables)
    → (answered "create session" (logged_in email) r).1 ≡ ok out
    → (out.email ≡ email)
      × LeadsTo u out.token end (answered "create session" (logged_in email) r).0.tables
give_session u email end (c, err e) out f h = absurd cc
give_session u email end (c, ok token) out f h =
    let same : token ≡ out.token = ground arith in
    (ground arith, subst (λ (x : String). LeadsTo u x end c.tables) same (f token refl))

module _ ⦃crypto : Crypto⦄ where
  -- The user with the email in its normal form, whose password is the one given.
  abbrev pub LogsIn : String → String → List User → User → Type 0
  LogsIn email password users u =
      (find (λ (v : User). v.email == crypto.to_lower (trim_space email)) users ≡ some u)
      × (crypto.matches_password u.password_hash password ≡ true)

  verified-LogsIn :
      (password : String) (o : Option User) (u : User)
      → verified password o ≡ some u
      → (o ≡ some u) × (crypto.matches_password u.password_hash password ≡ true)
  verified-LogsIn password none u h = absurd cc
  verified-LogsIn password (some v) u h =
      elim (Bool-cases (crypto.matches_password v.password_hash password)) [
        | inl right ↦
            let same : v ≡ u = ground arith in
            (
              ap (λ (x : User). some x) same,
              subst (λ (x : User). crypto.matches_password x.password_hash password ≡ true) same
                  right,
            )
        | inr wrong ↦ absurd (ground arith)
      ]

  module _ (email password : String) (users : List User)
      (unique : Unique (λ (v : User). v.id) users) where
    abbrev Before : Tables → Type 0
    Before t = t.users ≡ users

    abbrev Authenticated : Option User → Tables → Type 0
    Authenticated none t = Unit
    Authenticated (some u) t = LogsIn email password users u × Has u t

    authenticated :
        (t : Tables) (found : Option User)
        → t.users ≡ users
        → verified password (find (has_email (crypto.to_lower (trim_space email))) t.users) ≡ found
        → Authenticated found t
    authenticated t none same h = tt
    authenticated t (some u) same h =
        let facts =
          verified-LogsIn password (find (has_email (crypto.to_lower (trim_space email))) t.users) u
            h in
        let at : find (has_email (crypto.to_lower (trim_space email))) users ≡ some u =
          subst
            (λ (us : List User). find (has_email (crypto.to_lower (trim_space email))) us ≡ some u)
            same facts.0 in
        (
          (at, facts.1),
          subst (λ (us : List User). find (has_user_id u.id) us ≡ some u) (sym same)
              (find-has_user_id (has_email (crypto.to_lower (trim_space email))) users u unique at),
        )

    authenticate-Ensures : Ensures Before (authenticate_user email password) Authenticated
    unfolding authenticate_user normalize_email
    authenticate-Ensures =
        exec-Ensures Before Authenticated _
          (λ t found same e. authenticated t found same (ground arith))

    -- What a login that answers leads to, on the tables as it leaves them.
    abbrev Opened : Time → LoginOutcome → Tables → Type 0
    Opened now out t =
        (u : User) × LogsIn email password users u
        × (out.email ≡ u.email)
        × LeadsTo u out.token (now + session_ttl) t

    open_session-Opened :
        (drawn : Result Error String) (now : Time) (found : Option User) (c : Connection)
        (out : LoginOutcome)
        → Authenticated found c.tables
        → (open_session drawn now found c).1 ≡ ok out
        → Opened now out (open_session drawn now found c).0.tables
    open_session-Opened drawn now none c out g h = absurd cc
    open_session-Opened drawn now (some u) c out g h =
        let given =
          give_session u u.email (now + session_ttl) (create_session_in_querier drawn u.id now c)
            out (λ token e. create_session-Ensures drawn u now c token g.1 e) h in
        (u, g.0, given.0, given.1)

    answered-Opened :
        (drawn : Result Error String) (now : Time) (r : Connection × Result Error (Option User))
        (out : LoginOutcome)
        → ((found : Option User) → r.1 ≡ ok found → Authenticated found r.0.tables)
        → (answered "authenticate user" (open_session drawn now) r).1 ≡ ok out
        → Opened now out (answered "authenticate user" (open_session drawn now) r).0.tables
    answered-Opened drawn now (c, err e) out g h = absurd cc
    answered-Opened drawn now (c, ok found) out g h =
        open_session-Opened drawn now found c out (g found refl) h

  -- Where no two users have one id: a login that succeeds is that of the user with the given email,
  -- trimmed and in lower case, whose password is the given one, and answers that user's email. At every
  -- time less than thirty days, in nanoseconds, after the login, its token leads to that user, on the
  -- tables as the login left them, if the query does not fail.
  pub login-get_session_user :
      (email password : String) (drawn : Result Error String) (now : Time) (c : Connection)
      (out : LoginOutcome) (later : Time)
      → Unique (λ (v : User). v.id) c.tables.users
      → (login email password drawn now c).1 ≡ ok out
      → later < now + 2592000000000000
      → (u : User) × LogsIn email password c.tables.users u
        × (out.email ≡ u.email)
        × ((get_session_user out.token later
              (record { tables = (login email password drawn now c).0.tables; faults = [] })).1
            ≡ ok (some u))
  unfolding login get_session_user exec
  login-get_session_user email password drawn now c out later unique h before =
      let found =
        answered-Opened email password c.tables.users unique drawn now
          (authenticate_user email password c) out
          (λ o e. authenticate-Ensures email password c.tables.users unique c o refl e) h in
      (found.0, found.1, found.2, ap ok (found.3 later before))
