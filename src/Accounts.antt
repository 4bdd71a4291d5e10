-- ===== src/Accounts.antt =====
-- crates/keeplin-srv/src/http.rs and store.rs: the login with its lockout, and the tokens that are mailed.
-- The check of a password, the hash of a token and the making of a session token are other packages'
-- (`auth.rs` calls argon2 and jsonwebtoken, `token_hash` calls sha2): they are parameters.
pub mod Lockout
pub mod Login
pub mod Tokens
use keeplin_srv.Base.{
  ℕ, ◌+◌, ◌*◌, String, Bool, true, false, not, ◌&&◌, ◌||◌, Option, none, some, List, [], ◌∷◌, find,
  filter, update_first, count_where, is_none, is_some, ltb, leb, if◌then◌else◌, ◌==◌, nat_key,
  Result, ok, err, AppError, ok_or, guard, ◌>>=◌, ◌>>◌, too_many_attempts, invalid_token,
  bad_request,
}
use keeplin_srv.Protocol.{Uuid, Time, Text}
use keeplin_srv.External.{StdText}
use keeplin_srv.Tables.{Db, User, get_user_by_id_on, get_user_by_email_on, text_eq}
use keeplin_srv.Transactions.{Attempt, serializable}

pub record LoginAttempts : Type 0 where
  pub email : Text
  pub failed_count : ℕ
  pub last_failed_at : Time
  pub locked_until : Option Time

-- `locked_until > now()`
abbrev pub is_locked : Time → Option LoginAttempts → Bool
is_locked now none = false
is_locked now (some r) = elim r.locked_until [ none ↦ false | some until ↦ ltb now until ]

abbrev pub is_of : Text → LoginAttempts → Bool
is_of email r = text_eq r.email email

abbrev pub attempts_of : List LoginAttempts → Text → Option LoginAttempts
attempts_of rows email = find (is_of email) rows

unfoldable pub login_locked : List LoginAttempts → Time → Text → Bool
login_locked rows now email = is_locked now (attempts_of rows email)

-- `$3 * interval '1 second'`
abbrev pub lockout : ℕ → ℕ
lockout lockout_secs = lockout_secs * 1000000

-- `last_failed_at < now() - interval`: the count begins anew.
abbrev pub count_now : ℕ → Time → LoginAttempts → ℕ
count_now secs now r = if ltb (r.last_failed_at + lockout secs) now then 1 else r.failed_count + 1

abbrev pub failed_row : ℕ → ℕ → Time → Text → ℕ → LoginAttempts
failed_row max_failures secs now email n = record {
  email = email;
  failed_count = n;
  last_failed_at = now;
  locked_until = if leb max_failures n then some (now + lockout secs) else none;
}

unfoldable pub record_login_failure : List LoginAttempts → Time → Text → ℕ → ℕ → List LoginAttempts
record_login_failure rows now email max_failures secs = elim (attempts_of rows email) [
  | none ↦ failed_row max_failures secs now email 1 ∷ rows
  | some r ↦
      update_first (is_of email)
        (λ (x : LoginAttempts). failed_row max_failures secs now x.email (count_now secs now x))
        rows
]

unfoldable pub clear_login_failures : List LoginAttempts → Text → List LoginAttempts
clear_login_failures rows email = filter (λ r. not (is_of email r)) rows

unfoldable pub prune_login_attempts : List LoginAttempts → Time → List LoginAttempts
prune_login_attempts rows older_than =
    filter (λ (r : LoginAttempts). not (ltb r.last_failed_at older_than)) rows

-- The settings, and what other packages do.
pub record LoginConfig : Type 0 where
  pub login_max_failures : ℕ
  pub login_lockout_secs : ℕ
  pub email_verification_required : Bool
  pub verify_password : Text → Text → Result Bool

pub record UserDevice : Type 0 where
  pub id : Uuid
  pub user_id : Uuid
  pub device_name : Text
  pub created_at : Time
  pub last_seen_at : Option Time

-- What a run of the login reads and changes.
pub record Accounts : Type 0 where
  pub db : Db
  pub devices : List UserDevice

module _ (config : LoginConfig) (std : StdText) where
  abbrev pub lockout_enabled : Bool
  lockout_enabled = ltb 0 config.login_max_failures

  abbrev pub fail : List LoginAttempts → Time → Text → List LoginAttempts
  fail rows now email =
      if lockout_enabled
      then record_login_failure rows now email config.login_max_failures config.login_lockout_secs
      else rows

  abbrev pub login_email : Text → Text
  login_email email = std.to_lowercase (std.trim email)

  -- Which user the password is right for, or the answer; with the attempts as they are left.
  abbrev pub after_password :
      List LoginAttempts → Time → Text → User → Result Bool → Result User × List LoginAttempts
  after_password rows now email user (err e) = (err e, rows)
  after_password rows now email user (ok false) = (err invalid_token, fail rows now email)
  after_password rows now email user (ok true) =
      if config.email_verification_required && is_none user.email_verified_at
      then (err (bad_request "email not verified"), rows)
      else (ok user, if lockout_enabled then clear_login_failures rows email else rows)

  unfoldable pub login_check :
      Db → List LoginAttempts → Text → Text → Result User × List LoginAttempts
  login_check db rows email password =
      if lockout_enabled && login_locked rows db.now email
      then (err too_many_attempts, rows)
      else elim (get_user_by_email_on db email) [
        | none ↦ (err invalid_token, fail rows db.now email)
        | some user ↦
            after_password rows db.now email user
              (config.verify_password password user.password_hash)
      ]

  -- The device is made if the user still has the password that was checked. `device_id` is a new id.
  unfoldable pub login_tx : User → Uuid → Text → Accounts → Result (UserDevice × Accounts)
  login_tx user device_id device_name a = do
    stored ← ok_or (get_user_by_id_on a.db user.id) invalid_token
    guard (text_eq stored.password_hash user.password_hash) invalid_token
    let device : UserDevice = record {
      id = device_id;
      user_id = user.id;
      device_name = device_name;
      created_at = a.db.now;
      last_seen_at = none;
    }
    ok (device, record a { devices = device ∷ a.devices })

  abbrev pub run_login :
      (ℕ → Attempt Accounts)
      → Uuid
      → Text
      → Result User × List LoginAttempts
      → (Result UserDevice × Option Accounts) × List LoginAttempts
  run_login env device_id device_name (err e, rows) = ((err e, none), rows)
  run_login env device_id device_name (ok user, rows) =
      (serializable (login_tx user device_id device_name) env, rows)

  -- The answer without the session token, which is made of it.
  unfoldable pub login :
      Db
      → List LoginAttempts
      → (ℕ → Attempt Accounts)
      → Uuid
      → Text
      → Text
      → Text
      → (Result UserDevice × Option Accounts) × List LoginAttempts
  login db rows env device_id device_name email password =
      run_login env device_id device_name (login_check db rows (login_email email) password)

-- mail.rs
pub data MailKind : Type 0 where
  verify_email password_reset access_revoked : MailKind

abbrev pub same_kind : MailKind → MailKind → Bool
same_kind verify_email verify_email = true
same_kind password_reset password_reset = true
same_kind access_revoked access_revoked = true
same_kind j k = false

pub record EmailToken : Type 0 where
  pub user_id : Uuid
  pub kind : MailKind
  pub token_hash : Text
  pub expires_at : Time
  pub used_at : Option Time

abbrev pub max_live_email_tokens : ℕ
max_live_email_tokens = 5

-- `used_at IS NULL AND expires_at > now()`
abbrev pub is_usable : Time → EmailToken → Bool
is_usable now t = is_none t.used_at && ltb now t.expires_at

abbrev pub live_tokens : List EmailToken → Time → Uuid → MailKind → ℕ
live_tokens rows now user_id kind =
    count_where
      (λ (t : EmailToken). t.user_id == user_id && same_kind t.kind kind && is_usable now t) rows

module _ (token_hash : Text → Text) where
  -- `token` is the one drawn at random.
  unfoldable pub create_email_token :
      List EmailToken → Time → Uuid → MailKind → ℕ → Text → Result (Time × List EmailToken)
  create_email_token rows now user_id kind ttl_secs token = do
    guard (not (leb max_live_email_tokens (live_tokens rows now user_id kind))) too_many_attempts
    let expires_at = now + ttl_secs * 1000000
    ok (
      expires_at,
      record {
        user_id = user_id;
        kind = kind;
        token_hash = token_hash token;
        expires_at = expires_at;
        used_at = none;
      }
          ∷ rows,
    )

  abbrev pub matches_token : Time → MailKind → Text → EmailToken → Bool
  matches_token now kind hash t =
      text_eq t.token_hash hash && same_kind t.kind kind && is_usable now t

  abbrev pub user_of : Option EmailToken → Option Uuid
  user_of none = none
  user_of (some t) = some t.user_id

  unfoldable pub consume_email_token :
      List EmailToken → Time → MailKind → Text → Option Uuid × List EmailToken
  consume_email_token rows now kind raw_token =
      let hash : Text = token_hash raw_token in
      (
        user_of (find (matches_token now kind hash) rows),
        update_first (matches_token now kind hash)
            (λ (t : EmailToken). record t { used_at = some now }) rows,
      )
