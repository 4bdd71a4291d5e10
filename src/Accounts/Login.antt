-- ===== src/Accounts/Login.antt =====
-- crates/keeplin-srv/src/http.rs: what a login that makes a device has passed.
use keeplin_srv.Base.{
  ℕ, ◌≡◌, refl, sym, ◌∙◌, ap, Bool, true, false, ◌&&◌, none, some, List, ◌∷◌, is_none, Result, ok,
  err, arith, Bool-cases, Option-cases, inl, inr,
}
use keeplin_srv.Protocol.{Uuid, Time, Text}
use keeplin_srv.External.{StdText}
use keeplin_srv.Tables.{Db, User, get_user_by_id_on, get_user_by_email_on, text_eq}
use keeplin_srv.Transactions.{Attempt}
use keeplin_srv.Transactions.Atomicity.{serializable-committed}
use keeplin_srv.Accounts.{
  LoginAttempts, LoginConfig, UserDevice, Accounts, login_locked, lockout_enabled, login_email,
  after_password, login_check, login_tx, run_login, login,
}

module _ (config : LoginConfig) (std : StdText) where
  -- The user whom the check lets in.
  pub record MayLogin (db : Db) (rows : List LoginAttempts) (email password : Text) (user : User)
      : Type 0 where
    pub unlocked : (lockout_enabled config std && login_locked rows db.now email) ≡ false
    pub found : get_user_by_email_on db email ≡ some user
    pub right : config.verify_password password user.password_hash ≡ ok true
    pub verified : (config.email_verification_required && is_none user.email_verified_at) ≡ false

  after_password-right :
      (rows rows' : List LoginAttempts) (now : Time) (email : Text) (user u : User)
      (r : Result Bool)
      → after_password config std rows now email user r ≡ (ok u, rows')
      → (r ≡ ok true)
        × ((config.email_verification_required && is_none user.email_verified_at) ≡ false)
        × (user ≡ u)
  after_password-right rows rows' now email user u (err e) h = absurd (ground (arith, h))
  after_password-right rows rows' now email user u (ok false) h = absurd (ground (arith, h))
  after_password-right rows rows' now email user u (ok true) h =
      (refl, ground (arith, h), ground (arith, h))

  login_check-MayLogin :
      (db : Db) (rows rows' : List LoginAttempts) (email password : Text) (user : User)
      → login_check config std db rows email password ≡ (ok user, rows')
      → MayLogin db rows email password user
  login_check-MayLogin db rows rows' email password user h =
      elim (Bool-cases (lockout_enabled config std && login_locked rows db.now email)) [
        | inl locked ↦ absurd (unfold login_check in ground (arith, locked, h))
        | inr unlocked ↦ elim (Option-cases (get_user_by_email_on db email)) [
          | inl e ↦ absurd (unfold login_check in ground (arith, unlocked, e, h))
          | inr (u, e) ↦
              let passed : after_password config std rows db.now email u
                    (config.verify_password password u.password_hash)
                  ≡ (ok user, rows') =
                unfold login_check in ground (arith, unlocked, e, h) in
              let (right, verified, same) =
                after_password-right rows rows' db.now email u user
                  (config.verify_password password u.password_hash) passed in
              record {
                unlocked = unlocked;
                found = e ∙ ap some same;
                right =
                    ap (λ (x : User). config.verify_password password x.password_hash) (sym same)
                    ∙ right;
                verified =
                    ap
                      (λ (x : User).
                        config.email_verification_required && is_none x.email_verified_at)
                      (sym same)
                    ∙ verified;
              }
        ]
      ]

  -- In the state that a login commits from, the user still has the password that was checked, and the state
  -- that it commits has one device more, the user's.
  pub record MadeDevice (user : User) (device_id : Uuid) (device_name : Text) (a s : Accounts)
      : Type 0 where
    pub stored : User
    pub still_there : get_user_by_id_on a.db user.id ≡ some stored
    pub same_password : text_eq stored.password_hash user.password_hash ≡ true
    pub made : s ≡ record a {
      devices =
          record {
            id = device_id;
            user_id = user.id;
            device_name = device_name;
            created_at = a.db.now;
            last_seen_at = none;
          }
          ∷ a.devices;
    }

  login_tx-MadeDevice :
      (user : User) (device_id : Uuid) (device_name : Text) (a s : Accounts) (device : UserDevice)
      → login_tx config std user device_id device_name a ≡ ok (device, s)
      → MadeDevice user device_id device_name a s
  unfolding login_tx
  login_tx-MadeDevice user device_id device_name a s device h =
      elim (Option-cases (get_user_by_id_on a.db user.id)) [
        | inl e ↦ absurd (ground (arith, e, h))
        | inr (stored, e) ↦ record {
          stored = stored;
          still_there = e;
          same_password = ground (arith, e, h);
          made = ground (arith, e, h);
        }
      ]

  run_login-MadeDevice :
      (env : ℕ → Attempt Accounts) (device_id : Uuid) (device_name : Text)
      (r : Result User × List LoginAttempts) (s : Accounts)
      → (run_login config std env device_id device_name r).0.1 ≡ some s
      → (user : User) × (k : ℕ) × (r ≡ (ok user, r.1))
        × MadeDevice user device_id device_name (env k).sees s
  run_login-MadeDevice env device_id device_name (err e, rows) s h = absurd (ground (arith, h))
  run_login-MadeDevice env device_id device_name (ok user, rows) s h =
      let (k, device, answer, run) =
        serializable-committed (login_tx config std user device_id device_name) env s h in
      (user, k, refl, login_tx-MadeDevice user device_id device_name (env k).sees s device run)

  -- A login that commits was for an address that was not locked, of a user whose password it gave and whose
  -- address is verified where that is required; in the state that it commits from, the user still has that
  -- password, and the one change is a new device of the user.
  pub login-MadeDevice :
      (db : Db) (rows : List LoginAttempts) (env : ℕ → Attempt Accounts) (device_id : Uuid)
      (device_name email password : Text) (s : Accounts)
      → (login config std db rows env device_id device_name email password).0.1 ≡ some s
      → (user : User) × (k : ℕ) × MayLogin db rows (login_email config std email) password user
        × MadeDevice user device_id device_name (env k).sees s
  unfolding login
  login-MadeDevice db rows env device_id device_name email password s h =
      let r = login_check config std db rows (login_email config std email) password in
      let (user, k, checked, made) = run_login-MadeDevice env device_id device_name r s h in
      (
        user,
        k,
        login_check-MayLogin db rows r.1 (login_email config std email) password user checked,
        made,
      )
