-- ===== src/Tests/Accounts.antt =====
-- User 1 with the password "B" logs in, fails to, and is mailed a token.
use keeplin_srv.Base.{
  ℕ, ◌+◌, ◌≡◌, refl, true, ◌&&◌, none, some, List, [], ◌∷◌, find, filter, update_first, count_where,
  ltb, leb, length, ok, arith,
}
use keeplin_srv.Protocol.{Time, Text}
use keeplin_srv.External.{StdText}
use keeplin_srv.Tables.{Db, User, get_user_by_id_on, get_user_by_email_on, text_eq}
use keeplin_srv.Transactions.{Attempt, committed, serializable}
use keeplin_srv.Accounts.{
  LoginConfig, Accounts, attempts_of, login_locked, lockout, record_login_failure,
  clear_login_failures, login_email, login_check, login_tx, login, verify_email, password_reset,
  EmailToken, create_email_token, consume_email_token,
}
use keeplin_srv.Accounts.Lockout.{fail_all, last_of, login_locked-burst}
use keeplin_srv.Accounts.Login.{MayLogin, MadeDevice, login-MadeDevice}
use keeplin_srv.Accounts.Tokens.{IsKey, has_hash, consume_email_token-once}

abbrev std : StdText
std = record { trim = λ t. t; to_lowercase = λ t. t }

abbrev config : LoginConfig
config = record {
  login_max_failures = 2;
  login_lockout_secs = 1;
  email_verification_required = true;
  verify_password = λ password hash. ok (text_eq password hash);
}

abbrev email : Text
email = 65 ∷ []

abbrev user : User
user = record {
  id = 1;
  email = email;
  password_hash = 66 ∷ [];
  display_name = [];
  created_at = 1;
  email_verified_at = some 2;
}

abbrev db : Db
db = record {
  now = 4;
  grants = record {
    readable = λ t. true;
    notes = [];
    note_shares = [];
    notebooks = [];
    notebook_shares = [];
  };
  users = user ∷ [];
  resources = [];
}

abbrev before : Accounts
before = record { db = db; devices = [] }

abbrev after : Accounts
after = record {
  db = db;
  devices =
      record { id = 7; user_id = 1; device_name = 80 ∷ []; created_at = 4; last_seen_at = none }
      ∷ [];
}

abbrev at_once : ℕ → Attempt Accounts
at_once k = record { sees = before; commit = committed }

login_run : (login config std db [] at_once 7 (80 ∷ []) email (66 ∷ [])).0.1 ≡ some after
unfolding login login_check login_locked login_tx clear_login_failures get_user_by_email_on
    get_user_by_id_on serializable find filter
login_run = refl

login-MadeDevice_example :
    (user : User) × (k : ℕ) × MayLogin config std db []
      (login_email config std email)
      (66 ∷ [])
      user
    × MadeDevice config std user 7 (80 ∷ []) (at_once k).sees after
login-MadeDevice_example =
    login-MadeDevice config std db [] at_once 7 (80 ∷ []) email (66 ∷ []) after login_run

none_yet : attempts_of [] email ≡ none
unfolding find
none_yet = refl

login_locked-burst_example :
    login_locked (fail_all 2 1 email [] (5 ∷ 6 ∷ [])) 7 email
    ≡ (leb 2 (length {A = Time} (6 ∷ []) + 1) && ltb 7 (last_of 2 1 email 5 (6 ∷ []) + lockout 1))
login_locked-burst_example = login_locked-burst 2 1 email [] 5 (6 ∷ []) 7 none_yet (omega arith, tt)

-- The second failure locks the address.
locked_now : login_locked (fail_all 2 1 email [] (5 ∷ 6 ∷ [])) 7 email ≡ true
unfolding login_locked record_login_failure find update_first
locked_now = refl

abbrev token : EmailToken
token = record {
  user_id = 1;
  kind = verify_email;
  token_hash = 90 ∷ [];
  expires_at = 9;
  used_at = none;
}

token-IsKey : IsKey (λ t. t) (token ∷ []) (90 ∷ [])
unfolding count_where
token-IsKey = omega arith

consume_run : (consume_email_token (λ t. t) (token ∷ []) 5 verify_email (90 ∷ [])).0 ≡ some 1
unfolding consume_email_token find
consume_run = refl

consume_email_token-once_example :
    (consume_email_token
      (λ t. t)
      (consume_email_token (λ t. t) (token ∷ []) 5 verify_email (90 ∷ [])).1
      6
      verify_email
      (90 ∷ [])).0
    ≡ none
consume_email_token-once_example =
    consume_email_token-once (λ t. t) (token ∷ []) 5 6 verify_email verify_email (90 ∷ []) 1
      token-IsKey consume_run

abbrev mailed : List EmailToken
mailed =
    record {
      user_id = 1;
      kind = password_reset;
      token_hash = 90 ∷ [];
      expires_at = 2000005;
      used_at = none;
    }
    ∷ []

create_run : create_email_token (λ t. t) [] 5 1 password_reset 2 (90 ∷ []) ≡ ok (2000005, mailed)
unfolding create_email_token count_where
create_run = refl

no_hash : count_where (has_hash (λ t. t) (90 ∷ [])) [] ≡ 0
unfolding count_where
no_hash = refl
