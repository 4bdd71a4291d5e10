-- ===== src/Base/Outcome.antt =====
-- crates/keeplin-srv/src/error.rs: `AppError`, and Rust's `Result` over it.
-- The texts that some errors carry for a human reader are kept where the code tests them.
use Prim.Native.String.{String}
use Prim.Native.Nat.{ℕ}
use mathlib.Core.Bool.{Bool, true, false}
use mathlib.Core.Option.{Option, none, some}
use mathlib.Core.List.{List}

-- `sqlx::Error`: no row, an error with the server's SQLSTATE code, or any other.
pub data DbError : Type 0 where
  row_not_found : DbError
  coded : String → DbError
  other_db : DbError

pub record MoveBlockedCount : Type 0 where
  pub notebook_id : ℕ
  pub count : ℕ

pub data AppError : Type 0 where
  database : DbError → AppError
  missing_token invalid_token not_found forbidden conflict : AppError
  move_blocked : List ℕ → List MoveBlockedCount → AppError
  bad_request quota_exceeded payload_too_large not_implemented internal : String → AppError
  too_many_attempts service_unavailable : AppError

pub data Result {ℓ} (A : Type ℓ) : Type ℓ where
  ok : A → Result A
  err : AppError → Result A

abbrev pub is_ok {ℓ} : {A : Type ℓ} → Result A → Bool
is_ok (ok value) = true
is_ok (err error) = false

-- `.ok_or(e)?`
abbrev pub ok_or {ℓ} : {A : Type ℓ} → Option A → AppError → Result A
ok_or none error = err error
ok_or (some value) error = ok value

module _ {ℓ κ} {A : Type ℓ} {B : Type κ} where
  infixl 5 ◌>>=◌
  -- Rust's `?`
  abbrev pub ◌>>=◌ : Result A → (A → Result B) → Result B
  err error >>= rest = err error
  ok value >>= rest = rest value

infixl 5 ◌>>◌
abbrev pub ◌>>◌ {κ} : {B : Type κ} → Result (Unit {0}) → Result B → Result B
first >> second = first >>= λ _. second

-- `if !test { return Err(error) }`
abbrev pub guard : Bool → AppError → Result (Unit {0})
guard false error = err error
guard true error = ok tt

-- What is not read again begins like an encrypted text, with no key to read it.
abbrev pub unreadable : AppError
unreadable = internal "encrypted value but AT_REST_KEY is unset"
