-- ===== src/Transactions.antt =====
-- crates/keeplin-srv/src/http.rs: `serializable`, which runs a handler's transaction up to three times.
-- What the other connections do in between is the environment: the state that each attempt reads, and
-- what its commit answers. The test hooks of debug builds are left out.
pub mod Atomicity
use keeplin_srv.Base.{
  ℕ, suc, zero, ◌+◌, Bool, true, false, Option, none, some, List, [], ◌∷◌, if◌then◌else◌, Result,
  ok, err, AppError, DbError, database, service_unavailable,
}
use keeplin_srv.Projection.{is_serialization_failure}

pub data Commit : Type 0 where
  committed : Commit
  commit_failed : DbError → Commit

pub record Attempt (S : Type 0) : Type 0 where
  pub sees : S
  pub commit : Commit

abbrev pub serializable_max_attempts : ℕ
serializable_max_attempts = 3

module _ {S A : Type 0} (operation : S → Result (A × S)) (env : ℕ → Attempt S) where
  -- The answer, and the state that is committed, if any. An attempt that fails is rolled back.
  after_commit : Commit → A → S → Result A × Option S → Result A × Option S
  unfolding is_serialization_failure
  after_commit committed value s again = (ok value, some s)
  after_commit (commit_failed e) value s again =
      if is_serialization_failure (database e) then again else (err (database e), none)

  -- The attempts from number `k` on, of which `n` are left.
  unfoldable pub attempts : ℕ → ℕ → Result A × Option S
  unfolding after_commit
  attempts zero k = (err service_unavailable, none)
  attempts (suc n) k =
      let again = attempts n (k + 1) in
      elim (operation (env k).sees) [
        | ok (value, s) ↦ after_commit (env k).commit value s again
        | err e ↦ if is_serialization_failure e then again else (err e, none)
      ]

  unfoldable pub serializable : Result A × Option S
  unfolding attempts
  serializable = attempts serializable_max_attempts 1
