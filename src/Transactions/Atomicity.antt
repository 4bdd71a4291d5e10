-- ===== src/Transactions/Atomicity.antt =====
-- crates/keeplin-srv/src/http.rs: `serializable` has the effect of one run of the operation, or none.
use keeplin_srv.Base.{
  ℕ, suc, zero, ◌+◌, ◌≤◌, ◌≡◌, refl, ap, sym, subst, ◌<◌, ◌==◌, nat_key, nat_beq_iff, true, false,
  Option, none, some, Result, ok, err, AppError, DbError, database, service_unavailable, arith, inl,
  inr, ◌⊎◌, Bool-cases,
}
use keeplin_srv.Projection.{is_serialization_failure}
use keeplin_srv.Transactions.{
  Commit, committed, commit_failed, Attempt, serializable_max_attempts, attempts, serializable,
  after_commit,
}

pub Result-cases {ℓ} :
    {A : Type ℓ} (r : Result A) → ((a : A) × (r ≡ ok a)) ⊎ ((e : AppError) × (r ≡ err e))
Result-cases (ok a) = inl (a, refl)
Result-cases (err e) = inr (e, refl)

Commit-cases : (c : Commit) → (c ≡ committed) ⊎ ((e : DbError) × (c ≡ commit_failed e))
Commit-cases committed = inl refl
Commit-cases (commit_failed e) = inr (e, refl)

module _ {S A : Type 0} (operation : S → Result (A × S)) (env : ℕ → Attempt S) where
  -- The database found a conflict in an attempt, in its run or at its commit.
  pub data Conflicted (k : ℕ) : Type 0 where
    in_run :
        (e : AppError)
        → operation (env k).sees ≡ err e
        → is_serialization_failure e ≡ true
        → Conflicted k
    at_commit :
        (e : DbError)
        → (env k).commit ≡ commit_failed e
        → is_serialization_failure (database e) ≡ true
        → Conflicted k

  abbrev pub Before : ℕ → Type 0
  Before k = (j : ℕ) → 1 ≤ j → j < k → Conflicted j

  -- What an answer and a committed state may be.
  pub data IsAtomic : Result A → Option S → Type 0 where
    ran :
        (k : ℕ) (value : A) (s : S)
        → Before k
        → operation (env k).sees ≡ ok (value, s)
        → (env k).commit ≡ committed
        → k ≤ serializable_max_attempts
        → IsAtomic (ok value) (some s)
    refused :
        (k : ℕ) (e : AppError)
        → Before k
        → operation (env k).sees ≡ err e
        → is_serialization_failure e ≡ false
        → IsAtomic (err e) none
    not_committed :
        (k : ℕ) (e : DbError)
        → Before k
        → (env k).commit ≡ commit_failed e
        → is_serialization_failure (database e) ≡ false
        → IsAtomic (err (database e)) none
    exhausted : Before 4 → IsAtomic (err service_unavailable) none

  Before-next : (k : ℕ) → Before k → Conflicted k → Before (k + 1)
  Before-next k b c j low high = elim (Bool-cases (j == k)) [
    | inl same ↦ subst Conflicted (sym ((nat_beq_iff j k).0 same)) c
    | inr other ↦ b j low (ground (arith, other))
  ]

  attempts-IsAtomic :
      (n k : ℕ)
      → n + k ≡ 4
      → Before k
      → IsAtomic (attempts operation env n k).0 (attempts operation env n k).1
  unfolding attempts
  attempts-IsAtomic zero k h b = exhausted (λ j low high. b j low (omega arith))
  attempts-IsAtomic (suc n) k h b = elim (Result-cases (operation (env k).sees)) [
    | inl ((value, s), e) ↦ elim (Commit-cases (env k).commit) [
      | inl c ↦ rw (attempts, e, after_commit, c) (ran k value s b e c (omega arith))
      | inr (x, c) ↦ elim (Bool-cases (is_serialization_failure (database x))) [
        | inl y ↦
            rw (attempts, e, after_commit, c, y)
              (attempts-IsAtomic n (k + 1) (omega arith) (Before-next k b (at_commit x c y)))
        | inr y ↦ rw (attempts, e, after_commit, c, y) (not_committed k x b c y)
      ]
    ]
    | inr (x, e) ↦ elim (Bool-cases (is_serialization_failure x)) [
      | inl y ↦
          rw (attempts, e, y)
            (attempts-IsAtomic n (k + 1) (omega arith) (Before-next k b (in_run x e y)))
      | inr y ↦ rw (attempts, e, y) (refused k x b e y)
    ]
  ]

  -- Whatever the other connections do, the answer is the value of one run that was committed, within three
  -- attempts, and its state is the one committed; or it is an error and nothing is committed: the error of
  -- a run or of a commit, or, if the database found a conflict in all three, that the service is
  -- unavailable. Every attempt before the one that counts met a conflict.
  pub serializable-IsAtomic : IsAtomic (serializable operation env).0 (serializable operation env).1
  unfolding serializable
  serializable-IsAtomic = attempts-IsAtomic 3 1 (omega arith) (λ j low high. absurd (omega arith))

  -- A committed state is that of a run.
  pub serializable-ran :
      (r : Result A) (s : S)
      → serializable operation env ≡ (r, some s)
      → (k : ℕ) × (value : A) × (r ≡ ok value) × (operation (env k).sees ≡ ok (value, s))
  serializable-ran r s h =
      ran_of (serializable operation env).0 (serializable operation env).1 serializable-IsAtomic
        (ap (λ x. x.0) h) (ap (λ x. x.1) h)
    where
      ran_of :
          (q : Result A) (c : Option S)
          → IsAtomic q c
          → q ≡ r
          → c ≡ some s
          → (k : ℕ) × (value : A) × (r ≡ ok value) × (operation (env k).sees ≡ ok (value, s))
      ran_of _ _ (ran k v t b e c le) p q = (k, v, sym p, ground (arith, e))
      ran_of _ _ (refused k e b f g) p q = absurd (ground arith)
      ran_of _ _ (not_committed k e b f g) p q = absurd (ground arith)
      ran_of _ _ (exhausted b) p q = absurd (ground arith)

  -- So too where the answer is left aside.
  pub serializable-committed :
      (s : S)
      → (serializable operation env).1 ≡ some s
      → (k : ℕ) × (value : A) × ((serializable operation env).0 ≡ ok value)
        × (operation (env k).sees ≡ ok (value, s))
  serializable-committed s h =
      serializable-ran (serializable operation env).0 s (λ i. ((serializable operation env).0, h i))
