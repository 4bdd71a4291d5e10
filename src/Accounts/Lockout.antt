-- ===== src/Accounts/Lockout.antt =====
-- crates/keeplin-srv/src/store.rs: when a run of failed logins locks an address, and for how long.
use keeplin_srv.Base.{
  ℕ, ◌+◌, ◌≤◌, ◌≡◌, refl, ◌∙◌, ap, Bool, false, ◌&&◌, Option, none, some, List, [], ◌∷◌, find,
  update_first, ltb, leb, length, if◌then◌else◌, arith, Option-cases, inl, inr,
}
use keeplin_srv.Protocol.{Time, Text}
use keeplin_srv.Accounts.{
  LoginAttempts, is_of, attempts_of, login_locked, lockout, count_now, failed_row,
  record_login_failure, is_locked,
}
use keeplin_srv.Accounts.Tokens.{text_eq_refl}

module _ (max_failures secs : ℕ) (email : Text) where
  -- What the table holds of the address, but for the spelling of the key.
  abbrev Row : Type 0
  Row = Option (ℕ × Time × Option Time)

  abbrev row_of : Option LoginAttempts → Row
  row_of none = none
  row_of (some r) = some (r.failed_count, r.last_failed_at, r.locked_until)

  abbrev step : Time → Row → Row
  step now none = some (1, now, if leb max_failures 1 then some (now + lockout secs) else none)
  step now (some (n, last, until)) =
      let n' : ℕ = if ltb (last + lockout secs) now then 1 else n + 1 in
      some (n', now, if leb max_failures n' then some (now + lockout secs) else none)

  find-update :
      (now : Time) (rows : List LoginAttempts) (r : LoginAttempts)
      → find (is_of email) rows ≡ some r
      → row_of (
          find (is_of email) (
            update_first
              (is_of email)
              (λ (x : LoginAttempts).
                failed_row max_failures secs now x.email (count_now secs now x))
              rows))
        ≡ row_of (some (failed_row max_failures secs now email (count_now secs now r)))
  unfolding find update_first
  find-update now [] r h = ground (arith, h)
  find-update now (x ∷ rows) r h = ground (arith, find-update now rows r)

  attempts_of-record :
      (rows : List LoginAttempts) (now : Time)
      → row_of (attempts_of (record_login_failure rows now email max_failures secs) email)
        ≡ step now (row_of (attempts_of rows email))
  unfolding record_login_failure
  attempts_of-record rows now = elim (Option-cases (attempts_of rows email)) [
    | inl e ↦ rw (record_login_failure, e) (unfold find in rw (text_eq_refl email) refl)
    | inr (r, e) ↦ rw (record_login_failure, e) (find-update now rows r e)
  ]

  -- Failures at these times, one after the other, each within the lockout's time of the one before.
  abbrev pub fail_all : List LoginAttempts → List Time → List LoginAttempts
  fail_all rows [] = rows
  fail_all rows (t ∷ times) = fail_all (record_login_failure rows t email max_failures secs) times

  abbrev pub IsBurst : Time → List Time → Type 0
  IsBurst last [] = Unit {0}
  IsBurst last (t ∷ times) = (t ≤ last + lockout secs) × IsBurst t times

  abbrev pub last_of : Time → List Time → Time
  last_of last [] = last
  last_of last (t ∷ times) = last_of t times

  abbrev after : ℕ → Time → Row
  after n last = some (n, last, if leb max_failures n then some (last + lockout secs) else none)

  step-after :
      (n : ℕ) (last t : Time) → t ≤ last + lockout secs → step t (after n last) ≡ after (n + 1) t
  step-after n last t h = ground (arith, h)

  row_of-fail_all :
      (rows : List LoginAttempts) (n : ℕ) (last : Time) (times : List Time)
      → row_of (attempts_of rows email) ≡ after n last
      → IsBurst last times
      → row_of (attempts_of (fail_all rows times) email)
        ≡ after (n + length times) (last_of last times)
  row_of-fail_all rows n last [] e b = e ∙ ap (λ (k : ℕ). after k last) (omega arith)
  row_of-fail_all rows n last (t ∷ times) e b =
      row_of-fail_all (record_login_failure rows t email max_failures secs) (n + 1) t times
        (attempts_of-record rows t ∙ ap (step t) e ∙ step-after n last t b.0) b.1
      ∙ ap (λ (k : ℕ). after k (last_of t times)) (omega arith)

  locked_row : Time → Row → Bool
  locked_row now none = false
  locked_row now (some (n, last, until)) = elim until [ none ↦ false | some u ↦ ltb now u ]

  is_locked-row :
      (now : Time) (o : Option LoginAttempts) → is_locked now o ≡ locked_row now (row_of o)
  unfolding locked_row
  is_locked-row now none = refl
  is_locked-row now (some r) = refl

  -- After a burst of failures for an address that had none, the address is locked exactly if they are as
  -- many as the limit, and until the lockout's time after the last of them has passed.
  pub login_locked-burst :
      (rows : List LoginAttempts) (first : Time) (times : List Time) (now : Time)
      → attempts_of rows email ≡ none
      → IsBurst first times
      → login_locked (fail_all rows (first ∷ times)) now email
        ≡ (leb max_failures (length times + 1) && ltb now (last_of first times + lockout secs))
  unfolding login_locked
  login_locked-burst rows first times now none_yet burst =
      let start : row_of
            (attempts_of (record_login_failure rows first email max_failures secs) email)
          ≡ after 1 first =
        attempts_of-record rows first
        ∙ ap (λ (o : Option LoginAttempts). step first (row_of o)) none_yet in
      let end_row =
        row_of-fail_all (record_login_failure rows first email max_failures secs) 1 first times
          start burst in
      is_locked-row now (attempts_of (fail_all rows (first ∷ times)) email)
      ∙ ap (locked_row now) end_row
      ∙ (unfold locked_row in ground arith)
