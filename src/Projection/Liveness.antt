-- ===== src/Projection/Liveness.antt =====
-- crates/keeplin-srv/src/projection.rs: how long a job waits for its next attempt, and why the loops of
-- `drain_available` and `drain_batch` come to an end.
use keeplin_srv.Base.{
  ℕ, ◌+◌, ◌*◌, ◌^◌, ◌≤◌, ◌<◌, ◌≡◌, refl, Bool, true, false, not, Option, none, some, List, [], ◌∷◌,
  arith, find, filter, update_first, nat_key, Result, ok, err, inl, inr, AppError, Option-cases,
  eq_refl, take, count_where, min, zero, suc,
}
use keeplin_srv.Protocol.{Uuid, Time}
use keeplin_srv.Projection.{
  second, JobKey, Job, same_key, is_claimable, first_claimable, lease, claim_one, leased_to,
  is_leased, retry_later, backoff, count_failure, finish_job, drain,
}
use keeplin_srv.Projection.Queue.{
  job_of, IsQueue, failed, ended, Claims, claim_one-Claims, finish_job-IsQueue, claimed-row,
}
use keeplin_srv.Projection.Worker.{drain-none, drain-some}

power_bounds : (n : ℕ) → n ≤ 4 → (1 ≤ 2 ^ n) × (2 ^ n ≤ 16)
power_bounds zero h = ground arith
power_bounds (suc zero) h = ground arith
power_bounds (suc (suc zero)) h = ground arith
power_bounds (suc (suc (suc zero))) h = ground arith
power_bounds (suc (suc (suc (suc zero)))) h = ground arith
power_bounds (suc (suc (suc (suc (suc n))))) h = absurd (omega arith)

pub backoff_bounds : (n : ℕ) → (1 ≤ backoff n) × (backoff n ≤ 16)
unfolding backoff
backoff_bounds n = ground (arith, power_bounds (min n 4) (omega arith))

scaled :
    (b now : ℕ)
    → 1 ≤ b
    → b ≤ 16
    → (now + second ≤ now + b * second) × (now + b * second ≤ now + 16 * second)
scaled b now h g = (omega arith, omega arith)

-- A failed attempt is followed by a wait of 1 to 16 seconds.
pub ended-wait :
    (instance_id : Uuid) (now : Time) (e : AppError) (job next : Job)
    → ended instance_id now (err e) job ≡ some next
    → (now + second ≤ next.available_at) × (next.available_at ≤ now + 16 * second)
unfolding ended retry_later count_failure
ended-wait instance_id now e job next h =
    let s =
      scaled (backoff job.attempts) now (backoff_bounds job.attempts).0
        (backoff_bounds job.attempts).1 in
    ground (arith, s)

-- Counting the rows that fit, when one of them ceases to.
module _ (q p : Job → Bool) where
  count-update :
      (f : Job → Job) (xs : List Job) (j : Job)
      → find p xs ≡ some j
      → q j ≡ true
      → q (f j) ≡ false
      → count_where q (update_first p f xs) + 1 ≡ count_where q xs
  unfolding find count_where update_first
  count-update f [] j h y n = absurd (ground arith)
  count-update f (x ∷ xs) j h y n = ground (arith, count-update f xs j)

  count-filter_le : (xs : List Job) → count_where q (filter p xs) ≤ count_where q xs
  unfolding count_where filter
  count-filter_le [] = omega arith
  count-filter_le (x ∷ xs) = ground (arith, count-filter_le xs)

  count-update_same :
      (f : Job → Job) (xs : List Job)
      → ((j : Job) → q (f j) ≡ q j)
      → count_where q (update_first p f xs) ≡ count_where q xs
  unfolding count_where update_first
  count-update_same f [] same = refl
  count-update_same f (x ∷ xs) same = ground (arith, same x, count-update_same f xs same)

count-filter-not :
    (q p : Job → Bool) (xs : List Job) (j : Job)
    → find p xs ≡ some j
    → q j ≡ true
    → count_where q (filter (λ x. not (p x)) xs) + 1 ≤ count_where q xs
unfolding find count_where filter
count-filter-not q p [] j h y = absurd (ground arith)
count-filter-not q p (x ∷ xs) j h y =
    ground (arith, count-filter-not q p xs j, count-filter_le q (λ x. not (p x)) xs)

-- The row that is ended is the one that was leased.
find-is_leased :
    (key : JobKey) (instance_id : Uuid) (xs : List Job) (j : Job)
    → job_of key xs ≡ some j
    → leased_to instance_id j.leased_by ≡ true
    → find (is_leased key instance_id) xs ≡ some j
unfolding find
find-is_leased key instance_id [] j h l = absurd (ground arith)
find-is_leased key instance_id (x ∷ xs) j h l = ground (arith, find-is_leased key instance_id xs j)

-- The jobs that are due by a time.
abbrev pub due_by : Time → Option Uuid → Option Uuid → List Job → ℕ
due_by now user batch jobs = count_where (is_claimable now user batch) jobs

module _ (instance_id : Uuid) (user batch : Option Uuid) (horizon : Time) where
  due-later :
      (now : Time) (j : Job)
      → now ≤ horizon
      → is_claimable now user batch j ≡ true
      → is_claimable horizon user batch j ≡ true
  unfolding is_claimable
  due-later now j h c = ground arith

  failed-not_due :
      (now : Time) (e : AppError) (j : Job)
      → horizon < now + second
      → is_claimable horizon user batch (failed now e (lease instance_id now j)) ≡ false
  unfolding is_claimable retry_later count_failure
  failed-not_due now e j h = ground (
    arith,
    scaled (backoff j.attempts) now (backoff_bounds j.attempts).0 (backoff_bounds j.attempts).1,
  )

  claim-due :
      (now : Time) (jobs claimed : List Job) (job : Job)
      → Claims instance_id now user batch jobs job claimed
      → due_by horizon user batch claimed ≡ due_by horizon user batch jobs
  unfolding is_claimable
  claim-due now jobs claimed job c = rw c.leased (
      count-update_same (is_claimable horizon user batch) (λ j. same_key j.key job.key)
        (lease instance_id now) jobs (λ j. refl))

  -- A claim that ends takes its job from those that are due within the second.
  pub finish_job-due :
      (now : Time) (jobs claimed : List Job) (job : Job) (result : Result (Unit {0}))
      → IsQueue jobs
      → now ≤ horizon
      → horizon < now + second
      → claim_one instance_id now user batch jobs ≡ some (job, claimed)
      → due_by horizon user batch (finish_job instance_id now job result claimed) + 1
        ≤ due_by horizon user batch jobs
  unfolding finish_job is_claimable
  finish_job-due now jobs claimed job (ok v) u h g e =
      let c = claim_one-Claims instance_id now user batch jobs claimed job u e in
      let q = is_claimable horizon user batch in
      let found =
        find-is_leased job.key instance_id claimed _
          (claimed-row instance_id now user batch jobs claimed job u c) (eq_refl instance_id) in
      omega (
        arith,
        count-filter-not q (is_leased job.key instance_id) claimed _ found
            (due-later now job h c.claimable),
        claim-due now jobs claimed job c,
      )
  finish_job-due now jobs claimed job (err x) u h g e =
      let c = claim_one-Claims instance_id now user batch jobs claimed job u e in
      let q = is_claimable horizon user batch in
      let found =
        find-is_leased job.key instance_id claimed _
          (claimed-row instance_id now user batch jobs claimed job u c) (eq_refl instance_id) in
      omega (
        arith,
        count-update q (is_leased job.key instance_id) (failed now x) claimed _ found
            (due-later now job h c.claimable) (failed-not_due now x job g),
        claim-due now jobs claimed job c,
      )

first_claimable-none :
    (now : Time) (user batch : Option Uuid) (jobs : List Job)
    → first_claimable now user batch jobs ≡ none
    → due_by now user batch jobs ≡ 0
unfolding first_claimable count_where
first_claimable-none now user batch [] h = refl
first_claimable-none now user batch (x ∷ xs) h =
    ground (arith, first_claimable-none now user batch xs)

pub claim_one-none :
    (instance_id : Uuid) (now : Time) (user batch : Option Uuid) (jobs : List Job)
    → claim_one instance_id now user batch jobs ≡ none
    → due_by now user batch jobs ≡ 0
unfolding claim_one
claim_one-none instance_id now user batch jobs h =
    elim (Option-cases (first_claimable now user batch jobs)) [
      | inl e ↦ first_claimable-none now user batch jobs e
      | inr (j, e) ↦ absurd (ground arith)
    ]

-- The times of a drain that all fall within the second before a horizon.
abbrev pub Within : Time → List Time → Type 0
Within horizon [] = Unit {0}
Within horizon (now ∷ times) = (now ≤ horizon) × (horizon < now + second) × Within horizon times

abbrev pub at_once : ℕ → Time → List Time
at_once zero now = []
at_once (suc n) now = now ∷ at_once n now

module _ {W : Type 0} (perform : W → Job → Result (Unit {0}) × W) (instance_id : Uuid)
    (user batch : Option Uuid) where
  -- The loop stops by itself: of the turns that fall within one second, no more than the jobs that are
  -- due by the end of it do anything, however the changes fail.
  pub drain-stops :
      (horizon : Time) (times : List Time) (jobs : List Job) (w : W) (n : ℕ)
      → IsQueue jobs
      → Within horizon times
      → due_by horizon user batch jobs ≤ n
      → drain perform instance_id user batch times jobs w
        ≡ drain perform instance_id user batch (take n times) jobs w
  unfolding drain
  drain-stops horizon [] jobs w zero u i h = refl
  drain-stops horizon [] jobs w (suc n) u i h = refl
  drain-stops horizon (now ∷ times) jobs w zero u i h =
      elim (Option-cases (claim_one instance_id now user batch jobs)) [
        | inl e ↦ rw (drain-none perform instance_id user batch now times jobs w e) refl
        | inr ((job, claimed), e) ↦
            let due =
              finish_job-due instance_id user batch horizon now jobs claimed job (perform w job).0 u
                i.0 i.1 e in
            absurd (omega arith)
      ]
  drain-stops horizon (now ∷ times) jobs w (suc n) u i h =
      elim (Option-cases (claim_one instance_id now user batch jobs)) [
        | inl e ↦
            rw
              (
                drain-none perform instance_id user batch now times jobs w e,
                drain-none perform instance_id user batch now (take n times) jobs w e,
              )
              refl
        | inr ((job, claimed), e) ↦
            let due =
              finish_job-due instance_id user batch horizon now jobs claimed job (perform w job).0 u
                i.0 i.1 e in
            rw
              (
                drain-some perform instance_id user batch now times jobs w job claimed e,
                drain-some perform instance_id user batch now (take n times) jobs w job claimed e,
              )
              (drain-stops horizon times _ _ n
                (finish_job-IsQueue instance_id now user batch jobs claimed job _ u e) i.2
                (omega arith))
      ]

  -- A drain at one time, with a turn for each due job, leaves no job due.
  pub drain-no_due :
      (now : Time) (n : ℕ) (jobs : List Job) (w : W)
      → IsQueue jobs
      → due_by now user batch jobs ≤ n
      → due_by now user batch (drain perform instance_id user batch (at_once n now) jobs w).0 ≡ 0
  unfolding drain
  drain-no_due now zero jobs w u h = omega arith
  drain-no_due now (suc n) jobs w u h =
      elim (Option-cases (claim_one instance_id now user batch jobs)) [
        | inl e ↦
            rw (drain-none perform instance_id user batch now (at_once n now) jobs w e)
              (claim_one-none instance_id now user batch jobs e)
        | inr ((job, claimed), e) ↦
            rw (drain-some perform instance_id user batch now (at_once n now) jobs w job claimed e)
              (drain-no_due now n _ _
                (finish_job-IsQueue instance_id now user batch jobs claimed job _ u e)
                (omega (
                  arith,
                  finish_job-due instance_id user batch now now jobs claimed job (perform w job).0 u
                      (omega arith) (omega arith) e,
                )))
      ]
