-- ===== src/Projection/Worker.antt =====
-- crates/keeplin-srv/src/projection.rs: the worker's loop, `drain_available` and `drain_batch`, over the
-- rows of the queue.
use keeplin_srv.Base.{
  ℕ, ◌≤◌, ◌≡◌, refl, subst, true, false, Option, none, some, List, [], ◌∷◌, arith, ◌==◌, nat_key,
  Result, ok, err, inl, inr, Bool-cases, Option-cases, is_some, is_ok,
}
use keeplin_srv.Protocol.{Uuid, Time}
use keeplin_srv.Projection.{
  JobState, dead_letter, JobKey, Job, same_key, is_claimable, claim_one, retry_later, count_failure,
  finish_job, drain,
}
use keeplin_srv.Projection.Queue.{
  job_of, IsQueue, ended, claim_one-Claims, finish_job-job_of, finish_job-IsQueue, job_of-swap,
}

module _ {W : Type 0} (perform : W → Job → Result (Unit {0}) × W) (instance_id : Uuid)
    (user batch : Option Uuid) where
  pub drain-none :
      (now : Time) (times : List Time) (jobs : List Job) (w : W)
      → claim_one instance_id now user batch jobs ≡ none
      → drain perform instance_id user batch (now ∷ times) jobs w ≡ (jobs, w)
  unfolding drain
  drain-none now times jobs w e = rw (drain, e) refl

  pub drain-some :
      (now : Time) (times : List Time) (jobs : List Job) (w : W) (job : Job) (claimed : List Job)
      → claim_one instance_id now user batch jobs ≡ some (job, claimed)
      → drain perform instance_id user batch (now ∷ times) jobs w
        ≡ drain perform instance_id user batch times
            (finish_job instance_id now job (perform w job).0 claimed)
            (perform w job).1
  unfolding drain
  drain-some now times jobs w job claimed e = rw (drain, e) refl

  -- What holds of a row and of every end of it, if the row is claimed, holds after a drain.
  drain-row :
      (k : JobKey) (R : Option Job → Type 0)
      → ((now : Time) (job : Job) (w : W)
          → same_key job.key k ≡ true
          → is_claimable now user batch job ≡ true
          → R (some job)
          → R (ended instance_id now (perform w job).0 job))
      → (times : List Time) (jobs : List Job) (w : W) → IsQueue jobs
      → R (job_of k jobs)
      → R (job_of k (drain perform instance_id user batch times jobs w).0)
  unfolding drain
  drain-row k R step [] jobs w u r = r
  drain-row k R step (now ∷ times) jobs w u r =
      elim (Option-cases (claim_one instance_id now user batch jobs)) [
        | inl e ↦ rw (drain-none now times jobs w e) r
        | inr ((job, claimed), e) ↦
            let c = claim_one-Claims instance_id now user batch jobs claimed job u e in
            let result = (perform w job).0 in
            let next =
              drain-row k R step times (finish_job instance_id now job result claimed)
                (perform w job).1
                (finish_job-IsQueue instance_id now user batch jobs claimed job result u e) in
            rw (drain-some now times jobs w job claimed e) (
              next (elim (Bool-cases (same_key job.key k)) [
                | inl same ↦
                    let row : job_of k jobs ≡ some job =
                      ground (arith, job_of-swap job.key k jobs same, c.row) in
                    rw
                      (
                        finish_job-job_of instance_id now user batch jobs claimed job result k u e,
                        same,
                      )
                      (step now job w same c.claimable (subst R row r))
                | inr differ ↦
                    rw
                      (
                        finish_job-job_of instance_id now user batch jobs claimed job result k u e,
                        differ,
                      )
                      r
              ]))
      ]

-- The attempts that a job may have behind it: four while it waits for another, five once set aside.
abbrev pub most_attempts : JobState → ℕ
most_attempts dead_letter = 5
most_attempts _ = 4

abbrev pub Bounded : Option Job → Type 0
Bounded none = Unit {0}
Bounded (some job) = job.attempts ≤ most_attempts job.state

ended-Bounded :
    (instance_id : Uuid) (now : Time) (user batch : Option Uuid) (result : Result (Unit {0}))
    (job : Job)
    → is_claimable now user batch job ≡ true
    → Bounded (some job)
    → Bounded (ended instance_id now result job)
unfolding ended retry_later count_failure is_claimable
ended-Bounded instance_id now user batch (ok u) job c b = tt
ended-Bounded instance_id now user batch (err e) job c b = ground arith

ended-kept :
    (instance_id : Uuid) (now : Time) (result : Result (Unit {0})) (job : Job)
    → is_ok result ≡ false
    → is_some (ended instance_id now result job) ≡ true
unfolding ended
ended-kept instance_id now (ok u) job h = absurd (ground arith)
ended-kept instance_id now (err e) job h = refl

module _ {W : Type 0} (perform : W → Job → Result (Unit {0}) × W) (instance_id : Uuid)
    (user batch : Option Uuid) (times : List Time) (jobs : List Job) (w : W) (k : JobKey) where
  -- A job that the drained queue holds has four counted attempts behind it at most while it waits for the next,
  -- and five at most when it is set aside, if that was so before. An attempt that a conflict in the database
  -- ends is not counted.
  pub drain-Bounded :
      IsQueue jobs
      → Bounded (job_of k jobs)
      → Bounded (job_of k (drain perform instance_id user batch times jobs w).0)
  drain-Bounded u b =
      drain-row perform instance_id user batch k Bounded
        (λ now job w same c r. ended-Bounded instance_id now user batch (perform w job).0 job c r)
        times jobs w u b

  -- A job that is set aside stays as it is, whatever is drained.
  pub drain-dead_letter :
      (job : Job)
      → IsQueue jobs
      → job_of k jobs ≡ some job
      → job.state ≡ dead_letter
      → job_of k (drain perform instance_id user batch times jobs w).0 ≡ some job
  unfolding is_claimable
  drain-dead_letter job u row dead =
      drain-row perform instance_id user batch k (λ o. o ≡ some job)
        (λ now j w same c r. absurd (ground arith)) times jobs w u row

  -- A drain for one user leaves the jobs of the others as they are.
  pub drain-other_user :
      (owner : Uuid)
      → IsQueue jobs
      → user ≡ some owner
      → (k.user_id == owner) ≡ false
      → job_of k (drain perform instance_id user batch times jobs w).0 ≡ job_of k jobs
  unfolding is_claimable
  drain-other_user owner u one other =
      drain-row perform instance_id user batch k (λ o. o ≡ job_of k jobs)
        (λ now j w same c r. absurd (ground (arith, one))) times jobs w u refl

  -- A job is never lost: as long as its change is not applied, its row stays in the queue.
  pub drain-keeps :
      ((v : W) (job : Job) → same_key job.key k ≡ true → is_ok (perform v job).0 ≡ false)
      → IsQueue jobs
      → is_some (job_of k jobs) ≡ true
      → is_some (job_of k (drain perform instance_id user batch times jobs w).0) ≡ true
  drain-keeps fails u row =
      drain-row perform instance_id user batch k (λ o. is_some o ≡ true)
        (λ now job v same c r. ended-kept instance_id now (perform v job).0 job (fails v job same))
        times jobs w u row
