-- ===== src/Projection/Attempts.antt =====
-- crates/keeplin-srv/src/projection.rs: that `drain_available` and `drain_batch` attempt the jobs that are due.
use keeplin_srv.Base.{
  ℕ, zero, suc, ◌≤◌, ◌≡◌, refl, Bool, true, false, Option, some, List, [], ◌∷◌, any, find, arith,
  Result, inl, inr, Bool-cases, Option-cases, count_where, ◌∙◌,
}
use keeplin_srv.Protocol.{Uuid, Time}
use keeplin_srv.Projection.{JobKey, Job, same_key, is_claimable, claim_one, finish_job, drain}
use keeplin_srv.Projection.Queue.{job_of, IsQueue, finish_job-job_of, finish_job-IsQueue}
use keeplin_srv.Projection.Worker.{drain-none, drain-some}
use keeplin_srv.Projection.Liveness.{due_by, at_once, claim_one-none, finish_job-due, drain-no_due}

not_due :
    (now : Time) (user batch : Option Uuid) (k : JobKey) (jobs : List Job) (job : Job)
    → due_by now user batch jobs ≡ 0
    → job_of k jobs ≡ some job
    → is_claimable now user batch job ≡ false
unfolding count_where find
not_due now user batch k [] job h e = absurd (ground (arith, e))
not_due now user batch k (x ∷ xs) job h e = ground (arith, h, e, not_due now user batch k xs job)

module _ {W : Type 0} (perform : W → Job → Result (Unit {0}) × W) (instance_id : Uuid)
    (user batch : Option Uuid) where
  -- What performs a job, with the keys of the jobs that it was called for.
  abbrev pub traced : List JobKey × W → Job → Result (Unit {0}) × (List JobKey × W)
  traced (keys, w) job = ((perform w job).0, (job.key ∷ keys, (perform w job).1))

  abbrev pub was_tried : JobKey → List JobKey → Bool
  was_tried k keys = any (λ key. same_key key k) keys

  tried-stays :
      (k : JobKey) (times : List Time) (jobs : List Job) (v : List JobKey × W)
      → was_tried k v.0 ≡ true
      → was_tried k (drain traced instance_id user batch times jobs v).1.0 ≡ true
  unfolding drain
  tried-stays k [] jobs v h = h
  tried-stays k (now ∷ times) jobs v h =
      elim (Option-cases (claim_one instance_id now user batch jobs)) [
        | inl e ↦ rw (drain-none traced instance_id user batch now times jobs v e) h
        | inr ((job, claimed), e) ↦
            rw (drain-some traced instance_id user batch now times jobs v job claimed e) (
              tried-stays k times _ (job.key ∷ v.0, (perform v.1 job).1)
                (unfold any in ground (arith, h)))
      ]

  tries :
      (now : Time) (n : ℕ) (jobs : List Job) (v : List JobKey × W) (k : JobKey) (job : Job)
      → IsQueue jobs
      → due_by now user batch jobs ≤ n
      → job_of k jobs ≡ some job
      → is_claimable now user batch job ≡ true
      → was_tried k (drain traced instance_id user batch (at_once n now) jobs v).1.0 ≡ true
  unfolding drain
  tries now zero jobs v k job u h row due =
      let none_due : due_by now user batch jobs ≡ 0 = omega (arith, h) in
      absurd (ground (arith, due, not_due now user batch k jobs job none_due row))
  tries now (suc n) jobs v k job u h row due =
      elim (Option-cases (claim_one instance_id now user batch jobs)) [
        | inl e ↦
            let none_due = claim_one-none instance_id now user batch jobs e in
            absurd (ground (arith, due, not_due now user batch k jobs job none_due row))
        | inr ((j, claimed), e) ↦
            let v' : List JobKey × W = (j.key ∷ v.0, (perform v.1 j).1) in
            let result : Result (Unit {0}) = (perform v.1 j).0 in
            let fewer =
              finish_job-due instance_id user batch now now jobs claimed j result u (omega arith)
                (omega arith) e in
            let queue = finish_job-IsQueue instance_id now user batch jobs claimed j result u e in
            rw (drain-some traced instance_id user batch now (at_once n now) jobs v j claimed e)
              (elim (Bool-cases (same_key j.key k)) [
                | inl same ↦ tried-stays k (at_once n now) _ v' (unfold any in rw same refl)
                | inr differ ↦
                    tries now n (finish_job instance_id now j result claimed) v' k job queue
                      (omega (arith, h, fewer))
                      (finish_job-job_of instance_id now user batch jobs claimed j result k u e
                        ∙ rw differ row)
                      due
              ])
      ]

  -- A drain at one time, with a turn for each job that is due, calls `perform` for every one of them, and
  -- leaves no job due, however the attempts end.
  pub drain-empties :
      (now : Time) (n : ℕ) (jobs : List Job) (w : W)
      → IsQueue jobs
      → due_by now user batch jobs ≤ n
      → let after = drain traced instance_id user batch (at_once n now) jobs ([], w) in
        (due_by now user batch after.0 ≡ 0)
        × ((k : JobKey) (job : Job)
            → job_of k jobs ≡ some job
            → is_claimable now user batch job ≡ true
            → was_tried k after.1.0 ≡ true)
  drain-empties now n jobs w u h = (
    drain-no_due traced instance_id user batch now n jobs ([], w) u h,
    λ k job row due. tries now n jobs ([], w) k job u h row due,
  )
