-- ===== src/Tests/Projection.antt =====
-- A queue of two jobs: one that waits, one that is set aside. Every change fails.
use keeplin_srv.Base.{
  true, ℕ, ◌≡◌, ◌≤◌, ◌<◌, ◌+◌, refl, none, some, List, [], ◌∷◌, arith, nat_key, string_key, find,
  Result, err, database, coded, AppError, count_where, update_first, if◌then◌else◌,
}
use keeplin_srv.Protocol.{Uuid}
use keeplin_srv.Projection.{
  second, JobState, pending, dead_letter, JobKey, Job, same_key, claim_one, finish_job, drain,
  is_claimable, first_claimable, earlier, lease, is_serialization_failure, count_failure,
}
use keeplin_srv.Projection.Queue.{job_of, IsQueue, ended, finish_job-job_of}
use keeplin_srv.Projection.Worker.{Bounded, drain-Bounded}
use keeplin_srv.Projection.Attempts.{traced, was_tried, drain-empties}
use keeplin_srv.Projection.Liveness.{drain-stops, due_by, Within, at_once}

abbrev key_of : Uuid → JobKey
key_of user_id = record { user_id = user_id; batch_id = 2; batch_index = 0 }

abbrev job_for : Uuid → JobState → ℕ → Job
job_for user_id state attempts = record {
  key = key_of user_id;
  state = state;
  attempts = attempts;
  available_at = 0;
  leased_by = none;
  leased_until = none;
  last_error = none;
  created_at = 0;
  updated_at = 0;
}

abbrev queue : List Job
queue = job_for 1 pending 4 ∷ job_for 3 dead_letter 5 ∷ []

queue-IsQueue : IsQueue queue
unfolding find
queue-IsQueue = (refl, (refl, tt))

abbrev failure : AppError
failure = database (coded "23503")

abbrev fails : ℕ → Job → Result (Unit {0}) × ℕ
fails w job = (err failure, w)

abbrev claimed_queue : List Job
claimed_queue = lease 7 10 (job_for 1 pending 4) ∷ job_for 3 dead_letter 5 ∷ []

queue-claim : claim_one 7 10 none none queue ≡ some (job_for 1 pending 4, claimed_queue)
unfolding claim_one first_claimable earlier is_claimable update_first
queue-claim = refl

finish_job-job_of_example :
    job_of (key_of 3) (finish_job 7 10 (job_for 1 pending 4) (err failure) claimed_queue) ≡ (
      if same_key (key_of 1) (key_of 3)
      then ended 7 10 (err failure) (job_for 1 pending 4)
      else job_of (key_of 3) queue)
finish_job-job_of_example =
    finish_job-job_of 7 10 none none queue claimed_queue (job_for 1 pending 4) (err failure)
      (key_of 3) queue-IsQueue queue-claim

drain-Bounded_example :
    Bounded (job_of (key_of 1) (drain fails 7 none none (10 ∷ 20 ∷ []) queue 0).0)
unfolding find
drain-Bounded_example =
    drain-Bounded fails 7 none none (10 ∷ 20 ∷ []) queue 0 (key_of 1) queue-IsQueue (omega arith)

abbrev failed_once : Job
failed_once = count_failure 10 failure (lease 7 10 (job_for 1 pending 2))

failed_once_lem : ended 7 10 (err failure) (job_for 1 pending 2) ≡ some failed_once
unfolding ended is_serialization_failure
failed_once_lem = refl

due_now : due_by 10 none none queue ≡ 1
unfolding is_claimable count_where
due_now = refl

within : Within 10 (10 ∷ 10 ∷ 10 ∷ [])
within =
    let turn : (10 ≤ 10) × (10 < 10 + second) = (omega arith, omega arith) in
    (turn.0, turn.1, (turn.0, turn.1, (turn.0, turn.1, tt)))

drain-stops_example :
    drain fails 7 none none (10 ∷ 10 ∷ 10 ∷ []) queue 0 ≡ drain fails 7 none none (10 ∷ []) queue 0
drain-stops_example =
    drain-stops fails 7 none none 10 (10 ∷ 10 ∷ 10 ∷ []) queue 0 1 queue-IsQueue within
      (omega (arith, due_now))

drain-empties_example :
    let after = drain (traced fails 7 none none) 7 none none (at_once 1 10) queue ([], 0) in
    (due_by 10 none none after.0 ≡ 0)
    × ((k : JobKey) (job : Job)
        → job_of k queue ≡ some job
        → is_claimable 10 none none job ≡ true
        → was_tried fails 7 none none k after.1.0 ≡ true)
drain-empties_example =
    drain-empties fails 7 none none 10 1 queue 0 queue-IsQueue (omega (arith, due_now))
