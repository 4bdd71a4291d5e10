-- ===== src/Projection.antt =====
-- crates/keeplin-srv/src/projection.rs: the queue of projection jobs (the table `projection_jobs`).
-- A transaction reads its clock once, at its start, so a claim and the end of its job share one time.
-- No other worker holds the lock of a row meanwhile (`SKIP LOCKED`), and the database does not fail.
-- What applying a change does to the other tables is a parameter here. Times are microseconds.
pub mod Queue
pub mod Worker
pub mod Liveness
pub mod Attempts
use text.Mathlib.Text.{starts_with}
use keeplin_srv.Base.{
  ℕ, ◌+◌, ◌*◌, ◌^◌, min, String, Bool, true, false, not, ◌&&◌, ◌||◌, Option, none, some, List, [],
  ◌∷◌, ltb, leb, find, filter, update_first, if◌then◌else◌, ◌==◌, nat_key, string_key, Result, ok,
  err, AppError, database, coded, internal, DbError,
}
use keeplin_srv.Protocol.{Uuid, Time}

abbrev pub second : ℕ
second = 1_000_000

pub data JobState : Type 0 where
  pending retry dead_letter : JobState

-- `user_id, batch_id, batch_index`, the primary key
pub record JobKey : Type 0 where
  pub user_id : Uuid
  pub batch_id : Uuid
  pub batch_index : ℕ

pub record Job : Type 0 where
  pub key : JobKey
  pub state : JobState
  pub attempts : ℕ
  pub available_at : Time
  pub leased_by : Option Uuid
  pub leased_until : Option Time
  pub last_error : Option AppError
  pub created_at : Time
  pub updated_at : Time

abbrev pub same_key : JobKey → JobKey → Bool
same_key a b = a.user_id == b.user_id && a.batch_id == b.batch_id && a.batch_index == b.batch_index

abbrev pub is_due_state : JobState → Bool
is_due_state pending = true
is_due_state retry = true
is_due_state dead_letter = false

-- `SQLSTATE 40001`
unfoldable pub is_serialization_failure : AppError → Bool
is_serialization_failure (database (coded code)) = code == "40001"
is_serialization_failure _ = false

unfoldable pub is_permanent_database_failure : AppError → Bool
is_permanent_database_failure (internal message) = starts_with "invalid projection payload:" message
is_permanent_database_failure (database (coded code)) =
    code == "22001" || code == "22003" || code == "22007" || code == "22008" || code == "22P02"
is_permanent_database_failure _ = false

-- `$1::uuid IS NULL OR column = $1`
abbrev pub unless_other : Option Uuid → Uuid → Bool
unless_other none x = true
unless_other (some y) x = x == y

unfoldable pub is_claimable : Time → Option Uuid → Option Uuid → Job → Bool
is_claimable now user batch job =
    is_due_state job.state
    && leb job.available_at now
    && unless_other user job.key.user_id
    && unless_other batch job.key.batch_id

-- `ORDER BY available_at, created_at, batch_index`: `a` comes strictly before `b`.
unfoldable pub before : Job → Job → Bool
before a b =
    ltb a.available_at b.available_at
    || (a.available_at == b.available_at
        && (ltb a.created_at b.created_at
            || (a.created_at == b.created_at && ltb a.key.batch_index b.key.batch_index)))

unfoldable pub earlier : Job → Option Job → Job
unfolding before
earlier job none = job
earlier job (some other) = if before other job then other else job

-- `LIMIT 1` of the claimable jobs in that order
unfoldable pub first_claimable : Time → Option Uuid → Option Uuid → List Job → Option Job
unfolding earlier is_claimable
first_claimable now user batch [] = none
first_claimable now user batch (job ∷ jobs) =
    let rest = first_claimable now user batch jobs in
    if is_claimable now user batch job then some (earlier job rest) else rest

abbrev pub update_job : JobKey → (Job → Job) → List Job → List Job
update_job key f jobs = update_first (λ (j : Job). same_key j.key key) f jobs

abbrev pub lease : Uuid → Time → Job → Job
lease instance_id now job = record job {
  leased_by = some instance_id;
  leased_until = some (now + 30 * second);
  updated_at = now;
}

-- The job that is claimed, as it was read, and the queue with its lease.
unfoldable pub claim_one :
    Uuid → Time → Option Uuid → Option Uuid → List Job → Option (Job × List Job)
claim_one instance_id now user batch jobs = elim (first_claimable now user batch jobs) [
  | none ↦ none
  | some job ↦ some (job, update_job job.key (lease instance_id now) jobs)
]

abbrev pub leased_to : Uuid → Option Uuid → Bool
leased_to instance_id none = false
leased_to instance_id (some other) = other == instance_id

abbrev pub is_leased : JobKey → Uuid → Job → Bool
is_leased key instance_id job = same_key job.key key && leased_to instance_id job.leased_by

-- A serialization failure: again in a second, and no attempt is counted.
unfoldable pub retry_later : Time → AppError → Job → Job
retry_later now e job = record job {
  state = retry;
  available_at = now + second;
  leased_by = none;
  leased_until = none;
  last_error = some e;
  updated_at = now;
}

-- `LEAST(16, 1 << LEAST(attempts, 4))` seconds, of the attempts before this one
unfoldable pub backoff : ℕ → ℕ
backoff attempts = min 16 (2 ^ min attempts 4)

-- Any other failure counts an attempt; the fifth, or a permanent one, sets the job aside.
unfoldable pub count_failure : Time → AppError → Job → Job
unfolding backoff
count_failure now e job = record job {
  attempts = job.attempts + 1;
  state =
      if is_permanent_database_failure e || leb 5 (job.attempts + 1) then dead_letter else retry;
  available_at = now + backoff job.attempts * second;
  leased_by = none;
  leased_until = none;
  last_error = some e;
  updated_at = now;
}

unfoldable pub finish_job : Uuid → Time → Job → Result (Unit {0}) → List Job → List Job
finish_job instance_id now job (ok u) jobs =
    filter (λ (j : Job). not (is_leased job.key instance_id j)) jobs
finish_job instance_id now job (err e) jobs =
    update_first (is_leased job.key instance_id)
      (if is_serialization_failure e then retry_later now e else count_failure now e) jobs

-- `drain_available` and the loop of `drain_batch`: one job at each of the times, until there is none.
-- `perform` decodes the job's payload and applies the change.
module _ {W : Type 0} (perform : W → Job → Result (Unit {0}) × W) where
  unfoldable pub drain : Uuid → Option Uuid → Option Uuid → List Time → List Job → W → List Job × W
  drain instance_id user batch [] jobs w = (jobs, w)
  drain instance_id user batch (now ∷ times) jobs w =
      elim (claim_one instance_id now user batch jobs) [
        | none ↦ (jobs, w)
        | some (job, claimed) ↦
            let (result, w') = perform w job in
            drain instance_id user batch times (finish_job instance_id now job result claimed) w'
      ]

-- `drain_batch` first makes the due jobs of its batch available.
unfoldable pub make_available : Time → Uuid → Uuid → List Job → List Job
make_available now user batch [] = []
make_available now user batch (job ∷ jobs) =
    (if job.key.user_id == user && job.key.batch_id == batch && is_due_state job.state
      then record job { available_at = now; updated_at = now }
      else job)
    ∷ make_available now user batch jobs

-- `ON CONFLICT … DO UPDATE … WHERE state = 'dead_letter'`, of `reconcile`
unfoldable pub revive : Time → Job → Job
revive now job = elim job.state [
  | dead_letter ↦ record job {
    state = pending;
    attempts = 0;
    available_at = now;
    leased_by = none;
    leased_until = none;
    last_error = none;
    updated_at = now;
  }
  | _ ↦ job
]
