-- ===== src/Projection/Queue.antt =====
-- crates/keeplin-srv/src/projection.rs: what claiming a job and ending it does to each row of the queue.
use keeplin_srv.Base.{
  ◌≡◌, refl, Bool, true, false, not, Option, none, some, List, [], ◌∷◌, arith, find, filter,
  update_first, if◌then◌else◌, nat_key, Result, ok, err, inl, inr, AppError, Bool-cases,
  Option-cases, eq_refl,
}
use mathlib.Core.Option
use keeplin_srv.Protocol.{Uuid, Time}
use keeplin_srv.Projection.{
  JobKey, Job, same_key, is_claimable, before, is_serialization_failure, earlier, first_claimable,
  update_job, lease, claim_one, is_leased, retry_later, count_failure, finish_job,
}

abbrev pub job_of : JobKey → List Job → Option Job
job_of key jobs = find (λ (j : Job). same_key j.key key) jobs

-- No key stands twice: the primary key of the table.
abbrev pub IsQueue : List Job → Type 0
IsQueue [] = Unit {0}
IsQueue (job ∷ jobs) = (job_of job.key jobs ≡ none) × IsQueue jobs

same_key_refl : (a : JobKey) → same_key a a ≡ true
same_key_refl a = ground (arith, eq_refl a.user_id, eq_refl a.batch_id, eq_refl a.batch_index)

same_key-swap : (a b c : JobKey) → same_key a b ≡ true → same_key c a ≡ same_key c b
same_key-swap a b c h = ground arith

pub job_of-swap :
    (a b : JobKey) (jobs : List Job) → same_key a b ≡ true → job_of a jobs ≡ job_of b jobs
unfolding find
job_of-swap a b [] h = refl
job_of-swap a b (x ∷ xs) h = rw (same_key-swap a b x.key h, job_of-swap a b xs h) refl

pub key-job_of :
    (k : JobKey) (jobs : List Job) (j : Job) → job_of k jobs ≡ some j → same_key j.key k ≡ true
unfolding find
key-job_of k [] j h = absurd (ground arith)
key-job_of k (x ∷ xs) j h = ground (arith, key-job_of k xs j)

-- The job that a claim finds is a row of the queue, and is claimable.
pub first_claimable-job_of :
    (now : Time) (user batch : Option Uuid) (jobs : List Job) (job : Job)
    → IsQueue jobs
    → first_claimable now user batch jobs ≡ some job
    → (job_of job.key jobs ≡ some job) × (is_claimable now user batch job ≡ true)
unfolding first_claimable earlier find
first_claimable-job_of now user batch [] job u h = absurd (ground arith)
first_claimable-job_of now user batch (x ∷ xs) job u h =
    elim (Option-cases (first_claimable now user batch xs)) [
      | inl e ↦ ground (arith, same_key_refl x.key)
      | inr (y, e) ↦
          let ih = first_claimable-job_of now user batch xs y u.1 e in
          let other : same_key x.key y.key ≡ false = elim (Bool-cases (same_key x.key y.key)) [
            | inl same ↦ absurd (ground (arith, job_of-swap x.key y.key xs same, u.0, ih.0))
            | inr differ ↦ differ
          ] in
          elim (Bool-cases (before y x)) [
            | inl b ↦ ground (arith, same_key_refl x.key, ih.0, ih.1, other)
            | inr b ↦ ground (arith, same_key_refl x.key, ih.0, ih.1, other)
          ]
    ]

module _ (f : Job → Job) (keep : (j : Job) → (f j).key ≡ j.key) where
  job_of-update :
      (key k : JobKey) (p : Job → Bool) (jobs : List Job)
      → IsQueue jobs
      → ((j : Job) → p j ≡ true → same_key j.key key ≡ true)
      → job_of k (update_first p f jobs) ≡ (
          if same_key key k
          then Option.map (λ j. if p j then f j else j) (job_of k jobs)
          else job_of k jobs)
  unfolding find update_first
  job_of-update key k p [] u only = ground arith
  job_of-update key k p (x ∷ xs) u only =
      ground (arith, keep x, only x, job_of-update key k p xs u.1 only, u.0, job_of-swap x.key k xs)

job_of-filter :
    (p : Job → Bool) (k : JobKey) (jobs : List Job)
    → IsQueue jobs
    → job_of k (filter p jobs)
      ≡ elim (job_of k jobs) [ none ↦ none | some j ↦ if p j then some j else none ]
unfolding find filter
job_of-filter p k [] u = refl
job_of-filter p k (x ∷ xs) u = elim (Bool-cases (same_key x.key k)) [
  | inl same ↦
      let gone : job_of k xs ≡ none = ground (arith, job_of-swap x.key k xs same, u.0) in
      elim (Bool-cases (p x)) [
        | inl y ↦ rw (y, same, y) refl
        | inr n ↦ rw (n, same, n, job_of-filter p k xs u.1, gone) refl
      ]
  | inr differ ↦ elim (Bool-cases (p x)) [
    | inl y ↦ rw (y, differ, job_of-filter p k xs u.1) refl
    | inr n ↦ rw (n, differ, job_of-filter p k xs u.1) refl
  ]
]

none-update :
    (p : Job → Bool) (f : Job → Job) (k : JobKey) (jobs : List Job)
    → ((j : Job) → (f j).key ≡ j.key)
    → job_of k jobs ≡ none
    → job_of k (update_first p f jobs) ≡ none
unfolding find update_first
none-update p f k [] keep h = refl
none-update p f k (x ∷ xs) keep h = ground (arith, keep x, none-update p f k xs keep)

none-filter :
    (p : Job → Bool) (k : JobKey) (jobs : List Job)
    → job_of k jobs ≡ none
    → job_of k (filter p jobs) ≡ none
unfolding find filter
none-filter p k [] h = refl
none-filter p k (x ∷ xs) h = ground (arith, none-filter p k xs)

filter-IsQueue : (p : Job → Bool) (jobs : List Job) → IsQueue jobs → IsQueue (filter p jobs)
unfolding filter
filter-IsQueue p [] u = tt
filter-IsQueue p (x ∷ xs) u = elim (Bool-cases (p x)) [
  | inl y ↦ rw y (none-filter p x.key xs u.0, filter-IsQueue p xs u.1)
  | inr n ↦ rw n (filter-IsQueue p xs u.1)
]

update-IsQueue :
    (p : Job → Bool) (f : Job → Job) (jobs : List Job)
    → ((j : Job) → (f j).key ≡ j.key)
    → IsQueue jobs
    → IsQueue (update_first p f jobs)
unfolding update_first
update-IsQueue p f [] keep u = tt
update-IsQueue p f (x ∷ xs) keep u = elim (Bool-cases (p x)) [
  | inl y ↦ rw (y, keep x) (u.0, u.1)
  | inr n ↦ rw n (none-update p f x.key xs keep u.0, update-IsQueue p f xs keep u.1)
]

-- What a job that was claimed becomes: a row that is gone, or that waits for its next attempt.
abbrev pub failed : Time → AppError → Job → Job
failed now e = if is_serialization_failure e then retry_later now e else count_failure now e

unfoldable pub ended : Uuid → Time → Result (Unit {0}) → Job → Option Job
ended instance_id now (ok u) job = none
ended instance_id now (err e) job = some (failed now e (lease instance_id now job))

failed-key : (now : Time) (e : AppError) (j : Job) → (failed now e j).key ≡ j.key
unfolding retry_later count_failure
failed-key now e j = ground arith

same_key-sym : (a b : JobKey) → same_key a b ≡ same_key b a
same_key-sym a b = ground arith

-- What a claim is: a row that is claimable, and the queue with that row leased.
pub record Claims (instance_id : Uuid) (now : Time) (user batch : Option Uuid) (jobs : List Job)
    (job : Job) (claimed : List Job) : Type 0 where
  pub row : job_of job.key jobs ≡ some job
  pub claimable : is_claimable now user batch job ≡ true
  pub leased : claimed ≡ update_job job.key (lease instance_id now) jobs

pub claim_one-Claims :
    (instance_id : Uuid) (now : Time) (user batch : Option Uuid) (jobs claimed : List Job)
    (job : Job)
    → IsQueue jobs
    → claim_one instance_id now user batch jobs ≡ some (job, claimed)
    → Claims instance_id now user batch jobs job claimed
unfolding claim_one
claim_one-Claims instance_id now user batch jobs claimed job u h =
    elim (Option-cases (first_claimable now user batch jobs)) [
      | inl e ↦ absurd (ground (arith))
      | inr (j, e) ↦
          let same : j ≡ job = ground arith in
          let f = first_claimable-job_of now user batch jobs job u (ground arith) in
          record { row = f.0; claimable = f.1; leased = ground arith }
    ]

claimed-job_of :
    (instance_id : Uuid) (now : Time) (jobs : List Job) (job : Job) (k : JobKey)
    → IsQueue jobs
    → job_of job.key jobs ≡ some job
    → job_of k (update_job job.key (lease instance_id now) jobs)
      ≡ (if same_key job.key k then some (lease instance_id now job) else job_of k jobs)
claimed-job_of instance_id now jobs job k u row = ground (
  arith,
  job_of-update (lease instance_id now) (λ j. refl) job.key k (λ j. same_key j.key job.key) jobs u
      (λ j e. e),
  job_of-swap job.key k jobs,
  same_key_refl job.key,
)

pub claimed-row :
    (instance_id : Uuid) (now : Time) (user batch : Option Uuid) (jobs claimed : List Job)
    (job : Job)
    → IsQueue jobs
    → Claims instance_id now user batch jobs job claimed
    → job_of job.key claimed ≡ some (lease instance_id now job)
claimed-row instance_id now user batch jobs claimed job u c =
    rw (c.leased, claimed-job_of instance_id now jobs job job.key u c.row, same_key_refl job.key)
      refl

-- The queue after a claimed job has ended, row by row: the claimed row alone changes.
pub finish_job-job_of :
    (instance_id : Uuid) (now : Time) (user batch : Option Uuid) (jobs claimed : List Job)
    (job : Job) (result : Result (Unit {0})) (k : JobKey)
    → IsQueue jobs
    → claim_one instance_id now user batch jobs ≡ some (job, claimed)
    → job_of k (finish_job instance_id now job result claimed)
      ≡ (if same_key job.key k then ended instance_id now result job else job_of k jobs)
unfolding claim_one finish_job ended
finish_job-job_of instance_id now user batch jobs claimed job (ok v) k u h =
    let c = claim_one-Claims instance_id now user batch jobs claimed job u h in
    let m =
      update-IsQueue (λ j. same_key j.key job.key) (lease instance_id now) jobs (λ j. refl) u in
    rw
      (
        c.leased,
        job_of-filter (λ j. not (is_leased job.key instance_id j)) k _ m,
        claimed-job_of instance_id now jobs job k u c.row,
      )
      (elim (Bool-cases (same_key job.key k)) [
        | inl same ↦ rw (same, same_key_refl job.key, eq_refl instance_id) refl
        | inr differ ↦ elim (Option-cases (job_of k jobs)) [
          | inl e ↦ rw (differ, e) refl
          | inr (j, e) ↦
              let other : is_leased job.key instance_id j ≡ false =
                ground (arith, key-job_of k jobs j e) in
              rw (differ, e, other) refl
        ]
      ])
finish_job-job_of instance_id now user batch jobs claimed job (err e) k u h =
    let c = claim_one-Claims instance_id now user batch jobs claimed job u h in
    let m =
      update-IsQueue (λ j. same_key j.key job.key) (lease instance_id now) jobs (λ j. refl) u in
    rw
      (
        c.leased,
        job_of-update (failed now e) (failed-key now e) job.key k (is_leased job.key instance_id) _
            m (λ j y. ground arith),
        claimed-job_of instance_id now jobs job k u c.row,
      )
      (elim (Bool-cases (same_key job.key k)) [
        | inl same ↦ rw (same, same_key_refl job.key, eq_refl instance_id) refl
        | inr differ ↦ rw differ refl
      ])

-- Claims and ends leave every key standing once.
pub finish_job-IsQueue :
    (instance_id : Uuid) (now : Time) (user batch : Option Uuid) (jobs claimed : List Job)
    (job : Job) (result : Result (Unit {0}))
    → IsQueue jobs
    → claim_one instance_id now user batch jobs ≡ some (job, claimed)
    → IsQueue (finish_job instance_id now job result claimed)
unfolding finish_job
finish_job-IsQueue instance_id now user batch jobs claimed job (ok v) u h =
    let c = claim_one-Claims instance_id now user batch jobs claimed job u h in
    let m =
      update-IsQueue (λ j. same_key j.key job.key) (lease instance_id now) jobs (λ j. refl) u in
    rw c.leased (filter-IsQueue (λ j. not (is_leased job.key instance_id j)) _ m)
finish_job-IsQueue instance_id now user batch jobs claimed job (err e) u h =
    let c = claim_one-Claims instance_id now user batch jobs claimed job u h in
    let m =
      update-IsQueue (λ j. same_key j.key job.key) (lease instance_id now) jobs (λ j. refl) u in
    rw c.leased
      (update-IsQueue (is_leased job.key instance_id) (failed now e) _ (failed-key now e) m)
