-- ===== src/Sync.antt =====
-- crates/keeplin-srv/src/sync.rs and the journal of changes of crates/keeplin-srv/src/store.rs: the
-- tables `changes` and `device_cursors`. A payload is JSON, so any type. A change that is reserved has
-- its number from the sequence; other connections see it once its transaction commits.
pub mod Backlog
pub mod Batches
use keeplin_srv.Base.{
  ℕ, suc, zero, ◌+◌, max, String, Bool, true, false, not, ◌&&◌, Option, none, some, List, [], ◌∷◌,
  ◌++◌, map, take, filter, any, ltb, if◌then◌else◌, ◌==◌, nat_key,
}
use keeplin_srv.Base.Dict.{Dict, get, put}
use keeplin_srv.Protocol.{Uuid, Time}
use keeplin_srv.Projection.{Job, JobKey, JobState, pending, same_key}

-- `CHUNK_SIZE`
abbrev pub chunk_size : ℕ
chunk_size = 200

pub record Change (P : Type 0) : Type 0 where
  pub seq : ℕ
  pub user_id : Uuid
  pub origin_device_id : Uuid
  pub batch_id : Uuid
  pub batch_index : ℕ
  pub sync_device_id : String
  pub payload : P

-- The rows stand in the order of `seq`, as the index on it has them.
pub record Journal (P : Type 0) : Type 0 where
  pub changes : List (Change P)
  pub next_seq : ℕ
  pub cursors : Dict Uuid ℕ
  pub jobs : List Job

abbrev pub or_zero : Option ℕ → ℕ
or_zero none = 0
or_zero (some n) = n

-- `INSERT INTO projection_jobs …  ON CONFLICT DO NOTHING`, with the columns' defaults
unfoldable pub enqueue : Time → JobKey → List Job → List Job
enqueue now key jobs =
    if any (λ (j : Job). same_key j.key key) jobs
    then jobs
    else record {
      key = key;
      state = pending;
      attempts = 0;
      available_at = now;
      leased_by = none;
      leased_until = none;
      last_error = none;
      created_at = now;
      updated_at = now;
    }
      ∷ jobs

module _ {P : Type 0} where
  abbrev pub key_of : Change P → JobKey
  key_of c = record { user_id = c.user_id; batch_id = c.batch_id; batch_index = c.batch_index }

  -- `ON CONFLICT (user_id, batch_id, batch_index)`
  abbrev pub has_key : JobKey → List (Change P) → Bool
  has_key key changes = any (λ c. same_key (key_of c) key) changes

  -- The loop of `append_changes`: an `INSERT` that meets a conflict uses up its number all the same.
  unfoldable pub reserve :
      Journal P → ℕ → Uuid → Uuid → String → Uuid → ℕ → List P → List (Change P) × ℕ
  reserve j seq user_id origin sync_device_id batch_id index [] = ([], seq)
  reserve j seq user_id origin sync_device_id batch_id index (payload ∷ payloads) =
      let (rows, next) =
        reserve j (seq + 1) user_id origin sync_device_id batch_id (index + 1) payloads in
      let row : Change P = record {
        seq = seq;
        user_id = user_id;
        origin_device_id = origin;
        batch_id = batch_id;
        batch_index = index;
        sync_device_id = sync_device_id;
        payload = payload;
      } in
      (if has_key (key_of row) j.changes then rows else row ∷ rows, next)

  -- A row takes its place in the order of `seq`, the table's primary key, by which `changes_after` reads it.
  unfoldable pub place : Change P → List (Change P) → List (Change P)
  place c [] = c ∷ []
  place c (x ∷ xs) = if ltb c.seq x.seq then c ∷ x ∷ xs else x ∷ place c xs

  -- `tx.commit()`: the reserved rows and their jobs become visible.
  unfoldable pub commit : Time → List (Change P) → Journal P → Journal P
  unfolding place enqueue
  commit now [] j = j
  commit now (c ∷ rows) j =
      commit now rows
        (record j { changes = place c j.changes; jobs = enqueue now (key_of c) j.jobs })

  unfoldable pub append_changes :
      Journal P → Time → Uuid → Uuid → String → Uuid → List P → List (ℕ × P) × Journal P
  unfolding reserve commit
  append_changes j now user_id origin sync_device_id batch_id payloads =
      let (rows, next) = reserve j j.next_seq user_id origin sync_device_id batch_id 0 payloads in
      (
        map (λ (c : Change P). (c.seq, c.payload)) rows,
        commit now rows (record j { next_seq = next }),
      )

  abbrev pub after : Uuid → ℕ → Change P → Bool
  after user_id seq c = c.user_id == user_id && ltb seq c.seq

  unfoldable pub changes_after : Journal P → Uuid → ℕ → ℕ → List (Change P)
  changes_after j user_id after_seq limit = take limit (filter (after user_id after_seq) j.changes)

  unfoldable pub get_cursor : Journal P → Uuid → ℕ
  get_cursor j device_id = or_zero (get device_id j.cursors)

  -- `GREATEST(last_seq, EXCLUDED.last_seq)`
  unfoldable pub advance_cursor : Journal P → Uuid → ℕ → Journal P
  unfolding get_cursor
  advance_cursor j device_id seq = record j {
    cursors = put device_id (max (get_cursor j device_id) seq) j.cursors;
  }

  abbrev pub last_seq : ℕ → List (Change P) → ℕ
  last_seq n [] = n
  last_seq n (c ∷ rows) = last_seq c.seq rows

  abbrev pub from_others : Uuid → List (Change P) → List (Change P)
  from_others device_id rows = filter (λ c. not (c.origin_device_id == device_id)) rows

  -- A frame is sent unless it would be empty.
  abbrev pub with_frame : List (Change P) → List (List P) → List (List P)
  with_frame [] frames = frames
  with_frame (c ∷ rows) frames = map (λ (x : Change P). x.payload) (c ∷ rows) ∷ frames

  -- The loop of `deliver_backlog`, a turn for each unit of fuel: the frames that are sent, in order.
  unfoldable pub deliver : ℕ → Journal P → Uuid → Uuid → ℕ → List (List P) × Journal P
  unfolding changes_after advance_cursor
  deliver zero j user_id device_id cursor = ([], j)
  deliver (suc fuel) j user_id device_id cursor = elim (changes_after j user_id cursor chunk_size) [
    | [] ↦ ([], j)
    | c ∷ rows ↦
        let seq : ℕ = last_seq c.seq rows in
        let (frames, j') = deliver fuel (advance_cursor j device_id seq) user_id device_id seq in
        (with_frame (from_others device_id (c ∷ rows)) frames, j')
  ]

  unfoldable pub deliver_backlog : ℕ → Journal P → Uuid → Uuid → List (List P) × Journal P
  unfolding deliver get_cursor
  deliver_backlog fuel j user_id device_id =
      deliver fuel j user_id device_id (get_cursor j device_id)
