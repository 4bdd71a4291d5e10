-- ===== src/Bodies/Quota.antt =====
-- crates/keeplin-srv/src/http.rs: the quota on a user's live notes.
use keeplin_srv.Base.{ℕ, ◌+◌, ◌≡◌, String, Bool, false, ◌&&◌, ltb, ok, arith, count_where, nat_key}
use keeplin_srv.Protocol.{Uuid, Text}
use keeplin_srv.Permissions.{Note}
use keeplin_srv.Tables.{Db, count_live_notes_for_user_on}
use keeplin_srv.Bodies.{Tables, create_note_on, create_note}

module _ (max_notes_per_user : ℕ) (user_id : Uuid) (uuid_to_string : Uuid → String) where
  abbrev pub live_notes : Tables → ℕ
  live_notes t = count_live_notes_for_user_on t.db.grants user_id

  -- Whether a number of notes is over the quota, if there is one.
  abbrev pub over_quota : ℕ → Bool
  over_quota n = ltb 0 max_notes_per_user && ltb max_notes_per_user n

  create_note_on-counts :
      (db db' : Db) (id : Uuid) (title : Text) (n : Note)
      → create_note_on db id title user_id ≡ ok (n, db')
      → count_live_notes_for_user_on db'.grants user_id
        ≡ count_live_notes_for_user_on db.grants user_id + 1
  unfolding create_note_on count_live_notes_for_user_on count_where
  create_note_on-counts db db' id title n h = ground (arith, h)

  create_note-db :
      (id : Uuid) (title : Text) (t t' : Tables) (n : Note)
      → create_note max_notes_per_user user_id uuid_to_string id title t ≡ ok (n, t')
      → (create_note_on t.db id title user_id ≡ ok (n, t'.db))
        × (over_quota (live_notes t + 1) ≡ false)
  unfolding create_note
  create_note-db id title t t' n h = (ground (arith, h), ground (arith, h))

  -- A note that is made, by `create_note`, is one more live note of the user, and leaves the user within the quota.
  pub create_note-quota :
      (id : Uuid) (title : Text) (t t' : Tables) (n : Note)
      → create_note max_notes_per_user user_id uuid_to_string id title t ≡ ok (n, t')
      → (live_notes t' ≡ live_notes t + 1) × (over_quota (live_notes t') ≡ false)
  create_note-quota id title t t' n h =
      let (made, within) = create_note-db id title t t' n h in
      let one_more = create_note_on-counts t.db t'.db id title n made in
      (one_more, rw one_more within)
