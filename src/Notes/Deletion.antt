-- ===== src/Notes/Deletion.antt =====
-- crates/keeplin-srv/src/http.rs and store.rs: what `delete_note` needs and changes.
use keeplin_srv.Base.{
  ℕ, ◌≤◌, ◌≡◌, refl, Bool, true, false, ◌&&◌, none, some, List, [], ◌∷◌, if◌then◌else◌, ◌==◌,
  nat_key, ok, arith, inl, inr, find, update_first, is_none, ◌>>=◌, guard, forbidden, count_where,
}
use keeplin_srv.Protocol.{Uuid, Time}
use keeplin_srv.External.{KeeplinCore}
use keeplin_srv.Permissions.{Note, Grants, Access, PermissionScheme, note_row, can_delete}
use keeplin_srv.Tables.{
  Db, Resource, soft_delete_note_on, cascade_resources_note_deleted, edit_note, is_live_note,
}
use keeplin_srv.Transactions.{Attempt}
use keeplin_srv.Transactions.Atomicity.{Result-cases}
use keeplin_srv.Sharing.{note_access}
use keeplin_srv.Sharing.Requests.{checked-committed}
use keeplin_srv.Notes.{delete_note_tx, delete_note}
use keeplin_srv.Sharing.Checks.{note_access-row}

-- The resources of a note that are not deleted.
abbrev pub live_resources : Uuid → List Resource → ℕ
live_resources note_id rows =
    count_where (λ (r : Resource). r.note_id == note_id && is_none r.deleted_at) rows

-- The primary key: one live row has an id at most.
abbrev pub IsUnique : Grants → Uuid → Type 0
IsUnique g id = count_where (is_live_note id) g.notes ≤ 1

-- Row by row: a resource of the note that was alive is deleted now, and every other row is as it was.
abbrev pub AllDeleted : Uuid → Time → List Resource → List Resource → Type 0
AllDeleted id now [] [] = Unit {0}
AllDeleted id now [] (q ∷ after) = ⊥
AllDeleted id now (r ∷ rows) [] = ⊥
AllDeleted id now (r ∷ rows) (q ∷ after) =
    ((r.note_id == id) ≡ false → q ≡ r)
    × (is_none r.deleted_at ≡ false → q ≡ r)
    × ((r.note_id == id) ≡ true
        → is_none r.deleted_at ≡ true
        → q ≡ record r { deleted_at = some now })
    × AllDeleted id now rows after

-- The note is gone with its resources; every other note and resource is as it was, and so are shares.
pub record Deleted (id : Uuid) (d s : Db) : Type 0 where
  pub note : (m : Uuid) → note_row s.grants m ≡ (if id == m then none else note_row d.grants m)
  pub attached :
      (m : Uuid)
      → live_resources m s.resources ≡ (if id == m then 0 else live_resources m d.resources)
  pub resources : AllDeleted id d.now d.resources s.resources
  pub shares : s.grants.note_shares ≡ d.grants.note_shares
  pub notebooks : s.grants.notebooks ≡ d.grants.notebooks

false_right : (b : Bool) → (b && false) ≡ false
false_right b = ground arith

live_resources-cascade :
    (id m : Uuid) (now : Time) (rows : List Resource)
    → live_resources m (cascade_resources_note_deleted rows id now)
      ≡ (if id == m then 0 else live_resources m rows)
unfolding cascade_resources_note_deleted count_where
live_resources-cascade id m now [] = ground arith
live_resources-cascade id m now (r ∷ rows) = ground (arith, live_resources-cascade id m now rows)

AllDeleted-cascade :
    (id : Uuid) (now : Time) (rows : List Resource)
    → AllDeleted id now rows (cascade_resources_note_deleted rows id now)
unfolding cascade_resources_note_deleted
AllDeleted-cascade id now [] = tt
AllDeleted-cascade id now (r ∷ rows) = (
  λ other. rw other refl,
  λ dead. rw (dead, false_right (r.note_id == id)) refl,
  λ of_note live. rw (of_note, live) refl,
  AllDeleted-cascade id now rows,
)

bury : Time → Note → Note
bury now n = record n { deleted_at = some now; updated_at = now }

find-no_live :
    (id : Uuid) (rows : List Note)
    → count_where (is_live_note id) rows ≡ 0
    → find (is_live_note id) rows ≡ none
unfolding find count_where
find-no_live id [] h = refl
find-no_live id (n ∷ rows) h = ground (arith, find-no_live id rows)

find-bury :
    (id m : Uuid) (now : Time) (rows : List Note)
    → count_where (is_live_note id) rows ≤ 1
    → find (is_live_note m) (update_first (is_live_note id) (bury now) rows)
      ≡ (if id == m then none else find (is_live_note m) rows)
unfolding find update_first count_where bury
find-bury id m now [] h = ground arith
find-bury id m now (n ∷ rows) h =
    ground (arith, find-bury id m now rows, find-no_live id rows, find-no_live m rows)

note_row-bury :
    (g : Grants) (id m : Uuid) (now : Time)
    → IsUnique g id
    → note_row (edit_note id (bury now) g) m ≡ (if id == m then none else note_row g m)
unfolding note_row
note_row-bury g id m now unique = find-bury id m now g.notes unique

Deleted-soft :
    (db : Db) (id : Uuid) (n : Note)
    → note_row db.grants id ≡ some n
    → IsUnique db.grants id
    → Deleted id db (soft_delete_note_on db id).1
unfolding soft_delete_note_on bury
Deleted-soft db id n found unique =
    rw (soft_delete_note_on, found)
      (record {
        note = λ m. note_row-bury db.grants id m db.now unique;
        attached = λ m. live_resources-cascade id m db.now db.resources;
        resources = AllDeleted-cascade id db.now db.resources;
        shares = refl;
        notebooks = refl;
      })

module _ (core : KeeplinCore) (scheme : PermissionScheme) (user_id : Uuid) where
  delete_note_tx-Deleted :
      (id : Uuid) (db s : Db) (answer : Note)
      → delete_note_tx core scheme user_id id db ≡ ok (answer, s)
      → IsUnique db.grants id
      → (n : Note) × (a : Access) × (note_access scheme user_id db id ≡ ok (n, a))
        × (can_delete a ≡ true)
        × Deleted id db s
  unfolding delete_note_tx
  delete_note_tx-Deleted id db s answer h unique =
      elim (Result-cases (note_access scheme user_id db id)) [
        | inr (x, e) ↦ absurd (ground (arith, e))
        | inl ((n, a), e) ↦
            let after : s ≡ (soft_delete_note_on db id).1 = ground (arith, e) in
            (
              n,
              a,
              e,
              ground (arith, e),
              rw after (Deleted-soft db id n (note_access-row scheme user_id db id n a e).0 unique),
            )
      ]

  -- The committed state of `delete_note` is that of one of its runs, in whose state the user owns the note:
  -- where its id is that of one live note at most, the note is gone with its resources, and every other
  -- note, resource and share is as it was, deleted resources with their dates.
  pub delete_note-Deleted :
      (early s : Db) (env : ℕ → Attempt Db) (id : Uuid)
      → ((k : ℕ) → IsUnique (env k).sees.grants id)
      → (delete_note core scheme user_id early env id).1 ≡ some s
      → (k : ℕ) × (n : Note) × (a : Access) × (note_access scheme user_id (env k).sees id
          ≡ ok (n, a))
        × (a.is_owner ≡ true)
        × Deleted id (env k).sees s
  unfolding delete_note
  delete_note-Deleted early s env id unique h =
      let (u, k, answer, e, run) =
        checked-committed
          (note_access scheme user_id early id >>= λ (found : Note × Access).
            guard (can_delete found.1) forbidden)
          (λ u. delete_note_tx core scheme user_id id) env s h in
      let (n, a, found, owns, deleted) =
        delete_note_tx-Deleted id (env k).sees s answer run (unique k) in
      (k, n, a, found, owns, deleted)
