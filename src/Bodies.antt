-- ===== src/Bodies.antt =====
-- crates/keeplin-srv/src/http.rs: notes made, imported and exported, and the body that their lines make
-- up; with the statement of store.rs that makes a note. The ids that `Uuid::new_v4` draws are a
-- function's arguments. The advisory lock on a user's quota makes these requests one step each.
pub mod Join
pub mod Import
pub mod Quota
use keeplin_srv.Base.{
  ℕ, ◌+◌, ◌-◌, String, Bool, true, false, not, ◌&&◌, Option, none, some, List, [], ◌∷◌, ◌++◌,
  length, is_none, is_some, is_empty, ltb, leb, find, any, if◌then◌else◌, ◌==◌, nat_key, Result, ok,
  err, ok_or, guard, ◌>>=◌, ◌>>◌, forbidden, not_found, conflict, quota_exceeded, payload_too_large,
}
use keeplin_srv.Protocol.{Uuid, Time, Text, Stamp}
use keeplin_srv.Permissions.{Note, Grants, PermissionScheme, can_read}
use keeplin_srv.Tables.{Db, count_live_notes_for_user_on}
use keeplin_srv.Lines.{
  Line, NoteOrder, Store, list_lines, insert_line_on, get_note_order_on, set_note_order_on,
  initialize_note_order_on, is_live,
}
use keeplin_srv.Sharing.{note_access}

-- The tables of notes, and of lines and their orders.
pub record Tables : Type 0 where
  pub db : Db
  pub store : Store

abbrev pub newline : ℕ
newline = 10

-- `split('\n')`: one more part than there are newlines.
abbrev pub to_first : ℕ → List Text → List Text
to_first c [] = (c ∷ []) ∷ []
to_first c (l ∷ ls) = (c ∷ l) ∷ ls

unfoldable pub split_lines : Text → List Text
split_lines [] = [] ∷ []
split_lines (c ∷ cs) = if c == newline then [] ∷ split_lines cs else to_first c (split_lines cs)

-- `join("\n")`
unfoldable pub join_lines : List Text → Text
join_lines [] = []
join_lines (l ∷ []) = l
join_lines (l ∷ m ∷ ls) = l ++ newline ∷ join_lines (m ∷ ls)

abbrev pub total_length : List Text → ℕ
total_length [] = 0
total_length (l ∷ ls) = length l + total_length ls

-- The rows by id: an id is the key of the table.
abbrev pub line_by_id : List Line → Uuid → Option Line
line_by_id rows id = find (λ (l : Line). l.id == id) rows

-- The contents of the live lines, in the note's order.
abbrev pub if_live : Option Line → List Text → List Text
if_live none rest = rest
if_live (some l) rest = if is_live l then l.content ∷ rest else rest

unfoldable pub live_contents : List Line → List Uuid → List Text
live_contents rows [] = []
live_contents rows (id ∷ order) = if_live (line_by_id rows id) (live_contents rows order)

unfoldable pub materialize_body : ℕ → Store → Uuid → Result Text
materialize_body max_note_body_bytes s note_id = do
  order ← ok_or (get_note_order_on s note_id) not_found
  rows ← list_lines s note_id
  let live = live_contents rows order.order
  guard
      (not (
        ltb 0 max_note_body_bytes
        && ltb max_note_body_bytes (total_length live + (length live - 1))))
      (payload_too_large "note body exceeds the limit")
  ok (join_lines live)

abbrev pub new_note : Time → Uuid → Text → Uuid → Note
new_note now id title owner_id = record {
  id = id;
  title = title;
  owner_id = owner_id;
  notebook_id = none;
  is_todo = false;
  todo_due = none;
  todo_completed = none;
  created_at = now;
  updated_at = now;
  deleted_at = none;
}

-- A row of that id, deleted or not, is a unique violation. The row has the title as it was given: the column
-- holds what the cipher makes of it, which `get_note_on` reads.
unfoldable pub create_note_on : Db → Uuid → Text → Uuid → Result (Note × Db)
create_note_on db id title owner_id =
    if any (λ (n : Note). n.id == id) db.grants.notes
    then err conflict
    else let note : Note = new_note db.now id title owner_id in
      ok (note, record db { grants = record db.grants { notes = note ∷ db.grants.notes } })

module _ (max_notes_per_user : ℕ) (user_id : Uuid) (uuid_to_string : Uuid → String) where
  -- The quota is off at 0. What the error says is left out.
  abbrev pub check_quota : Db → Result (Unit {0})
  check_quota db =
      guard
        (not (
          ltb 0 max_notes_per_user
          && leb max_notes_per_user (count_live_notes_for_user_on db.grants user_id)))
        (quota_exceeded "note limit reached")

  -- `id` is the request's, or a new one.
  unfoldable pub create_note : Uuid → Text → Tables → Result (Note × Tables)
  create_note id title t = do
    check_quota t.db
    made ← create_note_on t.db id title user_id
    ok (
      made.0,
      record {
        db = made.1;
        store = initialize_note_order_on t.store t.db.now made.0.id (uuid_to_string user_id);
      },
    )

  -- `new_id k` is the id of line `k`.
  unfoldable pub insert_lines : (ℕ → Uuid) → Time → Uuid → Stamp → ℕ → List Text → Store → Store
  insert_lines new_id now note_id stamp k [] s = s
  insert_lines new_id now note_id stamp k (content ∷ lines) s =
      insert_lines new_id now note_id stamp (k + 1) lines
        (insert_line_on s now (new_id k) note_id content stamp)

  unfoldable pub ids_from : (ℕ → Uuid) → ℕ → List Text → List Uuid
  ids_from new_id k [] = []
  ids_from new_id k (content ∷ lines) = new_id k ∷ ids_from new_id (k + 1) lines

  -- `device_id` signs the lines and their order; `now` is the server's clock.
  unfoldable pub import_note :
      Uuid → (ℕ → Uuid) → Uuid → Time → Text → Text → Tables → Result ((Uuid × ℕ) × Tables)
  import_note device_id new_id new_note_id now title body t = do
    check_quota t.db
    made ← create_note_on t.db new_note_id title user_id
    let store = initialize_note_order_on t.store t.db.now made.0.id (uuid_to_string user_id)
    let writer = uuid_to_string device_id
    let lines = split_lines body
    let line_stamp : Stamp = record {
      vv = (writer, 1) ∷ [];
      last_writer = writer;
      updated_at = now;
    }
    let order_stamp : Stamp = record {
      vv = (writer, length lines) ∷ [];
      last_writer = writer;
      updated_at = now;
    }
    let filled = insert_lines new_id t.db.now made.0.id line_stamp 0 lines store
    ok (
      (made.0.id, length lines),
      record {
        db = made.1;
        store = set_note_order_on filled made.0.id (ids_from new_id 0 lines) order_stamp;
      },
    )

-- `get_note` and `export_note` read alike: the note with its body.
unfoldable pub export_note : PermissionScheme → ℕ → Uuid → Tables → Uuid → Result (Note × Text)
export_note scheme max_note_body_bytes user_id t id = do
  found ← note_access scheme user_id t.db id
  guard (can_read found.1) forbidden
  body ← materialize_body max_note_body_bytes t.store id
  ok (found.0, body)
