-- ===== src/Tests/Notes.antt =====
-- User 1 takes note 9 out of notebook 5, which is user 3's and shared with user 2; then deletes it.
use keeplin_srv.Base.{
  ℕ, ◌≡◌, refl, true, false, ◌&&◌, ◌||◌, not, Option, none, some, List, [], ◌∷◌, nat_key, find,
  update_first, filter, ok, err, contains, count_where, arith, move_blocked,
}
use keeplin_srv.Protocol.{Uuid, Time}
use keeplin_srv.External.{KeeplinCore, local}
use keeplin_srv.Permissions.{
  Note, Access, strict, from_bits, normalized, has, note_row, get_note_on, get_share_on,
  resolve_note_access_on, notebook_owner_on, inherited_capabilities_on, notebook_inheritance,
  is_user, move_out_guard,
}
use keeplin_srv.Tables.{
  Db, Resource, NotePatch, update_note_meta_on, soft_delete_note_on, cascade_resources_note_deleted,
  inherited_note_principals_on,
}
use keeplin_srv.Transactions.{Attempt, committed, serializable}
use keeplin_srv.Sharing.{note_access}
use keeplin_srv.Notes.{
  patch_of, source_notebook_owner, caps_before, caps_after, guard_source, guard_move,
  check_destination, check_update, update_note_tx, delete_note,
}
use keeplin_srv.Notes.Changes.{loses_any}
use keeplin_srv.Notes.Updates.{IsPatched, update_note_tx-tells}
use keeplin_srv.Notes.Outcomes.{guard_source-blocked}
use keeplin_srv.Notes.Deletion.{IsUnique, Deleted, delete_note-Deleted}

abbrev core : KeeplinCore
core = record {
  resolve = λ v t w v' t' w'. local;
  max_line_bytes = 8;
  max_lines_per_note = 3;
  max_notes_per_notebook = 2;
  code_line_too_long = "line_too_long";
  code_too_many_lines = "too_many_lines";
  uuid_to_string = λ id. "laptop";
}

abbrev note : Option Uuid → Time → Option Time → Note
note notebook_id updated_at deleted_at = record {
  id = 9;
  title = [];
  owner_id = 1;
  notebook_id = notebook_id;
  is_todo = false;
  todo_due = none;
  todo_completed = none;
  created_at = 1;
  updated_at = updated_at;
  deleted_at = deleted_at;
}

abbrev resource : Option Time → Resource
resource deleted_at = record { id = 7; note_id = 9; deleted_at = deleted_at }

abbrev tables : Note → Resource → Db
tables n r = record {
  now = 4;
  grants = record {
    readable = λ t. true;
    notes = n ∷ [];
    note_shares = [];
    notebooks = record { id = 5; user_id = 3; deleted_at = none } ∷ [];
    notebook_shares =
        record { notebook_id = 5; user_id = 2; capabilities = 3; created_at = 2 } ∷ [];
  };
  users = [];
  resources = r ∷ [];
}

abbrev inside : Db
inside = tables (note (some 5) 1 none) (resource none)

abbrev outside : Db
outside = tables (note none 4 none) (resource none)

abbrev move_out : NotePatch
move_out = record {
  title = none;
  notebook_id = some (some 0);
  is_todo = none;
  todo_due = none;
  todo_completed = none;
}

abbrev at_once : Db → ℕ → Attempt Db
at_once db k = record { sees = db; commit = committed }

update_note_tx_run :
    update_note_tx core strict 1 9 (patch_of move_out) inside
    ≡ ok ((note none 4 none, 3 ∷ 2 ∷ []), outside)
unfolding update_note_tx check_update note_access guard_move guard_source check_destination note_row
    resolve_note_access_on update_note_meta_on inherited_note_principals_on caps_before caps_after
    notebook_owner_on get_share_on find filter update_first from_bits normalized has
    inherited_capabilities_on move_out_guard notebook_inheritance get_note_on
update_note_tx_run = refl

update_note_tx-tells_example :
    (n : Note) × (note_row inside.grants 9 ≡ some n)
    × (note_row outside.grants 9 ≡ some (note none 4 none))
    × IsPatched (patch_of move_out) inside.now n (note none 4 none)
    × ((loses_any strict 1
            (resolve_note_access_on inside.grants strict n 2)
            (resolve_note_access_on outside.grants strict (note none 4 none) 2)
          && (is_user (source_notebook_owner inside.grants n.notebook_id) 1
              || not (contains (3 ∷ 2 ∷ []) 2)))
        ≡ false)
update_note_tx-tells_example =
    update_note_tx-tells core strict 1 inside outside 9 (patch_of move_out) (note none 4 none)
      (3 ∷ 2 ∷ []) 2 update_note_tx_run refl

guard_source_run :
    guard_source strict 3 inside.grants (note (some 5) 1 none) none 5
    ≡ err (move_blocked (2 ∷ []) [])
unfolding guard_source inherited_note_principals_on caps_before caps_after notebook_owner_on
    get_share_on find filter from_bits normalized has inherited_capabilities_on notebook_inheritance
guard_source_run = refl

guard_source-blocked_example :
    (named : List Uuid) × (move_blocked (2 ∷ []) [] ≡ move_blocked named [])
    × (is_user (notebook_owner_on inside.grants 5) 3 ≡ true)
guard_source-blocked_example =
    guard_source-blocked core strict 3 inside.grants (note (some 5) 1 none) none 5
      (move_blocked (2 ∷ []) []) guard_source_run

abbrev deleted : Db
deleted = tables (note (some 5) 4 (some 4)) (resource (some 4))

delete_note_run : (delete_note core strict 1 inside (at_once inside) 9).1 ≡ some deleted
unfolding delete_note serializable note_access note_row resolve_note_access_on soft_delete_note_on
    cascade_resources_note_deleted find update_first get_note_on
delete_note_run = refl

inside-IsUnique : (k : ℕ) → IsUnique (at_once inside k).sees.grants 9
unfolding count_where
inside-IsUnique k = omega arith

delete_note-Deleted_example :
    (k : ℕ) × (n : Note) × (a : Access) × (note_access strict 1 (at_once inside k).sees 9
      ≡ ok (n, a))
    × (a.is_owner ≡ true)
    × Deleted 9 (at_once inside k).sees deleted
delete_note-Deleted_example =
    delete_note-Deleted core strict 1 inside deleted (at_once inside) 9 inside-IsUnique
      delete_note_run
