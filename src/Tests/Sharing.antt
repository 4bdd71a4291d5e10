-- ===== src/Tests/Sharing.antt =====
-- Note 9 of user 1, in notebook 5, is shared with user 2, and then handed over; the notebook too.
use keeplin_srv.Base.{
  true, ℕ, ◌≡◌, refl, false, ◌&&◌, none, some, List, [], ◌∷◌, if◌then◌else◌, ◌==◌, nat_key, find,
  update_first, filter, coded,
}
use keeplin_srv.Protocol.{Uuid}
use keeplin_srv.External.{StdText}
use keeplin_srv.Permissions.{
  Note, NoteShare, NotebookShare, strict, from_bits, normalized, has, note_row, get_note_on,
  get_share_on, resolve_note_access_on, resolve_notebook_access_on, notebook_owner_on,
  inherited_capabilities_on, notebook_bits, get_notebook_share_on, notebook_inheritance,
}
use keeplin_srv.Tables.{
  Db, User, get_user_by_id_on, create_or_update_share_on, delete_share_on, set_note_owner_on,
  set_notebook_owner_on, create_or_update_notebook_share_on, delete_notebook_share_on,
}
use keeplin_srv.Tables.Rows.{notebook_grant}
use keeplin_srv.Projection.{is_serialization_failure}
use keeplin_srv.Transactions.{Attempt, committed, commit_failed, serializable}
use keeplin_srv.Transactions.Atomicity.{IsAtomic, serializable-IsAtomic}
use keeplin_srv.Sharing.{
  Target, note_access, resolve_target, create_share, delete_share, transfer_ownership,
  create_notebook_share, transfer_notebook, create_share_tx,
}
use keeplin_srv.Sharing.Checks.{IsNamed}
use keeplin_srv.Sharing.Requests.{
  OnlyGrant, MayShare, MayRevoke, create_share-OnlyGrant, delete_share-OnlyGrant,
}
use keeplin_srv.Sharing.Owners.{MayHandOver, HandedOver, transfer_ownership-HandedOver}
use keeplin_srv.Sharing.Notebooks.{
  MayShareNotebook, OnlyNotebookGrant, MayHandOverNotebook, create_notebook_share-OnlyNotebookGrant,
  transfer_notebook-owner,
}
use keeplin_srv.Sharing.Effects.{HasShare, create_share-HasShare}

abbrev std : StdText
std = record { trim = λ t. t; to_lowercase = λ t. t }

abbrev user : Uuid → User
user id = record {
  id = id;
  email = id ∷ [];
  password_hash = [];
  display_name = [];
  created_at = 1;
  email_verified_at = none;
}

abbrev note : Uuid → Note
note owner_id = record {
  id = 9;
  title = [];
  owner_id = owner_id;
  notebook_id = some 5;
  is_todo = false;
  todo_due = none;
  todo_completed = none;
  created_at = 1;
  updated_at = 4;
  deleted_at = none;
}

abbrev share : NoteShare
share = record { note_id = 9; user_id = 2; capabilities = 3; created_at = 4 }

abbrev notebook_share : NotebookShare
notebook_share = record { notebook_id = 5; user_id = 2; capabilities = 3; created_at = 4 }

abbrev tables : Uuid → List NoteShare → Uuid → List NotebookShare → Db
tables owner_id shares notebook_owner notebook_shares = record {
  now = 4;
  grants = record {
    readable = λ t. true;
    notes = note owner_id ∷ [];
    note_shares = shares;
    notebooks = record { id = 5; user_id = notebook_owner; deleted_at = none } ∷ [];
    notebook_shares = notebook_shares;
  };
  users = user 1 ∷ user 2 ∷ [];
  resources = [];
}

abbrev before : Db
before = tables 1 [] 1 []

abbrev shared : Db
shared = tables 1 (share ∷ []) 1 []

-- The first commit meets a conflict.
abbrev second_try : Db → ℕ → Attempt Db
second_try db k = record {
  sees = db;
  commit = if k == 1 then commit_failed (coded "40001") else committed;
}

abbrev to_user : Uuid → Target
to_user id = record { user_id = some id; user_email = none }

create_share_run :
    (create_share std strict 1 before (second_try before) 9 2 (to_user 2)).1 ≡ some shared
unfolding create_share note_access resolve_target serializable is_serialization_failure note_row
    resolve_note_access_on get_user_by_id_on create_or_update_share_on find from_bits normalized has
    get_note_on
create_share_run = refl

create_share-OnlyGrant_example :
    (k : ℕ) × (target : Uuid) × IsNamed std before (to_user 2) target
    × MayShare std strict 1 (second_try before k).sees 9 (from_bits 2) target
    × OnlyGrant 9 target (some (from_bits 2)) (second_try before k).sees shared
    × ((from_bits 2 == 0) ≡ false)
create_share-OnlyGrant_example =
    create_share-OnlyGrant std strict 1 before shared (second_try before) 9 2 (to_user 2)
      create_share_run

create_share-HasShare_example :
    (target : Uuid) × IsNamed std before (to_user 2) target
    × (note : Note) × (note_row shared.grants 9 ≡ some note)
    × HasShare (from_bits 2) shared.grants strict note target
create_share-HasShare_example =
    create_share-HasShare std strict 1 before shared (second_try before) 9 2 (to_user 2)
      create_share_run

delete_share_run : (delete_share std strict 2 shared (second_try shared) 9 2).1 ≡ some before
unfolding delete_share note_access serializable is_serialization_failure note_row
    resolve_note_access_on get_share_on delete_share_on find filter from_bits normalized has
    inherited_capabilities_on notebook_bits notebook_owner_on get_notebook_share_on
    notebook_inheritance get_note_on
delete_share_run = refl

delete_share-OnlyGrant_example :
    (k : ℕ) × MayRevoke std strict 2 (second_try shared k).sees 9 2
    × OnlyGrant 9 2 none (second_try shared k).sees before
delete_share-OnlyGrant_example =
    delete_share-OnlyGrant std strict 2 shared before (second_try shared) 9 2 delete_share_run

abbrev handed_over : Db
handed_over = tables 2 [] 1 []

transfer_ownership_run :
    (transfer_ownership std strict 1 shared (second_try shared) 9 (to_user 2)).1 ≡ some handed_over
unfolding transfer_ownership note_access resolve_target serializable is_serialization_failure
    note_row resolve_note_access_on get_user_by_id_on delete_share_on set_note_owner_on find filter
    update_first get_note_on
transfer_ownership_run = refl

transfer_ownership-HandedOver_example :
    (k : ℕ) × (target : Uuid) × IsNamed std shared (to_user 2) target
    × MayHandOver std strict 1 (second_try shared k).sees 9 target
    × HandedOver 9 target (second_try shared k).sees handed_over
transfer_ownership-HandedOver_example =
    transfer_ownership-HandedOver std strict 1 shared handed_over (second_try shared) 9 (to_user 2)
      transfer_ownership_run

abbrev notebook_shared : Db
notebook_shared = tables 1 [] 1 (notebook_share ∷ [])

create_notebook_share_run :
    (create_notebook_share std strict 1 before (second_try before) 5 2 (to_user 2)).1
    ≡ some notebook_shared
unfolding create_notebook_share resolve_target serializable is_serialization_failure
    notebook_owner_on resolve_notebook_access_on get_user_by_id_on
    create_or_update_notebook_share_on find from_bits normalized has
create_notebook_share_run = refl

create_notebook_share-OnlyNotebookGrant_example :
    (k : ℕ) × (target : Uuid) × IsNamed std before (to_user 2) target
    × MayShareNotebook std strict 1 (second_try before k).sees 5 (from_bits 2) target
    × OnlyNotebookGrant 5 target (some (from_bits 2)) (second_try before k).sees notebook_shared
create_notebook_share-OnlyNotebookGrant_example =
    create_notebook_share-OnlyNotebookGrant std strict 1 before notebook_shared (second_try before)
      5 2 (to_user 2) create_notebook_share_run

abbrev notebook_moved : Db
notebook_moved = tables 1 [] 2 []

transfer_notebook_run :
    (transfer_notebook std strict 1 notebook_shared (second_try notebook_shared) 5 (to_user 2)).1
    ≡ some notebook_moved
unfolding transfer_notebook resolve_target serializable is_serialization_failure notebook_owner_on
    resolve_notebook_access_on get_user_by_id_on set_notebook_owner_on delete_notebook_share_on find
    filter update_first
transfer_notebook_run = refl

transfer_notebook-owner_example :
    (k : ℕ) × (target : Uuid) × IsNamed std notebook_shared (to_user 2) target
    × MayHandOverNotebook std strict 1 (second_try notebook_shared k).sees 5 target
    × ((m : Uuid)
        → notebook_owner_on notebook_moved.grants m ≡ (
            if 5 == m
            then some target
            else notebook_owner_on (second_try notebook_shared k).sees.grants m))
    × ((m v : Uuid)
        → notebook_grant notebook_moved.grants m v ≡ (
            if 5 == m && target == v
            then none
            else notebook_grant (second_try notebook_shared k).sees.grants m v))
transfer_notebook-owner_example =
    transfer_notebook-owner std strict 1 notebook_shared notebook_moved (second_try notebook_shared)
      5 (to_user 2) transfer_notebook_run

serializable-IsAtomic_example :
    IsAtomic
      (create_share_tx std strict 1 9 2 2)
      (second_try before)
      (serializable (create_share_tx std strict 1 9 2 2) (second_try before)).0
      (serializable (create_share_tx std strict 1 9 2 2) (second_try before)).1
serializable-IsAtomic_example =
    serializable-IsAtomic (create_share_tx std strict 1 9 2 2) (second_try before)
