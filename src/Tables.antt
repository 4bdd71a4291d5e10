-- ===== src/Tables.antt =====
-- crates/keeplin-srv/src/store.rs: the tables `users` and `resources` beside those of Permissions, and the
-- statements by which handlers change notes, shares and owners. A title stands in its row as it was given,
-- as the content of a line does. The statements that hand over or delete a note return one whose title has
-- been read before in the same transaction.
pub mod Rows
use keeplin_srv.Base.{
  ℕ, String, Bool, true, false, not, ◌&&◌, Option, none, some, List, [], ◌∷◌, ◌++◌, map, find,
  filter, update_first, count_where, is_none, is_some, if◌then◌else◌, ◌==◌, nat_key, Result,
}
use mathlib.Core.Option
use keeplin_srv.Protocol.{Uuid, Time, Text}
use keeplin_srv.Permissions.{
  Note, NoteShare, NotebookShare, Notebook, Grants, note_row, decrypted_title, notebook_owner_on,
  all,
}

pub record User : Type 0 where
  pub id : Uuid
  pub email : Text
  pub password_hash : Text
  pub display_name : Text
  pub created_at : Time
  pub email_verified_at : Option Time

-- The columns of `resources` that a deletion of their note changes.
pub record Resource : Type 0 where
  pub id : Uuid
  pub note_id : Uuid
  pub deleted_at : Option Time

-- `now` is the clock, as the transaction that reads the tables has it.
pub record Db : Type 0 where
  pub now : Time
  pub grants : Grants
  pub users : List User
  pub resources : List Resource

pub record NotePatch : Type 0 where
  pub title : Option Text
  pub notebook_id : Option (Option Uuid)
  pub is_todo : Option Bool
  pub todo_due : Option (Option Time)
  pub todo_completed : Option (Option Time)

unfoldable pub get_user_by_id_on : Db → Uuid → Option User
get_user_by_id_on db id = find (λ (u : User). u.id == id) db.users

abbrev pub text_eq : Text → Text → Bool
text_eq [] [] = true
text_eq [] (y ∷ ys) = false
text_eq (x ∷ xs) [] = false
text_eq (x ∷ xs) (y ∷ ys) = (x == y) && text_eq xs ys

unfoldable pub get_user_by_email_on : Db → Text → Option User
get_user_by_email_on db email = find (λ (u : User). text_eq u.email email) db.users

-- `WHERE id = $1 AND deleted_at IS NULL`
abbrev pub is_live_note : Uuid → Note → Bool
is_live_note id n = n.id == id && is_none n.deleted_at

abbrev pub edit_note : Uuid → (Note → Note) → Grants → Grants
edit_note id f g = record g { notes = update_first (is_live_note id) f g.notes }

abbrev pub is_share_of : Uuid → Uuid → NoteShare → Bool
is_share_of note_id user_id s = s.note_id == note_id && s.user_id == user_id

-- `ON CONFLICT … DO UPDATE SET capabilities`: a row that is there keeps its date.
unfoldable pub create_or_update_share_on : Grants → Time → Uuid → Uuid → ℕ → NoteShare × Grants
create_or_update_share_on g now note_id user_id capabilities =
    elim (find (is_share_of note_id user_id) g.note_shares) [
      | some s ↦ (
        record s { capabilities = capabilities },
        record g {
          note_shares =
              update_first (is_share_of note_id user_id)
                (λ (s : NoteShare). record s { capabilities = capabilities }) g.note_shares;
        },
      )
      | none ↦
          let s : NoteShare = record {
            note_id = note_id;
            user_id = user_id;
            capabilities = capabilities;
            created_at = now;
          } in
          (s, record g { note_shares = s ∷ g.note_shares })
    ]

unfoldable pub delete_share_on : Grants → Uuid → Uuid → Bool × Grants
delete_share_on g note_id user_id = (
  is_some (find (is_share_of note_id user_id) g.note_shares),
  record g { note_shares = filter (λ s. not (is_share_of note_id user_id s)) g.note_shares },
)

unfoldable pub set_note_owner_on : Grants → Time → Uuid → Uuid → Option Note × Grants
set_note_owner_on g now id new_owner =
    let f : Note → Note = λ n. record n { owner_id = new_owner; updated_at = now } in
    (Option.map f (note_row g id), edit_note id f g)

abbrev pub patched {ℓ} : {A : Type ℓ} → Option A → A → A
patched none old = old
patched (some new) old = new

abbrev pub apply_patch : Time → NotePatch → Note → Note
apply_patch now p n = record n {
  title = patched p.title n.title;
  notebook_id = patched p.notebook_id n.notebook_id;
  is_todo = patched p.is_todo n.is_todo;
  todo_due = patched p.todo_due n.todo_due;
  todo_completed = patched p.todo_completed n.todo_completed;
  updated_at = now;
}

-- What the statement returns is decrypted, with the title that the patch may have given.
unfoldable pub update_note_meta_on :
    Grants → Time → Uuid → NotePatch → Result (Option Note) × Grants
update_note_meta_on g now id patch = (
  decrypted_title g.readable (Option.map (apply_patch now patch) (note_row g id)),
  edit_note id (apply_patch now patch) g,
)

abbrev pub cascade_row : Uuid → Time → Resource → Resource
cascade_row note_id deleted_at r =
    if r.note_id == note_id && is_none r.deleted_at
    then record r { deleted_at = some deleted_at }
    else r

unfoldable pub cascade_resources_note_deleted : List Resource → Uuid → Time → List Resource
cascade_resources_note_deleted rows note_id deleted_at = map (cascade_row note_id deleted_at) rows

-- The tombstone and the cascade commit together; nothing is deleted if no live note has the id.
unfoldable pub soft_delete_note_on : Db → Uuid → Option Note × Db
unfolding cascade_resources_note_deleted
soft_delete_note_on db id =
    let f : Note → Note = λ n. record n { deleted_at = some db.now; updated_at = db.now } in
    elim (note_row db.grants id) [
      | none ↦ (none, db)
      | some n ↦ (
        some (f n),
        record db {
          grants = edit_note id f db.grants;
          resources = cascade_resources_note_deleted db.resources id db.now;
        },
      )
    ]

abbrev pub is_live_notebook : Uuid → Notebook → Bool
is_live_notebook id nb = nb.id == id && is_none nb.deleted_at

unfoldable pub set_notebook_owner_on : Grants → Uuid → Uuid → Option Uuid × Grants
set_notebook_owner_on g id new_owner = (
  Option.map (λ (owner : Uuid). id) (notebook_owner_on g id),
  record g {
    notebooks =
        update_first (is_live_notebook id) (λ (nb : Notebook). record nb { user_id = new_owner })
          g.notebooks;
  },
)

abbrev pub is_notebook_share_of : Uuid → Uuid → NotebookShare → Bool
is_notebook_share_of notebook_id user_id s = s.notebook_id == notebook_id && s.user_id == user_id

unfoldable pub create_or_update_notebook_share_on :
    Grants → Time → Uuid → Uuid → ℕ → NotebookShare × Grants
create_or_update_notebook_share_on g now notebook_id user_id capabilities =
    elim (find (is_notebook_share_of notebook_id user_id) g.notebook_shares) [
      | some s ↦ (
        record s { capabilities = capabilities },
        record g {
          notebook_shares =
              update_first (is_notebook_share_of notebook_id user_id)
                (λ (s : NotebookShare). record s { capabilities = capabilities }) g.notebook_shares;
        },
      )
      | none ↦
          let s : NotebookShare = record {
            notebook_id = notebook_id;
            user_id = user_id;
            capabilities = capabilities;
            created_at = now;
          } in
          (s, record g { notebook_shares = s ∷ g.notebook_shares })
    ]

unfoldable pub delete_notebook_share_on : Grants → Uuid → Uuid → Bool × Grants
delete_notebook_share_on g notebook_id user_id = (
  is_some (find (is_notebook_share_of notebook_id user_id) g.notebook_shares),
  record g {
    notebook_shares =
        filter (λ s. not (is_notebook_share_of notebook_id user_id s)) g.notebook_shares;
  },
)

abbrev pub named_shares : Uuid → List NotebookShare → List (Uuid × ℕ)
named_shares notebook_id [] = []
named_shares notebook_id (s ∷ rows) =
    let rest = named_shares notebook_id rows in
    if s.notebook_id == notebook_id then (s.user_id, s.capabilities) ∷ rest else rest

-- The shares `UNION` the owner with every capability: a row that is the owner's stands once.
abbrev pub with_owner : Option Uuid → List (Uuid × ℕ) → List (Uuid × ℕ)
with_owner none rows = []
with_owner (some owner) rows =
    (owner, all) ∷ filter (λ (r : Uuid × ℕ). not (r.0 == owner && r.1 == all)) rows

unfoldable pub inherited_note_principals_on : Grants → Uuid → List (Uuid × ℕ)
inherited_note_principals_on g notebook_id =
    with_owner (notebook_owner_on g notebook_id) (named_shares notebook_id g.notebook_shares)

unfoldable pub count_live_notes_in_notebook_on : Grants → Uuid → ℕ
count_live_notes_in_notebook_on g notebook_id =
    count_where
      (λ (n : Note). elim n.notebook_id [
        | none ↦ false
        | some nb ↦ nb == notebook_id && is_none n.deleted_at
      ])
      g.notes

unfoldable pub count_live_notes_for_user_on : Grants → Uuid → ℕ
count_live_notes_for_user_on g user_id =
    count_where (λ (n : Note). n.owner_id == user_id && is_none n.deleted_at) g.notes

-- Rows as the lists hold them: the order of `created_at` is not modelled.
unfoldable pub list_shares : Grants → Uuid → List NoteShare
list_shares g note_id = filter (λ (s : NoteShare). s.note_id == note_id) g.note_shares

unfoldable pub list_notebook_shares : Grants → Uuid → List NotebookShare
list_notebook_shares g notebook_id =
    filter (λ (s : NotebookShare). s.notebook_id == notebook_id) g.notebook_shares
