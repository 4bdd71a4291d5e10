-- ===== src/Entities.antt =====
-- crates/keeplin-srv/src/store.rs: the tables `notebooks`, `tags` and `note_tags`, which changes of the
-- journal are projected onto. A notebook and a tag differ in what they hold besides their id, owner, times
-- and version: that part is the type `B`. The columns vv, last_writer and updated_at are one `Stamp`.
pub mod Rows
pub mod NoteTags
use keeplin_srv.Base.{
  ℕ, String, Bool, true, false, ◌&&◌, Option, none, some, List, [], ◌∷◌, find, update_first,
  if◌then◌else◌, ◌==◌, nat_key,
}
use keeplin_srv.Protocol.{Uuid, Time, Text, Stamp}
use keeplin_srv.External.{Winner, local, incoming, KeeplinCore}

pub record NotebookBody : Type 0 where
  pub title : Text
  pub alias : Option Text

pub record TagBody : Type 0 where
  pub title : Text
  pub system : Bool

pub record Entity (B : Type 0) : Type 0 where
  pub id : Uuid
  pub user_id : Uuid
  pub body : B
  pub created_at : Time
  pub deleted_at : Option Time
  pub stamp : Stamp

-- `keeplin_core::models::Notebook` and `Tag`: a row without its owner
pub record Model (B : Type 0) : Type 0 where
  pub id : Uuid
  pub body : B
  pub created_at : Time
  pub deleted_at : Option Time
  pub stamp : Stamp

-- What a deletion of an unknown entity inserts: an empty title, and the columns' defaults.
abbrev pub blank_notebook : NotebookBody
blank_notebook = record { title = []; alias = none }

abbrev pub blank_tag : TagBody
blank_tag = record { title = []; system = false }

pub record NoteTag : Type 0 where
  pub user_id : Uuid
  pub note_id : Uuid
  pub tag_id : Uuid
  pub deleted_at : Option Time
  pub stamp : Stamp

abbrev pub is_incoming : Winner → Bool
is_incoming local = false
is_incoming incoming = true

module _ (core : KeeplinCore) where
  unfoldable pub incoming_wins : Stamp → Stamp → Bool
  incoming_wins mine theirs = is_incoming (
      core.resolve mine.vv mine.updated_at mine.last_writer theirs.vv theirs.updated_at
        theirs.last_writer)

  module _ {B : Type 0} where
    abbrev pub with_id : Uuid → List (Entity B) → Option (Entity B)
    with_id id rows = find (λ (r : Entity B). r.id == id) rows

    abbrev pub is_owned : Uuid → Uuid → Entity B → Bool
    is_owned id user_id r = r.id == id && r.user_id == user_id

    abbrev pub new_entity : Uuid → Model B → Entity B
    new_entity user_id m = record {
      id = m.id;
      user_id = user_id;
      body = m.body;
      created_at = m.created_at;
      deleted_at = m.deleted_at;
      stamp = m.stamp;
    }

    abbrev pub replaced : Model B → Entity B → Entity B
    replaced m r = record r { body = m.body; deleted_at = m.deleted_at; stamp = m.stamp }

    -- `INSERT … ON CONFLICT (id) DO UPDATE … WHERE user_id = EXCLUDED.user_id`
    unfoldable pub write : List (Entity B) → Uuid → Model B → List (Entity B)
    write rows user_id m = elim (with_id m.id rows) [
      | none ↦ new_entity user_id m ∷ rows
      | some r ↦ update_first (is_owned m.id user_id) (replaced m) rows
    ]

    -- Whether the statement may go on: no row of the user's, or an older one.
    unfoldable pub may_write : List (Entity B) → Uuid → Uuid → Stamp → Bool
    unfolding incoming_wins
    may_write rows user_id id stamp = elim (find (is_owned id user_id) rows) [
      | none ↦ true
      | some r ↦ incoming_wins r.stamp stamp
    ]

    -- `upsert_notebook` and `upsert_tag`
    unfoldable pub upsert : List (Entity B) → Uuid → Model B → Bool × List (Entity B)
    unfolding write may_write
    upsert rows user_id m =
        if may_write rows user_id m.id m.stamp then (true, write rows user_id m) else (false, rows)

    abbrev pub buried : Time → Stamp → Entity B → Entity B
    buried deleted_at stamp r = record r {
      deleted_at = some deleted_at;
      stamp = record stamp { updated_at = deleted_at };
    }

    abbrev pub tombstone : B → Uuid → Uuid → Time → Stamp → Entity B
    tombstone blank user_id id deleted_at stamp = record {
      id = id;
      user_id = user_id;
      body = blank;
      created_at = deleted_at;
      deleted_at = some deleted_at;
      stamp = record stamp { updated_at = deleted_at };
    }

    -- `UPDATE` of a row that existed, or `INSERT … ON CONFLICT (id) DO NOTHING`
    unfoldable pub bury : B → List (Entity B) → Uuid → Uuid → Time → Stamp → List (Entity B)
    bury blank rows user_id id deleted_at stamp = elim (find (is_owned id user_id) rows) [
      | some r ↦ update_first (is_owned id user_id) (buried deleted_at stamp) rows
      | none ↦ elim (with_id id rows) [
        | none ↦ tombstone blank user_id id deleted_at stamp ∷ rows
        | some r ↦ rows
      ]
    ]

    -- `delete_notebook` and `delete_tag`: a deletion is compared by its time of deletion.
    unfoldable pub delete_entity :
        B → List (Entity B) → Uuid → Uuid → Time → Stamp → Bool × List (Entity B)
    unfolding bury may_write
    delete_entity blank rows user_id id deleted_at stamp =
        if may_write rows user_id id (record stamp { updated_at = deleted_at })
        then (true, bury blank rows user_id id deleted_at stamp)
        else (false, rows)

  abbrev pub upsert_notebook :
      List (Entity NotebookBody) → Uuid → Model NotebookBody → Bool × List (Entity NotebookBody)
  upsert_notebook rows user_id nb = upsert rows user_id nb

  abbrev pub delete_notebook :
      List (Entity NotebookBody) → Uuid → Uuid → Time → Stamp → Bool × List (Entity NotebookBody)
  delete_notebook rows user_id id deleted_at stamp =
      delete_entity blank_notebook rows user_id id deleted_at stamp

  abbrev pub upsert_tag :
      List (Entity TagBody) → Uuid → Model TagBody → Bool × List (Entity TagBody)
  upsert_tag rows user_id tag = upsert rows user_id tag

  abbrev pub delete_tag :
      List (Entity TagBody) → Uuid → Uuid → Time → Stamp → Bool × List (Entity TagBody)
  delete_tag rows user_id id deleted_at stamp =
      delete_entity blank_tag rows user_id id deleted_at stamp

  abbrev pub is_note_tag : Uuid → Uuid → Uuid → NoteTag → Bool
  is_note_tag user_id note_id tag_id t =
      t.user_id == user_id && t.note_id == note_id && t.tag_id == tag_id

  unfoldable pub write_note_tag : List NoteTag → NoteTag → List NoteTag
  write_note_tag rows t = elim (find (is_note_tag t.user_id t.note_id t.tag_id) rows) [
    | none ↦ t ∷ rows
    | some r ↦
        update_first (is_note_tag t.user_id t.note_id t.tag_id)
          (λ (old : NoteTag). record old { deleted_at = t.deleted_at; stamp = t.stamp }) rows
  ]

  unfoldable pub upsert_note_tag : List NoteTag → NoteTag → Bool × List NoteTag
  unfolding write_note_tag incoming_wins
  upsert_note_tag rows t = elim (find (is_note_tag t.user_id t.note_id t.tag_id) rows) [
    | none ↦ (true, write_note_tag rows t)
    | some r ↦
        if incoming_wins r.stamp t.stamp then (true, write_note_tag rows t) else (false, rows)
  ]
