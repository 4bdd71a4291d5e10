-- ===== src/Entities/NoteTags.antt =====
-- crates/keeplin-srv/src/store.rs: what `upsert_note_tag` does to each row of `note_tags`.
use keeplin_srv.Base.{
  ◌≡◌, refl, true, Option, none, some, List, [], ◌∷◌, find, update_first, if◌then◌else◌, nat_key,
  arith, Option-cases, Bool-cases, inl, inr,
}
use mathlib.Core.Option
use keeplin_srv.Protocol.{Uuid}
use keeplin_srv.External.{KeeplinCore}
use keeplin_srv.Entities.{NoteTag, incoming_wins, is_note_tag, write_note_tag, upsert_note_tag}

module _ (core : KeeplinCore) where
  abbrev pub tag_row : Uuid → Uuid → Uuid → List NoteTag → Option NoteTag
  tag_row user note tag rows = find (is_note_tag core user note tag) rows

  abbrev pub retag : NoteTag → NoteTag → NoteTag
  retag t old = record old { deleted_at = t.deleted_at; stamp = t.stamp }

  -- The row of a note and a tag after an upsert: new, or the newer of the two.
  abbrev pub tagged : NoteTag → Option NoteTag → Option NoteTag
  tagged t none = some t
  tagged t (some r) = if incoming_wins core r.stamp t.stamp then some (retag t r) else some r

  tag_row-update :
      (t : NoteTag) (user note tag : Uuid) (rows : List NoteTag)
      → tag_row user note tag
          (update_first (is_note_tag core t.user_id t.note_id t.tag_id) (retag t) rows)
        ≡ (if is_note_tag core user note tag t
            then Option.map (retag t) (tag_row user note tag rows)
            else tag_row user note tag rows)
  unfolding find update_first
  tag_row-update t user note tag [] = ground arith
  tag_row-update t user note tag (r ∷ rows) = ground (arith, tag_row-update t user note tag rows)

  tag_row-same :
      (t : NoteTag) (user note tag : Uuid) (rows : List NoteTag)
      → is_note_tag core user note tag t ≡ true
      → tag_row user note tag rows ≡ tag_row t.user_id t.note_id t.tag_id rows
  unfolding find
  tag_row-same t user note tag [] h = refl
  tag_row-same t user note tag (r ∷ rows) h = ground (arith, tag_row-same t user note tag rows h)

  upsert-none :
      (rows : List NoteTag) (t : NoteTag)
      → tag_row t.user_id t.note_id t.tag_id rows ≡ none
      → (upsert_note_tag core rows t).1 ≡ t ∷ rows
  unfolding upsert_note_tag write_note_tag
  upsert-none rows t e = rw (upsert_note_tag, e, write_note_tag, e) refl

  upsert-some :
      (rows : List NoteTag) (t r : NoteTag)
      → tag_row t.user_id t.note_id t.tag_id rows ≡ some r
      → (upsert_note_tag core rows t).1 ≡ (
          if incoming_wins core r.stamp t.stamp
          then update_first (is_note_tag core t.user_id t.note_id t.tag_id) (retag t) rows
          else rows)
  unfolding upsert_note_tag write_note_tag
  upsert-some rows t r e = elim (Bool-cases (incoming_wins core r.stamp t.stamp)) [
    | inl y ↦ rw (upsert_note_tag, e, y, write_note_tag, e) refl
    | inr n ↦ rw (upsert_note_tag, e, n) refl
  ]

  -- An upsert of a note's tag changes the row of its user, note and tag alone, to a new row or to the newer
  -- of the two.
  pub upsert_note_tag-tag_row :
      (rows : List NoteTag) (t : NoteTag) (user note tag : Uuid)
      → tag_row user note tag (upsert_note_tag core rows t).1 ≡ (
          if is_note_tag core user note tag t
          then tagged t (tag_row user note tag rows)
          else tag_row user note tag rows)
  unfolding find
  upsert_note_tag-tag_row rows t user note tag =
      elim (Option-cases (tag_row t.user_id t.note_id t.tag_id rows)) [
        | inl e ↦ rw (upsert-none rows t e) (ground (arith, tag_row-same t user note tag rows, e))
        | inr (r, e) ↦ rw (upsert-some rows t r e) (
            ground
              (arith, tag_row-same t user note tag rows, e, tag_row-update t user note tag rows))
      ]
