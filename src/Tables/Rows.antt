-- ===== src/Tables/Rows.antt =====
-- crates/keeplin-srv/src/store.rs: what the statements on notes, shares and owners do to what is read of
-- the tables.
use keeplin_srv.Base.{
  ℕ, ◌≡◌, refl, true, not, ◌&&◌, Option, none, some, List, [], ◌∷◌, find, filter, update_first,
  if◌then◌else◌, ◌==◌, nat_key, arith, Option-cases, inl, inr, is_some, ◌⊎◌, Bool-cases, ok, err,
  unreadable,
}
use mathlib.Core.Option
use keeplin_srv.Protocol.{Uuid, Time}
use keeplin_srv.Permissions.{
  Note, NoteShare, NotebookShare, Notebook, Grants, note_row, get_note_on, notebook_owner_on,
}
use keeplin_srv.Tables.{
  is_share_of, create_or_update_share_on, delete_share_on, edit_note, is_live_note,
  is_notebook_share_of, create_or_update_notebook_share_on, delete_notebook_share_on,
  set_notebook_owner_on, is_live_notebook,
}

-- What is stored for a user on a note, and on a notebook that may be deleted.
abbrev pub note_grant : Grants → Uuid → Uuid → Option ℕ
note_grant g m v =
    Option.map (λ (s : NoteShare). s.capabilities) (find (is_share_of m v) g.note_shares)

abbrev pub notebook_grant : Grants → Uuid → Uuid → Option ℕ
notebook_grant g m v =
    Option.map (λ (s : NotebookShare). s.capabilities)
      (find (is_notebook_share_of m v) g.notebook_shares)

abbrev note_cell : List NoteShare → Uuid → Uuid → Option ℕ
note_cell rows m v = Option.map (λ (s : NoteShare). s.capabilities) (find (is_share_of m v) rows)

abbrev notebook_cell : List NotebookShare → Uuid → Uuid → Option ℕ
notebook_cell rows m v =
    Option.map (λ (s : NotebookShare). s.capabilities) (find (is_notebook_share_of m v) rows)

note_cell-update :
    (n u m v : Uuid) (c : ℕ) (rows : List NoteShare)
    → is_some (find (is_share_of n u) rows) ≡ true
    → note_cell
        (update_first (is_share_of n u) (λ (s : NoteShare). record s { capabilities = c }) rows)
        m
        v
      ≡ (if n == m && u == v then some c else note_cell rows m v)
unfolding find update_first
note_cell-update n u m v c [] h = ground arith
note_cell-update n u m v c (s ∷ rows) h = ground (arith, note_cell-update n u m v c rows)

note_cell-filter :
    (n u m v : Uuid) (rows : List NoteShare)
    → note_cell (filter (λ s. not (is_share_of n u s)) rows) m v
      ≡ (if n == m && u == v then none else note_cell rows m v)
unfolding find filter
note_cell-filter n u m v [] = ground arith
note_cell-filter n u m v (s ∷ rows) = ground (arith, note_cell-filter n u m v rows)

notebook_cell-update :
    (n u m v : Uuid) (c : ℕ) (rows : List NotebookShare)
    → is_some (find (is_notebook_share_of n u) rows) ≡ true
    → notebook_cell
        (update_first
          (is_notebook_share_of n u)
          (λ (s : NotebookShare). record s { capabilities = c })
          rows)
        m
        v
      ≡ (if n == m && u == v then some c else notebook_cell rows m v)
unfolding find update_first
notebook_cell-update n u m v c [] h = ground arith
notebook_cell-update n u m v c (s ∷ rows) h = ground (arith, notebook_cell-update n u m v c rows)

notebook_cell-filter :
    (n u m v : Uuid) (rows : List NotebookShare)
    → notebook_cell (filter (λ s. not (is_notebook_share_of n u s)) rows) m v
      ≡ (if n == m && u == v then none else notebook_cell rows m v)
unfolding find filter
notebook_cell-filter n u m v [] = ground arith
notebook_cell-filter n u m v (s ∷ rows) = ground (arith, notebook_cell-filter n u m v rows)

module _ (g : Grants) (n u m v : Uuid) where
  pub note_grant-create_or_update :
      (now : Time) (c : ℕ)
      → note_grant (create_or_update_share_on g now n u c).1 m v
        ≡ (if n == m && u == v then some c else note_grant g m v)
  unfolding create_or_update_share_on
  note_grant-create_or_update now c = elim (Option-cases (find (is_share_of n u) g.note_shares)) [
    | inl e ↦ rw (create_or_update_share_on, e) (unfold find in ground (arith, e))
    | inr (s, e) ↦
        rw (create_or_update_share_on, e) (note_cell-update n u m v c g.note_shares (rw e refl))
  ]

  pub note_grant-delete :
      note_grant (delete_share_on g n u).1 m v
      ≡ (if n == m && u == v then none else note_grant g m v)
  unfolding delete_share_on
  note_grant-delete = note_cell-filter n u m v g.note_shares

  pub notebook_grant-create_or_update :
      (now : Time) (c : ℕ)
      → notebook_grant (create_or_update_notebook_share_on g now n u c).1 m v
        ≡ (if n == m && u == v then some c else notebook_grant g m v)
  unfolding create_or_update_notebook_share_on
  notebook_grant-create_or_update now c =
      elim (Option-cases (find (is_notebook_share_of n u) g.notebook_shares)) [
        | inl e ↦ rw (create_or_update_notebook_share_on, e) (unfold find in ground (arith, e))
        | inr (s, e) ↦
            rw (create_or_update_notebook_share_on, e)
              (notebook_cell-update n u m v c g.notebook_shares (rw e refl))
      ]

  pub notebook_grant-delete :
      notebook_grant (delete_notebook_share_on g n u).1 m v
      ≡ (if n == m && u == v then none else notebook_grant g m v)
  unfolding delete_notebook_share_on
  notebook_grant-delete = notebook_cell-filter n u m v g.notebook_shares

abbrev pub SameButShares : Grants → Grants → Type 0
SameButShares g h =
    (g.notes ≡ h.notes) × (g.notebooks ≡ h.notebooks) × (g.notebook_shares ≡ h.notebook_shares)

pub create_or_update_share_on-frame :
    (g : Grants) (n u : Uuid) (now : Time) (c : ℕ)
    → SameButShares (create_or_update_share_on g now n u c).1 g
unfolding create_or_update_share_on
create_or_update_share_on-frame g n u now c = (ground arith, ground arith, ground arith)

pub delete_share_on-frame : (g : Grants) (n u : Uuid) → SameButShares (delete_share_on g n u).1 g
unfolding delete_share_on
delete_share_on-frame g n u = (refl, refl, refl)

abbrev pub SameButNotebookShares : Grants → Grants → Type 0
SameButNotebookShares g h =
    (g.notes ≡ h.notes) × (g.notebooks ≡ h.notebooks) × (g.note_shares ≡ h.note_shares)

pub create_or_update_notebook_share_on-frame :
    (g : Grants) (n u : Uuid) (now : Time) (c : ℕ)
    → SameButNotebookShares (create_or_update_notebook_share_on g now n u c).1 g
unfolding create_or_update_notebook_share_on
create_or_update_notebook_share_on-frame g n u now c = (ground arith, ground arith, ground arith)

pub delete_notebook_share_on-frame :
    (g : Grants) (n u : Uuid) → SameButNotebookShares (delete_notebook_share_on g n u).1 g
unfolding delete_notebook_share_on
delete_notebook_share_on-frame g n u = (refl, refl, refl)

-- An update of a live note that keeps its id and leaves it alive.
abbrev live_note : List Note → Uuid → Option Note
live_note rows m = find (is_live_note m) rows

live_note-update :
    (id m : Uuid) (f : Note → Note) (rows : List Note)
    → ((n : Note) → ((f n).id ≡ n.id) × ((f n).deleted_at ≡ n.deleted_at))
    → live_note (update_first (is_live_note id) f rows) m
      ≡ (if id == m then Option.map f (live_note rows m) else live_note rows m)
unfolding find update_first
live_note-update id m f [] keeps = ground arith
live_note-update id m f (n ∷ rows) keeps =
    ground (arith, keeps n, live_note-update id m f rows keeps)

pub note_row-edit :
    (id m : Uuid) (f : Note → Note) (g : Grants)
    → ((n : Note) → ((f n).id ≡ n.id) × ((f n).deleted_at ≡ n.deleted_at))
    → note_row (edit_note id f g) m
      ≡ (if id == m then Option.map f (note_row g m) else note_row g m)
unfolding note_row
note_row-edit id m f g keeps = live_note-update id m f g.notes keeps

live_note-id : (id : Uuid) (n : Note) (rows : List Note) → live_note rows id ≡ some n → n.id ≡ id
unfolding find
live_note-id id n [] h = ground (arith, h)
live_note-id id n (x ∷ rows) h = ground (arith, live_note-id id n rows)

-- A note that is found has the id that is looked for.
pub note_row-id : (g : Grants) (id : Uuid) (n : Note) → note_row g id ≡ some n → n.id ≡ id
unfolding note_row
note_row-id g id n h = live_note-id id n g.notes h

abbrev owner_cell : List Notebook → Uuid → Option Uuid
owner_cell rows m = Option.map (λ (nb : Notebook). nb.user_id) (find (is_live_notebook m) rows)

owner_cell-update :
    (id m new_owner : Uuid) (rows : List Notebook)
    → owner_cell
        (update_first
          (is_live_notebook id)
          (λ (nb : Notebook). record nb { user_id = new_owner })
          rows)
        m
      ≡ (if id == m && is_some (owner_cell rows id) then some new_owner else owner_cell rows m)
unfolding find update_first
owner_cell-update id m new_owner [] = ground arith
owner_cell-update id m new_owner (nb ∷ rows) = ground (arith, owner_cell-update id m new_owner rows)

-- Who owns the notebooks after one is handed over.
pub notebook_owner_on-set :
    (g : Grants) (id m new_owner : Uuid)
    → notebook_owner_on (set_notebook_owner_on g id new_owner).1 m ≡ (
        if id == m && is_some (notebook_owner_on g id)
        then some new_owner
        else notebook_owner_on g m)
unfolding notebook_owner_on set_notebook_owner_on
notebook_owner_on-set g id m new_owner = owner_cell-update id m new_owner g.notebooks

pub notebook_owner_on-delete :
    (g : Grants) (n u m : Uuid)
    → notebook_owner_on (delete_notebook_share_on g n u).1 m ≡ notebook_owner_on g m
unfolding notebook_owner_on delete_notebook_share_on
notebook_owner_on-delete g n u m = refl

-- What a statement that reads a note gives: the row, or an error.
pub get_note_on-cases :
    (g : Grants) (id : Uuid)
    → (get_note_on g id ≡ ok (note_row g id)) ⊎ (get_note_on g id ≡ err unreadable)
unfolding get_note_on
get_note_on-cases g id = elim (Option-cases (note_row g id)) [
  | inl e ↦ inl (rw e refl)
  | inr (n, e) ↦ elim (Bool-cases (g.readable n.title)) [
    | inl r ↦ inl (rw (e, r) refl)
    | inr r ↦ inr (rw (e, r) refl)
  ]
]
