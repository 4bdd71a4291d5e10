-- ===== src/Notes.antt =====
-- crates/keeplin-srv/src/http.rs: the handlers that change a note's title, notebook and to-do columns, and
-- that delete it. As in Sharing, `early` is what the tables hold when the request comes, and the mail to
-- those who lose access is the list of their ids.
pub mod Moves
pub mod Changes
pub mod Updates
pub mod Deletion
pub mod Outcomes
use Prim.Native.Nat.{bit_and, bit_or}
use keeplin_srv.Base.{
  ℕ, String, ◌-◌, ◌+◌, ◌^◌, Bool, true, false, not, ◌&&◌, ◌||◌, Option, none, some, List, [], ◌∷◌,
  ◌++◌, if◌then◌else◌, ◌==◌, nat_key, Result, ok, err, AppError, MoveBlockedCount, move_blocked,
  ok_or, guard, ◌>>=◌, ◌>>◌, forbidden, not_found, payload_too_large, is_some, is_none, is_empty,
  ltb,
}
use keeplin_srv.Protocol.{Uuid, Time, Text}
use keeplin_srv.External.{KeeplinCore}
use keeplin_srv.Permissions.{
  Note, Grants, Access, PermissionScheme, resolve_notebook_access_on, inherited_capabilities_on,
  notebook_inheritance, foreign_note_ejection, move_out_guard, notebook_owner_on, get_share_on,
  share_bits, from_bits, can_write, can_share_read, can_delete, is_user,
}
use keeplin_srv.Tables.{
  Db, NotePatch, update_note_meta_on, soft_delete_note_on, inherited_note_principals_on,
  count_live_notes_in_notebook_on,
}
use keeplin_srv.Transactions.{Attempt, serializable}
use keeplin_srv.Sharing.{checked, note_access}

-- `Uuid::is_nil`: an id is the number of its 128 bits.
abbrev pub is_nil : Uuid → Bool
is_nil id = id == 0

-- The fields of `UpdateNoteBody` are those of the patch; the nil notebook stands for none.
abbrev pub destination_of : Option (Option Uuid) → Option (Option Uuid)
destination_of none = none
destination_of (some none) = some none
destination_of (some (some nb)) = if is_nil nb then some none else some (some nb)

abbrev pub patch_of : NotePatch → NotePatch
patch_of body = record body { notebook_id = destination_of body.notebook_id }

abbrev pub same_notebook : Option Uuid → Option Uuid → Bool
same_notebook none none = true
same_notebook none (some y) = false
same_notebook (some x) none = false
same_notebook (some x) (some y) = x == y

-- `moved`, `moved_into` and the `destination`, for the note's notebook and the patch's.
abbrev pub is_move : Option Uuid → Option (Option Uuid) → Bool
is_move source none = false
is_move source (some to) = not (same_notebook to source)

abbrev pub moved_into : Option Uuid → Option (Option Uuid) → Option Uuid
moved_into source none = none
moved_into source (some none) = none
moved_into source (some (some nb)) = if same_notebook source (some nb) then none else some nb

abbrev pub flatten : Option (Option Uuid) → Option Uuid
flatten none = none
flatten (some to) = to

abbrev pub source_notebook_owner : Grants → Option Uuid → Option Uuid
source_notebook_owner g none = none
source_notebook_owner g (some notebook_id) = notebook_owner_on g notebook_id

abbrev pub leaves_notebooks : Option (Option Uuid) → Bool
leaves_notebooks none = false
leaves_notebooks (some none) = true
leaves_notebooks (some (some nb)) = false

-- `sort_unstable` and `dedup`, on ids
abbrev pub insert_id : Uuid → List Uuid → List Uuid
insert_id id [] = id ∷ []
insert_id id (x ∷ xs) =
    if id == x then x ∷ xs else if ltb id x then id ∷ x ∷ xs else x ∷ insert_id id xs

abbrev pub sort_dedup : List Uuid → List Uuid
sort_dedup [] = []
sort_dedup (x ∷ xs) = insert_id x (sort_dedup xs)

-- What the guard on leaving a notebook finds out about the principals of the source.
pub record Losses : Type 0 where
  pub named_principals : List Uuid
  pub unenumerable_count : ℕ
  pub notices : List Uuid

abbrev pub no_losses : Losses
no_losses = record { named_principals = []; unenumerable_count = 0; notices = [] }

-- `!bits` on 32 bits
abbrev pub complement : ℕ → ℕ
complement bits = 2 ^ 32 - 1 - bits

-- `before.bits() != after.bits() && (before.bits() & !after.bits()) != 0`
abbrev pub loses : ℕ → ℕ → Bool
loses before after = not (before == after) && not (bit_and before (complement after) == 0)

abbrev pub count_loss : Bool → Bool → Uuid → Losses → Losses
count_loss controls_source can_enumerate_source principal l =
    if controls_source
    then if can_enumerate_source
      then record l { named_principals = l.named_principals ++ principal ∷ [] }
      else record l { unenumerable_count = l.unenumerable_count + 1 }
    else record l { notices = l.notices ++ principal ∷ [] }

-- `.map(|access| access.caps.can_share_read()).unwrap_or(false)`
abbrev pub can_enumerate : Result Access → Bool
can_enumerate (ok access) = can_share_read access
can_enumerate (err e) = false

abbrev pub counted : Uuid → ℕ → List MoveBlockedCount
counted source n = if n == 0 then [] else record { notebook_id = source; count = n } ∷ []

module _ (scheme : PermissionScheme) (user_id : Uuid) where
  -- The capabilities of a principal before the move, and after it.
  unfoldable pub caps_before : Grants → Note → Uuid → ℕ → ℕ
  caps_before g note principal inherited_bits = from_bits (
      bit_or (share_bits (get_share_on g note.id principal))
        (bit_and (from_bits inherited_bits) (notebook_inheritance scheme)))

  unfoldable pub caps_after : Grants → Note → Option Uuid → Uuid → ℕ
  caps_after g note destination principal = from_bits (
      bit_or (share_bits (get_share_on g note.id principal))
        (inherited_capabilities_on g scheme destination principal))

  unfoldable pub weigh :
      Grants → Note → Option Uuid → Bool → Bool → List (Uuid × ℕ) → Losses → Losses
  weigh g note destination controls_source can_enumerate_source [] l = l
  weigh g note destination controls_source can_enumerate_source ((principal, inherited_bits) ∷ rest)
        l =
      weigh g note destination controls_source can_enumerate_source rest (
        if principal == user_id
        then l
        else if loses (caps_before g note principal inherited_bits)
            (caps_after g note destination principal)
        then count_loss controls_source can_enumerate_source principal l
        else l)

  -- The principals to tell, or the answer that the move is blocked.
  unfoldable pub guard_source : Grants → Note → Option Uuid → Uuid → Result (List Uuid)
  unfolding weigh
  guard_source g note destination source =
      let controls_source : Bool = is_user (notebook_owner_on g source) user_id in
      let can_enumerate_source : Bool =
        if controls_source
        then true
        else can_enumerate (resolve_notebook_access_on g source user_id) in
      let l : Losses =
        weigh g note destination controls_source can_enumerate_source
          (inherited_note_principals_on g source) no_losses in
      if is_empty l.named_principals
      then ok l.notices
      else err (move_blocked (sort_dedup l.named_principals) (counted source l.unenumerable_count))

  unfoldable pub guard_move : Grants → Note → Option (Option Uuid) → Result (List Uuid)
  unfolding guard_source
  guard_move g note to =
      if is_move note.notebook_id to && move_out_guard scheme
      then elim note.notebook_id [
        | none ↦ ok []
        | some source ↦ guard_source g note (flatten to) source
      ]
      else ok []

  abbrev pub is_ejection : Grants → Note → Option (Option Uuid) → Bool
  is_ejection g note to =
      is_move note.notebook_id to
      && leaves_notebooks to
      && is_user (source_notebook_owner g note.notebook_id) user_id

module _ (core : KeeplinCore) (scheme : PermissionScheme) (user_id : Uuid) where
  unfoldable pub check_destination : Grants → Option Uuid → Result (Unit {0})
  check_destination g none = ok tt
  check_destination g (some nb) = do
    nb_access ← resolve_notebook_access_on g nb user_id
    guard (can_write nb_access) forbidden
    guard (ltb (count_live_notes_in_notebook_on g nb) core.max_notes_per_notebook)
        (payload_too_large "notebook already holds the format limit of notes")

  -- Everything that a run checks: the note as it stands, and whom to tell that they lose it.
  unfoldable pub check_update : Db → Uuid → NotePatch → Result (Note × List Uuid)
  check_update db id patch = do
    found ← note_access scheme user_id db id
    guard (can_write found.1) forbidden
    let note = found.0
    guard
        (not (
          is_move note.notebook_id patch.notebook_id
          && not (note.owner_id == user_id)
          && not (
              is_ejection scheme user_id db.grants note patch.notebook_id
              && foreign_note_ejection scheme)))
        forbidden
    notices ← guard_move scheme user_id db.grants note patch.notebook_id
    check_destination db.grants (moved_into note.notebook_id patch.notebook_id)
    ok (note, notices)

  unfoldable pub update_note_tx : Uuid → NotePatch → Db → Result ((Note × List Uuid) × Db)
  update_note_tx id patch db = do
    checked_note ← check_update db id patch
    let (updated, g) = update_note_meta_on db.grants db.now id patch
    row ← updated
    note ← ok_or row not_found
    let ejected =
        is_ejection scheme user_id db.grants checked_note.0 patch.notebook_id
        && not (note.owner_id == user_id)
    ok (
      (note, if ejected then checked_note.1 ++ note.owner_id ∷ [] else checked_note.1),
      record db { grants = g },
    )

  abbrev pub told : Result (Note × List Uuid) → Result (Note × List Uuid)
  told (err e) = err e
  told (ok (note, notices)) = ok (note, sort_dedup notices)

  -- The answer, with the ids of those who are told that they lose access.
  unfoldable pub update_note :
      Db → (ℕ → Attempt Db) → Uuid → NotePatch → Result (Note × List Uuid) × Option Db
  unfolding check_update update_note_tx
  update_note early env id body =
      let patch : NotePatch = patch_of body in
      let (answer, state) =
        checked (check_update early id patch) (λ c. serializable (update_note_tx id patch) env) in
      (told answer, state)

  delete_note_tx : Uuid → Db → Result (Note × Db)
  delete_note_tx id db = do
    found ← note_access scheme user_id db id
    guard (can_delete found.1) forbidden
    let (deleted, db') = soft_delete_note_on db id
    note ← ok_or deleted not_found
    ok (note, db')

  unfoldable pub delete_note : Db → (ℕ → Attempt Db) → Uuid → Result Note × Option Db
  unfolding delete_note_tx
  delete_note early env id =
      checked
        (note_access scheme user_id early id >>= λ (found : Note × Access).
          guard (can_delete found.1) forbidden)
        (λ u. serializable (delete_note_tx id) env)
