-- ===== src/Permissions.antt =====
-- crates/keeplin-srv/src/permissions.rs and `PermissionScheme` of config.rs: what a user may do with a
-- note or a notebook, with the queries of store.rs that it rests on. An `i32` of capabilities is the
-- number of its 32-bit pattern; `from_bits` keeps its five low bits only.
pub mod Bits
pub mod Union
pub mod Resolve
use Prim.Native.Nat.{bit_and, bit_or}
use keeplin_srv.Base.{
  ℕ, ◌%◌, String, Bool, true, false, not, ◌&&◌, Option, none, some, List, if◌then◌else◌, ◌==◌,
  nat_key, find, is_none, is_some, Result, ok, err, forbidden, unreadable, not_found, ok_or, ◌>>=◌,
}
use keeplin_srv.Protocol.{Uuid, Time, Text}
use mathlib.Core.Option

abbrev pub read : ℕ
read = 1

abbrev pub write : ℕ
write = 2

abbrev pub share_read : ℕ
share_read = 4

abbrev pub share_write : ℕ
share_write = 8

abbrev pub manage : ℕ
manage = 16

abbrev pub all : ℕ
all = 31

-- `b & bit != 0` and `b | bit`
abbrev pub meets : ℕ → ℕ → Bool
meets b bit = not (bit_and b bit == 0)

unfoldable pub normalized : ℕ → ℕ
normalized b0 =
    let b1 : ℕ = if meets b0 manage then bit_or b0 all else b0 in
    let b2 : ℕ = if meets b1 share_write then bit_or b1 (bit_or share_read write) else b1 in
    if meets b2 (bit_or share_read write) then bit_or b2 read else b2

-- `bits & all` keeps the five low bits.
unfoldable pub from_bits : ℕ → ℕ
from_bits bits = normalized (bits % 32)

-- `self.0 & bit == bit`
unfoldable pub has : ℕ → ℕ → Bool
has caps bit = bit_and caps bit == bit

pub record Access : Type 0 where
  pub caps : ℕ
  pub is_owner : Bool

abbrev pub owner : Access
owner = record { caps = all; is_owner = true }

abbrev pub granted : ℕ → Access
granted caps = record { caps = caps; is_owner = false }

abbrev pub can_read : Access → Bool
can_read a = has a.caps read

abbrev pub can_write : Access → Bool
can_write a = has a.caps write

abbrev pub can_share_read : Access → Bool
can_share_read a = has a.caps share_read

abbrev pub can_share_write : Access → Bool
can_share_write a = has a.caps share_write

abbrev pub can_manage : Access → Bool
can_manage a = has a.caps manage

abbrev pub can_delete : Access → Bool
can_delete a = a.is_owner

-- config.rs: `PermissionScheme`
pub data PermissionScheme : Type 0 where
  strict ejection_allowed : PermissionScheme

unfoldable pub notebook_inheritance : PermissionScheme → ℕ
notebook_inheritance scheme = bit_or read write

unfoldable pub foreign_note_ejection : PermissionScheme → Bool
foreign_note_ejection strict = false
foreign_note_ejection ejection_allowed = true

unfoldable pub move_out_guard : PermissionScheme → Bool
move_out_guard scheme = true

pub record Note : Type 0 where
  pub id : Uuid
  pub title : Text
  pub owner_id : Uuid
  pub notebook_id : Option Uuid
  pub is_todo : Bool
  pub todo_due : Option Time
  pub todo_completed : Option Time
  pub created_at : Time
  pub updated_at : Time
  pub deleted_at : Option Time

pub record NoteShare : Type 0 where
  pub note_id : Uuid
  pub user_id : Uuid
  pub capabilities : ℕ
  pub created_at : Time

pub record NotebookShare : Type 0 where
  pub notebook_id : Uuid
  pub user_id : Uuid
  pub capabilities : ℕ
  pub created_at : Time

-- The columns of the table `notebooks` that access rests on.
pub record Notebook : Type 0 where
  pub id : Uuid
  pub user_id : Uuid
  pub deleted_at : Option Time

-- `readable` is the store's cipher, as for the rows of lines.
pub record Grants : Type 0 where
  pub readable : Text → Bool
  pub notes : List Note
  pub note_shares : List NoteShare
  pub notebooks : List Notebook
  pub notebook_shares : List NotebookShare

-- The row of a note, before its title is decrypted: `WHERE id = $1 AND deleted_at IS NULL`.
unfoldable pub note_row : Grants → Uuid → Option Note
note_row g id = find (λ (n : Note). n.id == id && is_none n.deleted_at) g.notes

abbrev pub decrypted_title : (Text → Bool) → Option Note → Result (Option Note)
decrypted_title readable none = ok none
decrypted_title readable (some n) = if readable n.title then ok (some n) else err unreadable

unfoldable pub get_note_on : Grants → Uuid → Result (Option Note)
get_note_on g id = decrypted_title g.readable (note_row g id)

unfoldable pub get_share_on : Grants → Uuid → Uuid → Option NoteShare
get_share_on g note_id user_id =
    find (λ (x : NoteShare). x.note_id == note_id && x.user_id == user_id) g.note_shares

unfoldable pub notebook_owner_on : Grants → Uuid → Option Uuid
notebook_owner_on g id =
    Option.map (λ (nb : Notebook). nb.user_id)
      (find (λ (nb : Notebook). nb.id == id && is_none nb.deleted_at) g.notebooks)

-- The join with `notebooks` keeps the shares of live notebooks only.
unfoldable pub get_notebook_share_on : Grants → Uuid → Uuid → Option NotebookShare
get_notebook_share_on g id user_id =
    find
      (λ (x : NotebookShare).
        x.notebook_id == id && x.user_id == user_id && is_some (notebook_owner_on g id))
      g.notebook_shares

-- `.map(|share| share.capabilities).unwrap_or(0)`
abbrev pub share_bits : Option NoteShare → ℕ
share_bits none = 0
share_bits (some x) = x.capabilities

abbrev pub notebook_share_bits : Option NotebookShare → ℕ
notebook_share_bits none = 0
notebook_share_bits (some x) = x.capabilities

abbrev pub is_user : Option Uuid → Uuid → Bool
is_user none user_id = false
is_user (some u) user_id = u == user_id

-- What a notebook gives a user, before the scheme masks it.
unfoldable pub notebook_bits : Grants → Uuid → Uuid → ℕ
notebook_bits g notebook_id user_id =
    if is_user (notebook_owner_on g notebook_id) user_id
    then all
    else notebook_share_bits (get_notebook_share_on g notebook_id user_id)

-- http.rs: `inherited_capabilities_on`; the same mask stands in `resolve_note_access_on`.
unfoldable pub inherited_capabilities_on : Grants → PermissionScheme → Option Uuid → Uuid → ℕ
inherited_capabilities_on g scheme none user_id = 0
inherited_capabilities_on g scheme (some notebook_id) user_id =
    bit_and (from_bits (notebook_bits g notebook_id user_id)) (notebook_inheritance scheme)

abbrev pub direct_capabilities : Option NoteShare → ℕ
direct_capabilities none = 0
direct_capabilities (some x) = from_bits x.capabilities

-- `Capabilities::from_bits(...)` of the masked bits, or nothing outside a notebook
abbrev pub inherited : Grants → PermissionScheme → Option Uuid → Uuid → ℕ
inherited g scheme none user_id = 0
inherited g scheme (some notebook_id) user_id =
    from_bits (inherited_capabilities_on g scheme (some notebook_id) user_id)

abbrev pub or_forbidden : ℕ → Result Access
or_forbidden caps = if caps == 0 then err forbidden else ok (granted caps)

unfoldable pub resolve_note_access_on : Grants → PermissionScheme → Note → Uuid → Result Access
resolve_note_access_on g scheme note user_id =
    if note.owner_id == user_id
    then ok owner
    else or_forbidden (
        from_bits (
          bit_or (direct_capabilities (get_share_on g note.id user_id))
            (inherited g scheme note.notebook_id user_id)))

abbrev pub access_by_share : Option NotebookShare → Result Access
access_by_share none = err forbidden
access_by_share (some x) = ok (granted (from_bits x.capabilities))

unfoldable pub resolve_notebook_access_on : Grants → Uuid → Uuid → Result Access
resolve_notebook_access_on g notebook_id user_id = do
  owner_id ← ok_or (notebook_owner_on g notebook_id) not_found
  if owner_id == user_id
      then ok owner
      else access_by_share (get_notebook_share_on g notebook_id user_id)
