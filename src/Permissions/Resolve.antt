-- ===== src/Permissions/Resolve.antt =====
-- What `resolve_note_access_on` decides, from the stored numbers.
use keeplin_srv.Base.{
  ℕ, ◌%◌, ◌≡◌, refl, false, ◌||◌, Option, none, some, arith, if◌then◌else◌, ◌==◌, nat_key, ok, err,
  forbidden, find-none, ◌&&◌,
}
use Prim.Native.Nat.{bit_or}
use keeplin_srv.Permissions.{
  NotebookShare, normalized, read, write, share_read, share_write, manage, from_bits, has,
  notebook_inheritance, PermissionScheme, Grants, Note, NoteShare, owner, granted, get_share_on,
  notebook_owner_on, get_notebook_share_on, notebook_bits, share_bits, inherited,
  inherited_capabilities_on, direct_capabilities, resolve_note_access_on,
}
use keeplin_srv.Protocol.{Uuid}
use keeplin_srv.Permissions.Bits.{
  manages, shares_write, shares_read, writes, reads, from_bits-closed, from_bits-masked,
  from_bits-union,
}

-- The low bits of what is stored for the user: of the note's share, and of the notebook.
abbrev pub direct_bits : Grants → Note → Uuid → ℕ
direct_bits g note user = share_bits (get_share_on g note.id user) % 32

abbrev pub container_bits : Grants → Option Uuid → Uuid → ℕ
container_bits g none user = 0
container_bits g (some nb) user = notebook_bits g nb user % 32

abbrev pub inherited_bits : Grants → Note → Uuid → ℕ
inherited_bits g note user = container_bits g note.notebook_id user

direct_holds :
    (share : Option NoteShare)
    → let d : ℕ = direct_capabilities share in
      let b : ℕ = share_bits share % 32 in
      (has d manage ≡ manages b)
      × (has d share_write ≡ shares_write b)
      × (has d share_read ≡ shares_read b)
      × (has d write ≡ writes b)
      × (has d read ≡ reads b)
      × (from_bits d ≡ d)
unfolding from_bits has normalized
direct_holds none = (refl, refl, refl, refl, refl, refl)
direct_holds (some x) = let c = from_bits-closed x.capabilities in (c.0, c.1, c.2, c.3, c.4, c.5)

inherited_holds :
    (g : Grants) (scheme : PermissionScheme) (nb : Option Uuid) (user : Uuid)
    → let i : ℕ = inherited g scheme nb user in
      let b : ℕ = container_bits g nb user in
      (has i manage ≡ false)
      × (has i share_write ≡ false)
      × (has i share_read ≡ false)
      × (has i write ≡ writes b)
      × (has i read ≡ reads b)
      × (from_bits i ≡ i)
unfolding from_bits has normalized inherited_capabilities_on
inherited_holds g scheme none user = (refl, refl, refl, refl, refl, refl)
inherited_holds g scheme (some nb) user = from_bits-masked scheme (notebook_bits g nb user)

-- Whoever is not the note's owner gets an access exactly if the note's share or the notebook lets them
-- read, and is refused otherwise; the access is no owner's, reads and writes by either of the two, and
-- shares and manages by the note's own share alone.
pub resolve_note_access-holds :
    (g : Grants) (scheme : PermissionScheme) (note : Note) (user : Uuid)
    → (note.owner_id == user) ≡ false
    → let d : ℕ = direct_bits g note user in
      let i : ℕ = inherited_bits g note user in
      (caps : ℕ) × (resolve_note_access_on g scheme note user
        ≡ (if reads d || reads i then ok (granted caps) else err forbidden))
      × (has caps read ≡ (reads d || reads i))
      × (has caps write ≡ (writes d || writes i))
      × (has caps share_read ≡ shares_read d)
      × (has caps share_write ≡ shares_write d)
      × (has caps manage ≡ manages d)
unfolding resolve_note_access_on
resolve_note_access-holds g scheme note user other =
    let x : ℕ = direct_capabilities (get_share_on g note.id user) in
    let y : ℕ = inherited g scheme note.notebook_id user in
    let hx = direct_holds (get_share_on g note.id user) in
    let hy = inherited_holds g scheme note.notebook_id user in
    let u = from_bits-union x y hx.5 hy.5 in
    (
      from_bits (bit_or x y),
      ground arith,
      ground arith,
      ground arith,
      ground arith,
      ground arith,
      ground arith,
    )

-- A note's owner has every capability, whatever is stored.
pub resolve_note_access-owner :
    (g : Grants) (scheme : PermissionScheme) (note : Note)
    → resolve_note_access_on g scheme note note.owner_id ≡ ok owner
unfolding resolve_note_access_on
resolve_note_access-owner g scheme note = ground arith

-- A notebook that is deleted, or is not there, gives nobody a capability.
pub notebook_bits-none :
    (g : Grants) (nb user : Uuid) → notebook_owner_on g nb ≡ none → notebook_bits g nb user ≡ 0
unfolding notebook_bits get_notebook_share_on
notebook_bits-none g nb user h = rw (
  h,
  find-none (λ (x : NotebookShare). x.notebook_id == nb && x.user_id == user && false)
      g.notebook_shares (λ x. ground arith),
)

-- In a notebook that is deleted, or is not there, access to a note is as if it were in none.
pub resolve_note_access-deleted_notebook :
    (g : Grants) (scheme : PermissionScheme) (note : Note) (user nb : Uuid)
    → note.notebook_id ≡ some nb
    → notebook_owner_on g nb ≡ none
    → resolve_note_access_on g scheme note user
      ≡ resolve_note_access_on g scheme (record note { notebook_id = none }) user
unfolding resolve_note_access_on inherited_capabilities_on from_bits normalized notebook_inheritance
resolve_note_access-deleted_notebook g scheme note user nb inside gone =
    rw (inside, notebook_bits-none g nb user gone)
