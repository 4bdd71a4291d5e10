-- ===== src/Sharing/Effects.antt =====
-- crates/keeplin-srv/src/http.rs and permissions.rs: what a share that `create_share` makes is worth.
use keeplin_srv.Base.{
  ℕ, ◌≡◌, refl, false, ◌||◌, Option, none, some, if◌then◌else◌, ◌==◌, nat_key, ok, err, arith, ◌%◌,
  eq_refl, ◌∙◌, ap, forbidden,
}
use mathlib.Core.Option
use keeplin_srv.Protocol.{Uuid}
use keeplin_srv.External.{StdText}
use keeplin_srv.Permissions.{
  Note, NoteShare, Grants, PermissionScheme, note_row, get_share_on, resolve_note_access_on,
  from_bits, has, granted, share_bits, read, write, share_read, share_write, manage,
}
use keeplin_srv.Permissions.Bits.{reads, writes, from_bits-closed}
use keeplin_srv.Permissions.Resolve.{inherited_bits, direct_bits, resolve_note_access-holds}
use keeplin_srv.Tables.{Db}
use keeplin_srv.Tables.Rows.{note_grant, note_row-id}
use keeplin_srv.Transactions.{Attempt}
use keeplin_srv.Sharing.{Target, create_share}
use keeplin_srv.Sharing.Checks.{IsNamed, note_access-row}
use keeplin_srv.Sharing.Requests.{OnlyGrant, MayShare, create_share-OnlyGrant}

-- The capabilities that a user has on a note through a share of the capabilities `c` and its notebook.
pub record HasShare (c : ℕ) (g : Grants) (scheme : PermissionScheme) (note : Note) (user : Uuid)
    : Type 0 where
  pub caps : ℕ
  pub answer : resolve_note_access_on g scheme note user ≡ (
      if has c read || reads (inherited_bits g note user) then ok (granted caps) else err forbidden)
  pub may_read : has caps read ≡ (has c read || reads (inherited_bits g note user))
  pub may_write : has caps write ≡ (has c write || writes (inherited_bits g note user))
  pub may_share_read : has caps share_read ≡ has c share_read
  pub may_share_write : has caps share_write ≡ has c share_write
  pub may_manage : has caps manage ≡ has c manage

share_bits-some :
    (o : Option NoteShare) (c : ℕ)
    → Option.map (λ (s : NoteShare). s.capabilities) o ≡ some c
    → share_bits o ≡ c
share_bits-some none c h = ground arith
share_bits-some (some s) c h = ground arith

HasShare-of_grant :
    (bits : ℕ) (g : Grants) (scheme : PermissionScheme) (note : Note) (user : Uuid)
    → note_grant g note.id user ≡ some (from_bits bits)
    → (note.owner_id == user) ≡ false
    → HasShare (from_bits bits) g scheme note user
HasShare-of_grant bits g scheme note user stored other =
    let c : ℕ = from_bits bits in
    let closed = from_bits-closed bits in
    let again = from_bits-closed c in
    let bits' : share_bits (get_share_on g note.id user) ≡ c =
      unfold get_share_on in share_bits-some (get_share_on g note.id user) c stored in
    let low : direct_bits g note user ≡ c % 32 = ap (λ (x : ℕ). x % 32) bits' in
    let (caps, answer, r, w, sr, sw, m) = resolve_note_access-holds g scheme note user other in
    record {
      caps = caps;
      answer = ground (arith, answer, low, closed, again);
      may_read = ground (arith, r, low, closed, again);
      may_write = ground (arith, w, low, closed, again);
      may_share_read = ground (arith, sr, low, closed, again);
      may_share_write = ground (arith, sw, low, closed, again);
      may_manage = ground (arith, m, low, closed, again);
    }

module _ (std : StdText) (scheme : PermissionScheme) (user_id : Uuid) where
  granted_access :
      (d s : Db) (id target : Uuid) (capabilities : ℕ)
      → MayShare std scheme user_id d id (from_bits capabilities) target
      → OnlyGrant id target (some (from_bits capabilities)) d s
      → (note : Note) × (note_row s.grants id ≡ some note)
        × HasShare (from_bits capabilities) s.grants scheme note target
  granted_access d s id target capabilities (n, a, found, write_ok, within_ok, other, there) only =
      let before = (note_access-row scheme user_id d id n a found).0 in
      let id_same = note_row-id d.grants id n before in
      (
        n,
        unfold note_row in rw (only.notes) before,
        HasShare-of_grant capabilities s.grants scheme n target
            (rw id_same (only.row id target ∙ rw (eq_refl id, eq_refl target) refl))
            (ground (arith, other)),
      )

  -- Once `create_share` has committed, the access to the note of the user whom the request names is what
  -- the capabilities asked for allow, closed under what each implies, with reading and writing as the
  -- notebook gives them.
  pub create_share-HasShare :
      (early s : Db) (env : ℕ → Attempt Db) (id : Uuid) (capabilities : ℕ) (to : Target)
      → (create_share std scheme user_id early env id capabilities to).1 ≡ some s
      → (target : Uuid) × IsNamed std early to target
        × (note : Note) × (note_row s.grants id ≡ some note)
        × HasShare (from_bits capabilities) s.grants scheme note target
  create_share-HasShare early s env id capabilities to h =
      let (k, target, named, may, only, some_asked) =
        create_share-OnlyGrant std scheme user_id early s env id capabilities to h in
      let (note, found, has_share) =
        granted_access (env k).sees s id target capabilities may only in
      (target, named, note, found, has_share)
