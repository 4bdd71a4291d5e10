-- ===== src/Sharing/Owners.antt =====
-- crates/keeplin-srv/src/http.rs: what `transfer_ownership` needs and changes.
use keeplin_srv.Base.{
  ℕ, ◌≡◌, refl, true, ◌&&◌, none, some, if◌then◌else◌, ◌==◌, nat_key, ok, arith, is_some, inl, inr,
  ap, ◌∙◌, ◌>>=◌, guard, forbidden,
}
use mathlib.Core.Option
use keeplin_srv.Protocol.{Uuid}
use keeplin_srv.External.{StdText}
use keeplin_srv.Permissions.{Note, Access, PermissionScheme, note_row}
use keeplin_srv.Tables.{Db, User, get_user_by_id_on, delete_share_on, set_note_owner_on}
use keeplin_srv.Tables.Rows.{note_grant, note_grant-delete, note_row-edit}
use keeplin_srv.Transactions.{Attempt}
use keeplin_srv.Transactions.Atomicity.{Result-cases}
use keeplin_srv.Sharing.Checks.{IsNamed, resolve_target-IsNamed}
use keeplin_srv.Sharing.{
  Target, note_access, transfer_ownership_tx, transfer_ownership, can_transfer_ownership,
  resolve_target,
}
use keeplin_srv.Sharing.Requests.{checked-committed}

-- The note is handed to the target, who is no longer one of those it is shared with.
pub record HandedOver (id target : Uuid) (d s : Db) : Type 0 where
  pub note :
      (m : Uuid)
      → note_row s.grants m ≡ (
          if id == m
          then Option.map
              (λ (n : Note). record n { owner_id = target; updated_at = d.now })
              (note_row d.grants m)
          else note_row d.grants m)
  pub row :
      (m v : Uuid)
      → note_grant s.grants m v ≡ (if id == m && target == v then none else note_grant d.grants m v)
  pub notebooks : s.grants.notebooks ≡ d.grants.notebooks
  pub notebook_shares : s.grants.notebook_shares ≡ d.grants.notebook_shares

HandedOver-from :
    (id target : Uuid) (d s : Db)
    → s ≡ record d {
      grants = (set_note_owner_on (delete_share_on d.grants id target).1 d.now id target).1;
    }
    → HandedOver id target d s
unfolding set_note_owner_on delete_share_on
HandedOver-from id target d s e = record {
  note = λ m. rw e (
      note_row-edit id m _ (delete_share_on d.grants id target).1 (λ n. (refl, refl))
      ∙ (unfold note_row in refl));
  row = λ m v. rw e (note_grant-delete d.grants id target m v);
  notebooks = ap (λ (x : Db). x.grants.notebooks) e;
  notebook_shares = ap (λ (x : Db). x.grants.notebook_shares) e;
}

module _ (std : StdText) (scheme : PermissionScheme) (user_id : Uuid) where
  -- The user owns the note, and the target is there.
  abbrev pub MayHandOver : Db → Uuid → Uuid → Type 0
  MayHandOver db id target =
      (n : Note) × (a : Access) × (note_access scheme user_id db id ≡ ok (n, a))
      × (a.is_owner ≡ true)
      × (is_some (get_user_by_id_on db target) ≡ true)

  transfer_early-IsNamed :
      (early : Db) (id : Uuid) (to : Target) (user : User)
      → (note_access scheme user_id early id >>= λ (found : Note × Access).
          guard (can_transfer_ownership found.1) forbidden >>= λ u.
          resolve_target std scheme user_id early to)
        ≡ ok user
      → IsNamed std early to user.id
  transfer_early-IsNamed early id to user h =
      elim (Result-cases (note_access scheme user_id early id)) [
        | inl (found, e) ↦
            resolve_target-IsNamed std scheme user_id early to user (ground (arith, e, h))
        | inr (x, e) ↦ absurd (ground (arith, e, h))
      ]

  transfer_ownership_tx-HandedOver :
      (id target : Uuid) (db s : Db) (note : Note)
      → transfer_ownership_tx std scheme user_id id target db ≡ ok (note, s)
      → MayHandOver db id target × HandedOver id target db s
  unfolding transfer_ownership_tx
  transfer_ownership_tx-HandedOver id target db s note h =
      elim (Result-cases (note_access scheme user_id db id)) [
        | inl ((n, a), e) ↦ (
          (n, a, e, ground (arith, e), ground (arith, e)),
          HandedOver-from id target db s (ground (arith, e)),
        )
        | inr (x, e) ↦ absurd (ground (arith, e))
      ]

  -- The committed state of `transfer_ownership` is that of one of its runs, in whose state the user owns
  -- the note and the target, whom the request names, is a user. The note's owner is then the target, whose
  -- share of it is gone; every other note, share and notebook is as it was.
  pub transfer_ownership-HandedOver :
      (early s : Db) (env : ℕ → Attempt Db) (id : Uuid) (to : Target)
      → (transfer_ownership std scheme user_id early env id to).1 ≡ some s
      → (k : ℕ) × (target : Uuid) × IsNamed std early to target
        × MayHandOver (env k).sees id target
        × HandedOver id target (env k).sees s
  unfolding transfer_ownership
  transfer_ownership-HandedOver early s env id to h =
      let (user, k, note, e, run) =
        checked-committed
          (note_access scheme user_id early id >>= λ (found : Note × Access).
            guard (can_transfer_ownership found.1) forbidden >>= λ u.
            resolve_target std scheme user_id early to)
          (λ (user : User). transfer_ownership_tx std scheme user_id id user.id) env s h in
      let (may, done) = transfer_ownership_tx-HandedOver id user.id (env k).sees s note run in
      (k, user.id, transfer_early-IsNamed early id to user e, may, done)
