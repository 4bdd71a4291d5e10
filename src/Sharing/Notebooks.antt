-- ===== src/Sharing/Notebooks.antt =====
-- crates/keeplin-srv/src/http.rs: what the handlers that share a notebook, or hand it over, need and change.
use keeplin_srv.Base.{
  ℕ, ◌≡◌, subst, Bool, true, false, ◌&&◌, ◌||◌, Option, none, some, if◌then◌else◌, ◌==◌, nat_key,
  ok, arith, is_some, inl, inr, ap, ◌∙◌, ◌>>=◌, guard, forbidden, Option-cases,
}
use keeplin_srv.Protocol.{Uuid}
use keeplin_srv.External.{StdText}
use keeplin_srv.Permissions.{
  NotebookShare, Grants, Access, PermissionScheme, resolve_notebook_access_on, notebook_owner_on,
  from_bits, can_share_write,
}
use keeplin_srv.Tables.{
  Db, User, get_user_by_id_on, create_or_update_notebook_share_on, delete_notebook_share_on,
  set_notebook_owner_on,
}
use keeplin_srv.Tables.Rows.{
  notebook_grant, notebook_grant-create_or_update, notebook_grant-delete, notebook_owner_on-set,
  notebook_owner_on-delete, SameButNotebookShares, create_or_update_notebook_share_on-frame,
  delete_notebook_share_on-frame,
}
use keeplin_srv.Transactions.{Attempt}
use keeplin_srv.Transactions.Atomicity.{Result-cases}
use keeplin_srv.Sharing.Checks.{IsNamed, resolve_target-IsNamed}
use keeplin_srv.Sharing.{
  Target, within, create_notebook_share_early, create_notebook_share_tx, create_notebook_share,
  delete_notebook_share_tx, delete_notebook_share, transfer_notebook_tx, transfer_notebook,
  can_transfer_ownership, resolve_target,
}
use keeplin_srv.Sharing.Requests.{checked-committed}

-- The grants of `s` are those of `d`, but for what is stored for one user on one notebook.
pub record OnlyNotebookGrant (id target : Uuid) (to : Option ℕ) (d s : Db) : Type 0 where
  pub row :
      (m v : Uuid)
      → notebook_grant s.grants m v
        ≡ (if id == m && target == v then to else notebook_grant d.grants m v)
  pub frame : SameButNotebookShares s.grants d.grants
  pub users : s.users ≡ d.users

OnlyNotebookGrant-from :
    (id target : Uuid) (to : Option ℕ) (d s : Db) (g : Grants)
    → ((m v : Uuid)
        → notebook_grant g m v
          ≡ (if id == m && target == v then to else notebook_grant d.grants m v))
    → SameButNotebookShares g d.grants
    → s ≡ record d { grants = g }
    → OnlyNotebookGrant id target to d s
OnlyNotebookGrant-from id target to d s g rows (a, b, c) e = record {
  row = λ m v. rw e (rows m v);
  frame = (
    ap (λ (x : Db). x.grants.notes) e ∙ a,
    ap (λ (x : Db). x.grants.notebooks) e ∙ b,
    ap (λ (x : Db). x.grants.note_shares) e ∙ c,
  );
  users = ap (λ (x : Db). x.users) e;
}

and_true :
    (b : Bool) (o : Option Uuid) (target : Uuid)
    → (if b && true then some target else o) ≡ (if b then some target else o)
and_true b o target = ground arith

module _ (std : StdText) (scheme : PermissionScheme) (user_id : Uuid) where
  -- The user may give the target these capabilities on the notebook, or take the target's share away.
  abbrev pub MayShareNotebook : Db → Uuid → ℕ → Uuid → Type 0
  MayShareNotebook db id requested target =
      (a : Access) × (o : Uuid) × (resolve_notebook_access_on db.grants id user_id ≡ ok a)
      × (can_share_write a ≡ true)
      × (within requested a ≡ true)
      × (notebook_owner_on db.grants id ≡ some o)
      × ((target == o) ≡ false)
      × (is_some (get_user_by_id_on db target) ≡ true)

  abbrev pub MayRevokeNotebook : Db → Uuid → Uuid → Type 0
  MayRevokeNotebook db id target =
      (a : Access) × (resolve_notebook_access_on db.grants id user_id ≡ ok a)
      × ((can_share_write a || target == user_id) ≡ true)

  abbrev pub MayHandOverNotebook : Db → Uuid → Uuid → Type 0
  MayHandOverNotebook db id target =
      (a : Access) × (resolve_notebook_access_on db.grants id user_id ≡ ok a)
      × (a.is_owner ≡ true)
      × (is_some (get_user_by_id_on db target) ≡ true)

  create_notebook_share_early-IsNamed :
      (early : Db) (id target : Uuid) (requested : ℕ) (to : Target)
      → create_notebook_share_early std scheme user_id early id requested to ≡ ok target
      → IsNamed std early to target
  unfolding create_notebook_share_early
  create_notebook_share_early-IsNamed early id target requested to h =
      elim (Result-cases (resolve_target std scheme user_id early to)) [
        | inl (user, e) ↦
            let named = resolve_target-IsNamed std scheme user_id early to user e in
            let same : user.id ≡ target = ground (arith, e, h) in
            subst (IsNamed std early to) same named
        | inr (x, e) ↦ absurd (ground (arith, e, h))
      ]

  transfer_notebook_early-IsNamed :
      (early : Db) (id : Uuid) (to : Target) (user : User)
      → (resolve_notebook_access_on early.grants id user_id >>= λ (a : Access).
          guard (can_transfer_ownership a) forbidden >>= λ u.
          resolve_target std scheme user_id early to)
        ≡ ok user
      → IsNamed std early to user.id
  transfer_notebook_early-IsNamed early id to user h =
      elim (Result-cases (resolve_notebook_access_on early.grants id user_id)) [
        | inl (a, e) ↦
            resolve_target-IsNamed std scheme user_id early to user (ground (arith, e, h))
        | inr (x, e) ↦ absurd (ground (arith, e, h))
      ]

  create_notebook_share_tx-Only :
      (id target : Uuid) (requested : ℕ) (db s : Db) (share : NotebookShare)
      → create_notebook_share_tx std scheme user_id id requested target db ≡ ok (share, s)
      → MayShareNotebook db id requested target × OnlyNotebookGrant id target (some requested) db s
  unfolding create_notebook_share_tx
  create_notebook_share_tx-Only id target requested db s share h =
      elim (Result-cases (resolve_notebook_access_on db.grants id user_id)) [
        | inl (a, e) ↦ elim (Option-cases (notebook_owner_on db.grants id)) [
          | inl x ↦ absurd (ground (arith, e, x))
          | inr (o, x) ↦ (
            (
              a,
              o,
              e,
              ground (arith, e, x),
              ground (arith, e, x),
              x,
              ground (arith, e, x),
              ground (arith, e, x),
            ),
            OnlyNotebookGrant-from id target (some requested) db s
                (create_or_update_notebook_share_on db.grants db.now id target requested).1
                (λ m v. notebook_grant-create_or_update db.grants id target m v db.now requested)
                (create_or_update_notebook_share_on-frame db.grants id target db.now requested)
                (ground (arith, e, x)),
          )
        ]
        | inr (x, e) ↦ absurd (ground (arith, e))
      ]

  -- The committed state of `create_notebook_share` is that of one of its runs, in whose state the user may
  -- give the target what is asked for; and nothing changes but what is stored for the target on the
  -- notebook: what was asked for. The target is the user whom the request names.
  pub create_notebook_share-OnlyNotebookGrant :
      (early s : Db) (env : ℕ → Attempt Db) (id : Uuid) (capabilities : ℕ) (to : Target)
      → (create_notebook_share std scheme user_id early env id capabilities to).1 ≡ some s
      → (k : ℕ) × (target : Uuid) × IsNamed std early to target
        × MayShareNotebook (env k).sees id (from_bits capabilities) target
        × OnlyNotebookGrant id target (some (from_bits capabilities)) (env k).sees s
  unfolding create_notebook_share
  create_notebook_share-OnlyNotebookGrant early s env id capabilities to h =
      let requested : ℕ = from_bits capabilities in
      let (target, k, share, e, run) =
        checked-committed (create_notebook_share_early std scheme user_id early id requested to)
          (create_notebook_share_tx std scheme user_id id requested) env s h in
      let (may, only) =
        create_notebook_share_tx-Only id target requested (env k).sees s share run in
      (k, target, create_notebook_share_early-IsNamed early id target requested to e, may, only)

  delete_notebook_share_tx-Only :
      (id target : Uuid) (db s : Db) (deleted : Bool)
      → delete_notebook_share_tx std scheme user_id id target db ≡ ok (deleted, s)
      → MayRevokeNotebook db id target × OnlyNotebookGrant id target none db s
  unfolding delete_notebook_share_tx
  delete_notebook_share_tx-Only id target db s deleted h =
      elim (Result-cases (resolve_notebook_access_on db.grants id user_id)) [
        | inl (a, e) ↦ (
          (a, e, ground (arith, e)),
          OnlyNotebookGrant-from id target none db s
              (delete_notebook_share_on db.grants id target).1
              (λ m v. notebook_grant-delete db.grants id target m v)
              (delete_notebook_share_on-frame db.grants id target) (ground (arith, e)),
        )
        | inr (x, e) ↦ absurd (ground (arith, e))
      ]

  -- The committed state of `delete_notebook_share` is that of one of its runs, in whose state the user may
  -- take the target's share of the notebook away; that share is gone, and nothing else changes.
  pub delete_notebook_share-OnlyNotebookGrant :
      (early s : Db) (env : ℕ → Attempt Db) (id target : Uuid)
      → (delete_notebook_share std scheme user_id early env id target).1 ≡ some s
      → (k : ℕ) × MayRevokeNotebook (env k).sees id target
        × OnlyNotebookGrant id target none (env k).sees s
  unfolding delete_notebook_share
  delete_notebook_share-OnlyNotebookGrant early s env id target h =
      let (u, k, deleted, e, run) =
        checked-committed
          (resolve_notebook_access_on early.grants id user_id >>= λ (a : Access).
            guard (can_share_write a || target == user_id) forbidden)
          (λ u. delete_notebook_share_tx std scheme user_id id target) env s h in
      let (may, only) = delete_notebook_share_tx-Only id target (env k).sees s deleted run in
      (k, may, only)

  transfer_notebook_tx-owner :
      (id target r : Uuid) (db s : Db)
      → transfer_notebook_tx std scheme user_id id target db ≡ ok (r, s)
      → MayHandOverNotebook db id target
        × ((m : Uuid)
            → notebook_owner_on s.grants m
              ≡ (if id == m then some target else notebook_owner_on db.grants m))
        × ((m v : Uuid)
            → notebook_grant s.grants m v
              ≡ (if id == m && target == v then none else notebook_grant db.grants m v))
  unfolding transfer_notebook_tx set_notebook_owner_on
  transfer_notebook_tx-owner id target r db s h =
      let g : Grants = (set_notebook_owner_on db.grants id target).1 in
      elim (Result-cases (resolve_notebook_access_on db.grants id user_id)) [
        | inl (a, e) ↦
            let moved : is_some (notebook_owner_on db.grants id) ≡ true = ground (arith, e) in
            let after : s ≡ record db { grants = (delete_notebook_share_on g id target).1 } =
              ground (arith, e) in
            (
              (a, e, ground (arith, e), ground (arith, e)),
              λ m.
                  rw
                    (
                      after,
                      notebook_owner_on-delete g id target m,
                      notebook_owner_on-set db.grants id m target,
                      moved,
                    )
                    (and_true (id == m) (notebook_owner_on db.grants m) target),
              λ m v. rw after (notebook_grant-delete g id target m v),
            )
        | inr (x, e) ↦ absurd (ground (arith, e))
      ]

  -- The committed state of `transfer_notebook` is that of one of its runs, in whose state the user owns the
  -- notebook and the target, whom the request names, is a user. Its owner is then the target, whose share
  -- of it is gone; every other notebook keeps its owner, and every other share stays.
  pub transfer_notebook-owner :
      (early s : Db) (env : ℕ → Attempt Db) (id : Uuid) (to : Target)
      → (transfer_notebook std scheme user_id early env id to).1 ≡ some s
      → (k : ℕ) × (target : Uuid) × IsNamed std early to target
        × MayHandOverNotebook (env k).sees id target
        × ((m : Uuid)
            → notebook_owner_on s.grants m
              ≡ (if id == m then some target else notebook_owner_on (env k).sees.grants m))
        × ((m v : Uuid)
            → notebook_grant s.grants m v
              ≡ (if id == m && target == v then none else notebook_grant (env k).sees.grants m v))
  unfolding transfer_notebook
  transfer_notebook-owner early s env id to h =
      let (user, k, r, e, run) =
        checked-committed
          (resolve_notebook_access_on early.grants id user_id >>= λ (a : Access).
            guard (can_transfer_ownership a) forbidden >>= λ u.
            resolve_target std scheme user_id early to)
          (λ (user : User). transfer_notebook_tx std scheme user_id id user.id) env s h in
      let (may, owners, grants) = transfer_notebook_tx-owner id user.id r (env k).sees s run in
      (k, user.id, transfer_notebook_early-IsNamed early id to user e, may, owners, grants)
