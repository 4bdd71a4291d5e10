-- ===== src/Sharing/Requests.antt =====
-- crates/keeplin-srv/src/http.rs: what the transactions of the sharing handlers need, and what they change.
use keeplin_srv.Base.{
  ℕ, ◌≡◌, refl, subst, Bool, true, false, ◌&&◌, ◌||◌, Option, none, some, if◌then◌else◌, ◌==◌,
  nat_key, Result, ok, err, arith, is_some, inl, inr, ap, ◌∙◌, ◌>>=◌, guard, forbidden,
}
use keeplin_srv.Protocol.{Uuid}
use keeplin_srv.External.{StdText}
use keeplin_srv.Permissions.{
  Note, NoteShare, Grants, Access, PermissionScheme, from_bits, can_share_write,
}
use keeplin_srv.Tables.{Db, get_user_by_id_on, create_or_update_share_on, delete_share_on}
use keeplin_srv.Tables.Rows.{
  note_grant, note_grant-create_or_update, note_grant-delete, create_or_update_share_on-frame,
  delete_share_on-frame,
}
use keeplin_srv.Transactions.{Attempt, serializable}
use keeplin_srv.Transactions.Atomicity.{Result-cases, serializable-committed}
use keeplin_srv.Sharing.Checks.{IsNamed, resolve_target-IsNamed}
use keeplin_srv.Sharing.{
  resolve_target, Target, within, note_access, create_share_early, create_share_tx, create_share,
  delete_share_tx, delete_share, checked,
}

-- The grants of `s` are those of `d`, but for what is stored for one user on one note.
pub record OnlyGrant (id target : Uuid) (to : Option ℕ) (d s : Db) : Type 0 where
  pub row :
      (m v : Uuid)
      → note_grant s.grants m v ≡ (if id == m && target == v then to else note_grant d.grants m v)
  pub notes : s.grants.notes ≡ d.grants.notes
  pub notebooks : s.grants.notebooks ≡ d.grants.notebooks
  pub notebook_shares : s.grants.notebook_shares ≡ d.grants.notebook_shares
  pub users : s.users ≡ d.users

pub OnlyGrant-from :
    (id target : Uuid) (to : Option ℕ) (d s : Db) (g : Grants)
    → ((m v : Uuid)
        → note_grant g m v ≡ (if id == m && target == v then to else note_grant d.grants m v))
    → (g.notes ≡ d.grants.notes)
      × (g.notebooks ≡ d.grants.notebooks)
      × (g.notebook_shares ≡ d.grants.notebook_shares)
    → s ≡ record d { grants = g }
    → OnlyGrant id target to d s
OnlyGrant-from id target to d s g rows (a, b, c) e = record {
  row = λ m v. rw e (rows m v);
  notes = ap (λ (x : Db). x.grants.notes) e ∙ a;
  notebooks = ap (λ (x : Db). x.grants.notebooks) e ∙ b;
  notebook_shares = ap (λ (x : Db). x.grants.notebook_shares) e ∙ c;
  users = ap (λ (x : Db). x.users) e;
}

-- What a checked request commits is a run of its transaction, on the target that the check found.
pub checked-committed :
    {T A : Type 0} (early : Result T) (tx : T → Db → Result (A × Db)) (env : ℕ → Attempt Db)
    (s : Db)
    → (checked early (λ t. serializable (tx t) env)).1 ≡ some s
    → (t : T) × (k : ℕ) × (value : A) × (early ≡ ok t) × (tx t (env k).sees ≡ ok (value, s))
checked-committed (ok t) tx env s h =
    let (k, value, answer, run) = serializable-committed (tx t) env s h in (t, k, value, refl, run)
checked-committed (err e) tx env s h = absurd (ground (arith, h))

module _ (std : StdText) (scheme : PermissionScheme) (user_id : Uuid) where
  -- The user may give the target these capabilities on the note, as the tables stand.
  abbrev pub MayShare : Db → Uuid → ℕ → Uuid → Type 0
  MayShare db id requested target =
      (n : Note) × (a : Access) × (note_access scheme user_id db id ≡ ok (n, a))
      × (can_share_write a ≡ true)
      × (within requested a ≡ true)
      × ((target == n.owner_id) ≡ false)
      × (is_some (get_user_by_id_on db target) ≡ true)

  create_share_early-some :
      (early : Db) (id target : Uuid) (requested : ℕ) (to : Target)
      → create_share_early std scheme user_id early id requested to ≡ ok target
      → (requested == 0) ≡ false
  unfolding create_share_early
  create_share_early-some early id target requested to h = ground arith

  create_share_early-IsNamed :
      (early : Db) (id target : Uuid) (requested : ℕ) (to : Target)
      → create_share_early std scheme user_id early id requested to ≡ ok target
      → IsNamed std early to target
  unfolding create_share_early
  create_share_early-IsNamed early id target requested to h =
      elim (Result-cases (resolve_target std scheme user_id early to)) [
        | inl (user, e) ↦
            let named = resolve_target-IsNamed std scheme user_id early to user e in
            let same : user.id ≡ target = ground (arith, e, h) in
            subst (IsNamed std early to) same named
        | inr (x, e) ↦ absurd (ground (arith, e, h))
      ]

  create_share_tx-OnlyGrant :
      (id target : Uuid) (requested : ℕ) (db s : Db) (share : NoteShare)
      → create_share_tx std scheme user_id id requested target db ≡ ok (share, s)
      → MayShare db id requested target × OnlyGrant id target (some requested) db s
  unfolding create_share_tx
  create_share_tx-OnlyGrant id target requested db s share h =
      elim (Result-cases (note_access scheme user_id db id)) [
        | inl ((n, a), e) ↦ (
          (n, a, e, ground (arith, e), ground (arith, e), ground (arith, e), ground (arith, e)),
          OnlyGrant-from id target (some requested) db s
              (create_or_update_share_on db.grants db.now id target requested).1
              (λ m v. note_grant-create_or_update db.grants id target m v db.now requested)
              (create_or_update_share_on-frame db.grants id target db.now requested)
              (ground (arith, e)),
        )
        | inr (x, e) ↦ absurd (ground (arith, e))
      ]

  -- The committed state of `create_share` is that of one of its runs, in whose state the user may give the
  -- target what is asked for, which is something; and nothing changes but what is stored for the target
  -- on the note: what was asked for. The target is the user whom the request names, as the users stood
  -- when it came.
  pub create_share-OnlyGrant :
      (early s : Db) (env : ℕ → Attempt Db) (id : Uuid) (capabilities : ℕ) (to : Target)
      → (create_share std scheme user_id early env id capabilities to).1 ≡ some s
      → (k : ℕ) × (target : Uuid) × IsNamed std early to target
        × MayShare (env k).sees id (from_bits capabilities) target
        × OnlyGrant id target (some (from_bits capabilities)) (env k).sees s
        × ((from_bits capabilities == 0) ≡ false)
  unfolding create_share
  create_share-OnlyGrant early s env id capabilities to h =
      let requested : ℕ = from_bits capabilities in
      let (target, k, share, e, run) =
        checked-committed (create_share_early std scheme user_id early id requested to)
          (create_share_tx std scheme user_id id requested) env s h in
      let (may, only) = create_share_tx-OnlyGrant id target requested (env k).sees s share run in
      (
        k,
        target,
        create_share_early-IsNamed early id target requested to e,
        may,
        only,
        create_share_early-some early id target requested to e,
      )

  -- The user may take the target's share of the note away: they share in writing, or it is their own.
  abbrev pub MayRevoke : Db → Uuid → Uuid → Type 0
  MayRevoke db id target =
      (n : Note) × (a : Access) × (note_access scheme user_id db id ≡ ok (n, a))
      × ((can_share_write a || target == user_id) ≡ true)

  delete_share_tx-OnlyGrant :
      (id target : Uuid) (db s : Db) (deleted : Bool)
      → delete_share_tx std scheme user_id id target db ≡ ok (deleted, s)
      → MayRevoke db id target × OnlyGrant id target none db s
  unfolding delete_share_tx
  delete_share_tx-OnlyGrant id target db s deleted h =
      elim (Result-cases (note_access scheme user_id db id)) [
        | inl ((n, a), e) ↦ (
          (n, a, e, ground (arith, e)),
          OnlyGrant-from id target none db s (delete_share_on db.grants id target).1
              (λ m v. note_grant-delete db.grants id target m v)
              (delete_share_on-frame db.grants id target) (ground (arith, e)),
        )
        | inr (x, e) ↦ absurd (ground (arith, e))
      ]

  -- The committed state of `delete_share` is that of one of its runs, in whose state the user may take the
  -- target's share of the note away; that share is gone, and nothing else changes.
  pub delete_share-OnlyGrant :
      (early s : Db) (env : ℕ → Attempt Db) (id target : Uuid)
      → (delete_share std scheme user_id early env id target).1 ≡ some s
      → (k : ℕ) × MayRevoke (env k).sees id target × OnlyGrant id target none (env k).sees s
  unfolding delete_share
  delete_share-OnlyGrant early s env id target h =
      let (u, k, deleted, e, run) =
        checked-committed
          (note_access scheme user_id early id >>= λ (found : Note × Access).
            guard (can_share_write found.1 || target == user_id) forbidden)
          (λ u. delete_share_tx std scheme user_id id target) env s h in
      let (may, only) = delete_share_tx-OnlyGrant id target (env k).sees s deleted run in
      (k, may, only)
