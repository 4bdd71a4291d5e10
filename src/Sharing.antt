-- ===== src/Sharing.antt =====
-- crates/keeplin-srv/src/http.rs: the handlers that share notes and notebooks and hand them over. A handler
-- first checks on what the tables hold when the request comes (`early`), then checks again and changes
-- them in a transaction that `serializable` runs. The mail that tells a user of a revocation is left out.
pub mod Checks
pub mod Requests
pub mod Owners
pub mod Notebooks
pub mod Effects
use Prim.Native.Nat.{bit_and}
use keeplin_srv.Base.{
  ℕ, String, Bool, true, false, not, ◌&&◌, ◌||◌, Option, none, some, List, [], ◌∷◌, if◌then◌else◌,
  ◌==◌, nat_key, Result, ok, err, AppError, ok_or, guard, ◌>>=◌, ◌>>◌, forbidden, not_found,
  bad_request, is_some,
}
use keeplin_srv.Protocol.{Uuid, Time, Text}
use keeplin_srv.External.{StdText}
use keeplin_srv.Permissions.{
  Note, NoteShare, NotebookShare, Grants, Access, PermissionScheme, get_note_on,
  resolve_note_access_on, resolve_notebook_access_on, notebook_owner_on, from_bits, can_share_write,
  can_share_read, can_delete,
}
use keeplin_srv.Tables.{
  Db, User, get_user_by_id_on, get_user_by_email_on, create_or_update_share_on, delete_share_on,
  set_note_owner_on, set_notebook_owner_on, create_or_update_notebook_share_on,
  delete_notebook_share_on, list_shares, list_notebook_shares,
}
use keeplin_srv.Transactions.{Attempt, serializable}

-- `TransferBody`, and `CreateShareBody` without its capabilities
pub record Target : Type 0 where
  pub user_id : Option Uuid
  pub user_email : Option Text

-- A check that fails answers at once; else the transaction runs.
abbrev pub checked : {A B : Type 0} → Result A → (A → Result B × Option Db) → Result B × Option Db
checked (err e) run = (err e, none)
checked (ok a) run = run a

-- `access.can_transfer_ownership()`
abbrev pub can_transfer_ownership : Access → Bool
can_transfer_ownership a = a.is_owner

-- `requested & held == requested`
abbrev pub within : ℕ → Access → Bool
within requested access = bit_and requested access.caps == requested

module _ (scheme : PermissionScheme) (user_id : Uuid) where
  -- The note and the user's access to it.
  unfoldable pub note_access : Db → Uuid → Result (Note × Access)
  note_access db id = do
    row ← get_note_on db.grants id
    note ← ok_or row not_found
    access ← resolve_note_access_on db.grants scheme note user_id
    ok (note, access)

module _ (std : StdText) (scheme : PermissionScheme) (user_id : Uuid) where
  abbrev pub normalize_email : Text → Text
  normalize_email email = std.to_lowercase (std.trim email)

  unfoldable pub resolve_target : Db → Target → Result User
  resolve_target db t = elim t.user_id [
    | some uid ↦ ok_or (get_user_by_id_on db uid) not_found
    | none ↦ elim t.user_email [
      | some email ↦ ok_or (get_user_by_email_on db (normalize_email email)) not_found
      | none ↦ err (bad_request "user_id or user_email required")
    ]
  ]

  create_share_early : Db → Uuid → ℕ → Target → Result Uuid
  create_share_early db id requested to = do
    found ← note_access scheme user_id db id
    guard (can_share_write found.1) forbidden
    guard (not (requested == 0)) (bad_request "capabilities must be non-empty")
    guard (within requested found.1) forbidden
    target ← resolve_target db to
    guard (not (target.id == found.0.owner_id)) (bad_request "owner already has access")
    ok target.id

  pub create_share_tx : Uuid → ℕ → Uuid → Db → Result (NoteShare × Db)
  create_share_tx id requested target db = do
    found ← note_access scheme user_id db id
    guard (can_share_write found.1 && within requested found.1) forbidden
    guard (not (target == found.0.owner_id)) (bad_request "owner already has access")
    user ← ok_or (get_user_by_id_on db target) not_found
    let (share, g) = create_or_update_share_on db.grants db.now id target requested
    ok (share, record db { grants = g })

  unfoldable pub create_share :
      Db → (ℕ → Attempt Db) → Uuid → ℕ → Target → Result NoteShare × Option Db
  unfolding create_share_early create_share_tx
  create_share early env id capabilities to =
      let requested : ℕ = from_bits capabilities in
      checked (create_share_early early id requested to)
        (λ target. serializable (create_share_tx id requested target) env)

  delete_share_tx : Uuid → Uuid → Db → Result (Bool × Db)
  delete_share_tx note_id target db = do
    found ← note_access scheme user_id db note_id
    guard (can_share_write found.1 || target == user_id) forbidden
    let (deleted, g) = delete_share_on db.grants note_id target
    ok (deleted, record db { grants = g })

  unfoldable pub delete_share : Db → (ℕ → Attempt Db) → Uuid → Uuid → Result Bool × Option Db
  unfolding delete_share_tx
  delete_share early env note_id target =
      checked
        (do
          found ← note_access scheme user_id early note_id
          guard (can_share_write found.1 || target == user_id) forbidden)
        (λ u. serializable (delete_share_tx note_id target) env)

  transfer_ownership_tx : Uuid → Uuid → Db → Result (Note × Db)
  transfer_ownership_tx id target db = do
    found ← note_access scheme user_id db id
    guard (can_transfer_ownership found.1) forbidden
    user ← ok_or (get_user_by_id_on db target) not_found
    let (deleted, g) = delete_share_on db.grants id target
    let (owned, g') = set_note_owner_on g db.now id target
    note ← ok_or owned not_found
    ok (note, record db { grants = g' })

  unfoldable pub transfer_ownership :
      Db → (ℕ → Attempt Db) → Uuid → Target → Result Note × Option Db
  unfolding transfer_ownership_tx
  transfer_ownership early env id to =
      checked
        (do
          found ← note_access scheme user_id early id
          guard (can_transfer_ownership found.1) forbidden
          resolve_target early to)
        (λ target. serializable (transfer_ownership_tx id target.id) env)

  create_notebook_share_early : Db → Uuid → ℕ → Target → Result Uuid
  create_notebook_share_early db id requested to = do
    access ← resolve_notebook_access_on db.grants id user_id
    guard (can_share_write access) forbidden
    guard (not (requested == 0)) (bad_request "capabilities must be non-empty")
    guard (within requested access) forbidden
    target ← resolve_target db to
    owner ← ok_or (notebook_owner_on db.grants id) not_found
    guard (not (target.id == owner)) (bad_request "owner already has access")
    ok target.id

  create_notebook_share_tx : Uuid → ℕ → Uuid → Db → Result (NotebookShare × Db)
  create_notebook_share_tx id requested target db = do
    access ← resolve_notebook_access_on db.grants id user_id
    guard (can_share_write access && within requested access) forbidden
    owner ← ok_or (notebook_owner_on db.grants id) not_found
    guard (not (target == owner)) (bad_request "owner already has access")
    user ← ok_or (get_user_by_id_on db target) not_found
    let (share, g) = create_or_update_notebook_share_on db.grants db.now id target requested
    ok (share, record db { grants = g })

  unfoldable pub create_notebook_share :
      Db → (ℕ → Attempt Db) → Uuid → ℕ → Target → Result NotebookShare × Option Db
  unfolding create_notebook_share_early create_notebook_share_tx
  create_notebook_share early env id capabilities to =
      let requested : ℕ = from_bits capabilities in
      checked (create_notebook_share_early early id requested to)
        (λ target. serializable (create_notebook_share_tx id requested target) env)

  delete_notebook_share_tx : Uuid → Uuid → Db → Result (Bool × Db)
  delete_notebook_share_tx notebook_id target db = do
    access ← resolve_notebook_access_on db.grants notebook_id user_id
    guard (can_share_write access || target == user_id) forbidden
    let (deleted, g) = delete_notebook_share_on db.grants notebook_id target
    ok (deleted, record db { grants = g })

  unfoldable pub delete_notebook_share :
      Db → (ℕ → Attempt Db) → Uuid → Uuid → Result Bool × Option Db
  unfolding delete_notebook_share_tx
  delete_notebook_share early env notebook_id target =
      checked
        (do
          access ← resolve_notebook_access_on early.grants notebook_id user_id
          guard (can_share_write access || target == user_id) forbidden)
        (λ u. serializable (delete_notebook_share_tx notebook_id target) env)

  transfer_notebook_tx : Uuid → Uuid → Db → Result (Uuid × Db)
  transfer_notebook_tx id target db = do
    access ← resolve_notebook_access_on db.grants id user_id
    guard (can_transfer_ownership access) forbidden
    user ← ok_or (get_user_by_id_on db target) not_found
    let (moved, g) = set_notebook_owner_on db.grants id target
    notebook ← ok_or moved not_found
    let (deleted, g') = delete_notebook_share_on g id target
    ok (target, record db { grants = g' })

  unfoldable pub transfer_notebook : Db → (ℕ → Attempt Db) → Uuid → Target → Result Uuid × Option Db
  unfolding transfer_notebook_tx
  transfer_notebook early env id to =
      checked
        (do
          access ← resolve_notebook_access_on early.grants id user_id
          guard (can_transfer_ownership access) forbidden
          resolve_target early to)
        (λ target. serializable (transfer_notebook_tx id target.id) env)

  -- `list_shares` and `list_notebook_shares`, for those who share in reading.
  unfoldable pub shares_of_note : Db → Uuid → Result (List NoteShare)
  shares_of_note db id = do
    found ← note_access scheme user_id db id
    guard (can_share_read found.1) forbidden
    ok (list_shares db.grants id)

  unfoldable pub shares_of_notebook : Db → Uuid → Result (List NotebookShare)
  shares_of_notebook db id = do
    access ← resolve_notebook_access_on db.grants id user_id
    guard (can_share_read access) forbidden
    ok (list_notebook_shares db.grants id)
