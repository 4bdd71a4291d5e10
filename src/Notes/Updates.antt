-- ===== src/Notes/Updates.antt =====
-- crates/keeplin-srv/src/http.rs: `update_note` as a whole: who may, what it leaves, and when it is blocked.
use keeplin_srv.Base.{
  ℕ, ◌≡◌, refl, sym, subst, ap, ◌∙◌, Bool, true, false, not, ◌&&◌, ◌||◌, Option, none, some, List,
  [], ◌∷◌, ◌++◌, if◌then◌else◌, ◌==◌, nat_key, ok, arith, contains, Bool-cases, inl, inr, eq_refl,
}
use keeplin_srv.Protocol.{Uuid, Time}
use keeplin_srv.External.{KeeplinCore}
use keeplin_srv.Permissions.{
  Note, Grants, Access, PermissionScheme, get_share_on, note_row, or_forbidden, has,
  resolve_note_access_on, is_user, can_write, inherited_capabilities_on, notebook_bits,
  get_notebook_share_on, notebook_owner_on, foreign_note_ejection,
}
use keeplin_srv.Tables.{Db, NotePatch, apply_patch, patched, update_note_meta_on, edit_note}
use keeplin_srv.Tables.Rows.{note_row-edit}
use keeplin_srv.Transactions.Atomicity.{Result-cases}
use keeplin_srv.Sharing.Checks.{note_access-row}
use keeplin_srv.Sharing.{note_access}
use keeplin_srv.Notes.{
  caps_after, guard_move, check_update, update_note_tx, source_notebook_owner, moved_into, is_move,
  check_destination, is_ejection,
}
use keeplin_srv.Permissions.Union.{lost}
use keeplin_srv.Notes.Changes.{
  loses_any, loses_any-lost, resolve-caps_after, guarded, guarded-Told, Told, caps_after-small,
}

contains-append_left :
    (p : ℕ) (xs ys : List ℕ) → contains xs p ≡ true → contains (xs ++ ys) p ≡ true
unfolding contains
contains-append_left p [] ys h = cc
contains-append_left p (x ∷ xs) ys h = ground (arith, contains-append_left p xs ys)

contains-notices :
    (b : Bool) (p o : ℕ) (told : List ℕ)
    → contains told p ≡ true
    → contains (if b then told ++ o ∷ [] else told) p ≡ true
contains-notices true p o told h = contains-append_left p told (o ∷ []) h
contains-notices false p o told h = h

weaken :
    (loss controls told noticed : Bool)
    → (told ≡ true → noticed ≡ true)
    → (loss && (controls || not told)) ≡ false
    → (loss && (controls || not noticed)) ≡ false
weaken loss controls true noticed more h = rw (more refl) h
weaken loss controls false noticed more h = ground (arith, h)

-- What a field of a patch asks for: its value, or what was there.
abbrev pub Takes {ℓ} : {A : Type ℓ} → Option A → A → A → Type ℓ
Takes none old new = new ≡ old
Takes (some value) old new = new ≡ value

pub record IsPatched (patch : NotePatch) (now : Time) (n note : Note) : Type 0 where
  pub title : Takes patch.title n.title note.title
  pub notebook_id : Takes patch.notebook_id n.notebook_id note.notebook_id
  pub is_todo : Takes patch.is_todo n.is_todo note.is_todo
  pub todo_due : Takes patch.todo_due n.todo_due note.todo_due
  pub todo_completed : Takes patch.todo_completed n.todo_completed note.todo_completed
  pub updated_at : note.updated_at ≡ now
  pub same :
      (note.id ≡ n.id)
      × (note.owner_id ≡ n.owner_id)
      × (note.created_at ≡ n.created_at)
      × (note.deleted_at ≡ n.deleted_at)

Takes-patched {ℓ} : {A : Type ℓ} → (o : Option A) (old : A) → Takes o old (patched o old)
Takes-patched none old = refl
Takes-patched (some value) old = refl

apply_patch-IsPatched :
    (patch : NotePatch) (now : Time) (n : Note) → IsPatched patch now n (apply_patch now patch n)
apply_patch-IsPatched patch now n = record {
  title = Takes-patched patch.title n.title;
  notebook_id = Takes-patched patch.notebook_id n.notebook_id;
  is_todo = Takes-patched patch.is_todo n.is_todo;
  todo_due = Takes-patched patch.todo_due n.todo_due;
  todo_completed = Takes-patched patch.todo_completed n.todo_completed;
  updated_at = refl;
  same = (refl, refl, refl, refl);
}

module _ (core : KeeplinCore) (scheme : PermissionScheme) (user_id : Uuid) where
  -- What a run needs: the note, with an access that writes; the note's owner, or an ejection that the scheme
  -- allows, if it moves; and a destination that the user may write to, below the format's limit.
  pub record MayUpdate (db : Db) (id : Uuid) (patch : NotePatch) (n : Note) (told : List Uuid)
      : Type 0 where
    pub access : Access
    pub found : note_row db.grants id ≡ some n
    pub resolved : resolve_note_access_on db.grants scheme n user_id ≡ ok access
    pub writes : can_write access ≡ true
    pub by_owner :
        (is_move n.notebook_id patch.notebook_id
          && not (n.owner_id == user_id)
          && not (
              is_ejection scheme user_id db.grants n patch.notebook_id
              && foreign_note_ejection scheme))
        ≡ false
    pub passed : guarded scheme user_id db.grants n n.notebook_id patch.notebook_id ≡ ok told
    pub destination :
        check_destination core scheme user_id db.grants (moved_into n.notebook_id patch.notebook_id)
        ≡ ok tt

  check_update-found :
      (db : Db) (id : Uuid) (patch : NotePatch) (n m : Note) (a : Access) (told : List Uuid)
      → note_access scheme user_id db id ≡ ok (m, a)
      → check_update core scheme user_id db id patch ≡ ok (n, told)
      → note_access scheme user_id db id ≡ ok (n, a)
  unfolding check_update
  check_update-found db id patch n m a told e h = ground (arith, e, h)

  guard_move-guarded :
      (g : Grants) (n : Note) (to : Option (Option Uuid))
      → guard_move scheme user_id g n to ≡ guarded scheme user_id g n n.notebook_id to
  unfolding guard_move guarded
  guard_move-guarded g n to = refl

  check_update-steps :
      (db : Db) (id : Uuid) (patch : NotePatch) (n : Note) (told : List Uuid) (a : Access)
      → note_access scheme user_id db id ≡ ok (n, a)
      → check_update core scheme user_id db id patch ≡ ok (n, told)
      → MayUpdate db id patch n told
  unfolding check_update
  check_update-steps db id patch n told a e h = record {
    access = a;
    found = (note_access-row scheme user_id db id n a e).0;
    resolved = (note_access-row scheme user_id db id n a e).1;
    writes = ground (arith, e, h);
    by_owner = ground (arith, e, h);
    passed = sym (guard_move-guarded db.grants n patch.notebook_id) ∙ ground (arith, e, h);
    destination = ground (arith, e, h);
  }

  check_update-MayUpdate :
      (db : Db) (id : Uuid) (patch : NotePatch) (n : Note) (told : List Uuid)
      → check_update core scheme user_id db id patch ≡ ok (n, told)
      → MayUpdate db id patch n told
  check_update-MayUpdate db id patch n told h =
      elim (Result-cases (note_access scheme user_id db id)) [
        | inr (x, e) ↦ absurd (unfold check_update in ground (arith, e, h))
        | inl ((m, a), e) ↦
            check_update-steps db id patch n told a (check_update-found db id patch n m a told e h)
              h
      ]

  -- The note after a run: the patch applied to it, in the tables with nothing else changed.
  pub update_note_tx-steps :
      (db s : Db) (id : Uuid) (patch : NotePatch) (note : Note) (notices : List Uuid)
      → update_note_tx core scheme user_id id patch db ≡ ok ((note, notices), s)
      → (n : Note) × (told : List Uuid) × MayUpdate db id patch n told
        × (note ≡ apply_patch db.now patch n)
        × (s ≡ record db { grants = edit_note id (apply_patch db.now patch) db.grants })
        × (notices ≡ (
            if is_ejection scheme user_id db.grants n patch.notebook_id
              && not (n.owner_id == user_id)
            then told ++ n.owner_id ∷ []
            else told))
  unfolding update_note_tx update_note_meta_on
  update_note_tx-steps db s id patch note notices h =
      elim (Result-cases (check_update core scheme user_id db id patch)) [
        | inr (x, e) ↦ absurd (ground (arith, e, h))
        | inl ((n, told), e) ↦
            let may = check_update-MayUpdate db id patch n told e in
            elim (Bool-cases (db.grants.readable (apply_patch db.now patch n).title)) [
              | inl r ↦ (
                n,
                told,
                may,
                ground (arith, e, h, may.found, r),
                ground (arith, e, h, may.found, r),
                ground (arith, e, h, may.found, r),
              )
              | inr r ↦ absurd (ground (arith, e, h, may.found, r))
            ]
      ]

  -- An owner of the note keeps every capability.
  owner_keeps :
      (g g' : Grants) (n n' : Note) (p : Uuid)
      → (n.owner_id == p) ≡ true
      → n'.owner_id ≡ n.owner_id
      → loses_any scheme user_id
          (resolve_note_access_on g scheme n p)
          (resolve_note_access_on g' scheme n' p)
        ≡ false
  unfolding resolve_note_access_on has
  owner_keeps g g' n n' p owns same = rw (same, owns) refl

  caps_after-edit :
      (db : Db) (id : Uuid) (patch : NotePatch) (n : Note) (nb : Option Uuid) (p : Uuid)
      → caps_after scheme user_id
          (edit_note id (apply_patch db.now patch) db.grants)
          (apply_patch db.now patch n)
          nb
          p
        ≡ caps_after scheme user_id db.grants n nb p
  unfolding caps_after get_share_on inherited_capabilities_on notebook_bits get_notebook_share_on
      notebook_owner_on
  caps_after-edit db id patch n none p = refl
  caps_after-edit db id patch n (some nb) p = refl

  -- The same for the others, by what the guard found on them.
  others-Told :
      (db s : Db) (id : Uuid) (patch : NotePatch) (n note : Note) (told notices : List Uuid)
      (p : Uuid)
      → s ≡ record db { grants = edit_note id (apply_patch db.now patch) db.grants }
      → note ≡ apply_patch db.now patch n
      → (n.owner_id == p) ≡ false
      → (contains told p ≡ true → contains notices p ≡ true)
      → Told scheme user_id db.grants n n.notebook_id
          (patched patch.notebook_id n.notebook_id)
          told
          p
      → (loses_any scheme user_id
            (resolve_note_access_on db.grants scheme n p)
            (resolve_note_access_on s.grants scheme note p)
          && (is_user (source_notebook_owner db.grants n.notebook_id) user_id
              || not (contains notices p)))
        ≡ false
  others-Told db s id patch n note told notices p es en other more t =
      let b : ℕ = caps_after scheme user_id db.grants n n.notebook_id p in
      let a : ℕ =
        caps_after scheme user_id db.grants n (patched patch.notebook_id n.notebook_id) p in
      let before : resolve_note_access_on db.grants scheme n p ≡ or_forbidden b =
        resolve-caps_after scheme user_id db.grants n p other in
      let after : resolve_note_access_on s.grants scheme note p ≡ or_forbidden a =
        rw (es, en)
          (resolve-caps_after scheme user_id (edit_note id (apply_patch db.now patch) db.grants)
              (apply_patch db.now patch n) p other
            ∙ ap or_forbidden
                (caps_after-edit db id patch n (patched patch.notebook_id n.notebook_id) p)) in
      rw
        (
          before,
          after,
          loses_any-lost scheme user_id b a
              (caps_after-small scheme user_id db.grants n n.notebook_id p)
              (caps_after-small scheme user_id db.grants n (patched patch.notebook_id n.notebook_id)
                p),
        )
        (weaken (lost b a) (is_user (source_notebook_owner db.grants n.notebook_id) user_id)
          (contains told p) (contains notices p) more t)

  -- Whoever else had a capability through a share or the notebook and has it no longer after a run of
  -- `update_note` is among those told, and the user is not the owner of the notebook that the note leaves:
  -- such an owner's move is blocked. The note that is stored then is the one found, with the fields that the
  -- patch gives and the time of the change, and all else as it was.
  pub update_note_tx-tells :
      (db s : Db) (id : Uuid) (patch : NotePatch) (note : Note) (notices : List Uuid) (p : Uuid)
      → update_note_tx core scheme user_id id patch db ≡ ok ((note, notices), s)
      → (p == user_id) ≡ false
      → (n : Note) × (note_row db.grants id ≡ some n)
        × (note_row s.grants id ≡ some note)
        × IsPatched patch db.now n note
        × ((loses_any scheme user_id
                (resolve_note_access_on db.grants scheme n p)
                (resolve_note_access_on s.grants scheme note p)
              && (is_user (source_notebook_owner db.grants n.notebook_id) user_id
                  || not (contains notices p)))
            ≡ false)
  update_note_tx-tells db s id patch note notices p h other =
      let (n, told, may, en, es, eo) = update_note_tx-steps db s id patch note notices h in
      (
        n,
        may.found,
        rw (es, en)
            (note_row-edit id id (apply_patch db.now patch) db.grants (λ n. (refl, refl))
              ∙ rw (eq_refl id, may.found) refl),
        subst (IsPatched patch db.now n) (sym en) (apply_patch-IsPatched patch db.now n),
        elim (Bool-cases (n.owner_id == p)) [
          | inl owns ↦
              rw (owner_keeps db.grants s.grants n note p owns (ap (λ (x : Note). x.owner_id) en))
                refl
          | inr not_owner ↦
              others-Told db s id patch n note told notices p es en not_owner
                (λ t. rw eo (
                  contains-notices
                    (is_ejection scheme user_id db.grants n patch.notebook_id
                      && not (n.owner_id == user_id))
                    p n.owner_id told t))
                (guarded-Told scheme user_id db.grants n n.notebook_id patch.notebook_id told p
                  may.passed other)
        ],
      )
