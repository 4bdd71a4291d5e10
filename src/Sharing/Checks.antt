-- ===== src/Sharing/Checks.antt =====
-- crates/keeplin-srv/src/http.rs: whom the body of a request names, for `resolve_target`, and which note is
-- read.
use keeplin_srv.Base.{
  ◌≡◌, refl, sym, subst, ◌⊎◌, inl, inr, none, some, List, [], ◌∷◌, find, ◌==◌, nat_key, arith, ok,
  Option-cases, nat_beq_iff,
}
use keeplin_srv.Protocol.{Uuid, Text}
use keeplin_srv.External.{StdText}
use keeplin_srv.Permissions.{Note, Access, PermissionScheme, note_row, resolve_note_access_on}
use keeplin_srv.Tables.Rows.{get_note_on-cases}
use keeplin_srv.Tables.{Db, User, get_user_by_id_on, get_user_by_email_on}
use keeplin_srv.Sharing.{note_access, Target, resolve_target}

-- The request gives the id of a user, or else the address of one, without blanks around it and in lower
-- case. An address that stands beside an id is not read.
abbrev pub IsNamed : StdText → Db → Target → Uuid → Type 0
IsNamed std db to target =
    (user : User) × (user.id ≡ target)
    × (((to.user_id ≡ some target) × (get_user_by_id_on db target ≡ some user))
        ⊎ ((email : Text) × (to.user_id ≡ none)
            × (to.user_email ≡ some email)
            × (get_user_by_email_on db (std.to_lowercase (std.trim email)) ≡ some user)))

id-find :
    (uid : Uuid) (users : List User) (u : User)
    → find (λ (x : User). x.id == uid) users ≡ some u
    → u.id ≡ uid
unfolding find
id-find uid [] u h = ground (arith, h)
id-find uid (x ∷ users) u h = ground (arith, id-find uid users u, nat_beq_iff x.id uid)

found_id : (db : Db) (uid : Uuid) (u : User) → get_user_by_id_on db uid ≡ some u → u.id ≡ uid
unfolding get_user_by_id_on
found_id db uid u h = id-find uid db.users u h

module _ (std : StdText) (scheme : PermissionScheme) (user_id : Uuid) where
  pub resolve_target-IsNamed :
      (db : Db) (to : Target) (user : User)
      → resolve_target std scheme user_id db to ≡ ok user
      → IsNamed std db to user.id
  unfolding resolve_target
  resolve_target-IsNamed db to user h = elim (Option-cases to.user_id) [
    | inr (uid, e) ↦
        let found : get_user_by_id_on db uid ≡ some user = ground (arith, e, h) in
        let same : user.id ≡ uid = found_id db uid user found in
        (
          user,
          refl,
          inl (
            ground (arith, e, same),
            subst (λ (i : Uuid). get_user_by_id_on db i ≡ some user) (sym same) found,
          ),
        )
    | inl e ↦ elim (Option-cases to.user_email) [
      | inl f ↦ absurd (ground (arith, e, f, h))
      | inr (email, f) ↦ (user, refl, inr (email, e, f, ground (arith, e, f, h)))
    ]
  ]

pub note_access-row :
    (scheme : PermissionScheme) (user_id : Uuid) (db : Db) (id : Uuid) (n : Note) (a : Access)
    → note_access scheme user_id db id ≡ ok (n, a)
    → (note_row db.grants id ≡ some n) × (resolve_note_access_on db.grants scheme n user_id ≡ ok a)
unfolding note_access
note_access-row scheme user_id db id n a h = elim (get_note_on-cases db.grants id) [
  | inl e ↦ (ground (arith, h, e), ground (arith, h, e))
  | inr e ↦ absurd (ground (arith, h, e))
]
