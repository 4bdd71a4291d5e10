-- ===== src/Notes/Outcomes.antt =====
-- crates/keeplin-srv/src/http.rs: what `update_note` commits, the limit on a notebook's notes, and the answer
-- that a move is blocked.
use keeplin_srv.Base.{
  ℕ, ◌≤◌, ◌≡◌, refl, ◌∙◌, Bool, true, false, ◌&&◌, Option, none, some, List, [], ◌∷◌, if◌then◌else◌,
  ◌==◌, nat_key, ok, err, arith, AppError, move_blocked, is_none, is_empty,
}
use keeplin_srv.Protocol.{Uuid}
use keeplin_srv.External.{KeeplinCore}
use keeplin_srv.Permissions.{
  Note, Grants, PermissionScheme, is_user, notebook_owner_on, resolve_notebook_access_on,
}
use keeplin_srv.Tables.{count_live_notes_in_notebook_on, inherited_note_principals_on}
use keeplin_srv.Notes.{Losses, no_losses, weigh, guard_source, can_enumerate, counted, sort_dedup}

abbrev counts_in : Uuid → Note → Bool
counts_in notebook_id n = elim n.notebook_id [
  | none ↦ false
  | some nb ↦ nb == notebook_id && is_none n.deleted_at
]

module _ (core : KeeplinCore) (scheme : PermissionScheme) (user_id : Uuid) where
  abbrev pub WithinLimit : Grants → Option Uuid → Type 0
  WithinLimit g none = Unit {0}
  WithinLimit g (some nb) = count_live_notes_in_notebook_on g nb ≤ core.max_notes_per_notebook

  abbrev guard_weighs :
      Grants → Note → Option Uuid → Bool → Bool → List (Uuid × ℕ) → Losses → Losses
  guard_weighs g n destination controls x rows l =
      weigh scheme user_id g n destination controls (if controls then true else x) rows l

  weigh-never_counts :
      (g : Grants) (n : Note) (destination : Option Uuid) (controls x : Bool)
      (rows : List (Uuid × ℕ)) (l : Losses)
      → (guard_weighs g n destination controls x rows l).unenumerable_count ≡ l.unenumerable_count
  unfolding weigh
  weigh-never_counts g n destination controls x [] l = refl
  weigh-never_counts g n destination true x ((q, b) ∷ rows) l =
      weigh-never_counts g n destination true x rows _ ∙ ground arith
  weigh-never_counts g n destination false x ((q, b) ∷ rows) l =
      weigh-never_counts g n destination false x rows _ ∙ ground arith

  weigh-names_none :
      (g : Grants) (n : Note) (destination : Option Uuid) (x : Bool) (rows : List (Uuid × ℕ))
      (l : Losses)
      → (weigh scheme user_id g n destination false x rows l).named_principals ≡ l.named_principals
  unfolding weigh
  weigh-names_none g n destination x [] l = refl
  weigh-names_none g n destination x ((q, b) ∷ rows) l =
      weigh-names_none g n destination x rows _ ∙ ground arith

  unowned :
      (g : Grants) (n : Note) (destination : Option Uuid) (controls x : Bool)
      (rows : List (Uuid × ℕ))
      → controls ≡ false
      → (guard_weighs g n destination controls x rows no_losses).named_principals ≡ []
  unowned g n destination controls x rows c =
      rw c (weigh-names_none g n destination x rows no_losses)

  blocked_answer :
      (controls : Bool) (source : Uuid) (l : Losses) (e : AppError)
      → (if is_empty l.named_principals
          then ok l.notices
          else err
              (move_blocked (sort_dedup l.named_principals) (counted source l.unenumerable_count)))
        ≡ err e
      → l.unenumerable_count ≡ 0
      → (controls ≡ false → l.named_principals ≡ [])
      → (e ≡ move_blocked (sort_dedup l.named_principals) []) × (controls ≡ true)
  blocked_answer true source l e h zero_count none_named = (ground (arith, h, zero_count), refl)
  blocked_answer false source l e h zero_count none_named =
      absurd (ground (arith, h, none_named refl))

  -- A move is blocked only for the owner of the notebook that the note would leave, and the answer never
  -- counts principals without their names.
  pub guard_source-blocked :
      (g : Grants) (n : Note) (destination : Option Uuid) (source : Uuid) (e : AppError)
      → guard_source scheme user_id g n destination source ≡ err e
      → (named : List Uuid) × (e ≡ move_blocked named [])
        × (is_user (notebook_owner_on g source) user_id ≡ true)
  unfolding guard_source
  guard_source-blocked g n destination source e h =
      let controls : Bool = is_user (notebook_owner_on g source) user_id in
      let x : Bool = can_enumerate (resolve_notebook_access_on g source user_id) in
      let rows = inherited_note_principals_on g source in
      let l : Losses = guard_weighs g n destination controls x rows no_losses in
      let (answer, owns) =
        blocked_answer controls source l e h
          (weigh-never_counts g n destination controls x rows no_losses)
          (λ c. unowned g n destination controls x rows c) in
      (sort_dedup l.named_principals, answer, owns)
