-- ===== src/Notes/Changes.antt =====
-- crates/keeplin-srv/src/http.rs: what a run of `update_note` leaves of the access of the other users.
use keeplin_srv.Base.{
  ℕ, ◌≡◌, refl, ap, Bool, true, false, not, ◌&&◌, ◌||◌, Option, none, some, List, [], if◌then◌else◌,
  ◌==◌, nat_key, Result, ok, err, contains, Bool-cases, inl, inr, nat_beq_iff, eq_refl, ◌<◌,
}
use keeplin_srv.Protocol.{Uuid}
use keeplin_srv.Permissions.{
  Note, NoteShare, Grants, Access, PermissionScheme, get_share_on, resolve_note_access_on,
  or_forbidden, share_bits, from_bits, has, is_user, direct_capabilities, inherited,
  inherited_capabilities_on, read, write, share_read, share_write, manage, normalized,
  move_out_guard,
}
use keeplin_srv.Permissions.Union.{
  from_bits-or, from_bits-or_closed, lost, lost-any, lost-or_nothing,
}
use keeplin_srv.Tables.{patched}
use keeplin_srv.Notes.{
  caps_after, source_notebook_owner, flatten, is_move, same_notebook, guard_source,
}
use keeplin_srv.Notes.Moves.{guard_source-tells}

-- Whether the answer to a user's question for access grants a capability.
abbrev pub grants_cap : Result Access → ℕ → Bool
grants_cap (ok access) capability = has access.caps capability
grants_cap (err e) capability = false

module _ (scheme : PermissionScheme) (user_id : Uuid) where
  direct-from_bits :
      (share : Option NoteShare) → direct_capabilities share ≡ from_bits (share_bits share)
  unfolding from_bits normalized
  direct-from_bits none = refl
  direct-from_bits (some x) = refl

  inherited-from_bits :
      (g : Grants) (nb : Option Uuid) (p : Uuid)
      → inherited g scheme nb p ≡ from_bits (inherited_capabilities_on g scheme nb p)
  unfolding from_bits normalized inherited_capabilities_on
  inherited-from_bits g none p = refl
  inherited-from_bits g (some nb) p = refl

  -- Access as permissions.rs resolves it is by the union that the guard on moves works with.
  pub resolve-caps_after :
      (g : Grants) (n : Note) (p : Uuid)
      → (n.owner_id == p) ≡ false
      → resolve_note_access_on g scheme n p
        ≡ or_forbidden (caps_after scheme user_id g n n.notebook_id p)
  unfolding resolve_note_access_on caps_after
  resolve-caps_after g n p other =
      rw
        (
          other,
          direct-from_bits (get_share_on g n.id p),
          inherited-from_bits g n.notebook_id p,
          from_bits-or_closed (share_bits (get_share_on g n.id p))
              (inherited_capabilities_on g scheme n.notebook_id p),
        )
        refl

  -- The five capabilities, of which a user may lose some from one state to another.
  abbrev pub loses_any : Result Access → Result Access → Bool
  loses_any before after =
      grants_cap before manage && not (grants_cap after manage)
      || (grants_cap before share_write && not (grants_cap after share_write)
          || (grants_cap before share_read && not (grants_cap after share_read)
              || (grants_cap before write && not (grants_cap after write)
                  || grants_cap before read && not (grants_cap after read))))

  grants_cap-or_forbidden :
      (caps : ℕ)
      → (grants_cap (or_forbidden caps) manage ≡ has caps manage)
        × (grants_cap (or_forbidden caps) share_write ≡ has caps share_write)
        × (grants_cap (or_forbidden caps) share_read ≡ has caps share_read)
        × (grants_cap (or_forbidden caps) write ≡ has caps write)
        × (grants_cap (or_forbidden caps) read ≡ has caps read)
  grants_cap-or_forbidden caps = elim (Bool-cases (caps == 0)) [
    | inl nothing ↦
        rw ((nat_beq_iff caps 0).0 nothing) (unfold has in (refl, refl, refl, refl, refl))
    | inr something ↦ rw something (refl, refl, refl, refl, refl)
  ]

  pub loses_any-lost :
      (b a : ℕ) → b < 32 → a < 32 → loses_any (or_forbidden b) (or_forbidden a) ≡ lost b a
  loses_any-lost b a sb sa =
      let x = grants_cap-or_forbidden b in
      let y = grants_cap-or_forbidden a in
      rw (lost-any b a sb sa, x.0, x.1, x.2, x.3, x.4, y.0, y.1, y.2, y.3, y.4) refl

  same_notebook-eq : (x y : Option Uuid) → same_notebook x y ≡ true → x ≡ y
  same_notebook-eq none none h = refl
  same_notebook-eq none (some y) h = cc
  same_notebook-eq (some x) none h = cc
  same_notebook-eq (some x) (some y) h = ap some ((nat_beq_iff x y).0 h)

  abbrev pub Told : Grants → Note → Option Uuid → Option Uuid → List Uuid → Uuid → Type 0
  Told g n source destination notices p =
      (lost (caps_after scheme user_id g n source p) (caps_after scheme user_id g n destination p)
        && (is_user (source_notebook_owner g source) user_id || not (contains notices p)))
      ≡ false

  Told-stay :
      (g : Grants) (n : Note) (source : Option Uuid) (notices : List Uuid) (p : Uuid)
      → Told g n source source notices p
  Told-stay g n source notices p = rw (eq_refl (caps_after scheme user_id g n source p)) refl

  Told-from_none :
      (g : Grants) (n : Note) (destination : Option Uuid) (notices : List Uuid) (p : Uuid)
      → Told g n none destination notices p
  unfolding caps_after inherited_capabilities_on
  Told-from_none g n destination notices p =
      rw
        (lost-or_nothing (share_bits (get_share_on g n.id p))
          (inherited_capabilities_on g scheme destination p))
        refl

  unfoldable pub guarded : Grants → Note → Option Uuid → Option (Option Uuid) → Result (List Uuid)
  guarded g n source to =
      if is_move source to && move_out_guard scheme
      then elim source [ none ↦ ok [] | some nb ↦ guard_source scheme user_id g n (flatten to) nb ]
      else ok []

  pub guarded-Told :
      (g : Grants) (n : Note) (source : Option Uuid) (to : Option (Option Uuid))
      (notices : List Uuid) (p : Uuid)
      → guarded g n source to ≡ ok notices
      → (p == user_id) ≡ false
      → Told g n source (patched to source) notices p
  unfolding guarded move_out_guard
  guarded-Told g n source none notices p h other = Told-stay g n source notices p
  guarded-Told g n none (some to) notices p h other = Told-from_none g n to notices p
  guarded-Told g n (some nb) (some to) notices p h other =
      elim (Bool-cases (same_notebook to (some nb))) [
        | inl same ↦ rw (same_notebook-eq to (some nb) same) (Told-stay g n (some nb) notices p)
        | inr moved ↦ guard_source-tells scheme user_id g n to nb p notices (rw moved at h) other
      ]

  pub caps_after-small :
      (g : Grants) (n : Note) (nb : Option Uuid) (p : Uuid)
      → caps_after scheme user_id g n nb p < 32
  unfolding caps_after
  caps_after-small g n nb p =
      (from_bits-or (share_bits (get_share_on g n.id p))
        (inherited_capabilities_on g scheme nb p)).5
