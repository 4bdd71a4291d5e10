-- ===== src/Notes/Moves.antt =====
-- crates/keeplin-srv/src/http.rs: who loses access to a note by a move, and who is told.
use Prim.Native.Nat.{bit_and}
use keeplin_srv.Base.{
  ℕ, ◌≡◌, refl, sym, Bool, true, false, not, ◌&&◌, ◌||◌, Option, some, List, [], ◌∷◌, ◌++◌,
  if◌then◌else◌, ◌==◌, nat_key, ok, err, arith, contains, is_some, is_empty, find, filter,
  Bool-cases, Option-cases, inl, inr, ◌<◌, AppError,
}
use keeplin_srv.Protocol.{Uuid}
use keeplin_srv.Permissions.{
  Note, NotebookShare, Grants, PermissionScheme, get_share_on, get_notebook_share_on,
  notebook_owner_on, notebook_bits, notebook_share_bits, inherited_capabilities_on, share_bits,
  from_bits, normalized, is_user, all, notebook_inheritance, resolve_notebook_access_on,
}
use keeplin_srv.Permissions.Resolve.{notebook_bits-none}
use keeplin_srv.Permissions.Union.{from_bits-or, lost, lost-or_nothing}
use keeplin_srv.Tables.{inherited_note_principals_on, named_shares}
use keeplin_srv.Notes.{
  Losses, no_losses, loses, caps_before, caps_after, weigh, guard_source, can_enumerate,
}

-- What the rows of the source hold of a principal.
listed : Uuid → ℕ → List (Uuid × ℕ) → Bool
listed p bits [] = false
listed p bits ((q, b) ∷ rows) = (q == p && b == bits) || listed p bits rows

named_shares-listed :
    (g : Grants) (nb p : Uuid) (x : NotebookShare) (rows : List NotebookShare) (there : Bool)
    → find (λ (x : NotebookShare). x.notebook_id == nb && x.user_id == p && there) rows ≡ some x
    → listed p x.capabilities (named_shares nb rows) ≡ true
unfolding find listed
named_shares-listed g nb p x [] there h = ground (arith, h)
named_shares-listed g nb p x (y ∷ rows) there h =
    ground (arith, named_shares-listed g nb p x rows there)

listed-filter :
    (p o : Uuid) (bits : ℕ) (rows : List (Uuid × ℕ))
    → (o == p) ≡ false
    → listed p bits (filter (λ (r : Uuid × ℕ). not (r.0 == o && r.1 == all)) rows)
      ≡ listed p bits rows
unfolding filter listed
listed-filter p o bits [] h = refl
listed-filter p o bits ((q, b) ∷ rows) h = ground (arith, listed-filter p o bits rows h)

share-listed :
    (g : Grants) (nb p : Uuid) (x : NotebookShare)
    → get_notebook_share_on g nb p ≡ some x
    → listed p x.capabilities (named_shares nb g.notebook_shares) ≡ true
unfolding get_notebook_share_on
share-listed g nb p x h =
    named_shares-listed g nb p x g.notebook_shares (is_some (notebook_owner_on g nb)) h

notebook_bits-owner :
    (g : Grants) (nb p o : Uuid)
    → notebook_owner_on g nb ≡ some o
    → (o == p) ≡ true
    → notebook_bits g nb p ≡ all
unfolding notebook_bits
notebook_bits-owner g nb p o e same = ground (arith, e, same)

notebook_bits-share :
    (g : Grants) (nb p o : Uuid)
    → notebook_owner_on g nb ≡ some o
    → (o == p) ≡ false
    → notebook_bits g nb p ≡ notebook_share_bits (get_notebook_share_on g nb p)
unfolding notebook_bits
notebook_bits-share g nb p o e other = ground (arith, e, other)

-- Whoever a notebook gives anything to is among its principals, with what it gives.
notebook_bits-listed :
    (g : Grants) (nb p : Uuid)
    → (listed p (notebook_bits g nb p) (inherited_note_principals_on g nb)
        || notebook_bits g nb p == 0)
      ≡ true
unfolding inherited_note_principals_on listed
notebook_bits-listed g nb p = elim (Option-cases (notebook_owner_on g nb)) [
  | inl e ↦ rw (notebook_bits-none g nb p e) (ground arith)
  | inr (o, e) ↦ elim (Bool-cases (o == p)) [
    | inl same ↦ rw (notebook_bits-owner g nb p o e same, e) (ground (arith, same))
    | inr other ↦ elim (Option-cases (get_notebook_share_on g nb p)) [
      | inl x ↦ rw (notebook_bits-share g nb p o e other, x) (ground arith)
      | inr (x, there) ↦
          rw (notebook_bits-share g nb p o e other, there, e)
            (ground (
              arith,
              other,
              listed-filter p o x.capabilities (named_shares nb g.notebook_shares) other,
              share-listed g nb p x there,
            ))
    ]
  ]
]

contains-append :
    (p : ℕ) (xs ys : List ℕ) → contains (xs ++ ys) p ≡ (contains xs p || contains ys p)
unfolding contains
contains-append p [] ys = refl
contains-append p (x ∷ xs) ys = ground (arith, contains-append p xs ys)

not_blocked :
    (p : Uuid) (named notices : List Uuid) (x : AppError) (out : List Uuid)
    → (if is_empty named then ok notices else err x) ≡ ok out
    → (contains named p ≡ false) × (notices ≡ out)
unfolding contains
not_blocked p [] notices x out h = (refl, ground (arith, h))
not_blocked p (q ∷ named) notices x out h = absurd (ground (arith, h))

module _ (scheme : PermissionScheme) (user_id : Uuid) (g : Grants) (note : Note)
    (destination : Option Uuid) where
  -- Where the losers of a guard with these flags are kept.
  abbrev kept_in : Bool → Losses → List Uuid
  kept_in true l = l.named_principals
  kept_in false l = l.notices

  abbrev flag : Bool → Bool → Bool
  flag controls x = if controls then true else x

  weigh-keeps :
      (controls x : Bool) (p : Uuid) (rows : List (Uuid × ℕ)) (l : Losses)
      → contains (kept_in controls l) p ≡ true
      → contains
          (kept_in controls
            (weigh scheme user_id g note destination controls (flag controls x) rows l))
          p
        ≡ true
  unfolding weigh
  weigh-keeps controls x p [] l h = h
  weigh-keeps true x p ((q, b) ∷ rows) l h =
      weigh-keeps true x p rows _ (ground (arith, h, contains-append p l.named_principals (q ∷ [])))
  weigh-keeps false x p ((q, b) ∷ rows) l h =
      weigh-keeps false x p rows _ (ground (arith, h, contains-append p l.notices (q ∷ [])))

  same_loss : (q p b bits : ℕ) → (q == p && b == bits) ≡ true → q ≡ p
  same_loss q p b bits h = ground (arith, h)

  same_bits : (q p b bits : ℕ) → (q == p && b == bits) ≡ true → b ≡ bits
  same_bits q p b bits h = ground (arith, h)

  weigh-finds :
      (controls x : Bool) (p : Uuid) (bits : ℕ) (rows : List (Uuid × ℕ)) (l : Losses)
      → (p == user_id) ≡ false
      → listed p bits rows ≡ true
      → loses
          (caps_before scheme user_id g note p bits)
          (caps_after scheme user_id g note destination p)
        ≡ true
      → contains
          (kept_in controls
            (weigh scheme user_id g note destination controls (flag controls x) rows l))
          p
        ≡ true
  unfolding weigh listed
  weigh-finds controls x p bits [] l other there loss = cc
  weigh-finds true x p bits ((q, b) ∷ rows) l other there loss =
      elim (Bool-cases (q == p && b == bits)) [
        | inl this ↦ weigh-keeps true x p rows _ (
            rw (same_loss q p b bits this, same_bits q p b bits this, other, loss)
              (unfold contains in ground (arith, contains-append p l.named_principals (p ∷ []))))
        | inr that ↦ weigh-finds true x p bits rows _ other (ground (arith, that)) loss
      ]
  weigh-finds false x p bits ((q, b) ∷ rows) l other there loss =
      elim (Bool-cases (q == p && b == bits)) [
        | inl this ↦ weigh-keeps false x p rows _ (
            rw (same_loss q p b bits this, same_bits q p b bits this, other, loss)
              (unfold contains in ground (arith, contains-append p l.notices (p ∷ []))))
        | inr that ↦ weigh-finds false x p bits rows _ other (ground (arith, that)) loss
      ]

  abbrev held : Option Uuid → Uuid → ℕ
  held nb p = caps_after scheme user_id g note nb p

  held_small : (nb : Option Uuid) (p : Uuid) → held nb p < 32
  unfolding caps_after
  held_small nb p =
      (from_bits-or (share_bits (get_share_on g note.id p))
        (inherited_capabilities_on g scheme nb p)).5

  -- Whom the source gives nothing loses nothing.
  lost-no_bits :
      (source p : Uuid)
      → notebook_bits g source p ≡ 0
      → lost (held (some source) p) (held destination p) ≡ false
  unfolding caps_after inherited_capabilities_on notebook_inheritance
  lost-no_bits source p e =
      rw (e, masked_nothing)
        (lost-or_nothing (share_bits (get_share_on g note.id p))
          (inherited_capabilities_on g scheme destination p))
    where
      masked_nothing : bit_and (from_bits 0) (notebook_inheritance scheme) ≡ 0
      masked_nothing = unfold from_bits in unfold normalized in refl

  told_all :
      (controls : Bool) (p : Uuid) (l : Losses) (loss : Bool)
      → contains l.named_principals p ≡ false
      → contains (kept_in controls l) p ≡ true
      → (loss && (controls || not (contains l.notices p))) ≡ false
  told_all true p l loss a b = ground (arith, a, b)
  told_all false p l loss a b = ground (arith, a, b)

  -- If the guard lets a move pass, whoever loses a capability is told, and the mover is not the source's owner.
  pub guard_source-tells :
      (source p : Uuid) (notices : List Uuid)
      → guard_source scheme user_id g note destination source ≡ ok notices
      → (p == user_id) ≡ false
      → (lost (held (some source) p) (held destination p)
          && (is_user (notebook_owner_on g source) user_id || not (contains notices p)))
        ≡ false
  unfolding guard_source
  guard_source-tells source p notices h other =
      let rows = inherited_note_principals_on g source in
      let controls : Bool = is_user (notebook_owner_on g source) user_id in
      let enumerates : Bool = can_enumerate (resolve_notebook_access_on g source user_id) in
      elim (Bool-cases (lost (held (some source) p) (held destination p))) [
        | inr kept ↦ rw kept refl
        | inl gone ↦ elim (Bool-cases (listed p (notebook_bits g source p) rows)) [
          | inr unlisted ↦ absurd (
              ground
                (arith, gone, notebook_bits-listed g source p, unlisted, lost-no_bits source p))
          | inl there ↦
              let before : loses (caps_before scheme user_id g note p (notebook_bits g source p))
                    (caps_after scheme user_id g note destination p)
                  ≡ true =
                unfold caps_before in
                unfold caps_after in unfold inherited_capabilities_on in gone in
              let l =
                weigh scheme user_id g note destination controls (flag controls enumerates) rows
                  no_losses in
              let passed = not_blocked p l.named_principals l.notices _ notices h in
              rw (sym passed.1) (
                told_all controls p l _ passed.0 (
                  weigh-finds controls enumerates p (notebook_bits g source p) rows no_losses other
                    there before))
        ]
      ]
