-- ===== src/Listing/Readable.antt =====
-- The notes that are listed for a user are those that the user may read.
use keeplin_srv.Base.{
  ◌%◌, ◌≡◌, ◌<◌, ◌+◌, ◌⊎◌, refl, sym, subst, count_where, nat_beq_iff, ltb, if◌then◌else◌, ◌∙◌, ap,
  Bool, true, false, ◌&&◌, Option, none, some, List, [], ◌∷◌, filter, is_none, ◌==◌, nat_key, ok,
  err, Result, arith, Bool-cases, is_some, inl, inr, Option-cases,
}
use keeplin_srv.Protocol.{Uuid}
use keeplin_srv.Permissions.{
  Note, Grants, NoteShare, NotebookShare, Access, PermissionScheme, can_read, get_share_on,
  get_notebook_share_on, resolve_note_access_on, notebook_owner_on, notebook_bits, has, is_user,
}
use keeplin_srv.Permissions.Bits.{reads}
use keeplin_srv.Permissions.Resolve.{resolve_note_access-holds, direct_bits, container_bits}
use keeplin_srv.Listing.Order.{
  AllTitles, list_notes_for_user-listed_rows, filter-all, AllBefore, IsNewestFirst, HasOwnIds,
  newest_first-IsNewestFirst,
}
use keeplin_srv.Listing.{
  is_listed, listed_rows, list_notes_for_user, newest_first, in_notebook_of, insert_newest,
  is_before, cursor_of,
}

abbrev pub lets_read : Result Access → Bool
lets_read (err e) = false
lets_read (ok a) = can_read a

-- A note that is alive and that the user may read.
abbrev pub is_readable : Grants → PermissionScheme → Uuid → Note → Bool
is_readable g scheme user_id n =
    is_none n.deleted_at && lets_read (resolve_note_access_on g scheme n user_id)

-- Each share that is stored for the user gives a capability, and so reading.
pub record SharesGive (g : Grants) (user_id : Uuid) : Type 0 where
  pub note_share :
      (id : Uuid) (s : NoteShare)
      → get_share_on g id user_id ≡ some s
      → reads (s.capabilities % 32) ≡ true
  pub notebook_share :
      (nb : Uuid) (s : NotebookShare)
      → get_notebook_share_on g nb user_id ≡ some s
      → reads (s.capabilities % 32) ≡ true

filter-same :
    (p q : Note → Bool) → ((n : Note) → p n ≡ q n) → (xs : List Note) → filter p xs ≡ filter q xs
unfolding filter
filter-same p q same [] = refl
filter-same p q same (x ∷ xs) = rw (same x, filter-same p q same xs) refl

shared_reads :
    (g : Grants) (n : Note) (user_id : Uuid)
    → SharesGive g user_id
    → reads (direct_bits g n user_id) ≡ is_some (get_share_on g n.id user_id)
unfolding has
shared_reads g n user_id give = elim (Option-cases (get_share_on g n.id user_id)) [
  | inl e ↦ rw e refl
  | inr (s, e) ↦ rw e (give.note_share n.id s e)
]

notebook_reads :
    (g : Grants) (nb : Option Uuid) (user_id : Uuid)
    → SharesGive g user_id
    → reads (container_bits g nb user_id) ≡ in_notebook_of g nb user_id
unfolding has notebook_bits
notebook_reads g none user_id give = refl
notebook_reads g (some nb) user_id give = elim (Option-cases (get_notebook_share_on g nb user_id)) [
  | inl e ↦ elim (Bool-cases (is_user (notebook_owner_on g nb) user_id)) [
    | inl o ↦ rw (e, o) refl
    | inr o ↦ rw (e, o) refl
  ]
  | inr (s, e) ↦ elim (Bool-cases (is_user (notebook_owner_on g nb) user_id)) [
    | inl o ↦ rw (e, o) refl
    | inr o ↦ rw (e, o) (give.notebook_share nb s e)
  ]
]

owner_reads :
    (g : Grants) (scheme : PermissionScheme) (user_id : Uuid) (n : Note)
    → (n.owner_id == user_id) ≡ true
    → lets_read (resolve_note_access_on g scheme n user_id) ≡ true
unfolding resolve_note_access_on has
owner_reads g scheme user_id n o = rw o refl

is_listed-readable :
    (g : Grants) (scheme : PermissionScheme) (user_id : Uuid) (n : Note)
    → SharesGive g user_id
    → is_listed g user_id n ≡ is_readable g scheme user_id n
unfolding is_listed
is_listed-readable g scheme user_id n give = elim (Bool-cases (n.owner_id == user_id)) [
  | inl o ↦ rw (o, owner_reads g scheme user_id n o) refl
  | inr o ↦
      let (caps, answer, may_read, w, sr, sw, m) = resolve_note_access-holds g scheme n user_id o in
      let d = shared_reads g n user_id give in
      let i = notebook_reads g n.notebook_id user_id give in
      rw (o, answer) (ground (arith, d, i, may_read))
]

-- Each note was changed last after those that follow it, or at the same time with a greater id.
abbrev pub AllOlder : Note → List Note → Type 0
AllOlder n [] = Unit {0}
AllOlder n (m ∷ notes) =
    ((m.updated_at < n.updated_at) ⊎ ((m.updated_at ≡ n.updated_at) × (m.id < n.id)))
    × AllOlder n notes

abbrev pub IsNewestDown : List Note → Type 0
IsNewestDown [] = Unit {0}
IsNewestDown (n ∷ notes) = AllOlder n notes × IsNewestDown notes

older :
    (n m : Note)
    → is_before (cursor_of n) m ≡ true
    → (m.updated_at < n.updated_at) ⊎ ((m.updated_at ≡ n.updated_at) × (m.id < n.id))
unfolding is_before
older n m h = elim (Bool-cases (ltb m.updated_at n.updated_at)) [
  | inl e ↦ inl (ground (arith, e))
  | inr e ↦ inr (ground (arith, e, h, nat_beq_iff m.updated_at n.updated_at), ground (arith, e, h))
]

AllBefore-AllOlder :
    (n : Note) (notes : List Note) → AllBefore (cursor_of n) notes → AllOlder n notes
AllBefore-AllOlder n [] all = tt
AllBefore-AllOlder n (m ∷ notes) (h, all) = (older n m h, AllBefore-AllOlder n notes all)

newest_down : (notes : List Note) → IsNewestFirst notes → IsNewestDown notes
newest_down [] sorted = tt
newest_down (n ∷ notes) (all, sorted) = (AllBefore-AllOlder n notes all, newest_down notes sorted)

count-insert_newest :
    (p : Note → Bool) (n : Note) (notes : List Note)
    → count_where p (insert_newest n notes) ≡ (if p n then 1 else 0) + count_where p notes
unfolding count_where insert_newest
count-insert_newest p n [] = refl
count-insert_newest p n (x ∷ xs) = elim (Bool-cases (is_before (cursor_of x) n)) [
  | inl e ↦ rw e (omega (arith, count-insert_newest p n xs))
  | inr e ↦ rw e refl
]

count-newest_first :
    (p : Note → Bool) (notes : List Note) → count_where p (newest_first notes) ≡ count_where p notes
unfolding count_where newest_first
count-newest_first p [] = refl
count-newest_first p (n ∷ notes) =
    count-insert_newest p n (newest_first notes) ∙ omega (arith, count-newest_first p notes)

count-filter :
    (p q : Note → Bool) (notes : List Note)
    → count_where p (filter q notes) ≡ count_where (λ n. q n && p n) notes
unfolding count_where filter
count-filter p q [] = refl
count-filter p q (n ∷ notes) = ground (arith, count-filter p q notes)

sorted_readable :
    (g : Grants) (scheme : PermissionScheme) (user_id : Uuid)
    → SharesGive g user_id
    → listed_rows g user_id none none ≡ newest_first (filter (is_readable g scheme user_id) g.notes)
unfolding listed_rows
sorted_readable g scheme user_id give =
    filter-all (newest_first (filter (is_listed g user_id) g.notes))
    ∙ ap newest_first (
        filter-same (is_listed g user_id) (is_readable g scheme user_id)
          (λ n. is_listed-readable g scheme user_id n give) g.notes)

-- Where each share of a user gives a capability, no two notes of the table have one id and their titles are
-- read, there is a list, and the notes that are listed for the user are those that are alive and that access
-- lets the user read, whatever the scheme, as often as the table has them: as many pass any test. Each was
-- changed last after those that follow it, or at the same time with a greater id.
pub list_notes_for_user-readable :
    (g : Grants) (scheme : PermissionScheme) (user_id : Uuid)
    → SharesGive g user_id
    → HasOwnIds g.notes
    → AllTitles g.readable g.notes
    → (listed : List Note) × (list_notes_for_user g user_id none none ≡ ok listed)
      × ((p : Note → Bool)
          → count_where p listed ≡ count_where (λ n. is_readable g scheme user_id n && p n) g.notes)
      × IsNewestDown listed
list_notes_for_user-readable g scheme user_id give own titles =
    let readable : Note → Bool = is_readable g scheme user_id in
    let same = sorted_readable g scheme user_id give in
    (
      listed_rows g user_id none none,
      list_notes_for_user-listed_rows g user_id none none titles,
      λ p.
          ap (count_where p) same
          ∙ count-newest_first p (filter readable g.notes)
          ∙ count-filter p readable g.notes,
      subst IsNewestDown (sym same) (
          newest_down (newest_first (filter readable g.notes))
            (newest_first-IsNewestFirst readable g.notes own)),
    )
