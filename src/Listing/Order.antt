-- ===== src/Listing/Order.antt =====
-- The order of a list of notes, by the time of the last change and the id, of which a cursor is a place.
use keeplin_srv.Base.{
  ℕ, some, none, Option, ok, suc, zero, ◌≡◌, refl, Bool, true, false, List, [], ◌∷◌, filter, ◌==◌,
  nat_key, arith, Bool-cases, inl, inr, ap,
}
use keeplin_srv.Protocol.{Uuid, Text}
use keeplin_srv.Permissions.{Note, Grants}
use keeplin_srv.Listing.{
  PageCursor, is_before, cursor_of, insert_newest, newest_first, after_cursor, is_listed, limited,
  listed_rows, decrypt_titles, list_notes_for_user,
}

abbrev pub AllBefore : PageCursor → List Note → Type 0
AllBefore c [] = Unit {0}
AllBefore c (n ∷ notes) = (is_before c n ≡ true) × AllBefore c notes

-- Every note is before those that follow it.
abbrev pub IsNewestFirst : List Note → Type 0
IsNewestFirst [] = Unit {0}
IsNewestFirst (n ∷ notes) = AllBefore (cursor_of n) notes × IsNewestFirst notes

abbrev pub IsAbsent : Uuid → List Note → Type 0
IsAbsent id [] = Unit {0}
IsAbsent id (n ∷ notes) = ((n.id == id) ≡ false) × IsAbsent id notes

-- The ids of a table are its primary key.
abbrev pub HasOwnIds : List Note → Type 0
HasOwnIds [] = Unit {0}
HasOwnIds (n ∷ notes) = IsAbsent n.id notes × HasOwnIds notes

pub is_before_trans :
    (c : PageCursor) (n m : Note)
    → is_before c n ≡ true
    → is_before (cursor_of n) m ≡ true
    → is_before c m ≡ true
unfolding is_before
is_before_trans c n m h k = ground arith

pub is_before_self : (n : Note) → is_before (cursor_of n) n ≡ false
unfolding is_before
is_before_self n = ground arith

is_before-other :
    (x n : Note)
    → (x.id == n.id) ≡ false
    → is_before (cursor_of x) n ≡ false
    → is_before (cursor_of n) x ≡ true
unfolding is_before
is_before-other x n other h = ground arith

AllBefore-trans :
    (c : PageCursor) (n : Note) (notes : List Note)
    → is_before c n ≡ true
    → AllBefore (cursor_of n) notes
    → AllBefore c notes
AllBefore-trans c n [] h all = tt
AllBefore-trans c n (m ∷ notes) h (b, all) =
    (is_before_trans c n m h b, AllBefore-trans c n notes h all)

AllBefore-insert :
    (c : PageCursor) (n : Note) (notes : List Note)
    → is_before c n ≡ true
    → AllBefore c notes
    → AllBefore c (insert_newest n notes)
unfolding insert_newest
AllBefore-insert c n [] h all = (h, tt)
AllBefore-insert c n (x ∷ xs) h (b, all) = elim (Bool-cases (is_before (cursor_of x) n)) [
  | inl e ↦ rw e (b, AllBefore-insert c n xs h all)
  | inr e ↦ rw e (h, (b, all))
]

insert_newest-IsNewestFirst :
    (n : Note) (notes : List Note)
    → IsAbsent n.id notes
    → IsNewestFirst notes
    → IsNewestFirst (insert_newest n notes)
unfolding insert_newest
insert_newest-IsNewestFirst n [] absent sorted = (tt, tt)
insert_newest-IsNewestFirst n (x ∷ xs) (other, absent) (all, sorted) =
    elim (Bool-cases (is_before (cursor_of x) n)) [
      | inl e ↦ rw e (
        AllBefore-insert (cursor_of x) n xs e all,
        insert_newest-IsNewestFirst n xs absent sorted,
      )
      | inr e ↦
          let b = is_before-other x n other e in
          rw e ((b, AllBefore-trans (cursor_of n) x xs b all), (all, sorted))
    ]

IsAbsent-insert :
    (id : Uuid) (n : Note) (notes : List Note)
    → (n.id == id) ≡ false
    → IsAbsent id notes
    → IsAbsent id (insert_newest n notes)
unfolding insert_newest
IsAbsent-insert id n [] h absent = (h, tt)
IsAbsent-insert id n (x ∷ xs) h (other, absent) = elim (Bool-cases (is_before (cursor_of x) n)) [
  | inl e ↦ rw e (other, IsAbsent-insert id n xs h absent)
  | inr e ↦ rw e (h, (other, absent))
]

IsAbsent-newest_first :
    (id : Uuid) (notes : List Note) → IsAbsent id notes → IsAbsent id (newest_first notes)
unfolding newest_first
IsAbsent-newest_first id [] absent = tt
IsAbsent-newest_first id (n ∷ notes) (h, absent) =
    IsAbsent-insert id n (newest_first notes) h (IsAbsent-newest_first id notes absent)

IsAbsent-filter :
    (p : Note → Bool) (id : Uuid) (notes : List Note)
    → IsAbsent id notes
    → IsAbsent id (filter p notes)
unfolding filter
IsAbsent-filter p id [] absent = tt
IsAbsent-filter p id (n ∷ notes) (h, absent) = elim (Bool-cases (p n)) [
  | inl e ↦ rw e (h, IsAbsent-filter p id notes absent)
  | inr e ↦ rw e (IsAbsent-filter p id notes absent)
]

-- The kept rows of a table, sorted, stand each before those that follow.
pub newest_first-IsNewestFirst :
    (p : Note → Bool) (notes : List Note)
    → HasOwnIds notes
    → IsNewestFirst (newest_first (filter p notes))
unfolding newest_first filter
newest_first-IsNewestFirst p [] own = tt
newest_first-IsNewestFirst p (n ∷ notes) (absent, own) = elim (Bool-cases (p n)) [
  | inl e ↦ rw e (
      insert_newest-IsNewestFirst n (newest_first (filter p notes))
        (IsAbsent-newest_first n.id (filter p notes) (IsAbsent-filter p n.id notes absent))
        (newest_first-IsNewestFirst p notes own))
  | inr e ↦ rw e (newest_first-IsNewestFirst p notes own)
]

pub filter-all : (xs : List Note) → filter (λ n. true) xs ≡ xs
unfolding filter
filter-all [] = refl
filter-all (x ∷ xs) = ap (λ (rest : List Note). x ∷ rest) (filter-all xs)

abbrev pub AllTitles : (Text → Bool) → List Note → Type 0
AllTitles readable [] = Unit {0}
AllTitles readable (n ∷ notes) = (readable n.title ≡ true) × AllTitles readable notes

AllTitles-filter :
    (readable : Text → Bool) (p : Note → Bool) (notes : List Note)
    → AllTitles readable notes
    → AllTitles readable (filter p notes)
unfolding filter
AllTitles-filter readable p [] all = tt
AllTitles-filter readable p (n ∷ notes) (h, all) = elim (Bool-cases (p n)) [
  | inl e ↦ rw e (h, AllTitles-filter readable p notes all)
  | inr e ↦ rw e (AllTitles-filter readable p notes all)
]

AllTitles-insert :
    (readable : Text → Bool) (n : Note) (notes : List Note)
    → readable n.title ≡ true
    → AllTitles readable notes
    → AllTitles readable (insert_newest n notes)
unfolding insert_newest
AllTitles-insert readable n [] h all = (h, tt)
AllTitles-insert readable n (x ∷ xs) h (k, all) = elim (Bool-cases (is_before (cursor_of x) n)) [
  | inl e ↦ rw e (k, AllTitles-insert readable n xs h all)
  | inr e ↦ rw e (h, (k, all))
]

AllTitles-newest_first :
    (readable : Text → Bool) (notes : List Note)
    → AllTitles readable notes
    → AllTitles readable (newest_first notes)
unfolding newest_first
AllTitles-newest_first readable [] all = tt
AllTitles-newest_first readable (n ∷ notes) (h, all) =
    AllTitles-insert readable n (newest_first notes) h (AllTitles-newest_first readable notes all)

AllTitles-limited :
    (readable : Text → Bool) (limit : Option ℕ) (notes : List Note)
    → AllTitles readable notes
    → AllTitles readable (limited limit notes)
AllTitles-limited readable none notes all = all
AllTitles-limited readable (some zero) notes all = tt
AllTitles-limited readable (some (suc k)) [] all = tt
AllTitles-limited readable (some (suc k)) (n ∷ notes) (h, all) =
    (h, AllTitles-limited readable (some k) notes all)

decrypt_titles-all :
    (readable : Text → Bool) (notes : List Note)
    → AllTitles readable notes
    → decrypt_titles readable notes ≡ ok notes
unfolding decrypt_titles
decrypt_titles-all readable [] all = refl
decrypt_titles-all readable (n ∷ notes) (h, all) =
    rw (decrypt_titles-all readable notes all, h) refl

-- Where the titles of the table are read, the query's rows are what is listed.
pub list_notes_for_user-listed_rows :
    (g : Grants) (user_id : Uuid) (limit : Option ℕ) (cursor : Option PageCursor)
    → AllTitles g.readable g.notes
    → list_notes_for_user g user_id limit cursor ≡ ok (listed_rows g user_id limit cursor)
unfolding list_notes_for_user listed_rows
list_notes_for_user-listed_rows g user_id limit cursor all = decrypt_titles-all g.readable _ (
    AllTitles-limited g.readable limit _ (
      AllTitles-filter g.readable (after_cursor cursor) _ (
        AllTitles-newest_first g.readable _
          (AllTitles-filter g.readable (is_listed g user_id) g.notes all))))
