-- ===== src/Listing/Pages.antt =====
-- The pages that follow each other by `x-next-cursor`.
use keeplin_srv.Base.{
  Result, ok, ◌>>=◌, ℕ, zero, suc, ◌≤◌, ◌<◌, ◌≡◌, refl, sym, subst, ◌∙◌, ap, Bool, true, false,
  Option, none, some, List, [], ◌∷◌, ◌++◌, filter, take, drop, length, ltb, leb, arith, Bool-cases,
  inl, inr,
}
use mathlib.Core.List.{append-nil}
use keeplin_srv.Protocol.{Uuid}
use keeplin_srv.Permissions.{Note, Grants}
use keeplin_srv.Listing.{
  PageCursor, is_before, after_cursor, cursor_of, resolve_limit, max_page_limit, last_cursor,
  next_cursor, is_listed, newest_first, listed_rows, list_notes_for_user, list_notes,
}
use keeplin_srv.Listing.Order.{
  AllBefore, IsNewestFirst, AllTitles, list_notes_for_user-listed_rows, HasOwnIds, filter-all,
  is_before_trans, is_before_self, newest_first-IsNewestFirst,
}

filter-AllBefore :
    (c : PageCursor) (notes : List Note) → AllBefore c notes → filter (is_before c) notes ≡ notes
unfolding filter
filter-AllBefore c [] all = refl
filter-AllBefore c (n ∷ notes) (h, all) = rw (h, filter-AllBefore c notes all) refl

abbrev end_of : Note → List Note → PageCursor
end_of n [] = cursor_of n
end_of n (m ∷ notes) = end_of m notes

last_cursor-end_of :
    (n : Note) (notes : List Note) → last_cursor (n ∷ notes) ≡ some (end_of n notes)
last_cursor-end_of n [] = refl
last_cursor-end_of n (m ∷ notes) = last_cursor-end_of m notes

-- What is before the end of a page is before what each note of the page is before.
end_of-before :
    (c : PageCursor) (m : Note) (notes : List Note) (limit : ℕ)
    → AllBefore c (m ∷ notes)
    → (n : Note) → is_before (end_of m (take limit notes)) n ≡ true
    → is_before c n ≡ true
end_of-before c m notes zero (b, all) n h = is_before_trans c m n b h
end_of-before c m [] (suc limit) (b, all) n h = is_before_trans c m n b h
end_of-before c m (x ∷ notes) (suc limit) (b, all) n h = end_of-before c x notes limit all n h

-- Of notes in order, those before the end of a page are those that the page leaves.
filter-end_of :
    (limit : ℕ) (n : Note) (notes : List Note)
    → IsNewestFirst (n ∷ notes)
    → filter (is_before (end_of n (take limit notes))) (n ∷ notes) ≡ drop limit notes
unfolding filter
filter-end_of zero n notes (all, sorted) =
    rw (is_before_self n) (filter-AllBefore (cursor_of n) notes all)
filter-end_of (suc limit) n [] sorted = rw (is_before_self n) refl
filter-end_of (suc limit) n (m ∷ notes) (all, sorted) =
    let c : PageCursor = end_of m (take limit notes) in
    elim (Bool-cases (is_before c n)) [
      | inl e ↦
          absurd
            (ground (arith, end_of-before (cursor_of n) m notes limit all n e, is_before_self n))
      | inr e ↦ rw e (filter-end_of limit m notes sorted)
    ]

filter-filter :
    (p q : Note → Bool)
    → ((n : Note) → p n ≡ true → q n ≡ true)
    → (notes : List Note) → filter p (filter q notes) ≡ filter p notes
unfolding filter
filter-filter p q within [] = refl
filter-filter p q within (n ∷ notes) = elim (Bool-cases (p n)) [
  | inl e ↦
      rw (within n e, e) (ap (λ (rest : List Note). n ∷ rest) (filter-filter p q within notes))
  | inr e ↦ elim (Bool-cases (q n)) [
    | inl f ↦ rw (f, e) (filter-filter p q within notes)
    | inr f ↦ rw (f, e) (filter-filter p q within notes)
  ]
]

AllBefore-filter : (c : PageCursor) (notes : List Note) → AllBefore c (filter (is_before c) notes)
unfolding filter
AllBefore-filter c [] = tt
AllBefore-filter c (n ∷ notes) = elim (Bool-cases (is_before c n)) [
  | inl e ↦ rw e (e, AllBefore-filter c notes)
  | inr e ↦ rw e (AllBefore-filter c notes)
]

take-drop : (k : ℕ) (notes : List Note) → take k notes ++ drop k notes ≡ notes
take-drop zero notes = refl
take-drop (suc k) [] = refl
take-drop (suc k) (n ∷ notes) = ap (λ (rest : List Note). n ∷ rest) (take-drop k notes)

take-short :
    (k : ℕ) (notes : List Note) → leb k (length (take k notes)) ≡ false → take k notes ≡ notes
take-short zero notes h = ground (arith, h)
take-short (suc k) [] h = refl
take-short (suc k) (n ∷ notes) h =
    ap (λ (rest : List Note). n ∷ rest) (take-short k notes (ground (arith, h)))

length-drop : (k : ℕ) (notes : List Note) → length (drop k notes) ≤ length notes
length-drop zero notes = omega arith
length-drop (suc k) [] = omega arith
length-drop (suc k) (n ∷ notes) = omega (arith, length-drop k notes)

IsNewestFirst-drop :
    (k : ℕ) (notes : List Note) → IsNewestFirst notes → IsNewestFirst (drop k notes)
IsNewestFirst-drop zero notes sorted = sorted
IsNewestFirst-drop (suc k) [] sorted = tt
IsNewestFirst-drop (suc k) (n ∷ notes) (all, sorted) = IsNewestFirst-drop k notes sorted

resolve_limit-some : (l : ℕ) → (k : ℕ) × (resolve_limit (some l) ≡ some (suc k))
unfolding resolve_limit
resolve_limit-some zero = (0, refl)
resolve_limit-some (suc l) = elim (Bool-cases (ltb max_page_limit (suc l))) [
  | inl e ↦ (499, ground (arith, e))
  | inr e ↦ (l, ground (arith, e))
]

abbrev pub follow : (PageCursor → List Note) → Option PageCursor → List Note
follow pages none = []
follow pages (some c) = pages c

follow-same :
    (f g : PageCursor → List Note)
    → ((c : PageCursor) → f c ≡ g c)
    → (o : Option PageCursor) → follow f o ≡ follow g o
follow-same f g same none = refl
follow-same f g same (some c) = same c

leb_zero : (k : ℕ) → leb (suc k) 0 ≡ false
leb_zero k = ground arith

module _ (sorted_notes : List Note) where
  rest_of : Option PageCursor → List Note
  rest_of cursor = filter (after_cursor cursor) sorted_notes

  within :
      (cursor : Option PageCursor) (t : Note) (ts : List Note) (k : ℕ)
      → rest_of cursor ≡ t ∷ ts
      → (n : Note) → is_before (end_of t (take k ts)) n ≡ true
      → after_cursor cursor n ≡ true
  unfolding rest_of
  within none t ts k e n h = refl
  within (some c) t ts k e n h =
      end_of-before c t ts k (subst (AllBefore c) e (AllBefore-filter c sorted_notes)) n h

  left_by :
      (cursor : Option PageCursor) (t : Note) (ts : List Note) (k : ℕ)
      → rest_of cursor ≡ t ∷ ts
      → IsNewestFirst (t ∷ ts)
      → rest_of (some (end_of t (take k ts))) ≡ drop k ts
  unfolding rest_of
  left_by cursor t ts k e sorted =
      let c : PageCursor = end_of t (take k ts) in
      sym (filter-filter (is_before c) (after_cursor cursor) (within cursor t ts k e) sorted_notes)
      ∙ ap (filter (is_before c)) e
      ∙ filter-end_of k t ts sorted

  abbrev pages : ℕ → ℕ → Option PageCursor → List Note
  pages k zero cursor = []
  pages k (suc fuel) cursor =
      let page : List Note = take (suc k) (filter (after_cursor cursor) sorted_notes) in
      page ++ follow (λ c. pages k fuel (some c)) (next_cursor page (some (suc k)))

  pages-rest :
      (fuel k : ℕ) (cursor : Option PageCursor) (notes : List Note)
      → rest_of cursor ≡ notes
      → IsNewestFirst notes
      → length notes < fuel
      → pages k fuel cursor ≡ notes
  unfolding rest_of
  pages-rest zero k cursor notes e sorted enough = absurd (ground (arith, enough))
  pages-rest (suc fuel) k cursor [] e sorted enough = rw (e, leb_zero k) refl
  pages-rest (suc fuel) k cursor (t ∷ ts) e (all, sorted) enough =
      elim (Bool-cases (leb (suc k) (suc (length (take k ts))))) [
        | inl f ↦
            let c : PageCursor = end_of t (take k ts) in
            let next =
              pages-rest fuel k (some c) (drop k ts) (left_by cursor t ts k e (all, sorted))
                (IsNewestFirst-drop k ts sorted) (omega (arith, length-drop k ts, enough)) in
            rw (e, f, last_cursor-end_of t (take k ts), next)
              (ap (λ (rest : List Note). t ∷ rest) (take-drop k ts))
        | inr f ↦
            rw (e, f, take-short k ts (ground (arith, f)))
              (ap (λ (rest : List Note). t ∷ rest) (append-nil ts))
      ]

abbrev pub follow_all : (PageCursor → Result (List Note)) → Option PageCursor → Result (List Note)
follow_all pages none = ok []
follow_all pages (some c) = pages c

follow_all-ok :
    (f : PageCursor → Result (List Note)) (g : PageCursor → List Note)
    → ((c : PageCursor) → f c ≡ ok (g c))
    → (o : Option PageCursor) → follow_all f o ≡ ok (follow g o)
follow_all-ok f g same none = refl
follow_all-ok f g same (some c) = same c

-- What a client has that asks for a page, and for the page behind its cursor as long as it gets one.
unfoldable pub all_pages : ℕ → Grants → Uuid → ℕ → Option PageCursor → Result (List Note)
all_pages zero g user_id limit cursor = ok []
all_pages (suc fuel) g user_id limit cursor = do
  page ← list_notes g user_id (some limit) cursor
  rest ← follow_all (λ c. all_pages fuel g user_id limit (some c)) page.1
  ok (page.0 ++ rest)

list_notes-page :
    (g : Grants) (user_id : Uuid) (limit k : ℕ) (cursor : Option PageCursor)
    → AllTitles g.readable g.notes
    → resolve_limit (some limit) ≡ some (suc k)
    → let page : List Note =
        take
          (suc k)
          (filter (after_cursor cursor) (newest_first (filter (is_listed g user_id) g.notes))) in
      list_notes g user_id (some limit) cursor ≡ ok (page, next_cursor page (some (suc k)))
unfolding list_notes
list_notes-page g user_id limit k cursor titles e =
    rw (e, list_notes_for_user-listed_rows g user_id (some (suc k)) cursor titles)
      (unfold listed_rows in refl)

all_pages-pages :
    (fuel : ℕ) (g : Grants) (user_id : Uuid) (limit k : ℕ) (cursor : Option PageCursor)
    → AllTitles g.readable g.notes
    → resolve_limit (some limit) ≡ some (suc k)
    → all_pages fuel g user_id limit cursor
      ≡ ok (pages (newest_first (filter (is_listed g user_id) g.notes)) k fuel cursor)
unfolding all_pages
all_pages-pages zero g user_id limit k cursor titles e = refl
all_pages-pages (suc fuel) g user_id limit k cursor titles e =
    let notes : List Note = newest_first (filter (is_listed g user_id) g.notes) in
    let page : List Note = take (suc k) (filter (after_cursor cursor) notes) in
    rw
      (
        list_notes-page g user_id limit k cursor titles e,
        follow_all-ok (λ c. all_pages fuel g user_id limit (some c))
            (λ c. pages notes k fuel (some c))
            (λ c. all_pages-pages fuel g user_id limit k (some c) titles e)
            (next_cursor page (some (suc k))),
      )
      refl

-- Where no two notes of the table have one id, their titles are read, and the fuel is above the number of
-- notes that the query finds for a user without a limit, the pages that follow each other by their cursors
-- from the first on, with any limit, are together the list without a limit: each note once, in its order.
-- The tables do not change in between.
pub all_pages_complete :
    (fuel : ℕ) (g : Grants) (user_id : Uuid) (limit : ℕ)
    → HasOwnIds g.notes
    → AllTitles g.readable g.notes
    → length (listed_rows g user_id none none) < fuel
    → (whole : List Note) × (list_notes_for_user g user_id none none ≡ ok whole)
      × (all_pages fuel g user_id limit none ≡ ok whole)
unfolding listed_rows filter rest_of
all_pages_complete fuel g user_id limit own titles enough =
    let notes : List Note = newest_first (filter (is_listed g user_id) g.notes) in
    let (k, e) = resolve_limit-some limit in
    (
      filter (after_cursor none) notes,
      list_notes_for_user-listed_rows g user_id none none titles,
      all_pages-pages fuel g user_id limit k none titles e
          ∙ ap ok (
              pages-rest notes fuel k none (filter (after_cursor none) notes) refl
                (subst IsNewestFirst (sym (filter-all notes))
                  (newest_first-IsNewestFirst (is_listed g user_id) g.notes own))
                enough),
    )
