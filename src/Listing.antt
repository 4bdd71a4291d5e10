-- ===== src/Listing.antt =====
-- crates/keeplin-srv/src/store.rs and http.rs: the pages of a user's notes, `Store::list_notes_for_user` and
-- `list_notes`. A cursor is taken as it is decoded, and a limit below
-- 0, which is raised to 1, is as the limit 0. The joins are by primary keys, so that a note has one row.
pub mod Readable
pub mod Order
pub mod Pages
use keeplin_srv.Base.{
  ℕ, Bool, true, false, ◌&&◌, ◌||◌, Option, none, some, List, [], ◌∷◌, filter, take, length,
  is_none, is_some, ltb, leb, ◌==◌, nat_key, Result, ok, err, unreadable, ◌>>=◌, if◌then◌else◌,
}
use keeplin_srv.Protocol.{Uuid, Time, Text}
use keeplin_srv.Permissions.{
  Note, Grants, get_share_on, notebook_owner_on, get_notebook_share_on, is_user,
}

pub record PageCursor : Type 0 where
  pub ts : Time
  pub id : Uuid

-- `(n.updated_at, n.id) < ($3, $4)`
unfoldable pub is_before : PageCursor → Note → Bool
is_before c n = ltb n.updated_at c.ts || (n.updated_at == c.ts && ltb n.id c.id)

abbrev pub after_cursor : Option PageCursor → Note → Bool
after_cursor none n = true
after_cursor (some c) n = is_before c n

abbrev pub cursor_of : Note → PageCursor
cursor_of n = record { ts = n.updated_at; id = n.id }

-- `nb.id IS NOT NULL OR nbs.user_id IS NOT NULL`
abbrev pub in_notebook_of : Grants → Option Uuid → Uuid → Bool
in_notebook_of g none user_id = false
in_notebook_of g (some nb) user_id =
    is_user (notebook_owner_on g nb) user_id || is_some (get_notebook_share_on g nb user_id)

-- The condition of the query but for the cursor.
unfoldable pub is_listed : Grants → Uuid → Note → Bool
is_listed g user_id n =
    is_none n.deleted_at
    && (n.owner_id == user_id
        || (is_some (get_share_on g n.id user_id) || in_notebook_of g n.notebook_id user_id))

-- `ORDER BY n.updated_at DESC, n.id DESC`
unfoldable pub insert_newest : Note → List Note → List Note
insert_newest n [] = n ∷ []
insert_newest n (x ∷ xs) =
    let rest = insert_newest n xs in if is_before (cursor_of x) n then x ∷ rest else n ∷ x ∷ xs

unfoldable pub newest_first : List Note → List Note
newest_first [] = []
newest_first (n ∷ notes) = insert_newest n (newest_first notes)

abbrev pub limited : Option ℕ → List Note → List Note
limited none notes = notes
limited (some limit) notes = take limit notes

-- The rows that the query returns.
unfoldable pub listed_rows : Grants → Uuid → Option ℕ → Option PageCursor → List Note
listed_rows g user_id limit cursor =
    limited limit
      (filter (after_cursor cursor) (newest_first (filter (is_listed g user_id) g.notes)))

unfoldable pub decrypt_titles : (Text → Bool) → List Note → Result (List Note)
decrypt_titles readable [] = ok []
decrypt_titles readable (n ∷ notes) = do
  rest ← decrypt_titles readable notes
  if readable n.title then ok (n ∷ rest) else err unreadable

unfoldable pub list_notes_for_user :
    Grants → Uuid → Option ℕ → Option PageCursor → Result (List Note)
list_notes_for_user g user_id limit cursor =
    decrypt_titles g.readable (listed_rows g user_id limit cursor)

abbrev pub max_page_limit : ℕ
max_page_limit = 500

-- `clamp(1, MAX_PAGE_LIMIT)`
unfoldable pub resolve_limit : Option ℕ → Option ℕ
resolve_limit none = none
resolve_limit (some l) =
    some (if ltb l 1 then 1 else if ltb max_page_limit l then max_page_limit else l)

abbrev pub last_cursor : List Note → Option PageCursor
last_cursor [] = none
last_cursor (n ∷ []) = some (cursor_of n)
last_cursor (n ∷ m ∷ notes) = last_cursor (m ∷ notes)

-- The header `x-next-cursor` of `paginated`.
abbrev pub next_cursor : List Note → Option ℕ → Option PageCursor
next_cursor items none = none
next_cursor items (some l) = if leb l (length items) then last_cursor items else none

unfoldable pub list_notes :
    Grants → Uuid → Option ℕ → Option PageCursor → Result (List Note × Option PageCursor)
list_notes g user_id limit cursor = do
  let l : Option ℕ = resolve_limit limit
  notes ← list_notes_for_user g user_id l cursor
  ok (notes, next_cursor notes l)
