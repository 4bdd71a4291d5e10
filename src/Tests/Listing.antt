-- ===== src/Tests/Listing.antt =====
-- The notes of user 2: one of their own, and one that user 1 shares with them.
use keeplin_srv.Base.{
  ◌≡◌, ◌<◌, ◌%◌, refl, ok, List, true, Bool, ◌&&◌, count_where, none, some, [], ◌∷◌, find, filter,
  length, arith,
}
use keeplin_srv.Protocol.{Uuid}
use keeplin_srv.Permissions.{
  strict, Note, Grants, NoteShare, NotebookShare, has, notebook_owner_on, get_share_on,
  get_notebook_share_on,
}
use keeplin_srv.Permissions.Bits.{reads}
use keeplin_srv.Tests.Permissions.{note, grants}
use keeplin_srv.Listing.{
  listed_rows, decrypt_titles, list_notes_for_user, list_notes, newest_first, is_listed,
  insert_newest, is_before, resolve_limit,
}
use keeplin_srv.Listing.Readable.{
  IsNewestDown, SharesGive, is_readable, list_notes_for_user-readable,
}
use keeplin_srv.Listing.Order.{HasOwnIds, AllTitles}
use keeplin_srv.Listing.Pages.{all_pages, all_pages_complete}

abbrev own : Note
own = record note { id = 4; owner_id = 2; updated_at = 6 }

abbrev two : Grants
two = record grants { notes = note ∷ own ∷ [] }

listed : list_notes two 2 (some 0) none ≡ ok (own ∷ [], some (record { ts = 6; id = 4 }))
unfolding listed_rows decrypt_titles list_notes list_notes_for_user is_listed newest_first
    insert_newest is_before filter resolve_limit get_share_on notebook_owner_on
    get_notebook_share_on find
listed = refl

share_two :
    (id : Uuid) (s : NoteShare)
    → get_share_on two id 2 ≡ some s
    → reads (s.capabilities % 32) ≡ true
unfolding get_share_on find has
share_two id s h = ground (arith, h)

notebook_two :
    (nb : Uuid) (s : NotebookShare)
    → get_notebook_share_on two nb 2 ≡ some s
    → reads (s.capabilities % 32) ≡ true
unfolding get_notebook_share_on find has
notebook_two nb s h = ground (arith, h)

two-SharesGive : SharesGive two 2
two-SharesGive = record { note_share = share_two; notebook_share = notebook_two }

two-HasOwnIds : HasOwnIds two.notes
two-HasOwnIds = ((refl, tt), (tt, tt))

two-AllTitles : AllTitles two.readable two.notes
two-AllTitles = (refl, (refl, tt))

list_notes_for_user-readable_example :
    (listed : List Note) × (list_notes_for_user two 2 none none ≡ ok listed)
    × ((p : Note → Bool)
        → count_where p listed ≡ count_where (λ n. is_readable two strict 2 n && p n) two.notes)
    × IsNewestDown listed
list_notes_for_user-readable_example =
    list_notes_for_user-readable two strict 2 two-SharesGive two-HasOwnIds two-AllTitles

few : length (listed_rows two 2 none none) < 3
unfolding listed_rows is_listed newest_first insert_newest is_before filter get_share_on
    notebook_owner_on get_notebook_share_on find
few = ground arith

all_pages_complete_example :
    (whole : List Note) × (list_notes_for_user two 2 none none ≡ ok whole)
    × (all_pages 3 two 2 1 none ≡ ok whole)
all_pages_complete_example = all_pages_complete 3 two 2 1 two-HasOwnIds two-AllTitles few
