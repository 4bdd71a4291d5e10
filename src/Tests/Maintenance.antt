-- ===== src/Tests/Maintenance.antt =====
-- A note of two lines, of which one was deleted at the time 6 and is collected.
use keeplin_srv.Base.{true, refl, Option, none, some, [], ◌∷◌, arith, find, count, nat_key}
use keeplin_srv.Protocol.{Uuid, Time}
use keeplin_srv.Lines.{Line, Store, line_row, get_note_order_on}
use keeplin_srv.Collab.Apply.Ordering.{IsWellOrdered}
use keeplin_srv.Maintenance.Tombstones.{UniqueIds}

abbrev line : Uuid → Option Time → Line
line id deleted_at = record {
  id = id;
  note_id = 1;
  content = [];
  created_at = 5;
  updated_at = 5;
  deleted_at = deleted_at;
  vv = [];
  last_writer = "phone";
}

abbrev store : Store
store = record {
  readable = λ t. true;
  lines = line 11 none ∷ line 12 (some 6) ∷ [];
  note_orders =
      record { note_id = 1; order = 12 ∷ 11 ∷ []; updated_at = 5; vv = []; last_writer = "phone" }
      ∷ [];
}

store-UniqueIds : UniqueIds store.lines
unfolding find
store-UniqueIds = (refl, (refl, tt))

store-IsWellOrdered : IsWellOrdered store
unfolding get_note_order_on line_row find count
store-IsWellOrdered = record { lists = λ n i. ground arith }
