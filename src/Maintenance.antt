-- ===== src/Maintenance.antt =====
-- crates/keeplin-srv/src/store.rs: `gc_line_tombstones`, which the maintenance of main.rs runs. The lines
-- go in one statement, then the order of each of their notes in a transaction of its own; here no
-- operation comes between.
pub mod Tombstones
use keeplin_srv.Base.{
  ℕ, Bool, true, false, not, ◌&&◌, Option, none, some, List, [], ◌∷◌, map, filter, contains,
  count_where, ltb, if◌then◌else◌, ◌==◌, nat_key,
}
use keeplin_srv.Protocol.{Uuid, Time}
use keeplin_srv.Lines.{Line, NoteOrder, Store}

abbrev pub before_time : Time → Option Time → Bool
before_time older_than none = false
before_time older_than (some at) = ltb at older_than

-- `deleted_at IS NOT NULL AND deleted_at < $1`
abbrev pub is_expired : Time → Line → Bool
is_expired older_than l = before_time older_than l.deleted_at

-- `by_note`: the ids of the lines that are deleted from one note
unfoldable pub dead_of : Time → Uuid → List Line → List Uuid
dead_of older_than note_id [] = []
dead_of older_than note_id (l ∷ lines) =
    let rest = dead_of older_than note_id lines in
    if is_expired older_than l && l.note_id == note_id then l.id ∷ rest else rest

-- The order of a note, without its dead lines. A note of which no line is dead keeps its order.
unfoldable pub purge : Time → List Line → NoteOrder → NoteOrder
unfolding dead_of
purge older_than lines o = record o {
  order = filter (λ id. not (contains (dead_of older_than o.note_id lines) id)) o.order;
}

unfoldable pub gc_line_tombstones : Store → Time → ℕ × Store
unfolding purge
gc_line_tombstones s older_than = (
  count_where (is_expired older_than) s.lines,
  record s {
    lines = filter (λ l. not (is_expired older_than l)) s.lines;
    note_orders = map (purge older_than s.lines) s.note_orders;
  },
)
