-- ===== src/Maintenance/Tombstones.antt =====
-- crates/keeplin-srv/src/store.rs: what `gc_line_tombstones` leaves.
use keeplin_srv.Base.{
  ◌≡◌, refl, Bool, false, not, ◌&&◌, Option, none, some, List, [], ◌∷◌, map, filter, find, contains,
  count_where, if◌then◌else◌, ◌==◌, nat_key, arith, Option-cases, inl, inr, nat_beq_iff, count,
  count-filter-not-contains,
}
use mathlib.Core.Option
use keeplin_srv.Protocol.{Uuid, Time}
use keeplin_srv.Lines.{
  Line, NoteOrder, Store, line_row, get_note_order_on, count_live_lines_on, is_live,
}
use keeplin_srv.Collab.Apply.Ordering.{IsWellOrdered, ListedOnce}
use keeplin_srv.Maintenance.{is_expired, dead_of, purge, gc_line_tombstones}

abbrev pub row_of : Uuid → List Line → Option Line
row_of i lines = find (λ (l : Line). l.id == i) lines

-- No id stands twice: the primary key of `lines`.
abbrev pub UniqueIds : List Line → Type 0
UniqueIds [] = Unit {0}
UniqueIds (l ∷ lines) = (row_of l.id lines ≡ none) × UniqueIds lines

abbrev pub unless_expired : Time → Option Line → Option Line
unless_expired older none = none
unless_expired older (some l) = if is_expired older l then none else some l

none-filter :
    (older : Time) (i : Uuid) (lines : List Line)
    → row_of i lines ≡ none
    → row_of i (filter (λ l. not (is_expired older l)) lines) ≡ none
unfolding find filter
none-filter older i [] h = refl
none-filter older i (l ∷ lines) h = ground (arith, none-filter older i lines)

row_of-filter :
    (older : Time) (i : Uuid) (lines : List Line)
    → UniqueIds lines
    → row_of i (filter (λ l. not (is_expired older l)) lines)
      ≡ unless_expired older (row_of i lines)
unfolding find filter
row_of-filter older i [] u = refl
row_of-filter older i (l ∷ lines) u =
    ground
      (arith, row_of-filter older i lines u.1, none-filter older i lines, nat_beq_iff l.id i, u.0)

abbrev is_dead : Time → Uuid → Option Line → Bool
is_dead older n none = false
is_dead older n (some l) = is_expired older l && l.note_id == n

contains-dead_of :
    (older : Time) (n i : Uuid) (lines : List Line)
    → UniqueIds lines
    → contains (dead_of older n lines) i ≡ is_dead older n (row_of i lines)
unfolding find dead_of contains
contains-dead_of older n i [] u = refl
contains-dead_of older n i (l ∷ lines) u =
    ground (arith, contains-dead_of older n i lines u.1, nat_beq_iff l.id i, u.0)

find-map :
    (older : Time) (lines : List Line) (n : Uuid) (orders : List NoteOrder)
    → find (λ (o : NoteOrder). o.note_id == n) (map (purge older lines) orders)
      ≡ Option.map (purge older lines) (find (λ (o : NoteOrder). o.note_id == n) orders)
unfolding find purge
find-map older lines n [] = refl
find-map older lines n (o ∷ orders) = ground (arith, find-map older lines n orders)

note_id-find :
    (n : Uuid) (orders : List NoteOrder) (o : NoteOrder)
    → find (λ (o : NoteOrder). o.note_id == n) orders ≡ some o
    → o.note_id ≡ n
unfolding find
note_id-find n [] o h = absurd (ground arith)
note_id-find n (x ∷ xs) o h = ground (arith, note_id-find n xs o, nat_beq_iff x.note_id n)

-- What is read after the collection: a dead line is gone, and any other is as it was.
pub gc-get_line :
    (s : Store) (older : Time) (i : Uuid)
    → UniqueIds s.lines
    → line_row (gc_line_tombstones s older).1 i ≡ unless_expired older (line_row s i)
unfolding gc_line_tombstones line_row
gc-get_line s older i u = row_of-filter older i s.lines u

purged_count :
    (older : Time) (lines : List Line) (o : NoteOrder) (n i : Uuid)
    → o.note_id ≡ n
    → UniqueIds lines
    → count i (purge older lines o).order
      ≡ (if is_dead older n (row_of i lines) then 0 else count i o.order)
unfolding purge
purged_count older lines o n i e u =
    rw
      (
        e,
        count-filter-not-contains i (dead_of older n lines) o.order,
        contains-dead_of older n i lines u,
      )
      refl

ListedOnce-purged :
    (older : Time) (s : Store) (n i : Uuid)
    → UniqueIds s.lines
    → ListedOnce n i (get_note_order_on s n) (line_row s i)
    → ListedOnce n i
        (Option.map (purge older s.lines) (get_note_order_on s n))
        (unless_expired older (line_row s i))
unfolding get_note_order_on line_row
ListedOnce-purged older s n i u w =
    elim (Option-cases (find (λ (o : NoteOrder). o.note_id == n) s.note_orders)) [
      | inl e ↦ rw e tt
      | inr (o, e) ↦
          let c = purged_count older s.lines o n i (note_id-find n s.note_orders o e) u in
          let v = rw e at w in
          rw (e, c)
            (elim (Option-cases (row_of i s.lines)) [
              | inl f ↦ rw f (rw f at v)
              | inr (l, f) ↦ rw f (ground (arith, rw f at v))
            ])
    ]

-- From a store whose ids are unique and in which the order of each note lists each of its lines once and
-- nothing else, the collection leaves such a store: a dead line goes from its note's order too.
pub gc_line_tombstones-IsWellOrdered :
    (s : Store) (older : Time)
    → UniqueIds s.lines
    → IsWellOrdered s
    → IsWellOrdered (gc_line_tombstones s older).1
unfolding gc_line_tombstones get_note_order_on line_row
gc_line_tombstones-IsWellOrdered s older u w = record {
  lists = λ n i.
      rw (find-map older s.lines n s.note_orders, row_of-filter older i s.lines u)
        (ListedOnce-purged older s n i u (w.lists n i));
}

live-filter :
    (older : Time) (n : Uuid) (lines : List Line)
    → count_where
        (λ (l : Line). l.note_id == n && is_live l)
        (filter (λ l. not (is_expired older l)) lines)
      ≡ count_where (λ (l : Line). l.note_id == n && is_live l) lines
unfolding count_where filter
live-filter older n [] = refl
live-filter older n (l ∷ lines) = ground (arith, live-filter older n lines)

-- What is read by its id after the collection is what was read before, but for a line that was deleted
-- before the given time, which is gone; and no note loses a live line.
pub gc_line_tombstones-lines :
    (s : Store) (older : Time) (i n : Uuid)
    → UniqueIds s.lines
    → (line_row (gc_line_tombstones s older).1 i ≡ unless_expired older (line_row s i))
      × (count_live_lines_on (gc_line_tombstones s older).1 n ≡ count_live_lines_on s n)
unfolding gc_line_tombstones count_live_lines_on
gc_line_tombstones-lines s older i n u = (gc-get_line s older i u, live-filter older n s.lines)
