-- ===== src/Collab/Apply/Ordering.antt =====
-- The order of a note lists each of its lines once, and `apply_op` keeps it so.
use keeplin_srv.Base.{
  ℕ, ◌+◌, ◌≤◌, ◌≡◌, Bool, true, false, not, Option, none, some, List, [], ◌∷◌, ◌++◌, contains, any,
  take, drop, count, count-append, count-take-drop, contains-true, contains-false,
  count-filter-not-contains, arith, if◌then◌else◌, ◌==◌, nat_key, nat_beq_iff, ok,
}
use keeplin_srv.Protocol.{Uuid, Time, Text, Stamp, LineOp, insert, update, delete, move}
use keeplin_srv.External.{KeeplinCore}
use keeplin_srv.Lines.{reorder_row, Line, NoteOrder, Store, line_row, get_note_order_on}
use keeplin_srv.Lines.Rows.{
  get_line-insert_line, get_line-update_line, get_line-soft_delete_line, get_line-set_note_order,
  get_note_order-insert_line, get_note_order-update_line, get_note_order-soft_delete_line,
  get_note_order-set_note_order,
}
use keeplin_srv.Collab.Apply.{merged, applied, apply_op, splice, without}
use keeplin_srv.Collab.Apply.Effects.{Inserted, Updated, Deleted, Moved, Effect, apply_op-Effect}

-- No id stands twice in the list.
abbrev pub Distinct : List Uuid → Type 0
Distinct ids = (i : Uuid) → count i ids ≤ 1

abbrev pub of_note : Uuid → Option Line → Bool
of_note n none = false
of_note n (some l) = l.note_id == n

-- What an order that is read and a line that is read have to agree on.
abbrev pub ListedOnce : Uuid → Uuid → Option NoteOrder → Option Line → Type 0
ListedOnce n i none l = Unit {0}
ListedOnce n i (some o) l = count i o.order ≡ (if of_note n l then 1 else 0)

-- Each line of a note stands once in the note's order, and nothing else stands there.
pub record IsWellOrdered (s : Store) : Type 0 where
  pub lists : (n i : Uuid) → ListedOnce n i (get_note_order_on s n) (line_row s i)

pub count-splice :
    (i : Uuid) (xs : List Uuid) (at : ℕ) (ids : List Uuid)
    → count i (splice xs at ids) ≡ count i ids + count i xs
unfolding splice
count-splice i xs at ids = omega (
  arith,
  count-append i (take at xs) (ids ++ drop at xs),
  count-append i ids (drop at xs),
  count-take-drop i at xs,
)

count_of_known :
    (order ids : List Uuid) (i : Uuid)
    → any (λ id. not (contains order id)) ids ≡ false
    → contains ids i ≡ true
    → contains order i ≡ true
unfolding any contains
count_of_known order [] i k c = ground arith
count_of_known order (x ∷ ids) i k c = ground (arith, count_of_known order ids i, nat_beq_iff x i)

-- A move puts the moved lines together and loses none of the others: every id of the order stands
-- in the new order as often as it is moved, or as often as before if it is not moved.
pub count-splice-without :
    (core : KeeplinCore) (order ids : List Uuid) (at : ℕ) (i : Uuid)
    → count i (splice (without core ids order) at ids)
      ≡ (if contains ids i then count i ids else count i order)
count-splice-without core order ids at i = ground (
  arith,
  count-splice i (without core ids order) at ids,
  count-filter-not-contains i ids order,
  contains-false i ids,
)

move_counts :
    (core : KeeplinCore) (order ids : List Uuid) (at : ℕ) (i : Uuid)
    → any (λ id. not (contains order id)) ids ≡ false
    → Distinct ids
    → count i order ≤ 1
    → count i (splice (without core ids order) at ids) ≡ count i order
move_counts core order ids at i k d u = ground (
  arith,
  count-splice-without core order ids at i,
  count_of_known order ids i k,
  contains-true i ids,
  contains-true i order,
  d i,
)

abbrev pub DistinctMove : LineOp → Type 0
DistinctMove (move ids after st) = Distinct ids
DistinctMove _ = Unit {0}

module _ (core : KeeplinCore) (s : Store) (now : Time) (n : Uuid) (t : Store)
    (w : IsWellOrdered s) where
  insert_keeps :
      (after : Option Uuid) (id : Uuid) (c : Text) (st : Stamp)
      → Inserted core s now n after id c st t
      → (m i : Uuid) → ListedOnce m i (get_note_order_on t m) (line_row t i)
  unfolding count
  insert_keeps after id c st e m i =
      rw
        (
          e.result, get_note_order-set_note_order, get_line-set_note_order,
          get_note_order-insert_line, get_line-insert_line,
        )
        (ground (
          arith,
          w.lists m i,
          w.lists n id,
          rw e.stored at (w.lists n i),
          count-splice i e.order.order e.at (id ∷ []),
          nat_beq_iff n m,
          nat_beq_iff id i,
        ))

  move_keeps :
      (ids : List Uuid) (after : Option Uuid) (st : Stamp)
      → Distinct ids
      → Moved core s now n ids after st t
      → (m i : Uuid) → ListedOnce m i (get_note_order_on t m) (line_row t i)
  move_keeps ids after st d e m i =
      rw (e.result, get_note_order-set_note_order, get_line-set_note_order)
        (ground (
          arith,
          w.lists m i,
          rw e.stored at (w.lists n i),
          move_counts core e.order.order ids e.at i e.known d,
          nat_beq_iff n m,
        ))

  update_keeps :
      (id : Uuid) (c : Text) (st : Stamp)
      → Updated core s now n id c st t
      → (m i : Uuid) → ListedOnce m i (get_note_order_on t m) (line_row t i)
  update_keeps id c st e m i =
      rw (e.result, get_note_order-update_line, get_line-update_line) (ground (arith, w.lists m i))

  delete_keeps :
      (id : Uuid) (at : Time) (st : Stamp)
      → Deleted core s now n id at st t
      → (m i : Uuid) → ListedOnce m i (get_note_order_on t m) (line_row t i)
  delete_keeps id at st e m i =
      rw (e.result, get_note_order-soft_delete_line, get_line-soft_delete_line)
        (ground (arith, w.lists m i))

  Effect-keeps :
      (op : LineOp)
      → DistinctMove op
      → Effect core s now n op t
      → (m i : Uuid) → ListedOnce m i (get_note_order_on t m) (line_row t i)
  Effect-keeps (insert after id c st) d e = insert_keeps after id c st e
  Effect-keeps (update id c st) d e = update_keeps id c st e
  Effect-keeps (delete id at st) d e = delete_keeps id at st e
  Effect-keeps (move ids after st) d e = move_keeps ids after st d e

-- From a store in which the order of each note lists each of its lines once and nothing else, an
-- operation that is accepted leaves such a store, provided that a move names no line twice.
pub apply_op-IsWellOrdered :
    (core : KeeplinCore) (s : Store) (now : Time) (n dev : Uuid) (op op' : LineOp) (t : Store)
    → IsWellOrdered s
    → DistinctMove op
    → apply_op core s now n dev op ≡ ok (applied op', t)
    → IsWellOrdered t
apply_op-IsWellOrdered core s now n dev op op' t w d h = record {
  lists = Effect-keeps core s now n t w op d (apply_op-Effect core s now n dev t op op' h).2;
}

Moved-order :
    (core : KeeplinCore) (s : Store) (now : Time) (n : Uuid) (ids : List Uuid) (after : Option Uuid)
    (st : Stamp) (t : Store) (e : Moved core s now n ids after st t)
    → get_note_order_on t n
      ≡ some (
          reorder_row
            (splice (without core ids e.order.order) e.at ids)
            (merged e.order.vv st)
            e.order)
Moved-order core s now n ids after st t e =
    rw (e.result, get_note_order-set_note_order, e.stored) (ground arith)

-- A move that is accepted and names a line twice leaves that line twice in the note's order.
pub apply_op-duplicates :
    (core : KeeplinCore) (s : Store) (now : Time) (n dev : Uuid) (ids : List Uuid)
    (after : Option Uuid) (st : Stamp) (op' : LineOp) (t : Store) (i : Uuid)
    → apply_op core s now n dev (move ids after st) ≡ ok (applied op', t)
    → 2 ≤ count i ids
    → (o : NoteOrder) × (get_note_order_on t n ≡ some o) × (2 ≤ count i o.order)
apply_op-duplicates core s now n dev ids after st op' t i h two =
    let e = (apply_op-Effect core s now n dev t (move ids after st) op' h).2 in
    let order : List Uuid = e.order.order in
    (
      _,
      Moved-order core s now n ids after st t e,
      omega (arith, count-splice i (without core ids order) e.at ids),
    )
