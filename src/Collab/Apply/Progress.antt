-- ===== src/Collab/Apply/Progress.antt =====
-- Versions under `apply_op`: the counters of a line and of an order never fall, the writer's counter
-- rises, no line is lost, and an operation that comes again changes nothing.
use keeplin_srv.Base.{
  ◌≤◌, ◌<◌, ◌≡◌, inl, inr, refl, String, true, false, some, [], ◌∷◌, arith, ok, ◌==◌, nat_key,
  nat_beq_iff, eq_refl, Bool-cases, Bool,
}
use keeplin_srv.Protocol.{Uuid, Time, VersionVector, LineOp, insert, update, delete, move}
use keeplin_srv.Protocol.Versions.{
  counter, merge_vv, advances_writer, counter-merge_vv, counter-le-top,
}
use keeplin_srv.External.{KeeplinCore}
use keeplin_srv.Lines.{
  Line, NoteOrder, Store, line_row, get_note_order_on, edit_row, bury_row, reorder_row,
}
use keeplin_srv.Lines.Rows.{
  get_line-insert_line, get_line-update_line, get_line-soft_delete_line, get_line-set_note_order,
  get_note_order-insert_line, get_note_order-update_line, get_note_order-soft_delete_line,
  get_note_order-set_note_order,
}
use keeplin_srv.Collab.Apply.{
  splice, without, OpOutcome, applied, ignored, invalid, apply_op, merged,
}
use keeplin_srv.Collab.Apply.Effects.{Effect, apply_op-Effect}
use keeplin_srv.Collab.Apply.Outcomes.{is_read, apply_op-unapplied, apply_op-total}

pub counter-merge_vv-le :
    (a b : VersionVector) (w : String) → counter a w ≤ counter (merge_vv a b) w
counter-merge_vv-le a b w = omega (arith, counter-merge_vv a b w)

pub counter-merge_vv-ge :
    (a b : VersionVector) (w : String) → counter b w ≤ counter (merge_vv a b) w
counter-merge_vv-ge a b w = omega (arith, counter-merge_vv a b w, counter-le-top b w)

-- A vector that has taken in another is not advanced by it.
not-advances-merged :
    (a b : VersionVector) (w : String) → advances_writer (merge_vv a b) b w ≡ false
unfolding advances_writer
not-advances-merged a b w = ground (arith, counter-merge_vv-ge a b w)

advances-lt :
    (a b : VersionVector) (w : String)
    → advances_writer a b w ≡ true
    → counter a w < counter (merge_vv a b) w
unfolding advances_writer
advances-lt a b w h = ground (arith, counter-merge_vv-ge a b w)

-- `m` has the same identity as `l` and is no older.
pub record Succeeds (l m : Line) : Type 0 where
  pub id : m.id ≡ l.id
  pub note_id : m.note_id ≡ l.note_id
  pub created_at : m.created_at ≡ l.created_at
  pub counters : (w : String) → counter l.vv w ≤ counter m.vv w

Succeeds-refl : (l : Line) → Succeeds l l
Succeeds-refl l = record {
  id = refl;
  note_id = refl;
  created_at = refl;
  counters = λ w. omega arith;
}

module _ (core : KeeplinCore) (s : Store) (now : Time) (n : Uuid) (t : Store) where
  Effect-lines :
      (op : LineOp)
      → Effect core s now n op t
      → (i : Uuid) (l : Line) → line_row s i ≡ some l
      → (m : Line) × (line_row t i ≡ some m) × Succeeds l m
  Effect-lines (insert after id c st) e i l h = (
    l,
    rw (e.result, get_line-set_note_order, get_line-insert_line)
        (ground (arith, nat_beq_iff id i, e.fresh)),
    Succeeds-refl l,
  )
  Effect-lines (update id c st) e i l h = elim (Bool-cases (id == i)) [
    | inl same ↦ (
      edit_row c (merged l.vv st) l,
      rw (e.result, get_line-update_line, same, h) (ground (arith, e.stored, nat_beq_iff id i)),
      record {
        id = refl;
        note_id = refl;
        created_at = refl;
        counters = counter-merge_vv-le l.vv st.vv;
      },
    )
    | inr other ↦ (l, rw (e.result, get_line-update_line, other) h, Succeeds-refl l)
  ]
  Effect-lines (delete id at st) e i l h = elim (Bool-cases (id == i)) [
    | inl same ↦ (
      bury_row at (merged l.vv st) l,
      rw (e.result, get_line-soft_delete_line, same, h)
          (ground (arith, e.stored, nat_beq_iff id i)),
      record {
        id = refl;
        note_id = refl;
        created_at = refl;
        counters = counter-merge_vv-le l.vv st.vv;
      },
    )
    | inr other ↦ (l, rw (e.result, get_line-soft_delete_line, other) h, Succeeds-refl l)
  ]
  Effect-lines (move ids after st) e i l h =
      (l, rw (e.result, get_line-set_note_order) h, Succeeds-refl l)

  Effect-order :
      (op : LineOp)
      → Effect core s now n op t
      → (m : Uuid) (o : NoteOrder) → get_note_order_on s m ≡ some o
      → (p : NoteOrder) × (get_note_order_on t m ≡ some p)
        × ((w : String) → counter o.vv w ≤ counter p.vv w)
  Effect-order (insert after id c st) e m o h = elim (Bool-cases (n == m)) [
    | inl same ↦ (
      reorder_row (splice e.order.order e.at (id ∷ [])) (merged o.vv st) o,
      rw (e.result, get_note_order-set_note_order, get_note_order-insert_line, same, h)
          (ground (arith, e.stored, nat_beq_iff n m)),
      counter-merge_vv-le o.vv st.vv,
    )
    | inr other ↦ (
      o,
      rw (e.result, get_note_order-set_note_order, get_note_order-insert_line, other) h,
      λ w. omega arith,
    )
  ]
  Effect-order (update id c st) e m o h =
      (o, rw (e.result, get_note_order-update_line) h, λ w. omega arith)
  Effect-order (delete id at st) e m o h =
      (o, rw (e.result, get_note_order-soft_delete_line) h, λ w. omega arith)
  Effect-order (move ids after st) e m o h = elim (Bool-cases (n == m)) [
    | inl same ↦ (
      reorder_row (splice (without core ids e.order.order) e.at ids) (merged o.vv st) o,
      rw (e.result, get_note_order-set_note_order, same, h)
          (ground (arith, e.stored, nat_beq_iff n m)),
      counter-merge_vv-le o.vv st.vv,
    )
    | inr other ↦ (o, rw (e.result, get_note_order-set_note_order, other) h, λ w. omega arith)
  ]

  -- The same operation has no effect on what it left.
  Effect-once :
      (op : LineOp) (now' : Time) (u : Store)
      → Effect core s now n op t
      → Effect core t now' n op u
      → ⊥
  Effect-once (insert after id c st) now' u e f =
      let g = rw (e.result, get_line-set_note_order, get_line-insert_line, eq_refl id) at f.fresh in
      cc
  Effect-once (update id c st) now' u e f =
      let g = rw (e.result, get_line-update_line, eq_refl id, e.stored) at f.stored in
      ground (arith, f.newer, not-advances-merged e.line.vv st.vv st.last_writer)
  Effect-once (delete id at st) now' u e f =
      let g = rw (e.result, get_line-soft_delete_line, eq_refl id, e.stored) at f.stored in
      ground (arith, f.newer, not-advances-merged e.line.vv st.vv st.last_writer)
  Effect-once (move ids after st) now' u e f =
      let g = rw (e.result, get_note_order-set_note_order, eq_refl n, e.stored) at f.stored in
      ground (arith, f.newer, not-advances-merged e.order.vv st.vv st.last_writer)

-- An operation that is accepted loses no line: each line stays, in its note, with counters that are no
-- lower.
pub apply_op-Succeeds :
    (core : KeeplinCore) (s : Store) (now : Time) (n dev : Uuid) (op op' : LineOp) (t : Store)
    (i : Uuid) (l : Line)
    → apply_op core s now n dev op ≡ ok (applied op', t)
    → line_row s i ≡ some l
    → (m : Line) × (line_row t i ≡ some m) × Succeeds l m
apply_op-Succeeds core s now n dev op op' t i l h =
    Effect-lines core s now n t op (apply_op-Effect core s now n dev t op op' h).2 i l

-- An operation that is accepted keeps the order of each note, with counters that are no lower.
pub apply_op-counters :
    (core : KeeplinCore) (s : Store) (now : Time) (n dev : Uuid) (op op' : LineOp) (t : Store)
    (m : Uuid) (o : NoteOrder)
    → apply_op core s now n dev op ≡ ok (applied op', t)
    → get_note_order_on s m ≡ some o
    → (p : NoteOrder) × (get_note_order_on t m ≡ some p)
      × ((w : String) → counter o.vv w ≤ counter p.vv w)
apply_op-counters core s now n dev op op' t m o h =
    Effect-order core s now n t op (apply_op-Effect core s now n dev t op op' h).2 m o

Effect-stored :
    (core : KeeplinCore) (s : Store) (now : Time) (n : Uuid) (t : Store) (op : LineOp)
    → Effect core s now n op t
    → (o : NoteOrder) → get_note_order_on s n ≡ some o
    → (p : NoteOrder) × (get_note_order_on t n ≡ some p)
Effect-stored core s now n t op e o h =
    let (p, q, r) = Effect-order core s now n t op e n o h in (p, q)

abbrev pub is_applied : OpOutcome → Bool
is_applied (applied op) = true
is_applied _ = false

answered :
    (core : KeeplinCore) (s : Store) (now now' : Time) (n dev : Uuid) (op : LineOp) (t : Store)
    → Effect core s now n op t
    → (out : OpOutcome) (u : Store) → apply_op core t now' n dev op ≡ ok (out, u)
    → (apply_op core t now' n dev op ≡ ok (out, t)) × (is_applied out ≡ false)
answered core s now now' n dev op t e (applied again) u a =
    absurd
      (Effect-once core s now n t op now' u e (apply_op-Effect core t now' n dev u op again a).2)
answered core s now now' n dev op t e ignored u a =
    elim (apply_op-unapplied core t now' n dev op ignored u a) [
      | inl same ↦ (ground arith, refl)
      | inr again ↦ absurd (ground arith)
    ]
answered core s now now' n dev op t e (invalid code) u a =
    elim (apply_op-unapplied core t now' n dev op (invalid code) u a) [
      | inl same ↦ (ground arith, refl)
      | inr again ↦ absurd (ground arith)
    ]

-- An accepted operation that comes again, on a note with an order, is answered without being accepted
-- and changes nothing, if the line that it names is read in the store that it left.
pub apply_op_again :
    (core : KeeplinCore) (s : Store) (now now' : Time) (n dev : Uuid) (op op' : LineOp) (t : Store)
    (o : NoteOrder)
    → get_note_order_on s n ≡ some o
    → apply_op core s now n dev op ≡ ok (applied op', t)
    → is_read t op ≡ true
    → (out : OpOutcome) × (apply_op core t now' n dev op ≡ ok (out, t)) × (is_applied out ≡ false)
apply_op_again core s now now' n dev op op' t o stored h read =
    let e = (apply_op-Effect core s now n dev t op op' h).2 in
    let (p, q) = Effect-stored core s now n t op e o stored in
    let (r, a) = apply_op-total core t now' n dev op p q read in
    let (b, never) = answered core s now now' n dev op t e r.0 r.1 a in (r.0, b, never)
