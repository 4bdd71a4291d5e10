-- ===== src/Collab/Apply/Limits.antt =====
-- The limits of the format under `apply_op`: the live lines of a note, and the content of a line.
use keeplin_srv.Base.{
  ◌+◌, ◌≤◌, ◌≡◌, refl, Bool, Option, none, true, false, ◌&&◌, some, List, [], ◌∷◌, arith, ok, find,
  update_first, count_where, ◌==◌, nat_key, nat_beq_iff,
}
use keeplin_srv.Protocol.{Uuid, Time, Text, Stamp, LineOp, insert, update, delete, move}
use keeplin_srv.External.{KeeplinCore}
use keeplin_srv.Lines.{
  Line, Store, line_row, count_live_lines_on, update_line_on, is_live, edit_row,
}
use keeplin_srv.Lines.Rows.{
  count_live-insert_line, count_live-soft_delete_line, count_live-set_note_order,
  get_line-insert_line, get_line-update_line, get_line-soft_delete_line, get_line-set_note_order,
}
use keeplin_srv.Collab.Apply.{applied, apply_op, merged}
use keeplin_srv.Collab.Apply.Effects.{Fits, Effect, apply_op-Effect}

abbrev pub is_update : LineOp → Bool
is_update (update id c st) = true
is_update _ = false

module _ (core : KeeplinCore) (s : Store) (now : Time) (n : Uuid) (t : Store) where
  Effect-live :
      (op : LineOp)
      → count_live_lines_on s n ≤ core.max_lines_per_note
      → is_update op ≡ false
      → Effect core s now n op t
      → count_live_lines_on t n ≤ core.max_lines_per_note
  Effect-live (insert after id c st) b u e =
      rw (e.result, count_live-set_note_order, count_live-insert_line) (ground (arith, e.room))
  Effect-live (update id c st) b u e = cc
  Effect-live (delete id at st) b u e =
      rw e.result (omega (arith, count_live-soft_delete_line s id at (merged e.line.vv st) n))
  Effect-live (move ids after st) b u e = rw (e.result, count_live-set_note_order) b

-- An operation other than an update keeps a note within the limit of live lines.
pub apply_op-live_lines :
    (core : KeeplinCore) (s : Store) (now : Time) (n dev : Uuid) (op op' : LineOp) (t : Store)
    → count_live_lines_on s n ≤ core.max_lines_per_note
    → is_update op ≡ false
    → apply_op core s now n dev op ≡ ok (applied op', t)
    → count_live_lines_on t n ≤ core.max_lines_per_note
apply_op-live_lines core s now n dev op op' t b u h =
    Effect-live core s now n t op b u (apply_op-Effect core s now n dev t op op' h).2

revived :
    (n id : Uuid) (f : Line → Line) (xs : List Line) (l : Line)
    → find (λ (a : Line). a.id == id) xs ≡ some l
    → l.note_id ≡ n
    → is_live l ≡ false
    → ((a : Line) → (f a).note_id ≡ a.note_id)
    → ((a : Line) → is_live (f a) ≡ true)
    → count_where
        (λ (a : Line). a.note_id == n && is_live a)
        (update_first (λ (a : Line). a.id == id) f xs)
      ≡ count_where (λ (a : Line). a.note_id == n && is_live a) xs + 1
unfolding find count_where update_first
revived n id f [] l h o d k r = cc
revived n id f (x ∷ xs) l h o d k r =
    ground (arith, k x, r x, revived n id f xs l, nat_beq_iff l.note_id n, nat_beq_iff x.note_id n)

-- An update that is accepted on a deleted line adds a live line to the note, whatever the limit.
pub apply_op-revives :
    (core : KeeplinCore) (s : Store) (now : Time) (n dev id : Uuid) (c : Text) (st : Stamp)
    (op' : LineOp) (t : Store) (l : Line)
    → apply_op core s now n dev (update id c st) ≡ ok (applied op', t)
    → line_row s id ≡ some l
    → is_live l ≡ false
    → count_live_lines_on t n ≡ count_live_lines_on s n + 1
unfolding count_live_lines_on update_line_on line_row
apply_op-revives core s now n dev id c st op' t l h g d =
    let e = (apply_op-Effect core s now n dev t (update id c st) op' h).2 in
    rw e.result (
      revived n id (edit_row c (merged e.line.vv st)) s.lines l g (cc (e.stored, e.of_note)) d
        (λ a. refl) (λ a. refl))

abbrev pub FitsIfStored : KeeplinCore → Option Line → Type 0
FitsIfStored core none = Unit {0}
FitsIfStored core (some l) = Fits core l.content

-- Every stored line is one line within the limit of bytes.
pub record IsWithinFormat (core : KeeplinCore) (s : Store) : Type 0 where
  pub each : (i : Uuid) → FitsIfStored core (line_row s i)

module _ (core : KeeplinCore) (s : Store) (now : Time) (n : Uuid) (t : Store)
    (w : IsWithinFormat core s) where
  Effect-fits :
      (op : LineOp) → Effect core s now n op t → (i : Uuid) → FitsIfStored core (line_row t i)
  Effect-fits (insert after id c st) e i =
      rw (e.result, get_line-set_note_order, get_line-insert_line)
        (ground (arith, w.each i, e.fits))
  Effect-fits (update id c st) e i =
      rw (e.result, get_line-update_line)
        (ground (arith, w.each i, e.fits, nat_beq_iff id i, e.stored))
  Effect-fits (delete id at st) e i =
      rw (e.result, get_line-soft_delete_line)
        (ground (arith, w.each i, nat_beq_iff id i, e.stored))
  Effect-fits (move ids after st) e i = rw (e.result, get_line-set_note_order) (w.each i)

-- An operation that is accepted keeps every stored line free of line breaks and within the limit of
-- bytes.
pub apply_op-IsWithinFormat :
    (core : KeeplinCore) (s : Store) (now : Time) (n dev : Uuid) (op op' : LineOp) (t : Store)
    → IsWithinFormat core s
    → apply_op core s now n dev op ≡ ok (applied op', t)
    → IsWithinFormat core t
apply_op-IsWithinFormat core s now n dev op op' t w h = record {
  each = Effect-fits core s now n t w op (apply_op-Effect core s now n dev t op op' h).2;
}
