-- ===== src/Collab/Apply/Outcomes.antt =====
-- What `apply_op` answers: a refusal changes nothing, and on a note with an order there is an answer.
use keeplin_srv.Base.{◌≡◌, refl, ◌⊎◌, inl, inr, Bool, true, some, arith, Result, ok, err, is_ok}
use keeplin_srv.Protocol.{Uuid, Time, LineOp, insert, update, delete, move}
use keeplin_srv.External.{KeeplinCore}
use keeplin_srv.Lines.{NoteOrder, Store, get_note_order_on, get_line_on}
use keeplin_srv.Lines.Rows.{get_line_on-cases}
use keeplin_srv.Collab.Apply.{
  OpOutcome, Applies, applied, apply_op, apply_op_of_device, apply_insert, apply_update,
  apply_delete, apply_move,
}

-- Whatever is not accepted leaves the store as it was.
pub apply_op-unapplied :
    (core : KeeplinCore) (s : Store) (now : Time) (n dev : Uuid) (op : LineOp) (out : OpOutcome)
    (t : Store)
    → apply_op core s now n dev op ≡ ok (out, t)
    → (t ≡ s) ⊎ (out ≡ applied op)
unfolding apply_op apply_op_of_device apply_insert apply_update apply_delete apply_move
apply_op-unapplied core s now n dev (insert after id c st) out t h = ground arith
apply_op-unapplied core s now n dev (update id c st) out t h = ground arith
apply_op-unapplied core s now n dev (delete id at st) out t h = ground arith
apply_op-unapplied core s now n dev (move ids after st) out t h = ground arith

-- The line that the operation names, if it is stored, is decrypted.
abbrev pub is_read : Store → LineOp → Bool
is_read s (insert after id c st) = is_ok (get_line_on s id)
is_read s (update id c st) = is_ok (get_line_on s id)
is_read s (delete id at st) = is_ok (get_line_on s id)
is_read s (move ids after st) = true

succeeds :
    (core : KeeplinCore) (s : Store) (now : Time) (n dev : Uuid) (op : LineOp) (o : NoteOrder)
    → get_note_order_on s n ≡ some o
    → is_read s op ≡ true
    → is_ok (apply_op core s now n dev op) ≡ true
unfolding apply_op apply_op_of_device apply_insert apply_update apply_delete apply_move
succeeds core s now n dev (insert after id c st) o e r = elim (get_line_on-cases s id) [
  | inl f ↦ ground arith
  | inr f ↦ absurd (ground arith)
]
succeeds core s now n dev (update id c st) o e r = elim (get_line_on-cases s id) [
  | inl f ↦ ground arith
  | inr f ↦ absurd (ground arith)
]
succeeds core s now n dev (delete id at st) o e r = elim (get_line_on-cases s id) [
  | inl f ↦ ground arith
  | inr f ↦ absurd (ground arith)
]
succeeds core s now n dev (move ids after st) o e r = ground arith

value_of : (r : Result Applies) → is_ok r ≡ true → (a : Applies) × (r ≡ ok a)
value_of (ok a) h = (a, refl)
value_of (err x) h = cc

-- On a note that has an order `apply_op` does not fail, if the line that the operation names is read.
pub apply_op-total :
    (core : KeeplinCore) (s : Store) (now : Time) (n dev : Uuid) (op : LineOp) (o : NoteOrder)
    → get_note_order_on s n ≡ some o
    → is_read s op ≡ true
    → (r : Applies) × (apply_op core s now n dev op ≡ ok r)
apply_op-total core s now n dev op o e r = value_of _ (succeeds core s now n dev op o e r)
