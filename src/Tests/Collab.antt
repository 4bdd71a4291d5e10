-- ===== src/Tests/Collab.antt =====
-- `apply_op` on one note of two lines, of which the second is deleted.
use keeplin_srv.Base.{
  ◌≡◌, ◌≤◌, ◌+◌, refl, true, false, update_first, Option, none, some, [], ◌∷◌, arith, ltb,
  if◌then◌else◌, Result, ok, err, ◌==◌, nat_key, count, inl, inr, find, contains, Bool-cases,
  count_where, any, filter,
}
use keeplin_srv.Base.Dict.{get}
use keeplin_srv.Protocol.{Uuid, Time, Stamp, LineOp, insert, update, move, last_writer}
use keeplin_srv.Protocol.Versions.{counter, advances_writer}
use keeplin_srv.External.{local, incoming, KeeplinCore}
use keeplin_srv.Lines.{
  Line, NoteOrder, Store, line_row, get_line_on, get_note_order_on, count_live_lines_on,
  insert_line_on, set_note_order_on,
}
use keeplin_srv.Collab.Apply.{
  OpOutcome, Applies, applied, apply_op, apply_op_of_device, apply_insert, insert_at, apply_update,
  update_found, apply_move, move_to, loses_to_line, loses_to_order, winner, line_winner,
  position_after, position,
}
use keeplin_srv.Collab.Apply.Effects.{Fits}
use keeplin_srv.Collab.Apply.Outcomes.{is_read}
use keeplin_srv.Collab.Apply.Ordering.{IsWellOrdered, apply_op-IsWellOrdered, apply_op-duplicates}
use keeplin_srv.Collab.Apply.Limits.{apply_op-revives, IsWithinFormat, apply_op-IsWithinFormat}
use keeplin_srv.Collab.Apply.Progress.{is_applied, apply_op_again}

-- A `resolve` that goes by the time alone, and small limits.
abbrev core : KeeplinCore
core = record {
  resolve = λ v t w v' t' w'. if ltb t t' then incoming else local;
  max_line_bytes = 8;
  max_lines_per_note = 3;
  max_notes_per_notebook = 2;
  code_line_too_long = "line_too_long";
  code_too_many_lines = "too_many_lines";
  uuid_to_string = λ id. "laptop";
}

abbrev stored_line : Uuid → Option Time → Line
stored_line id deleted_at = record {
  id = id;
  note_id = 1;
  content = 104 ∷ [];
  created_at = 5;
  updated_at = 5;
  deleted_at = deleted_at;
  vv = ("phone", 2) ∷ [];
  last_writer = "phone";
}

abbrev store : Store
store = record {
  readable = λ t. true;
  lines = stored_line 11 none ∷ stored_line 12 (some 6) ∷ [];
  note_orders =
      record { note_id = 1; order = 11 ∷ 12 ∷ []; updated_at = 5; vv = []; last_writer = "phone" }
      ∷ [];
}

abbrev laptop : Stamp
laptop = record { vv = ("laptop", 1) ∷ []; last_writer = "laptop"; updated_at = 9 }

abbrev left : Result Applies → Store
left (ok (out, s)) = s
left (err e) = store

abbrev inserted : LineOp
inserted = insert (some 11) 13 (105 ∷ []) laptop

abbrev after_insert : Store
after_insert = left (apply_op core store 10 1 7 inserted)

insert_accepted : apply_op core store 10 1 7 inserted ≡ ok (applied inserted, after_insert)
unfolding apply_op apply_op_of_device last_writer apply_insert insert_at contains line_row find
    get_note_order_on count_live_lines_on count_where position_after position loses_to_order
    advances_writer counter get winner get_line_on
insert_accepted = refl

abbrev edited : LineOp
edited = update 12 (106 ∷ []) laptop

abbrev after_edit : Store
after_edit = left (apply_op core store 10 1 7 edited)

edit_accepted : apply_op core store 10 1 7 edited ≡ ok (applied edited, after_edit)
unfolding apply_op apply_op_of_device last_writer apply_update update_found contains line_row find
    loses_to_line advances_writer counter get line_winner get_line_on
edit_accepted = refl

abbrev moved_twice : LineOp
moved_twice = move (12 ∷ 12 ∷ []) none laptop

abbrev after_move : Store
after_move = left (apply_op core store 10 1 7 moved_twice)

move_accepted : apply_op core store 10 1 7 moved_twice ≡ ok (applied moved_twice, after_move)
unfolding apply_op apply_op_of_device last_writer apply_move move_to contains find get_note_order_on
    any filter position_after position loses_to_order advances_writer counter get winner
move_accepted = refl

store-IsWellOrdered : IsWellOrdered store
unfolding get_note_order_on line_row find count
store-IsWellOrdered = record { lists = λ n i. ground arith }

letter-Fits : Fits core (104 ∷ [])
unfolding contains
letter-Fits = record { one_line = refl; short = omega arith }

store-IsWithinFormat : IsWithinFormat core store
unfolding line_row find contains
store-IsWithinFormat = record {
  each = λ i. elim (Bool-cases (11 == i)) [
    | inl e ↦ rw e letter-Fits
    | inr e ↦ elim (Bool-cases (12 == i)) [ inl f ↦ rw (e, f) letter-Fits | inr f ↦ rw (e, f) tt ]
  ];
}

abbrev order : NoteOrder
order = record { note_id = 1; order = 11 ∷ 12 ∷ []; updated_at = 5; vv = []; last_writer = "phone" }

order_stored : get_note_order_on store 1 ≡ some order
unfolding get_note_order_on find
order_stored = refl

apply_op-IsWellOrdered_example : IsWellOrdered after_insert
apply_op-IsWellOrdered_example =
    apply_op-IsWellOrdered core store 10 1 7 inserted inserted after_insert store-IsWellOrdered tt
      insert_accepted

apply_op-duplicates_example :
    (o : NoteOrder) × (get_note_order_on after_move 1 ≡ some o) × (2 ≤ count 12 o.order)
unfolding count
apply_op-duplicates_example =
    apply_op-duplicates core store 10 1 7 (12 ∷ 12 ∷ []) none laptop moved_twice after_move 12
      move_accepted (omega arith)

live_lines : count_live_lines_on store 1 ≡ 1
unfolding count_live_lines_on count_where
live_lines = refl

line_12 : line_row store 12 ≡ some (stored_line 12 (some 6))
unfolding line_row find
line_12 = refl

apply_op-revives_example : count_live_lines_on after_edit 1 ≡ count_live_lines_on store 1 + 1
apply_op-revives_example =
    apply_op-revives core store 10 1 7 12 (106 ∷ []) laptop edited after_edit
      (stored_line 12 (some 6)) edit_accepted line_12 refl

apply_op-IsWithinFormat_example : IsWithinFormat core after_edit
apply_op-IsWithinFormat_example =
    apply_op-IsWithinFormat core store 10 1 7 edited edited after_edit store-IsWithinFormat
      edit_accepted

inserted_read : is_read after_insert inserted ≡ true
unfolding get_line_on line_row find apply_op apply_op_of_device last_writer apply_insert insert_at
    contains get_note_order_on count_live_lines_on count_where position_after position
    loses_to_order advances_writer counter get winner insert_line_on set_note_order_on update_first
inserted_read = refl

apply_op_again_example :
    (out : OpOutcome) × (apply_op core after_insert 20 1 7 inserted ≡ ok (out, after_insert))
    × (is_applied out ≡ false)
apply_op_again_example =
    apply_op_again core store 10 20 1 7 inserted inserted after_insert order order_stored
      insert_accepted inserted_read
