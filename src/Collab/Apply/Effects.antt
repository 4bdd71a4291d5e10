-- ===== src/Collab/Apply/Effects.antt =====
-- What an operation that `apply_op` accepts has passed, and what it leaves in the store.
use keeplin_srv.Base.{
  ℕ, ◌≤◌, ◌<◌, ◌≡◌, inl, inr, true, false, not, Option, none, some, List, [], ◌∷◌, length, contains,
  any, is_empty, arith, Bool-cases, Option-cases, ok, eq_iff, ◌==◌, nat_key, string_key,
}
use keeplin_srv.Protocol.{
  Uuid, Time, Text, Stamp, LineOp, insert, update, delete, move, last_writer,
}
use keeplin_srv.Protocol.Versions.{advances_writer}
use keeplin_srv.External.{incoming, KeeplinCore}
use keeplin_srv.Lines.{
  Line, NoteOrder, Store, line_row, get_line_on, insert_line_on, update_line_on,
  soft_delete_line_on, get_note_order_on, set_note_order_on, count_live_lines_on,
}
use keeplin_srv.Lines.Rows.{get_line_on-cases}
use keeplin_srv.Collab.Apply.{
  applied, newline, position_after, splice, merged, winner, line_winner, loses_to_order,
  loses_to_line, apply_insert, apply_update, apply_delete, apply_move, apply_op, apply_op_of_device,
  line_of_note, without, after_is_moved,
}

module _ (core : KeeplinCore) where
  -- The content is one line within the format's limit.
  pub record Fits (content : Text) : Type 0 where
    pub one_line : contains content newline ≡ false
    pub short : length content ≤ core.max_line_bytes

  -- The operation is newer than what is stored, by its writer's counter and by `resolve`.
  pub record WinsOrder (order : NoteOrder) (st : Stamp) : Type 0 where
    pub advances : advances_writer order.vv st.vv st.last_writer ≡ true
    pub wins : winner core order st ≡ incoming

  pub record WinsLine (line : Line) (st : Stamp) : Type 0 where
    pub advances : advances_writer line.vv st.vv st.last_writer ≡ true
    pub wins : line_winner core line st ≡ incoming

  wins_order :
      (order : NoteOrder) (st : Stamp) → loses_to_order core order st ≡ false → WinsOrder order st
  unfolding loses_to_order
  wins_order order st h = ground arith

  wins_line : (line : Line) (st : Stamp) → loses_to_line core line st ≡ false → WinsLine line st
  unfolding loses_to_line
  wins_line line st h = ground arith

module _ (core : KeeplinCore) (s : Store) (now : Time) (n : Uuid) where
  pub record Inserted (after : Option Uuid) (id : Uuid) (content : Text) (st : Stamp) (t : Store)
      : Type 0 where
    pub order : NoteOrder
    pub at : ℕ
    pub stored : get_note_order_on s n ≡ some order
    pub fits : Fits core content
    pub fresh : line_row s id ≡ none
    pub room : count_live_lines_on s n < core.max_lines_per_note
    pub placed : position_after order.order after ≡ some at
    pub newer : WinsOrder core order st
    pub result :
        t
        ≡ set_note_order_on
            (insert_line_on s now id n content st)
            n
            (splice order.order at (id ∷ []))
            (merged order.vv st)

  pub record Updated (id : Uuid) (content : Text) (st : Stamp) (t : Store) : Type 0 where
    pub line : Line
    pub stored : line_row s id ≡ some line
    pub of_note : line.note_id ≡ n
    pub fits : Fits core content
    pub newer : WinsLine core line st
    pub result : t ≡ update_line_on s id content (merged line.vv st)

  pub record Deleted (id : Uuid) (at : Time) (st : Stamp) (t : Store) : Type 0 where
    pub line : Line
    pub stored : line_row s id ≡ some line
    pub of_note : line.note_id ≡ n
    pub newer : WinsLine core line st
    pub result : t ≡ soft_delete_line_on s id at (merged line.vv st)

  pub record Moved (ids : List Uuid) (after : Option Uuid) (st : Stamp) (t : Store) : Type 0 where
    pub order : NoteOrder
    pub at : ℕ
    pub stored : get_note_order_on s n ≡ some order
    pub some_moved : is_empty ids ≡ false
    pub known : any (λ id. not (contains order.order id)) ids ≡ false
    pub after_stays : after_is_moved core ids after ≡ false
    pub placed : position_after (without core ids order.order) after ≡ some at
    pub newer : WinsOrder core order st
    pub result :
        t
        ≡ set_note_order_on s n (splice (without core ids order.order) at ids) (merged order.vv st)

  abbrev pub Effect : LineOp → Store → Type 0
  Effect (insert after id content st) t = Inserted after id content st t
  Effect (update id content st) t = Updated id content st t
  Effect (delete id at st) t = Deleted id at st t
  Effect (move ids after st) t = Moved ids after st t

  Inserted-by :
      (after : Option Uuid) (id : Uuid) (content : Text) (st : Stamp) (op : LineOp) (t : Store)
      (order : NoteOrder) (at : ℕ)
      → get_line_on s id ≡ ok (line_row s id)
      → get_note_order_on s n ≡ some order
      → position_after order.order after ≡ some at
      → apply_insert core s now n after id content st ≡ ok (applied op, t)
      → (op ≡ insert after id content st) × Inserted after id content st t
  unfolding apply_insert
  Inserted-by after id content st op t order at r e p h = (
    ground arith,
    record {
      order = order;
      at = at;
      stored = e;
      fits = record { one_line = ground arith; short = ground arith };
      fresh = ground arith;
      room = ground arith;
      placed = p;
      newer = wins_order core order st (ground arith);
      result = ground arith;
    },
  )

  apply_insert-Inserted :
      (after : Option Uuid) (id : Uuid) (content : Text) (st : Stamp) (op : LineOp) (t : Store)
      → apply_insert core s now n after id content st ≡ ok (applied op, t)
      → (op ≡ insert after id content st) × Inserted after id content st t
  unfolding apply_insert
  apply_insert-Inserted after id content st op t h = elim (get_line_on-cases s id) [
    | inr r ↦ absurd (ground arith)
    | inl r ↦ elim (Option-cases (get_note_order_on s n)) [
      | inl e ↦ absurd (ground arith)
      | inr (o, e) ↦ elim (Option-cases (position_after o.order after)) [
        | inl p ↦ absurd (ground arith)
        | inr (at, p) ↦ Inserted-by after id content st op t o at r e p h
      ]
    ]
  ]

  line_of_note-some :
      (m : Uuid) (o : Option Line) (l : Line)
      → line_of_note core m o ≡ some l
      → (o ≡ some l) × (l.note_id ≡ m)
  line_of_note-some m none l h = ground arith
  line_of_note-some m (some k) l h = ground arith

  apply_update-Updated :
      (id : Uuid) (content : Text) (st : Stamp) (op : LineOp) (t : Store)
      → apply_update core s n id content st ≡ ok (applied op, t)
      → (op ≡ update id content st) × Updated id content st t
  unfolding apply_update
  apply_update-Updated id content st op t h = elim (get_line_on-cases s id) [
    | inr r ↦ absurd (ground arith)
    | inl r ↦ elim (Option-cases (line_of_note core n (line_row s id))) [
      | inl e ↦ absurd (ground arith)
      | inr (l, e) ↦ (
        ground arith,
        record {
          line = l;
          stored = (line_of_note-some n _ l e).0;
          of_note = (line_of_note-some n _ l e).1;
          fits = record { one_line = ground arith; short = ground arith };
          newer = wins_line core l st (ground arith);
          result = ground arith;
        },
      )
    ]
  ]

  apply_delete-Deleted :
      (id : Uuid) (at : Time) (st : Stamp) (op : LineOp) (t : Store)
      → apply_delete core s n id at st ≡ ok (applied op, t)
      → (op ≡ delete id at st) × Deleted id at st t
  unfolding apply_delete
  apply_delete-Deleted id at st op t h = elim (get_line_on-cases s id) [
    | inr r ↦ absurd (ground arith)
    | inl r ↦ elim (Option-cases (line_of_note core n (line_row s id))) [
      | inl e ↦ absurd (ground arith)
      | inr (l, e) ↦ (
        ground arith,
        record {
          line = l;
          stored = (line_of_note-some n _ l e).0;
          of_note = (line_of_note-some n _ l e).1;
          newer = wins_line core l st (ground arith);
          result = ground arith;
        },
      )
    ]
  ]

  Moved-by :
      (ids : List Uuid) (after : Option Uuid) (st : Stamp) (op : LineOp) (t : Store)
      (order : NoteOrder) (at : ℕ)
      → get_note_order_on s n ≡ some order
      → position_after (without core ids order.order) after ≡ some at
      → apply_move core s n ids after st ≡ ok (applied op, t)
      → (op ≡ move ids after st) × Moved ids after st t
  unfolding apply_move
  Moved-by ids after st op t order at e p h = (
    ground arith,
    record {
      order = order;
      at = at;
      stored = e;
      some_moved = ground arith;
      known = ground arith;
      after_stays = ground arith;
      placed = p;
      newer = wins_order core order st (ground arith);
      result = ground arith;
    },
  )

  apply_move-Moved :
      (ids : List Uuid) (after : Option Uuid) (st : Stamp) (op : LineOp) (t : Store)
      → apply_move core s n ids after st ≡ ok (applied op, t)
      → (op ≡ move ids after st) × Moved ids after st t
  unfolding apply_move
  apply_move-Moved ids after st op t h = elim (Option-cases (get_note_order_on s n)) [
    | inl e ↦ absurd (ground arith)
    | inr (o, e) ↦ elim (Option-cases (position_after (without core ids o.order) after)) [
      | inl p ↦ absurd (ground arith)
      | inr (at, p) ↦ Moved-by ids after st op t o at e p h
    ]
  ]

module _ (core : KeeplinCore) (s : Store) (now : Time) (n dev : Uuid) (t : Store) where
  signed :
      (op op' : LineOp)
      → apply_op core s now n dev op ≡ ok (applied op', t)
      → (last_writer op ≡ core.uuid_to_string dev)
        × (apply_op_of_device core s now n op ≡ ok (applied op', t))
  unfolding apply_op
  signed op op' h = elim (Bool-cases (last_writer op == core.uuid_to_string dev)) [
    | inl e ↦ ((eq_iff _ _).0 e, ground arith)
    | inr e ↦ absurd (ground arith)
  ]

  Effect-of :
      (op op' : LineOp)
      → apply_op_of_device core s now n op ≡ ok (applied op', t)
      → (op' ≡ op) × Effect core s now n op t
  unfolding apply_op_of_device
  Effect-of (insert after id content st) op' h =
      apply_insert-Inserted core s now n after id content st op' t h
  Effect-of (update id content st) op' h = apply_update-Updated core s now n id content st op' t h
  Effect-of (delete id at st) op' h = apply_delete-Deleted core s now n id at st op' t h
  Effect-of (move ids after st) op' h = apply_move-Moved core s now n ids after st op' t h

  -- An operation that is accepted is signed with the device's id, is handed on as it came, has
  -- passed every test for its kind, and leaves exactly the store that its effect describes.
  pub apply_op-Effect :
      (op op' : LineOp)
      → apply_op core s now n dev op ≡ ok (applied op', t)
      → (op' ≡ op) × (last_writer op ≡ core.uuid_to_string dev) × Effect core s now n op t
  apply_op-Effect op op' h =
      let (w, d) = signed op op' h in let (same, e) = Effect-of op op' d in (same, w, e)
