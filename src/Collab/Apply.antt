-- ===== src/Collab/Apply.antt =====
-- crates/keeplin-srv/src/collab.rs: `apply_op`, which resolves one line operation against the store,
-- and the functions that it calls. A refusal keeps its code; its text for a human reader is left out.
-- `now` is the clock that the database reads at an insert.
use keeplin_srv.Base.{
  ℕ, suc, String, Bool, true, false, not, ◌||◌, Option, none, some, List, [], ◌∷◌, ◌++◌, length,
  leb, ltb, is_some, is_empty, any, contains, filter, take, drop, if◌then◌else◌, ◌==◌, nat_key,
  string_key, Result, ok, not_found, ok_or, ◌>>=◌,
}
pub mod Effects
pub mod Outcomes
pub mod Ordering
pub mod Limits
pub mod Progress
pub mod Places
use mathlib.Core.Option
use keeplin_srv.Protocol.{
  Uuid, Time, Text, VersionVector, Stamp, LineOp, insert, update, delete, move, last_writer,
}
use keeplin_srv.Protocol.Versions.{merge_vv, advances_writer}
use keeplin_srv.External.{Winner, local, incoming, KeeplinCore}
use keeplin_srv.Lines.{
  Line, NoteOrder, Store, get_line_on, insert_line_on, update_line_on, soft_delete_line_on,
  get_note_order_on, set_note_order_on, count_live_lines_on,
}

pub data OpOutcome : Type 0 where
  applied : LineOp → OpOutcome
  ignored : OpOutcome
  invalid : String → OpOutcome

abbrev pub Applies : Type 0
Applies = OpOutcome × Store

abbrev pub newline : ℕ
newline = 10

abbrev pub is_local : Winner → Bool
is_local local = true
is_local incoming = false

-- `order.iter().position(|id| *id == after)`
unfoldable pub position : List Uuid → Uuid → Option ℕ
position [] after = none
position (x ∷ xs) after = if x == after then some 0 else Option.map suc (position xs after)

unfoldable pub position_after : List Uuid → Option Uuid → Option ℕ
unfolding position
position_after order none = some 0
position_after order (some after) = Option.map suc (position order after)

-- `Vec::insert` of one id and `Vec::splice` of several, at a position of the list
unfoldable pub splice : List Uuid → ℕ → List Uuid → List Uuid
splice xs at ids = take at xs ++ (ids ++ drop at xs)

-- The stamp that is stored: the vectors merged, the writer and the time of the operation.
abbrev pub merged : VersionVector → Stamp → Stamp
merged current st = record st { vv = merge_vv current st.vv }

module _ (core : KeeplinCore) where
  unfoldable pub winner : NoteOrder → Stamp → Winner
  winner order st =
      core.resolve order.vv order.updated_at order.last_writer st.vv st.updated_at st.last_writer

  unfoldable pub line_winner : Line → Stamp → Winner
  line_winner line st =
      core.resolve line.vv line.updated_at line.last_writer st.vv st.updated_at st.last_writer

  -- `!advances_writer(..) || winner(..) == Winner::Local`
  unfoldable pub loses_to_order : NoteOrder → Stamp → Bool
  loses_to_order order st =
      not (advances_writer order.vv st.vv st.last_writer) || is_local (winner order st)

  unfoldable pub loses_to_line : Line → Stamp → Bool
  loses_to_line line st =
      not (advances_writer line.vv st.vv st.last_writer) || is_local (line_winner line st)

  unfoldable pub insert_at :
      Store → Time → Uuid → NoteOrder → Option ℕ → Option Uuid → Uuid → Text → Stamp → Applies
  insert_at s now note_id order none after line_id content st = (invalid "bad_after", s)
  insert_at s now note_id order (some at) after line_id content st =
      if loses_to_order order st then (ignored, s) else (
        applied (insert after line_id content st),
        set_note_order_on (insert_line_on s now line_id note_id content st) note_id
            (splice order.order at (line_id ∷ [])) (merged order.vv st),
      )

  unfoldable pub apply_insert :
      Store → Time → Uuid → Option Uuid → Uuid → Text → Stamp → Result Applies
  unfolding insert_at
  apply_insert s now note_id after line_id content st =
      if contains content newline
      then ok (invalid "bad_content", s)
      else if ltb core.max_line_bytes (length content)
      then ok (invalid core.code_line_too_long, s)
      else do
        found ← get_line_on s line_id
        if is_some found then ok (invalid "line_exists", s) else do
          order ← ok_or (get_note_order_on s note_id) not_found
          if leb core.max_lines_per_note (count_live_lines_on s note_id)
              then ok (invalid core.code_too_many_lines, s)
              else ok (
                  insert_at s now note_id order (position_after order.order after) after line_id
                    content st)

  -- `Some(line) if line.note_id == note_id => line`
  abbrev pub line_of_note : Uuid → Option Line → Option Line
  line_of_note note_id none = none
  line_of_note note_id (some line) = if line.note_id == note_id then some line else none

  unfoldable pub update_found : Store → Uuid → Text → Stamp → Option Line → Applies
  update_found s line_id content st none = (invalid "not_found", s)
  update_found s line_id content st (some line) = if loses_to_line line st then (ignored, s) else (
    applied (update line_id content st),
    update_line_on s line_id content (merged line.vv st),
  )

  unfoldable pub apply_update : Store → Uuid → Uuid → Text → Stamp → Result Applies
  unfolding update_found
  apply_update s note_id line_id content st =
      if contains content newline
      then ok (invalid "bad_content", s)
      else if ltb core.max_line_bytes (length content)
      then ok (invalid core.code_line_too_long, s)
      else do
        found ← get_line_on s line_id
        ok (update_found s line_id content st (line_of_note note_id found))

  unfoldable pub delete_found : Store → Uuid → Time → Stamp → Option Line → Applies
  delete_found s line_id deleted_at st none = (invalid "not_found", s)
  delete_found s line_id deleted_at st (some line) =
      if loses_to_line line st then (ignored, s) else (
        applied (delete line_id deleted_at st),
        soft_delete_line_on s line_id deleted_at (merged line.vv st),
      )

  unfoldable pub apply_delete : Store → Uuid → Uuid → Time → Stamp → Result Applies
  unfolding delete_found
  apply_delete s note_id line_id deleted_at st = do
    found ← get_line_on s line_id
    ok (delete_found s line_id deleted_at st (line_of_note note_id found))

  abbrev pub after_is_moved : List Uuid → Option Uuid → Bool
  after_is_moved line_ids none = false
  after_is_moved line_ids (some after) = contains line_ids after

  -- `order.iter().filter(|id| !line_ids.contains(id))`
  abbrev pub without : List Uuid → List Uuid → List Uuid
  without line_ids order = filter (λ id. not (contains line_ids id)) order

  unfoldable pub move_to :
      Store → Uuid → NoteOrder → Option ℕ → List Uuid → Option Uuid → Stamp → Applies
  move_to s note_id order none line_ids after st = (invalid "bad_after", s)
  move_to s note_id order (some at) line_ids after st = (
    applied (move line_ids after st),
    set_note_order_on s note_id (splice (without line_ids order.order) at line_ids)
        (merged order.vv st),
  )

  unfoldable pub apply_move : Store → Uuid → List Uuid → Option Uuid → Stamp → Result Applies
  unfolding move_to
  apply_move s note_id line_ids after st =
      if is_empty line_ids then ok (invalid "bad_move", s) else do
        order ← ok_or (get_note_order_on s note_id) not_found
        if any (λ id. not (contains order.order id)) line_ids
            then ok (invalid "not_found", s)
            else if after_is_moved line_ids after
            then ok (invalid "bad_move", s)
            else if loses_to_order order st
            then ok (ignored, s)
            else ok (
                move_to s note_id order (position_after (without line_ids order.order) after)
                  line_ids after st)

  unfoldable pub apply_op_of_device : Store → Time → Uuid → LineOp → Result Applies
  apply_op_of_device s now note_id (insert after line_id content st) =
      apply_insert s now note_id after line_id content st
  apply_op_of_device s now note_id (update line_id content st) =
      apply_update s note_id line_id content st
  apply_op_of_device s now note_id (delete line_id deleted_at st) =
      apply_delete s note_id line_id deleted_at st
  apply_op_of_device s now note_id (move line_ids after st) = apply_move s note_id line_ids after st

  unfoldable pub apply_op : Store → Time → Uuid → Uuid → LineOp → Result Applies
  unfolding apply_op_of_device last_writer
  apply_op s now note_id device_id op =
      if not (last_writer op == core.uuid_to_string device_id)
      then ok (invalid "bad_writer", s)
      else apply_op_of_device s now note_id op
