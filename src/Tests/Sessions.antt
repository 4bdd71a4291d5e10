-- ===== src/Tests/Sessions.antt =====
-- Connections 1, 2 and 3 of user 1, who owns note 9 of one line.
use keeplin_srv.Base.{
  true, length, ℕ, ◌+◌, ◌≤◌, ◌≡◌, refl, Bool, false, not, ◌&&◌, ◌||◌, none, some, [], ◌∷◌, ◌++◌,
  if◌then◌else◌, ◌==◌, nat_key, find, filter, contains, count, arith, update_first, any,
}
use mathlib.Core.Option
use keeplin_srv.Protocol.{
  LineOp, CollabClientMsg, CollabServerMsg, update, join, leave, last_writer,
}
use keeplin_srv.Protocol.Versions.{advances_writer, counter, merge_vv, merge_into, raise}
use keeplin_srv.Base.Dict.{get, put}
use keeplin_srv.External.{KeeplinCore, incoming}
use keeplin_srv.Permissions.{strict, note_row, get_note_on, resolve_note_access_on, has}
use keeplin_srv.Lines.{
  Line, Store, line_row, get_line_on, get_note_order_on, line_rows, list_lines, decrypt_all,
  update_line_on,
}
use keeplin_srv.Collab.Apply.{
  apply_op, apply_op_of_device, apply_update, update_found, loses_to_line, line_winner, winner,
}
use keeplin_srv.Collab.Apply.Ordering.{IsWellOrdered}
use keeplin_srv.Collab.Sessions.{
  Server, Conn, has_room, broadcast, get_or_create, drop_if_empty, deliver_presence, touch_presence,
  clear_presence, read_snapshot, apply_ops, handle_join, handle_leave, handle_op, announce, turn,
}
use keeplin_srv.Collab.Sessions.Delivery.{received, announce-received}
use keeplin_srv.Collab.Sessions.Safety.{MayChange, turn-MayChange, turn-IsWellOrdered}

abbrev core : KeeplinCore
core = record {
  resolve = λ v t w v' t' w'. incoming;
  max_line_bytes = 8;
  max_lines_per_note = 3;
  max_notes_per_notebook = 2;
  code_line_too_long = "line_too_long";
  code_too_many_lines = "too_many_lines";
  uuid_to_string = λ id. "laptop";
}

abbrev store : Store
store = record {
  readable = λ t. true;
  lines =
      record {
        id = 11;
        note_id = 9;
        content = 104 ∷ [];
        created_at = 5;
        updated_at = 5;
        deleted_at = none;
        vv = ("phone", 2) ∷ [];
        last_writer = "phone";
      }
      ∷ [];
  note_orders =
      record { note_id = 9; order = 11 ∷ []; updated_at = 5; vv = []; last_writer = "phone" } ∷ [];
}

abbrev start : Server
start = record {
  grants = record {
    readable = λ t. true;
    notes =
        record {
          id = 9;
          title = [];
          owner_id = 1;
          notebook_id = none;
          is_todo = false;
          todo_due = none;
          todo_completed = none;
          created_at = 1;
          updated_at = 1;
          deleted_at = none;
        }
        ∷ [];
    note_shares = [];
    notebooks = [];
    notebook_shares = [];
  };
  store = store;
  presences = [];
  events = [];
  heap = λ at. record { seq = 0; subscribers = [] };
  next = 0;
  registry = λ n. none;
  sent = [];
}

abbrev conn : ℕ → Conn
conn id = record {
  conn_id = id;
  user_id = 1;
  device_id = 7;
  display_name = "Ann";
  joined = λ n. none;
}

abbrev edit : LineOp
edit =
    update 11 (105 ∷ [])
      (record { vv = ("laptop", 1) ∷ []; last_writer = "laptop"; updated_at = 9 })

abbrev no_queue_full : ℕ → Bool
no_queue_full c = false

abbrev joined_at : ℕ → ℕ → Server → Server × Conn
joined_at id now v = turn core strict no_queue_full now (join 9) v (conn id)

abbrev with_one : Server × Conn
with_one = joined_at 1 6 start

abbrev with_two : Server × Conn
with_two = joined_at 2 7 with_one.0

abbrev message : CollabClientMsg
message = CollabClientMsg.op 9 (edit ∷ [])

start-IsWellOrdered : IsWellOrdered store
unfolding get_note_order_on line_row find count
start-IsWellOrdered = record { lists = λ n i. ground arith }

turn-MayChange_example :
    MayChange core strict 8 message with_two.0 with_one.1
      (turn core strict no_queue_full 8 message with_two.0 with_one.1).0.store
turn-MayChange_example = turn-MayChange core strict no_queue_full 8 message with_two.0 with_one.1

turn-IsWellOrdered_example :
    IsWellOrdered
      (turn core strict no_queue_full 8 message
        (record start { registry = λ n. some 0 })
        (record (conn 1) { joined = λ n. some 0 })).0.store
turn-IsWellOrdered_example =
    turn-IsWellOrdered core strict no_queue_full 8 message (record start { registry = λ n. some 0 })
      (record (conn 1) { joined = λ n. some 0 }) start-IsWellOrdered (tt, tt)

abbrev both : Server
both = record start { heap = λ at. record { seq = 4; subscribers = 2 ∷ 1 ∷ [] } }

both-once : count 2 (both.heap 0).subscribers ≤ 1
unfolding count
both-once = omega arith

announce-received_example :
    (received 2 (announce core strict no_queue_full 0 9 (conn 1) (edit ∷ []) both)
      ≡ received 2 both
        ++ (if contains (both.heap 0).subscribers 2 && has_room no_queue_full (some 1) 2
            then CollabServerMsg.op ((both.heap 0).seq + 1) 9 1 (edit ∷ []) ∷ []
            else []))
    × (((announce core strict no_queue_full 0 9 (conn 1) (edit ∷ []) both).heap 0).seq
        ≡ (both.heap 0).seq + 1)
    × (contains
          ((announce core strict no_queue_full 0 9 (conn 1) (edit ∷ []) both).heap 0).subscribers
          2
        ≡ (contains (both.heap 0).subscribers 2
            && ((conn 2).conn_id == 1 || not (no_queue_full 2))))
announce-received_example =
    announce-received core strict no_queue_full 0 9 (conn 1) (edit ∷ []) both 2 both-once refl

-- Connection 2 is dropped as slow while 1 edits; 1 leaves, and 3 joins: 2 still edits, and 3 does not hear
-- of it, since 2 holds the session that the registry has dropped.
abbrev two_is_slow : ℕ → Bool
two_is_slow c = c == 2

abbrev edited_slowly : Server × Conn
edited_slowly = turn core strict two_is_slow 8 message with_two.0 with_one.1

abbrev left_alone : Server × Conn
left_alone = turn core strict no_queue_full 9 (leave 9) edited_slowly.0 edited_slowly.1

abbrev with_three : Server × Conn
with_three = joined_at 3 10 left_alone.0

abbrev edit_of_two : LineOp
edit_of_two =
    update 11 (106 ∷ [])
      (record { vv = ("laptop", 2) ∷ []; last_writer = "laptop"; updated_at = 11 })

abbrev unheard : Server × Conn
unheard =
    turn core strict no_queue_full 11 (CollabClientMsg.op 9 (edit_of_two ∷ [])) with_three.0
      with_two.1

heard_before : length (received 3 with_three.0) ≡ 2
unfolding turn handle_join handle_op note_row resolve_note_access_on find handle_leave has
    read_snapshot get_note_order_on get_or_create touch_presence deliver_presence broadcast
    apply_ops apply_op apply_update contains line_row loses_to_line advances_writer get put counter
    merge_vv merge_into raise any filter update_first apply_op_of_device update_found line_winner
    winner announce clear_presence drop_if_empty line_rows update_line_on last_writer get_note_on
    get_line_on list_lines decrypt_all
heard_before = refl

heard_after : length (received 3 unheard.0) ≡ 2
unfolding turn handle_join handle_op note_row resolve_note_access_on find handle_leave has
    read_snapshot get_note_order_on get_or_create touch_presence deliver_presence broadcast
    apply_ops apply_op apply_update contains line_row loses_to_line advances_writer get put counter
    merge_vv merge_into raise any filter update_first apply_op_of_device update_found line_winner
    winner announce clear_presence drop_if_empty line_rows update_line_on last_writer get_note_on
    get_line_on list_lines decrypt_all
heard_after = refl

edited_unheard :
    Option.map (λ (l : Line). l.content) (line_row unheard.0.store 11) ≡ some (106 ∷ [])
unfolding turn handle_join handle_op note_row resolve_note_access_on find handle_leave has
    read_snapshot get_note_order_on get_or_create touch_presence deliver_presence broadcast
    apply_ops apply_op apply_update contains line_row loses_to_line advances_writer get put counter
    merge_vv merge_into raise any filter update_first apply_op_of_device update_found line_winner
    winner announce clear_presence drop_if_empty line_rows update_line_on last_writer get_note_on
    get_line_on list_lines decrypt_all
edited_unheard = refl
