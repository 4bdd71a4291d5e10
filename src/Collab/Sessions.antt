-- ===== src/Collab/Sessions.antt =====
-- crates/keeplin-srv/src/collab.rs: the sessions of notes, in which the connections of one server hear of
-- each other's operations, and the messages of a connection; with the statements of store.rs on presence.
-- An `Arc` of a session is a number that the heap of sessions resolves, so that a connection may hold a
-- session that the registry has dropped. `slow` says which connections' queues are full when a message
-- is sent; a full queue of the sender's own loses the answer, which is left out. Texts for a human
-- reader are left out, and so is the notification of other servers.
pub mod Delivery
pub mod Safety
use keeplin_srv.Base.{
  ℕ, ◌+◌, String, Bool, true, false, not, ◌&&◌, ◌||◌, Option, none, some, List, [], ◌∷◌, ◌++◌, map,
  filter, is_empty, is_none, contains, if◌then◌else◌, ◌==◌, nat_key, Result, ok, err, AppError,
  ok_or, ◌>>=◌, not_found, forbidden,
}
use keeplin_srv.Protocol.{
  Uuid, Time, Text, Cursor, LineSnapshot, NoteLinesSnapshot, PresenceInfo, LineOp, CollabClientMsg,
  CollabServerMsg, join, leave, ack, welcome, presence, error,
}
use keeplin_srv.External.{KeeplinCore}
use keeplin_srv.Permissions.{
  Note, Grants, Access, PermissionScheme, get_note_on, resolve_note_access_on, can_read, can_write,
}
use keeplin_srv.Lines.{Line, NoteOrder, Store, list_lines, get_note_order_on}
use keeplin_srv.Collab.Apply.{OpOutcome, applied, ignored, invalid, apply_op}

pub record CollabSession : Type 0 where
  pub seq : ℕ
  pub subscribers : List ℕ

pub record PresenceRow : Type 0 where
  pub note_id : Uuid
  pub conn_id : ℕ
  pub user_id : Uuid
  pub display_name : String
  pub cursor : Option Cursor

-- The tables, the heap of sessions with its next number, the registry, and what was sent to whom.
pub record Server : Type 0 where
  pub grants : Grants
  pub store : Store
  pub presences : List PresenceRow
  pub events : List (Uuid × Uuid × List LineOp)
  pub heap : ℕ → CollabSession
  pub next : ℕ
  pub registry : Uuid → Option ℕ
  pub sent : List (ℕ × CollabServerMsg)

-- A connection, with the sessions it has joined.
pub record Conn : Type 0 where
  pub conn_id : ℕ
  pub user_id : Uuid
  pub device_id : Uuid
  pub display_name : String
  pub joined : Uuid → Option ℕ

abbrev pub put {ℓ} : {A : Type ℓ} → (ℕ → A) → ℕ → A → ℕ → A
put f k a j = if j == k then a else f j

abbrev pub is_conn : Option ℕ → ℕ → Bool
is_conn none conn = false
is_conn (some c) conn = conn == c

abbrev pub has_room : (ℕ → Bool) → Option ℕ → ℕ → Bool
has_room slow skip conn = not (is_conn skip conn) && not (slow conn)

-- A connection whose queue is full is no subscriber any more.
unfoldable pub broadcast : (ℕ → Bool) → ℕ → CollabServerMsg → Option ℕ → Server → Server
broadcast slow at msg skip v =
    let session : CollabSession = v.heap at in
    record v {
      heap = put v.heap at (record session {
        subscribers = filter (λ c. is_conn skip c || not (slow c)) session.subscribers;
      });
      sent = v.sent ++ map (λ c. (c, msg)) (filter (has_room slow skip) session.subscribers);
    }

abbrev pub send : ℕ → CollabServerMsg → Server → Server
send conn msg v = record v { sent = v.sent ++ (conn, msg) ∷ [] }

abbrev pub change_session : ℕ → (CollabSession → CollabSession) → Server → Server
change_session at f v = record v { heap = put v.heap at (f (v.heap at)) }

abbrev pub subscribe : ℕ → CollabSession → CollabSession
subscribe conn s = record s {
  subscribers = if contains s.subscribers conn then s.subscribers else conn ∷ s.subscribers;
}

abbrev pub unsubscribe : ℕ → CollabSession → CollabSession
unsubscribe conn s = record s { subscribers = filter (λ c. not (c == conn)) s.subscribers }

unfoldable pub get_or_create : Uuid → Server → ℕ × Server
get_or_create note_id v = elim (v.registry note_id) [
  | some at ↦ (at, v)
  | none ↦ (
    v.next,
    record v {
      heap = put v.heap v.next (record { seq = 0; subscribers = [] });
      next = v.next + 1;
      registry = put v.registry note_id (some v.next);
    },
  )
]

unfoldable pub drop_if_empty : Uuid → Server → Server
drop_if_empty note_id v = elim (v.registry note_id) [
  | none ↦ v
  | some at ↦
      if is_empty (v.heap at).subscribers
      then record v { registry = put v.registry note_id none }
      else v
]

abbrev pub merge_cursor : Option Cursor → PresenceInfo → PresenceInfo
merge_cursor cursor info = if is_none info.cursor then record info { cursor = cursor } else info

module _ (core : KeeplinCore) (scheme : PermissionScheme) where
  -- One entry for each user, with the first cursor that there is. The order of the entries is not promised.
  abbrev pub merge_presence : PresenceRow → List (Uuid × PresenceInfo) → List (Uuid × PresenceInfo)
  merge_presence row [] =
      (
        row.user_id,
        record {
          user_id = core.uuid_to_string row.user_id;
          display_name = row.display_name;
          cursor = row.cursor;
        },
      )
      ∷ []
  merge_presence row ((u, info) ∷ rest) =
      if u == row.user_id
      then (u, merge_cursor row.cursor info) ∷ rest
      else (u, info) ∷ merge_presence row rest

  abbrev pub by_user : List PresenceRow → List (Uuid × PresenceInfo) → List (Uuid × PresenceInfo)
  by_user [] users = users
  by_user (row ∷ rows) users = by_user rows (merge_presence row users)

  unfoldable pub deliver_presence : (ℕ → Bool) → Uuid → Server → Server
  deliver_presence slow note_id v = elim (v.registry note_id) [
    | none ↦ v
    | some at ↦
        let rows = filter (λ (r : PresenceRow). r.note_id == note_id) v.presences in
        broadcast slow at
          (presence note_id (map (λ (u : Uuid × PresenceInfo). u.1) (by_user rows []))) none v
  ]

  abbrev pub is_presence_of : Uuid → ℕ → PresenceRow → Bool
  is_presence_of note_id conn_id r = r.note_id == note_id && r.conn_id == conn_id

  -- `ON CONFLICT … DO UPDATE` is to take the row away and put the new one.
  unfoldable pub touch_presence : (ℕ → Bool) → Uuid → Conn → Option Cursor → Server → Server
  touch_presence slow note_id c cursor v = deliver_presence slow note_id (record v {
    presences =
        record {
          note_id = note_id;
          conn_id = c.conn_id;
          user_id = c.user_id;
          display_name = c.display_name;
          cursor = cursor;
        }
        ∷ filter (λ r. not (is_presence_of note_id c.conn_id r)) v.presences;
  })

  unfoldable pub clear_presence : (ℕ → Bool) → Uuid → ℕ → Server → Server
  clear_presence slow note_id conn_id v =
      deliver_presence slow note_id
        (record v { presences = filter (λ r. not (is_presence_of note_id conn_id r)) v.presences })

  abbrev pub line_snapshot : Line → LineSnapshot
  line_snapshot l = record {
    id = l.id;
    content = l.content;
    created_at = l.created_at;
    updated_at = l.updated_at;
    deleted_at = l.deleted_at;
    vv = l.vv;
    last_writer = l.last_writer;
  }

  unfoldable pub read_snapshot : Store → Uuid → Result NoteLinesSnapshot
  read_snapshot s note_id = do
    order ← ok_or (get_note_order_on s note_id) not_found
    rows ← list_lines s note_id
    ok (record {
      note_id = note_id;
      order = order.order;
      updated_at = order.updated_at;
      vv = order.vv;
      last_writer = order.last_writer;
      lines = map line_snapshot rows;
    })

  -- The operations of a message, in their order, with the codes of those refused. An error rolls all back.
  unfoldable pub apply_ops :
      Time
      → Uuid
      → Uuid
      → List LineOp
      → Store
      → List LineOp
      → List String
      → List String × Result (List LineOp × Store)
  apply_ops now note_id device_id [] s done codes = (codes, ok (done, s))
  apply_ops now note_id device_id (o ∷ ops) s done codes =
      elim (apply_op core s now note_id device_id o) [
        | err e ↦ (codes, err e)
        | ok (outcome, s') ↦ elim outcome [
          | applied o' ↦ apply_ops now note_id device_id ops s' (done ++ o' ∷ []) codes
          | ignored ↦ apply_ops now note_id device_id ops s' done codes
          | invalid code ↦ apply_ops now note_id device_id ops s' done (codes ++ code ∷ [])
        ]
      ]

  abbrev pub is_forbidden : AppError → Bool
  is_forbidden forbidden = true
  is_forbidden e = false

  abbrev pub join_with :
      (ℕ → Bool)
      → Uuid
      → Conn
      → ℕ
      → Server
      → Result NoteLinesSnapshot
      → Server × Conn × Result (Unit {0})
  join_with slow note_id c at v (err e) = (v, c, err e)
  join_with slow note_id c at v (ok snapshot) = (
    touch_presence slow note_id c none
        (send c.conn_id (welcome note_id snapshot) (change_session at (subscribe c.conn_id) v)),
    record c { joined = put c.joined note_id (some at) },
    ok tt,
  )

  unfoldable pub handle_join : (ℕ → Bool) → Uuid → Server → Conn → Server × Conn × Result (Unit {0})
  handle_join slow note_id v c = elim (get_note_on v.grants note_id) [
    | err e ↦ (v, c, err e)
    | ok row ↦ elim row [
      | none ↦ (send c.conn_id (error "not_found" none) v, c, ok tt)
      | some note ↦ elim (resolve_note_access_on v.grants scheme note c.user_id) [
        | err e ↦
            if is_forbidden e
            then (send c.conn_id (error "forbidden" none) v, c, ok tt)
            else (v, c, err e)
        | ok access ↦
            if can_read access
            then (let made : ℕ × Server = get_or_create note_id v in
                join_with slow note_id c made.0 made.1 (read_snapshot made.1.store note_id))
            else (send c.conn_id (error "forbidden" none) v, c, ok tt)
      ]
    ]
  ]

  unfoldable pub handle_leave :
      (ℕ → Bool) → Uuid → Server → Conn → Server × Conn × Result (Unit {0})
  handle_leave slow note_id v c = elim (c.joined note_id) [
    | none ↦ (v, c, ok tt)
    | some at ↦ (
      drop_if_empty note_id
          (clear_presence slow note_id c.conn_id (change_session at (unsubscribe c.conn_id) v)),
      record c { joined = put c.joined note_id none },
      ok tt,
    )
  ]

  abbrev pub send_codes : ℕ → Uuid → List String → Server → Server
  send_codes conn note_id [] v = v
  send_codes conn note_id (code ∷ codes) v =
      send_codes conn note_id codes (send conn (error code (some note_id)) v)

  -- What was applied goes to the other subscribers of the session, under the next number, and to the outbox.
  unfoldable pub announce : (ℕ → Bool) → ℕ → Uuid → Conn → List LineOp → Server → Server
  announce slow at note_id c done v =
      if is_empty done
      then v
      else let seq : ℕ = (v.heap at).seq + 1 in
        let v' : Server = change_session at (λ (s : CollabSession). record s { seq = seq }) v in
        let v'' : Server =
          broadcast slow at (CollabServerMsg.op seq note_id c.user_id done) (some c.conn_id) v' in
        record v'' { events = v''.events ++ (note_id, c.user_id, done) ∷ [] }

  abbrev pub after_ops :
      (ℕ → Bool)
      → ℕ
      → Uuid
      → Server
      → Conn
      → List String × Result (List LineOp × Store)
      → Server × Conn × Result (Unit {0})
  after_ops slow at note_id v c (codes, err e) = (send_codes c.conn_id note_id codes v, c, err e)
  after_ops slow at note_id v c (codes, ok (done, s)) = (
    announce slow at note_id c done (record (send_codes c.conn_id note_id codes v) { store = s }),
    c,
    ok tt,
  )

  unfoldable pub handle_op :
      (ℕ → Bool) → Time → Uuid → List LineOp → Server → Conn → Server × Conn × Result (Unit {0})
  handle_op slow now note_id ops v c = elim (c.joined note_id) [
    | none ↦ (send c.conn_id (error "not_joined" none) v, c, ok tt)
    | some at ↦ elim (get_note_on v.grants note_id) [
      | err e ↦ (v, c, err e)
      | ok row ↦ elim row [
        | none ↦ (send c.conn_id (error "not_found" none) v, c, ok tt)
        | some note ↦ elim (resolve_note_access_on v.grants scheme note c.user_id) [
          | err e ↦
              if is_forbidden e
              then (send c.conn_id (error "forbidden" none) v, c, ok tt)
              else (v, c, err e)
          | ok access ↦
              if can_write access
              then after_ops slow at note_id v c
                  (apply_ops now note_id c.device_id ops v.store [] [])
              else (send c.conn_id (error "forbidden" none) v, c, ok tt)
        ]
      ]
    ]
  ]

  abbrev pub handle_msg :
      (ℕ → Bool) → Time → CollabClientMsg → Server → Conn → Server × Conn × Result (Unit {0})
  handle_msg slow now (join note_id) v c = handle_join slow note_id v c
  handle_msg slow now (leave note_id) v c = handle_leave slow note_id v c
  handle_msg slow now (CollabClientMsg.op note_id ops) v c = handle_op slow now note_id ops v c
  handle_msg slow now (CollabClientMsg.cursor note_id position) v c = elim (c.joined note_id) [
    | none ↦ (v, c, ok tt)
    | some at ↦ (touch_presence slow note_id c (some position) v, c, ok tt)
  ]
  handle_msg slow now (ack server_seq) v c = (v, c, ok tt)

  -- A turn of the loop of `run_connection`.
  abbrev pub caught : Server × Conn × Result (Unit {0}) → Server × Conn
  caught (v, c, ok u) = (v, c)
  caught (v, c, err e) = (send c.conn_id (error "internal" none) v, c)

  unfoldable pub turn : (ℕ → Bool) → Time → CollabClientMsg → Server → Conn → Server × Conn
  turn slow now msg v c = caught (handle_msg slow now msg v c)

  -- An event of another server, to those who have joined the note here.
  unfoldable pub deliver_event : (ℕ → Bool) → Uuid → Uuid → List LineOp → Server → Server
  deliver_event slow note_id user_id ops v = elim (v.registry note_id) [
    | none ↦ v
    | some at ↦
        let seq : ℕ = (v.heap at).seq + 1 in
        broadcast slow at (CollabServerMsg.op seq note_id user_id ops) none
          (change_session at (λ (s : CollabSession). record s { seq = seq }) v)
  ]

  -- The end of `run_connection`, for the notes that the connection has joined.
  unfoldable pub disconnect : (ℕ → Bool) → List Uuid → Server → Conn → Server
  disconnect slow [] v c = v
  disconnect slow (note_id ∷ notes) v c = disconnect slow notes (handle_leave slow note_id v c).0 c
