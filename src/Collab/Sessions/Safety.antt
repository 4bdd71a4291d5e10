-- ===== src/Collab/Sessions/Safety.antt =====
-- crates/keeplin-srv/src/collab.rs: what a message may do to the lines of notes.
use keeplin_srv.Base.{
  ℕ, ◌≡◌, refl, sym, ◌∙◌, ap, String, Bool, true, Option, none, some, List, [], ◌∷◌, ◌++◌, Result,
  ok, err, AppError, arith, ◌⊎◌, inl, inr, Bool-cases, Option-cases,
}
use keeplin_srv.Protocol.{
  Uuid, Time, LineOp, CollabClientMsg, join, leave, ack, error, Cursor, NoteLinesSnapshot,
}
use keeplin_srv.External.{KeeplinCore}
use keeplin_srv.Tables.Rows.{get_note_on-cases}
use keeplin_srv.Permissions.{
  Note, Access, PermissionScheme, get_note_on, note_row, resolve_note_access_on, can_write,
}
use keeplin_srv.Lines.{Store}
use keeplin_srv.Transactions.Atomicity.{Result-cases}
use keeplin_srv.Collab.Apply.{OpOutcome, applied, ignored, invalid, apply_op}
use keeplin_srv.Collab.Apply.Ordering.{IsWellOrdered, DistinctMove, apply_op-IsWellOrdered}
use keeplin_srv.Collab.Apply.Outcomes.{apply_op-unapplied}
use keeplin_srv.Collab.Sessions.{
  Server, Conn, broadcast, send, get_or_create, drop_if_empty, deliver_presence, touch_presence,
  clear_presence, read_snapshot, apply_ops, join_with, handle_join, handle_leave, send_codes,
  announce, after_ops, handle_op, handle_msg, caught, turn,
}

abbrev pub DistinctMoves : List LineOp → Type 0
DistinctMoves [] = Unit {0}
DistinctMoves (o ∷ ops) = DistinctMove o × DistinctMoves ops

abbrev pub HasDistinctMoves : CollabClientMsg → Type 0
HasDistinctMoves (join n) = Unit {0}
HasDistinctMoves (leave n) = Unit {0}
HasDistinctMoves (CollabClientMsg.op n ops) = DistinctMoves ops
HasDistinctMoves (CollabClientMsg.cursor n position) = Unit {0}
HasDistinctMoves (ack seq) = Unit {0}

module _ (core : KeeplinCore) (scheme : PermissionScheme) where
  apply_op-keeps :
      (now : Time) (n dev : Uuid) (o : LineOp) (s t : Store) (out : OpOutcome)
      → IsWellOrdered s
      → DistinctMove o
      → apply_op core s now n dev o ≡ ok (out, t)
      → IsWellOrdered t
  apply_op-keeps now n dev o s t out w d h = elim (apply_op-unapplied core s now n dev o out t h) [
    | inl same ↦ rw same w
    | inr done ↦ apply_op-IsWellOrdered core s now n dev o o t w d (rw done at h)
  ]

  -- What is left of a message after its first operation.
  abbrev rest_of :
      Time
      → Uuid
      → Uuid
      → List LineOp
      → List LineOp
      → List String
      → OpOutcome
      → Store
      → List String × Result (List LineOp × Store)
  rest_of now n dev ops done codes (applied o') s =
      apply_ops core scheme now n dev ops s (done ++ o' ∷ []) codes
  rest_of now n dev ops done codes ignored s = apply_ops core scheme now n dev ops s done codes
  rest_of now n dev ops done codes (invalid code) s =
      apply_ops core scheme now n dev ops s done (codes ++ code ∷ [])

  apply_ops-next :
      (now : Time) (n dev : Uuid) (o : LineOp) (ops : List LineOp) (s s' : Store)
      (done : List LineOp) (codes : List String) (out : OpOutcome)
      → apply_op core s now n dev o ≡ ok (out, s')
      → apply_ops core scheme now n dev (o ∷ ops) s done codes
        ≡ rest_of now n dev ops done codes out s'
  unfolding apply_ops
  apply_ops-next now n dev o ops s s' done codes (applied o') e = ground (arith, e)
  apply_ops-next now n dev o ops s s' done codes ignored e = ground (arith, e)
  apply_ops-next now n dev o ops s s' done codes (invalid code) e = ground (arith, e)

  apply_ops-failed :
      (now : Time) (n dev : Uuid) (o : LineOp) (ops : List LineOp) (s : Store) (done : List LineOp)
      (codes : List String) (x : AppError)
      → apply_op core s now n dev o ≡ err x
      → apply_ops core scheme now n dev (o ∷ ops) s done codes ≡ (codes, err x)
  unfolding apply_ops
  apply_ops-failed now n dev o ops s done codes x e = ground (arith, e)

  apply_ops-IsWellOrdered :
      (now : Time) (n dev : Uuid) (ops : List LineOp) (s t : Store) (done out : List LineOp)
      (codes codes' : List String)
      → IsWellOrdered s
      → DistinctMoves ops
      → apply_ops core scheme now n dev ops s done codes ≡ (codes', ok (out, t))
      → IsWellOrdered t
  apply_ops-IsWellOrdered now n dev [] s t done out codes codes' w d h =
      let same : s ≡ t = unfold apply_ops in ground (arith, h) in rw (sym same) w
  apply_ops-IsWellOrdered now n dev (o ∷ ops) s t done out codes codes' w d h =
      elim (Result-cases (apply_op core s now n dev o)) [
        | inr (x, e) ↦
            let failed : (codes, err x) ≡ (codes', ok (out, t)) =
              sym (apply_ops-failed now n dev o ops s done codes x e) ∙ h in
            absurd (ground (arith, failed))
        | inl ((applied o', s'), e) ↦
            apply_ops-IsWellOrdered now n dev ops s' t (done ++ o' ∷ []) out codes codes'
              (apply_op-keeps now n dev o s s' (applied o') w d.0 e) d.1
              (sym (apply_ops-next now n dev o ops s s' done codes (applied o') e) ∙ h)
        | inl ((ignored, s'), e) ↦
            apply_ops-IsWellOrdered now n dev ops s' t done out codes codes'
              (apply_op-keeps now n dev o s s' ignored w d.0 e) d.1
              (sym (apply_ops-next now n dev o ops s s' done codes ignored e) ∙ h)
        | inl ((invalid code, s'), e) ↦
            apply_ops-IsWellOrdered now n dev ops s' t done out (codes ++ code ∷ []) codes'
              (apply_op-keeps now n dev o s s' (invalid code) w d.0 e) d.1
              (sym (apply_ops-next now n dev o ops s s' done codes (invalid code) e) ∙ h)
      ]

  store-deliver_presence :
      (slow : ℕ → Bool) (n : Uuid) (v : Server)
      → (deliver_presence core scheme slow n v).store ≡ v.store
  unfolding deliver_presence broadcast
  store-deliver_presence slow n v = ground arith

  store-drop : (n : Uuid) (v : Server) → (drop_if_empty n v).store ≡ v.store
  unfolding drop_if_empty
  store-drop n v = ground arith

  store-get_or_create : (n : Uuid) (v : Server) → (get_or_create n v).1.store ≡ v.store
  unfolding get_or_create
  store-get_or_create n v = ground arith

  store-send_codes :
      (conn : ℕ) (n : Uuid) (codes : List String) (v : Server)
      → (send_codes core scheme conn n codes v).store ≡ v.store
  store-send_codes conn n [] v = refl
  store-send_codes conn n (code ∷ codes) v =
      store-send_codes conn n codes (send conn (error code (some n)) v)

  store-announce :
      (slow : ℕ → Bool) (at : ℕ) (n : Uuid) (c : Conn) (done : List LineOp) (v : Server)
      → (announce core scheme slow at n c done v).store ≡ v.store
  unfolding announce broadcast
  store-announce slow at n c done v = ground arith

  store-touch :
      (slow : ℕ → Bool) (n : Uuid) (c : Conn) (position : Option Cursor) (v : Server)
      → (touch_presence core scheme slow n c position v).store ≡ v.store
  unfolding touch_presence
  store-touch slow n c position v = store-deliver_presence slow n _

  store-clear :
      (slow : ℕ → Bool) (n : Uuid) (conn : ℕ) (v : Server)
      → (clear_presence core scheme slow n conn v).store ≡ v.store
  unfolding clear_presence
  store-clear slow n conn v = store-deliver_presence slow n _

  -- What a batch of operations may have done: the connection has joined the note, which is there, with an
  -- access that writes as the grants stand, and the store is what the operations make of it.
  pub record Written (now : Time) (n : Uuid) (ops : List LineOp) (v : Server) (c : Conn) (t : Store)
      : Type 0 where
    pub at : ℕ
    pub holds_session : c.joined n ≡ some at
    pub note : Note
    pub found : note_row v.grants n ≡ some note
    pub access : Access
    pub resolved : resolve_note_access_on v.grants scheme note c.user_id ≡ ok access
    pub writes : can_write access ≡ true
    pub done : List LineOp
    pub codes : List String
    pub ran : apply_ops core scheme now n c.device_id ops v.store [] [] ≡ (codes, ok (done, t))

  -- The lines may be changed by a message of operations only.
  abbrev pub MayChange : Time → CollabClientMsg → Server → Conn → Store → Type 0
  MayChange now (CollabClientMsg.op n ops) v c t = (t ≡ v.store) ⊎ Written now n ops v c t
  MayChange now (join n) v c t = t ≡ v.store
  MayChange now (leave n) v c t = t ≡ v.store
  MayChange now (CollabClientMsg.cursor n position) v c t = t ≡ v.store
  MayChange now (ack seq) v c t = t ≡ v.store

  store-caught :
      (r : Server × Conn × Result (Unit {0})) → (caught core scheme r).0.store ≡ r.0.store
  store-caught (v, c, ok u) = refl
  store-caught (v, c, err e) = refl

  store-join_with :
      (slow : ℕ → Bool) (n : Uuid) (c : Conn) (at : ℕ) (v : Server) (r : Result NoteLinesSnapshot)
      → (join_with core scheme slow n c at v r).0.store ≡ v.store
  store-join_with slow n c at v (err e) = refl
  store-join_with slow n c at v (ok snapshot) = store-touch slow n c none _

  store-handle_join :
      (slow : ℕ → Bool) (n : Uuid) (v : Server) (c : Conn)
      → (handle_join core scheme slow n v c).0.store ≡ v.store
  unfolding handle_join
  store-handle_join slow n v c =
      let joined =
        store-join_with slow n c (get_or_create n v).0 (get_or_create n v).1
          (read_snapshot core scheme (get_or_create n v).1.store n) in
      ground (arith, joined, store-get_or_create n v)

  store-handle_leave :
      (slow : ℕ → Bool) (n : Uuid) (v : Server) (c : Conn)
      → (handle_leave core scheme slow n v c).0.store ≡ v.store
  unfolding handle_leave
  store-handle_leave slow n v c = elim (Option-cases (c.joined n)) [
    | inl e ↦ rw (handle_leave, e) refl
    | inr (at, e) ↦ rw (handle_leave, e) (store-drop n _ ∙ store-clear slow n c.conn_id _)
  ]

  store-cursor :
      (slow : ℕ → Bool) (now : Time) (n : Uuid) (position : Cursor) (v : Server) (c : Conn)
      → (handle_msg core scheme slow now (CollabClientMsg.cursor n position) v c).0.store ≡ v.store
  store-cursor slow now n position v c = elim (Option-cases (c.joined n)) [
    | inl e ↦ rw (handle_msg, e) refl
    | inr (at, e) ↦ rw (handle_msg, e) (store-touch slow n c (some position) v)
  ]

  after_ops-Written :
      (slow : ℕ → Bool) (now : Time) (at : ℕ) (n : Uuid) (ops : List LineOp) (v : Server) (c : Conn)
      (r : List String × Result (List LineOp × Store))
      → apply_ops core scheme now n c.device_id ops v.store [] [] ≡ r
      → ((t : Store) (done : List LineOp) (codes : List String)
          → apply_ops core scheme now n c.device_id ops v.store [] [] ≡ (codes, ok (done, t))
          → Written now n ops v c t)
      → ((after_ops core scheme slow at n v c r).0.store ≡ v.store)
        ⊎ Written now n ops v c (after_ops core scheme slow at n v c r).0.store
  after_ops-Written slow now at n ops v c (codes, err x) e written =
      inl (store-send_codes c.conn_id n codes v)
  after_ops-Written slow now at n ops v c (codes, ok (done, s)) e written = inr (
      rw
        (store-announce slow at n c done
          (record (send_codes core scheme c.conn_id n codes v) { store = s }))
        (written s done codes e))

  handle_op-applies :
      (slow : ℕ → Bool) (now : Time) (n : Uuid) (ops : List LineOp) (v : Server) (c : Conn) (at : ℕ)
      (note : Note) (access : Access)
      → c.joined n ≡ some at
      → get_note_on v.grants n ≡ ok (some note)
      → resolve_note_access_on v.grants scheme note c.user_id ≡ ok access
      → can_write access ≡ true
      → handle_op core scheme slow now n ops v c
        ≡ after_ops core scheme slow at n v c
            (apply_ops core scheme now n c.device_id ops v.store [] [])
  unfolding handle_op
  handle_op-applies slow now n ops v c at note access j f a w =
      rw (handle_op, j) (rw (handle_op, f) (rw (handle_op, a) (rw w refl)))

  handle_op-Written :
      (slow : ℕ → Bool) (now : Time) (n : Uuid) (ops : List LineOp) (v : Server) (c : Conn)
      → ((handle_op core scheme slow now n ops v c).0.store ≡ v.store)
        ⊎ Written now n ops v c (handle_op core scheme slow now n ops v c).0.store
  handle_op-Written slow now n ops v c = elim (Option-cases (c.joined n)) [
    | inl j ↦ inl (unfold handle_op in ground (arith, j))
    | inr (at, j) ↦ elim (get_note_on-cases v.grants n) [
      | inr f ↦ inl (unfold handle_op in ground (arith, j, f))
      | inl r ↦ elim (Option-cases (note_row v.grants n)) [
        | inl f ↦ inl (unfold handle_op in ground (arith, j, r ∙ ap ok f))
        | inr (note, f) ↦
            let found : get_note_on v.grants n ≡ ok (some note) = r ∙ ap ok f in
            elim (Result-cases (resolve_note_access_on v.grants scheme note c.user_id)) [
              | inr (x, a) ↦ inl (unfold handle_op in ground (arith, j, found, a))
              | inl (access, a) ↦ elim (Bool-cases (can_write access)) [
                | inr w ↦ inl (unfold handle_op in ground (arith, j, found, a, w))
                | inl w ↦ rw (handle_op-applies slow now n ops v c at note access j found a w) (
                    after_ops-Written slow now at n ops v c _ refl (λ t done codes r. record {
                      at = at;
                      holds_session = j;
                      note = note;
                      found = f;
                      access = access;
                      resolved = a;
                      writes = w;
                      done = done;
                      codes = codes;
                      ran = r;
                    }))
              ]
            ]
      ]
    ]
  ]

  -- Whatever message comes, the lines are those before, or they are what the message's operations make of
  -- them, for a connection that has joined the note and whose user may write to it as the grants stand.
  pub turn-MayChange :
      (slow : ℕ → Bool) (now : Time) (msg : CollabClientMsg) (v : Server) (c : Conn)
      → MayChange now msg v c (turn core scheme slow now msg v c).0.store
  unfolding turn
  turn-MayChange slow now (join n) v c =
      store-caught (handle_join core scheme slow n v c) ∙ store-handle_join slow n v c
  turn-MayChange slow now (leave n) v c =
      store-caught (handle_leave core scheme slow n v c) ∙ store-handle_leave slow n v c
  turn-MayChange slow now (CollabClientMsg.op n ops) v c =
      rw (store-caught (handle_op core scheme slow now n ops v c))
        (handle_op-Written slow now n ops v c)
  turn-MayChange slow now (CollabClientMsg.cursor n position) v c =
      store-caught (handle_msg core scheme slow now (CollabClientMsg.cursor n position) v c)
      ∙ store-cursor slow now n position v c
  turn-MayChange slow now (ack seq) v c = refl

  -- Whatever message comes, each order goes on to list each line of its note once and nothing else, if no
  -- move of the message names a line twice.
  pub turn-IsWellOrdered :
      (slow : ℕ → Bool) (now : Time) (msg : CollabClientMsg) (v : Server) (c : Conn)
      → IsWellOrdered v.store
      → HasDistinctMoves msg
      → IsWellOrdered (turn core scheme slow now msg v c).0.store
  turn-IsWellOrdered slow now (join n) v c w d = rw (turn-MayChange slow now (join n) v c) w
  turn-IsWellOrdered slow now (leave n) v c w d = rw (turn-MayChange slow now (leave n) v c) w
  turn-IsWellOrdered slow now (CollabClientMsg.cursor n position) v c w d =
      rw (turn-MayChange slow now (CollabClientMsg.cursor n position) v c) w
  turn-IsWellOrdered slow now (ack seq) v c w d = rw (turn-MayChange slow now (ack seq) v c) w
  turn-IsWellOrdered slow now (CollabClientMsg.op n ops) v c w d =
      elim (turn-MayChange slow now (CollabClientMsg.op n ops) v c) [
        | inl same ↦ rw same w
        | inr done ↦
            apply_ops-IsWellOrdered now n c.device_id ops v.store _ [] done.done [] done.codes w d
              done.ran
      ]
