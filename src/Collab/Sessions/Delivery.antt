-- ===== src/Collab/Sessions/Delivery.antt =====
-- crates/keeplin-srv/src/collab.rs: who hears of the operations that are applied.
use keeplin_srv.Base.{
  ℕ, ◌+◌, ◌≤◌, ◌≡◌, refl, ap, ◌∙◌, Bool, false, not, ◌&&◌, ◌||◌, Option, some, List, [], ◌∷◌, ◌++◌,
  map, filter, contains, count, is_empty, if◌then◌else◌, ◌==◌, nat_key, eq_refl, arith, Bool-cases,
  inl, inr, contains-true, nat_beq_iff,
}
use keeplin_srv.Protocol.{Uuid, LineOp, CollabServerMsg}
use keeplin_srv.External.{KeeplinCore}
use keeplin_srv.Permissions.{PermissionScheme}
use keeplin_srv.Collab.Sessions.{
  CollabSession, Server, Conn, is_conn, has_room, broadcast, change_session, announce,
}

-- What was sent to a connection, in its order.
abbrev pub to_conn : ℕ → List (ℕ × CollabServerMsg) → List CollabServerMsg
to_conn d [] = []
to_conn d ((c, msg) ∷ sent) = let rest = to_conn d sent in if c == d then msg ∷ rest else rest

abbrev pub received : ℕ → Server → List CollabServerMsg
received d v = to_conn d v.sent

to_conn-append :
    (d : ℕ) (xs ys : List (ℕ × CollabServerMsg))
    → to_conn d (xs ++ ys) ≡ to_conn d xs ++ to_conn d ys
to_conn-append d [] ys = refl
to_conn-append d ((c, msg) ∷ xs) ys = ground (arith, to_conn-append d xs ys)

-- The message goes to a connection once if it is among the recipients, which name nobody twice.
to_conn-map :
    (d : ℕ) (msg : CollabServerMsg) (p : ℕ → Bool) (subscribers : List ℕ)
    → count d subscribers ≤ 1
    → to_conn d (map (λ c. (c, msg)) (filter p subscribers))
      ≡ (if contains subscribers d && p d then msg ∷ [] else [])
unfolding filter contains count
to_conn-map d msg p [] h = refl
to_conn-map d msg p (c ∷ cs) h =
    ground (arith, to_conn-map d msg p cs, nat_beq_iff c d, contains-true d cs)

contains-filter :
    (d : ℕ) (p : ℕ → Bool) (xs : List ℕ) → contains (filter p xs) d ≡ (contains xs d && p d)
unfolding filter contains
contains-filter d p [] = refl
contains-filter d p (x ∷ xs) = elim (Bool-cases (x == d)) [
  | inl same ↦ rw ((nat_beq_iff x d).0 same) (ground (arith, contains-filter d p xs))
  | inr other ↦ ground (arith, other, contains-filter d p xs)
]

module _ (core : KeeplinCore) (scheme : PermissionScheme) where
  broadcast-received :
      (slow : ℕ → Bool) (at : ℕ) (msg : CollabServerMsg) (skip : Option ℕ) (v : Server) (d : ℕ)
      → count d (v.heap at).subscribers ≤ 1
      → received d (broadcast slow at msg skip v)
        ≡ received d v
          ++ (if contains (v.heap at).subscribers d && has_room slow skip d then msg ∷ [] else [])
  unfolding broadcast
  broadcast-received slow at msg skip v d h =
      to_conn-append d v.sent _
      ∙ ap (λ (rest : List CollabServerMsg). received d v ++ rest)
          (to_conn-map d msg (has_room slow skip) (v.heap at).subscribers h)

  broadcast-seq :
      (slow : ℕ → Bool) (at : ℕ) (msg : CollabServerMsg) (skip : Option ℕ) (v : Server)
      → ((broadcast slow at msg skip v).heap at).seq ≡ (v.heap at).seq
  unfolding broadcast
  broadcast-seq slow at msg skip v = rw (eq_refl at) refl

  broadcast-subscribers :
      (slow : ℕ → Bool) (at : ℕ) (msg : CollabServerMsg) (skip : Option ℕ) (v : Server) (d : ℕ)
      → contains ((broadcast slow at msg skip v).heap at).subscribers d
        ≡ (contains (v.heap at).subscribers d && (is_conn skip d || not (slow d)))
  unfolding broadcast
  broadcast-subscribers slow at msg skip v d =
      rw (eq_refl at)
        (contains-filter d (λ c. is_conn skip c || not (slow c)) (v.heap at).subscribers)

  -- Operations that are applied are heard of once, under the session's next number, by every other
  -- connection that subscribes to the session, unless its queue is full; nobody else hears of them. Such
  -- a connection is a subscriber no longer, and the others stay.
  pub announce-received :
      (slow : ℕ → Bool) (at : ℕ) (n : Uuid) (c : Conn) (done : List LineOp) (v : Server) (d : ℕ)
      → count d (v.heap at).subscribers ≤ 1
      → is_empty done ≡ false
      → (received d (announce core scheme slow at n c done v)
          ≡ received d v
            ++ (if contains (v.heap at).subscribers d && has_room slow (some c.conn_id) d
                then CollabServerMsg.op ((v.heap at).seq + 1) n c.user_id done ∷ []
                else []))
        × (((announce core scheme slow at n c done v).heap at).seq ≡ (v.heap at).seq + 1)
        × (contains ((announce core scheme slow at n c done v).heap at).subscribers d
            ≡ (contains (v.heap at).subscribers d && (d == c.conn_id || not (slow d))))
  unfolding announce
  announce-received slow at n c done v d h some_done =
      let v' : Server =
        change_session at (λ (s : CollabSession). record s { seq = (v.heap at).seq + 1 }) v in
      let same : v'.heap at ≡ record (v.heap at) { seq = (v.heap at).seq + 1 } =
        rw (eq_refl at) refl in
      let msg : CollabServerMsg = CollabServerMsg.op ((v.heap at).seq + 1) n c.user_id done in
      let one : count d (v'.heap at).subscribers ≤ 1 = rw same h in
      (
        rw some_done (broadcast-received slow at msg (some c.conn_id) v' d one ∙ rw same refl),
        rw some_done (
            broadcast-seq slow at msg (some c.conn_id) v' ∙ ap (λ (s : CollabSession). s.seq) same),
        rw some_done (broadcast-subscribers slow at msg (some c.conn_id) v' d ∙ rw same refl),
      )
