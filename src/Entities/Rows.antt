-- ===== src/Entities/Rows.antt =====
-- crates/keeplin-srv/src/store.rs: what a projected upsert or deletion does to each row.
use keeplin_srv.Base.{
  ◌≡◌, refl, true, ◌&&◌, Option, none, some, List, [], ◌∷◌, find, update_first, if◌then◌else◌, ◌==◌,
  nat_key, arith, Option-cases, Bool-cases, inl, inr, nat_beq_iff,
}
use mathlib.Core.Option
use keeplin_srv.Protocol.{Uuid, Time, Stamp}
use keeplin_srv.External.{KeeplinCore}
use keeplin_srv.Entities.{
  Entity, Model, incoming_wins, with_id, is_owned, new_entity, replaced, write, may_write, upsert,
  buried, tombstone, bury, delete_entity,
}

module _ (core : KeeplinCore) {B : Type 0} where
  -- No id stands twice: the primary key.
  abbrev pub UniqueIds : List (Entity B) → Type 0
  UniqueIds [] = Unit {0}
  UniqueIds (r ∷ rows) = (with_id core r.id rows ≡ none) × UniqueIds rows

  -- The row of an id, after an upsert by a user: new, replaced if it is theirs and older, or as it was.
  abbrev pub upserted : Uuid → Model B → Option (Entity B) → Option (Entity B)
  upserted user m none = some (new_entity core user m)
  upserted user m (some r) =
      if r.user_id == user && incoming_wins core r.stamp m.stamp
      then some (replaced core m r)
      else some r

  abbrev pub deleted : B → Uuid → Uuid → Time → Stamp → Option (Entity B) → Option (Entity B)
  deleted blank user id at stamp none = some (tombstone core blank user id at stamp)
  deleted blank user id at stamp (some r) =
      if r.user_id == user && incoming_wins core r.stamp (record stamp { updated_at = at })
      then some (buried core at stamp r)
      else some r

  abbrev if_owned : Uuid → Option (Entity B) → Option (Entity B)
  if_owned user none = none
  if_owned user (some r) = if r.user_id == user then some r else none

  owned-none :
      (id user : Uuid) (rows : List (Entity B))
      → with_id core id rows ≡ none
      → find (is_owned core id user) rows ≡ none
  unfolding find
  owned-none id user [] h = refl
  owned-none id user (r ∷ rows) h = ground (arith, owned-none id user rows)

  owned-with_id :
      (id user : Uuid) (rows : List (Entity B))
      → UniqueIds rows
      → find (is_owned core id user) rows ≡ if_owned user (with_id core id rows)
  unfolding find
  owned-with_id id user [] u = refl
  owned-with_id id user (r ∷ rows) u =
      ground
        (arith, owned-with_id id user rows u.1, owned-none id user rows, nat_beq_iff r.id id, u.0)

  with_id-update :
      (f : Entity B → Entity B)
      → ((r : Entity B) → (f r).id ≡ r.id)
      → (id user k : Uuid) (rows : List (Entity B)) → UniqueIds rows
      → with_id core k (update_first (is_owned core id user) f rows) ≡ (
          if id == k
          then Option.map
              (λ (r : Entity B). if r.user_id == user then f r else r)
              (with_id core k rows)
          else with_id core k rows)
  unfolding find update_first
  with_id-update f keep id user k [] u = ground arith
  with_id-update f keep id user k (r ∷ rows) u = ground (
    arith,
    keep r,
    with_id-update f keep id user k rows u.1,
    nat_beq_iff r.id id,
    nat_beq_iff r.id k,
    nat_beq_iff id k,
    u.0,
  )

  head-with_id :
      (r : Entity B) (k : Uuid) (rows : List (Entity B))
      → with_id core k (r ∷ rows) ≡ (if r.id == k then some r else with_id core k rows)
  unfolding find
  head-with_id r k rows = refl

  may_write-cases :
      (rows : List (Entity B)) (user id : Uuid) (stamp : Stamp) (o : Option (Entity B))
      → find (is_owned core id user) rows ≡ o
      → may_write core rows user id stamp
        ≡ elim o [ none ↦ true | some r ↦ incoming_wins core r.stamp stamp ]
  unfolding may_write
  may_write-cases rows user id stamp o e = rw (may_write, e) refl

  write-cases :
      (rows : List (Entity B)) (user : Uuid) (m : Model B) (o : Option (Entity B))
      → with_id core m.id rows ≡ o
      → write core rows user m ≡ elim o [
        | none ↦ new_entity core user m ∷ rows
        | some r ↦ update_first (is_owned core m.id user) (replaced core m) rows
      ]
  unfolding write
  write-cases rows user m o e = rw (write, e) refl

  bury-cases :
      (blank : B) (rows : List (Entity B)) (user id : Uuid) (at : Time) (stamp : Stamp)
      (o p : Option (Entity B))
      → find (is_owned core id user) rows ≡ o
      → with_id core id rows ≡ p
      → bury core blank rows user id at stamp ≡ elim o [
        | some r ↦ update_first (is_owned core id user) (buried core at stamp) rows
        | none ↦ elim p [ none ↦ tombstone core blank user id at stamp ∷ rows | some r ↦ rows ]
      ]
  unfolding bury
  bury-cases blank rows user id at stamp o p e f =
      rw (bury, e)
        (elim o
          as (λ o.
            (elim o [
              | some r ↦ update_first (is_owned core id user) (buried core at stamp) rows
              | none ↦ elim (with_id core id rows) [
                | none ↦ tombstone core blank user id at stamp ∷ rows
                | some r ↦ rows
              ]
            ])
            ≡ (elim o [
              | some r ↦ update_first (is_owned core id user) (buried core at stamp) rows
              | none ↦ elim p [
                | none ↦ tombstone core blank user id at stamp ∷ rows
                | some r ↦ rows
              ]
            ])) [ some r ↦ refl | none ↦ rw f refl ])

  -- In a table with unique ids, an upsert by a user changes the row of its id at most: the row is new if
  -- there was none, replaced if it is the user's and loses to what comes in, and else as it was, so that
  -- another user's row never changes.
  pub upsert-with_id :
      (rows : List (Entity B)) (user : Uuid) (m : Model B) (k : Uuid)
      → UniqueIds rows
      → with_id core k (upsert core rows user m).1
        ≡ (if m.id == k then upserted user m (with_id core k rows) else with_id core k rows)
  unfolding upsert
  upsert-with_id rows user m k u = elim (Option-cases (with_id core m.id rows)) [
    | inl e ↦
        let o : find (is_owned core m.id user) rows ≡ none = owned-none m.id user rows e in
        rw
          (
            may_write-cases rows user m.id m.stamp none o,
            write-cases rows user m none e,
            head-with_id (new_entity core user m) k rows,
          )
          (ground (arith, nat_beq_iff m.id k, e))
    | inr (r, e) ↦
        let o = owned-with_id m.id user rows u in
        let w = with_id-update (replaced core m) (λ r. refl) m.id user k rows u in
        elim (Bool-cases (r.user_id == user)) [
          | inl mine ↦
              let own : find (is_owned core m.id user) rows ≡ some r = ground (arith, o, e) in
              rw
                (
                  may_write-cases rows user m.id m.stamp (some r) own,
                  write-cases rows user m (some r) e,
                )
                (ground (arith, w, e, nat_beq_iff m.id k))
          | inr other ↦
              let own : find (is_owned core m.id user) rows ≡ none = ground (arith, o, e) in
              rw
                (
                  may_write-cases rows user m.id m.stamp none own,
                  write-cases rows user m (some r) e,
                )
                (ground (arith, w, e, nat_beq_iff m.id k))
        ]
  ]

  -- In a table with unique ids, a deletion by a user changes the row of its id at most: it is buried if it
  -- is the user's and loses to the deletion, a tombstone is put down if there was no row, and another
  -- user's row never changes.
  pub delete_entity-with_id :
      (blank : B) (rows : List (Entity B)) (user id : Uuid) (at : Time) (stamp : Stamp) (k : Uuid)
      → UniqueIds rows
      → with_id core k (delete_entity core blank rows user id at stamp).1 ≡ (
          if id == k
          then deleted blank user id at stamp (with_id core k rows)
          else with_id core k rows)
  unfolding delete_entity
  delete_entity-with_id blank rows user id at stamp k u =
      elim (Option-cases (with_id core id rows)) [
        | inl e ↦
            let o : find (is_owned core id user) rows ≡ none = owned-none id user rows e in
            rw
              (
                may_write-cases rows user id (record stamp { updated_at = at }) none o,
                bury-cases blank rows user id at stamp none none o e,
                head-with_id (tombstone core blank user id at stamp) k rows,
              )
              (ground (arith, nat_beq_iff id k, e))
        | inr (r, e) ↦
            let o = owned-with_id id user rows u in
            let w = with_id-update (buried core at stamp) (λ r. refl) id user k rows u in
            elim (Bool-cases (r.user_id == user)) [
              | inl mine ↦
                  let own : find (is_owned core id user) rows ≡ some r = ground (arith, o, e) in
                  rw
                    (
                      may_write-cases rows user id (record stamp { updated_at = at }) (some r) own,
                      bury-cases blank rows user id at stamp (some r) (some r) own e,
                    )
                    (ground (arith, w, e, nat_beq_iff id k))
              | inr other ↦
                  let own : find (is_owned core id user) rows ≡ none = ground (arith, o, e) in
                  rw
                    (
                      may_write-cases rows user id (record stamp { updated_at = at }) none own,
                      bury-cases blank rows user id at stamp none (some r) own e,
                    )
                    (ground (arith, e, nat_beq_iff id k))
            ]
      ]
