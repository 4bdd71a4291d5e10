-- ===== src/Sync/Batches.antt =====
-- crates/keeplin-srv/src/store.rs: `append_changes` keeps the journal in order and takes a batch once.
use keeplin_srv.Base.{
  ℕ, suc, ◌+◌, ◌-◌, ◌≤◌, ◌<◌, ◌≡◌, refl, String, Bool, true, false, ◌||◌, List, [], ◌∷◌, any, ltb,
  nat_key, arith, inl, inr, Bool-cases, eq_refl,
}
use keeplin_srv.Protocol.{Uuid, Time}
use keeplin_srv.Projection.{JobKey, same_key}
use keeplin_srv.Sync.{
  Change, Journal, key_of, has_key, reserve, place, enqueue, commit, append_changes,
}
use keeplin_srv.Sync.Backlog.{Ascending}

abbrev row_key : Uuid → Uuid → ℕ → JobKey
row_key user batch index = record { user_id = user; batch_id = batch; batch_index = index }

same_row_key :
    (user batch : Uuid) (index : ℕ)
    → same_key (row_key user batch index) (row_key user batch index) ≡ true
same_row_key user batch index = ground (arith, eq_refl user, eq_refl batch, eq_refl index)

or_weaken : (a b c : Bool) → (a ≡ true → b ≡ true) → (a || c) ≡ true → (b || c) ≡ true
or_weaken true b c f h = ground (arith, f)
or_weaken false b c f h = ground (arith, h)

module _ {P : Type 0} where
  abbrev pub Below : ℕ → List (Change P) → Type 0
  Below n [] = Unit {0}
  Below n (c ∷ rows) = (c.seq < n) × Below n rows

  -- The journal is in order, and the sequence is ahead of it.
  pub record IsJournal (j : Journal P) : Type 0 where
    pub ascending : Ascending 0 j.changes
    pub ahead : Below j.next_seq j.changes
    pub started : 0 < j.next_seq

  Below-weaken : (m n : ℕ) (rows : List (Change P)) → m ≤ n → Below m rows → Below n rows
  Below-weaken m n [] h b = tt
  Below-weaken m n (c ∷ rows) h b = (omega (arith, b.0), Below-weaken m n rows h b.1)

  place-Ascending :
      (n : ℕ) (c : Change P) (rows : List (Change P))
      → n < c.seq
      → Below c.seq rows
      → Ascending n rows
      → Ascending n (place c rows)
  unfolding place
  place-Ascending n c [] h b a = (h, tt)
  place-Ascending n c (x ∷ xs) h b a =
      let later : ltb c.seq x.seq ≡ false = ground (arith, b.0) in
      rw later (a.0, place-Ascending x.seq c xs b.0 b.1 a.1)

  place-Below :
      (n : ℕ) (c : Change P) (rows : List (Change P))
      → c.seq < n
      → Below n rows
      → Below n (place c rows)
  unfolding place
  place-Below n c [] h b = (h, tt)
  place-Below n c (x ∷ xs) h b = elim (Bool-cases (ltb c.seq x.seq)) [
    | inl y ↦ rw y (h, b)
    | inr k ↦ rw k (b.0, place-Below n c xs h b.1)
  ]

  commit-Ascending :
      (now : Time) (rows : List (Change P)) (j : Journal P) (n : ℕ)
      → Ascending 0 j.changes
      → Below (suc n) j.changes
      → Ascending n rows
      → Ascending 0 (commit now rows j).changes
  unfolding commit
  commit-Ascending now [] j n a b r = a
  commit-Ascending now (c ∷ rows) j n a b r =
      commit-Ascending now rows _ c.seq
        (place-Ascending 0 c j.changes (omega (arith, r.0))
          (Below-weaken (suc n) c.seq j.changes r.0 b) a)
        (place-Below (suc c.seq) c j.changes (omega arith)
          (Below-weaken (suc n) (suc c.seq) j.changes (omega (arith, r.0)) b))
        r.1

  commit-Below :
      (now : Time) (rows : List (Change P)) (j : Journal P) (n : ℕ)
      → Below n rows
      → Below n j.changes
      → Below n (commit now rows j).changes
  unfolding commit
  commit-Below now [] j n r b = b
  commit-Below now (c ∷ rows) j n r b =
      commit-Below now rows _ n r.1 (place-Below n c j.changes r.0 b)

  next-commit :
      (now : Time) (rows : List (Change P)) (j : Journal P)
      → (commit now rows j).next_seq ≡ j.next_seq
  unfolding commit
  next-commit now [] j = refl
  next-commit now (c ∷ rows) j = next-commit now rows _

  module _ (j : Journal P) (user origin : Uuid) (dev : String) (batch : Uuid) where
    reserve-le :
        (seq index : ℕ) (ps : List P) → seq ≤ (reserve j seq user origin dev batch index ps).1
    unfolding reserve
    reserve-le seq index [] = omega arith
    reserve-le seq index (p ∷ ps) = omega (arith, reserve-le (seq + 1) (index + 1) ps)

    reserve-Below :
        (seq index : ℕ) (ps : List P)
        → Below
            (reserve j seq user origin dev batch index ps).1
            (reserve j seq user origin dev batch index ps).0
    unfolding reserve
    reserve-Below seq index [] = tt
    reserve-Below seq index (p ∷ ps) =
        let key : JobKey = record { user_id = user; batch_id = batch; batch_index = index } in
        elim (Bool-cases (has_key key j.changes)) [
          | inl old ↦ rw old (reserve-Below (seq + 1) (index + 1) ps)
          | inr new ↦ rw new (
            omega (arith, reserve-le (seq + 1) (index + 1) ps),
            reserve-Below (seq + 1) (index + 1) ps,
          )
        ]

    reserve-Ascending :
        (n seq index : ℕ) (ps : List P)
        → n < seq
        → Ascending n (reserve j seq user origin dev batch index ps).0
    unfolding reserve
    reserve-Ascending n seq index [] h = tt
    reserve-Ascending n seq index (p ∷ ps) h =
        let key : JobKey = record { user_id = user; batch_id = batch; batch_index = index } in
        elim (Bool-cases (has_key key j.changes)) [
          | inl old ↦ rw old (reserve-Ascending n (seq + 1) (index + 1) ps (omega (arith, h)))
          | inr new ↦ rw new (h, reserve-Ascending seq (seq + 1) (index + 1) ps (omega arith))
        ]

  -- Appending a batch keeps the journal in the order of its numbers and the sequence ahead of it.
  pub append_changes-IsJournal :
      (j : Journal P) (now : Time) (user origin : Uuid) (dev : String) (batch : Uuid) (ps : List P)
      → IsJournal j
      → IsJournal (append_changes j now user origin dev batch ps).1
  unfolding append_changes
  append_changes-IsJournal j now user origin dev batch ps v =
      let rows = (reserve j j.next_seq user origin dev batch 0 ps).0 in
      let next : ℕ = (reserve j j.next_seq user origin dev batch 0 ps).1 in
      let le : j.next_seq ≤ next = reserve-le j user origin dev batch j.next_seq 0 ps in
      let j' : Journal P = record j { next_seq = next } in
      let same = next-commit now rows j' in
      let low : suc (j.next_seq - 1) ≡ j.next_seq = omega (arith, v.started) in
      record {
        ascending = commit-Ascending now rows j' (j.next_seq - 1) v.ascending (rw low v.ahead) (
            reserve-Ascending j user origin dev batch (j.next_seq - 1) j.next_seq 0 ps
              (omega (arith, v.started)));
        ahead = rw same (
            commit-Below now rows j' next (reserve-Below j user origin dev batch j.next_seq 0 ps)
              (Below-weaken j.next_seq next j.changes le v.ahead));
        started = rw same (omega (arith, v.started, le));
      }

  has_key-place :
      (k : JobKey) (c : Change P) (rows : List (Change P))
      → has_key k (place c rows) ≡ (same_key (key_of c) k || has_key k rows)
  unfolding place any
  has_key-place k c [] = ground arith
  has_key-place k c (x ∷ xs) = ground (arith, has_key-place k c xs)

  has_key-commit :
      (k : JobKey) (now : Time) (rows : List (Change P)) (j : Journal P)
      → has_key k (commit now rows j).changes ≡ (has_key k rows || has_key k j.changes)
  unfolding commit any
  has_key-commit k now [] j = refl
  has_key-commit k now (c ∷ rows) j =
      rw
        (
          has_key-commit k now rows
              (record j { changes = place c j.changes; jobs = enqueue now (key_of c) j.jobs }),
          has_key-place k c j.changes,
        )
        (ground arith)

  module _ (user : Uuid) (batch : Uuid) where
    -- Every row of a batch, from an index on, stands in the table.
    Covered : (JobKey → Bool) → ℕ → List P → Type 0
    Covered has index [] = Unit {0}
    Covered has index (p ∷ ps) =
        (has (row_key user batch index) ≡ true) × Covered has (index + 1) ps

    Covered-weaken :
        (has more : JobKey → Bool) (index : ℕ) (ps : List P)
        → ((k : JobKey) → has k ≡ true → more k ≡ true)
        → Covered has index ps
        → Covered more index ps
    unfolding Covered
    Covered-weaken has more index [] h c = tt
    Covered-weaken has more index (p ∷ ps) h c =
        (h (row_key user batch index) c.0, Covered-weaken has more (index + 1) ps h c.1)

    reserve-more :
        (j : Journal P) (seq : ℕ) (origin : Uuid) (dev : String) (index : ℕ) (p : P) (ps : List P)
        (k : JobKey)
        → has_key k (reserve j (seq + 1) user origin dev batch (index + 1) ps).0 ≡ true
        → has_key k (reserve j seq user origin dev batch index (p ∷ ps)).0 ≡ true
    unfolding reserve any
    reserve-more j seq origin dev index p ps k h =
        elim (Bool-cases (has_key (row_key user batch index) j.changes)) [
          | inl old ↦ rw old h
          | inr new ↦ rw new (ground arith)
        ]

    reserve-head :
        (j : Journal P) (seq : ℕ) (origin : Uuid) (dev : String) (index : ℕ) (p : P) (ps : List P)
        → (has_key (row_key user batch index) (reserve j seq user origin dev batch index (p ∷ ps)).0
            || has_key (row_key user batch index) j.changes)
          ≡ true
    unfolding reserve any
    reserve-head j seq origin dev index p ps =
        elim (Bool-cases (has_key (row_key user batch index) j.changes)) [
          | inl old ↦ rw old (ground arith)
          | inr new ↦ rw new (ground (arith, same_row_key user batch index))
        ]

    reserve-Covered :
        (j : Journal P) (seq : ℕ) (origin : Uuid) (dev : String) (index : ℕ) (ps : List P)
        → Covered
            (λ k. has_key k (reserve j seq user origin dev batch index ps).0 || has_key k j.changes)
            index
            ps
    unfolding Covered
    reserve-Covered j seq origin dev index [] = tt
    reserve-Covered j seq origin dev index (p ∷ ps) = (
      reserve-head j seq origin dev index p ps,
      Covered-weaken
          (λ k.
            has_key k (reserve j (seq + 1) user origin dev batch (index + 1) ps).0
            || has_key k j.changes)
          (λ k.
            has_key k (reserve j seq user origin dev batch index (p ∷ ps)).0 || has_key k j.changes)
          (index + 1) ps (λ k h. or_weaken _ _ _ (reserve-more j seq origin dev index p ps k) h)
          (reserve-Covered j (seq + 1) origin dev (index + 1) ps),
    )

    reserve_again :
        (j : Journal P) (seq : ℕ) (origin : Uuid) (dev : String) (index : ℕ) (ps : List P)
        → Covered (λ k. has_key k j.changes) index ps
        → (reserve j seq user origin dev batch index ps).0 ≡ []
    unfolding reserve Covered
    reserve_again j seq origin dev index [] c = refl
    reserve_again j seq origin dev index (p ∷ ps) c =
        rw c.0 (reserve_again j (seq + 1) origin dev (index + 1) ps c.1)

  -- A batch that is sent again, from whatever device, adds no change and no job.
  pub append_changes_again :
      (j : Journal P) (now now' : Time) (user origin origin' : Uuid) (dev dev' : String)
      (batch : Uuid) (ps : List P)
      → let j1 = (append_changes j now user origin dev batch ps).1 in
        let again = append_changes j1 now' user origin' dev' batch ps in
        (again.0 ≡ []) × (again.1.changes ≡ j1.changes) × (again.1.jobs ≡ j1.jobs)
  unfolding append_changes commit
  append_changes_again j now now' user origin origin' dev dev' batch ps =
      let (rows, next) = reserve j j.next_seq user origin dev batch 0 ps in
      let j1 = commit now rows (record j { next_seq = next }) in
      let covered : Covered user batch (λ k. has_key k j1.changes) 0 ps =
        Covered-weaken user batch _ _ 0 ps
          (λ k h. rw (has_key-commit k now rows (record j { next_seq = next })) h)
          (reserve-Covered user batch j j.next_seq origin dev 0 ps) in
      let none_new = reserve_again user batch j1 j1.next_seq origin' dev' 0 ps covered in
      rw none_new (refl, refl, refl)
