-- ===== src/Sync/Backlog.antt =====
-- crates/keeplin-srv/src/sync.rs: `deliver_backlog` sends what the journal holds after the device's cursor.
use keeplin_srv.Base.{
  ℕ, suc, zero, ◌+◌, ◌≤◌, ◌<◌, ◌≡◌, refl, ◌∙◌, ap, Bool, true, false, not, List, [], ◌∷◌, ◌++◌, map,
  take, drop, filter, ◌⊎◌, ltb, ◌==◌, nat_key, arith, length, inl, inr, Bool-cases, eq_refl,
}
use keeplin_srv.Base.Dict.{get-put}
use keeplin_srv.Protocol.{Uuid}
use keeplin_srv.Sync.{
  Change, Journal, after, changes_after, get_cursor, advance_cursor, last_seq, from_others,
  with_frame, deliver, deliver_backlog, chunk_size,
}

module _ {P : Type 0} where
  -- The rows stand in the strict order of their numbers, all after `n`.
  abbrev pub Ascending : ℕ → List (Change P) → Type 0
  Ascending n [] = Unit {0}
  Ascending n (c ∷ rows) = (n < c.seq) × Ascending c.seq rows

  Ascending-weaken :
      (m n : ℕ) (rows : List (Change P)) → m ≤ n → Ascending n rows → Ascending m rows
  Ascending-weaken m n [] h a = tt
  Ascending-weaken m n (c ∷ rows) h a = (omega (arith, a.0), a.1)

  filter-Ascending :
      (p : Change P → Bool) (n : ℕ) (rows : List (Change P))
      → Ascending n rows
      → Ascending n (filter p rows)
  unfolding filter
  filter-Ascending p n [] a = tt
  filter-Ascending p n (c ∷ rows) a = elim (Bool-cases (p c)) [
    | inl y ↦ rw y (a.0, filter-Ascending p c.seq rows a.1)
    | inr k ↦
        rw k (filter-Ascending p n rows (Ascending-weaken n c.seq rows (omega (arith, a.0)) a.1))
  ]

  last_seq-ge : (n k : ℕ) (rows : List (Change P)) → Ascending n rows → n ≤ last_seq n (take k rows)
  last_seq-ge n zero rows a = omega arith
  last_seq-ge n (suc k) [] a = omega arith
  last_seq-ge n (suc k) (c ∷ rows) a = omega (arith, a.0, last_seq-ge c.seq k rows a.1)

  later : ℕ → List (Change P) → List (Change P)
  later n rows = filter (λ c. ltb n c.seq) rows

  later_all : (m n : ℕ) (rows : List (Change P)) → m ≤ n → Ascending n rows → later m rows ≡ rows
  unfolding filter later
  later_all m n [] h a = refl
  later_all m n (c ∷ rows) h a =
      let lt : ltb m c.seq ≡ true = ground (arith, a.0) in
      rw (lt, later_all m c.seq rows (omega (arith, a.0)) a.1) refl

  later-last_seq :
      (n k : ℕ) (rows : List (Change P))
      → Ascending n rows
      → later (last_seq n (take k rows)) rows ≡ drop k rows
  unfolding filter later
  later-last_seq n zero rows a = later_all n n rows (omega arith) a
  later-last_seq n (suc k) [] a = refl
  later-last_seq n (suc k) (c ∷ rows) a =
      let old : ltb (last_seq c.seq (take k rows)) c.seq ≡ false =
        ground (arith, last_seq-ge c.seq k rows a.1) in
      rw old (later-last_seq c.seq k rows a.1)

  after-later :
      (user m n : ℕ) (rows : List (Change P))
      → m ≤ n
      → filter (after user n) rows ≡ later n (filter (after user m) rows)
  unfolding filter later
  after-later user m n [] h = refl
  after-later user m n (c ∷ rows) h = ground (arith, after-later user m n rows h)

  unfoldable pub waiting : Journal P → Uuid → ℕ → List (Change P)
  waiting j user n = filter (after user n) j.changes

  after-Ascending :
      (user m n : ℕ) (rows : List (Change P))
      → Ascending m rows
      → Ascending n (filter (after user n) rows)
  unfolding filter
  after-Ascending user m n [] a = tt
  after-Ascending user m n (c ∷ rows) a = elim (Bool-cases (after user n c)) [
    | inl y ↦ rw y (ground arith, filter-Ascending (after user n) c.seq rows a.1)
    | inr k ↦ rw k (after-Ascending user c.seq n rows a.1)
  ]

  abbrev pub payloads : List (Change P) → List P
  payloads rows = map (λ (c : Change P). c.payload) rows

  abbrev pub flatten : List (List P) → List P
  flatten [] = []
  flatten (frame ∷ frames) = frame ++ flatten frames

  append_assoc : (xs ys zs : List P) → (xs ++ ys) ++ zs ≡ xs ++ (ys ++ zs)
  append_assoc [] ys zs = refl
  append_assoc (x ∷ xs) ys zs = ap (λ t. x ∷ t) (append_assoc xs ys zs)

  flatten-with_frame :
      (rows : List (Change P)) (frames : List (List P))
      → flatten (with_frame rows frames) ≡ payloads rows ++ flatten frames
  flatten-with_frame [] frames = refl
  flatten-with_frame (c ∷ rows) frames = refl

  payloads-take-drop :
      (p : Change P → Bool) (k : ℕ) (rows : List (Change P))
      → payloads (filter p (take k rows)) ++ payloads (filter p (drop k rows))
        ≡ payloads (filter p rows)
  unfolding filter
  payloads-take-drop p zero rows = refl
  payloads-take-drop p (suc k) [] = refl
  payloads-take-drop p (suc k) (c ∷ rows) = elim (Bool-cases (p c)) [
    | inl y ↦ rw (y, ← payloads-take-drop p k rows) refl
    | inr n ↦ rw (n, ← payloads-take-drop p k rows) refl
  ]

  length-drop : (k : ℕ) (rows : List (Change P)) → length (drop k rows) ≤ length rows
  length-drop zero rows = omega arith
  length-drop (suc k) [] = omega arith
  length-drop (suc k) (c ∷ rows) = omega (arith, length-drop k rows)

  deliver-nil :
      (fuel : ℕ) (j : Journal P) (user device cursor : ℕ)
      → changes_after j user cursor chunk_size ≡ []
      → deliver (suc fuel) j user device cursor ≡ ([], j)
  unfolding deliver
  deliver-nil fuel j user device cursor e = rw (deliver, e) refl

  deliver-cons :
      (fuel : ℕ) (j : Journal P) (user device cursor : ℕ) (c : Change P) (rows : List (Change P))
      → changes_after j user cursor chunk_size ≡ c ∷ rows
      → let (frames, j') =
          deliver fuel
            (advance_cursor j device (last_seq c.seq rows))
            user
            device
            (last_seq c.seq rows) in
        deliver (suc fuel) j user device cursor
        ≡ (with_frame (from_others device (c ∷ rows)) frames, j')
  unfolding deliver
  deliver-cons fuel j user device cursor c rows e = rw (deliver, e) refl

  -- What a delivery from a cursor has done.
  pub record Delivered (j : Journal P) (user device cursor : ℕ) (frames : List (List P))
      (j' : Journal P) : Type 0 where
    pub sent : flatten frames ≡ payloads (from_others device (waiting j user cursor))
    pub kept : j'.changes ≡ j.changes
    pub done : waiting j' user (get_cursor j' device) ≡ []

  List-cases :
      (rows : List (Change P))
      → (rows ≡ []) ⊎ ((c : Change P) × (rest : List (Change P)) × (rows ≡ c ∷ rest))
  List-cases [] = inl refl
  List-cases (c ∷ rest) = inr (c, rest, refl)

  take-nil : (k : ℕ) (rows : List (Change P)) → take (suc k) rows ≡ [] → rows ≡ []
  take-nil k [] h = refl
  take-nil k (c ∷ rows) h = absurd (ground arith)

  drop-shorter :
      (k : ℕ) (rows : List (Change P)) (c : Change P) (rest : List (Change P))
      → take (suc k) rows ≡ c ∷ rest
      → length (drop (suc k) rows) + 1 ≤ length rows
  drop-shorter k [] c rest h = absurd (ground arith)
  drop-shorter k (x ∷ rows) c rest h = omega (arith, length-drop k rows)

  waiting-Ascending :
      (j : Journal P) (user cursor : ℕ)
      → Ascending 0 j.changes
      → Ascending cursor (waiting j user cursor)
  unfolding waiting
  waiting-Ascending j user cursor a = after-Ascending user 0 cursor j.changes a

  -- What waits after a chunk is the rest of what waited before it.
  waiting-chunk :
      (j : Journal P) (user cursor k : ℕ)
      → Ascending 0 j.changes
      → waiting j user (last_seq cursor (take k (waiting j user cursor)))
        ≡ drop k (waiting j user cursor)
  unfolding waiting
  waiting-chunk j user cursor k a =
      let up = after-Ascending user 0 cursor j.changes a in
      after-later user cursor _ j.changes (last_seq-ge cursor k _ up) ∙ later-last_seq cursor k _ up

  cursor-advance :
      (j : Journal P) (device seq : ℕ)
      → get_cursor j device ≤ seq
      → get_cursor (advance_cursor j device seq) device ≡ seq
  unfolding get_cursor advance_cursor
  cursor-advance j device seq h = rw (get-put, eq_refl device) (omega arith)

  length-zero : (rows : List (Change P)) → length rows ≤ 0 → rows ≡ []
  length-zero [] h = refl
  length-zero (c ∷ rows) h = absurd (omega arith)

  nothing_waits :
      (j : Journal P) (user device cursor : ℕ)
      → get_cursor j device ≡ cursor
      → waiting j user cursor ≡ []
      → Delivered j user device cursor [] j
  unfolding filter
  nothing_waits j user device cursor g h = record { sent = rw h refl; kept = refl; done = rw g h }

  chunk_of :
      (j : Journal P) (user cursor : ℕ) (rows : List (Change P))
      → changes_after j user cursor chunk_size ≡ rows
      → take chunk_size (waiting j user cursor) ≡ rows
  unfolding changes_after waiting
  chunk_of j user cursor rows e = e

  -- A chunk that is sent, and what follows it.
  chunk-Delivered :
      (j j' : Journal P) (user device cursor seq : ℕ) (chunk : List (Change P))
      (frames : List (List P))
      → take chunk_size (waiting j user cursor) ≡ chunk
      → waiting (advance_cursor j device seq) user seq ≡ drop chunk_size (waiting j user cursor)
      → Delivered (advance_cursor j device seq) user device seq frames j'
      → Delivered j user device cursor (with_frame (from_others device chunk) frames) j'
  unfolding advance_cursor
  chunk-Delivered j j' user device cursor seq chunk frames e rest d = record {
    sent =
        rw (flatten-with_frame, d.sent, rest, ← e)
          (payloads-take-drop (λ c. not (c.origin_device_id == device)) chunk_size
            (waiting j user cursor));
    kept = d.kept;
    done = d.done;
  }

  waiting-advance :
      (j : Journal P) (user device n seq : ℕ)
      → waiting (advance_cursor j device n) user seq ≡ waiting j user seq
  unfolding waiting advance_cursor
  waiting-advance j user device n seq = refl

  deliver-Delivered :
      (fuel : ℕ) (j : Journal P) (user device cursor : ℕ)
      → Ascending 0 j.changes
      → get_cursor j device ≡ cursor
      → length (waiting j user cursor) ≤ fuel
      → Delivered j user device cursor
          (deliver fuel j user device cursor).0
          (deliver fuel j user device cursor).1
  unfolding deliver advance_cursor
  deliver-Delivered zero j user device cursor a g h =
      nothing_waits j user device cursor g (length-zero (waiting j user cursor) h)
  deliver-Delivered (suc fuel) j user device cursor a g h =
      elim (List-cases (changes_after j user cursor chunk_size)) [
        | inl e ↦ rw (deliver-nil fuel j user device cursor e) (
            nothing_waits j user device cursor g
              (take-nil 199 (waiting j user cursor) (chunk_of j user cursor [] e)))
        | inr (c, rows, e) ↦
            let seq : ℕ = last_seq c.seq rows in
            let chunk = chunk_of j user cursor (c ∷ rows) e in
            let rest : waiting (advance_cursor j device seq) user seq
                ≡ drop chunk_size (waiting j user cursor) =
              rw (waiting-advance j user device seq seq)
                (rw chunk at (waiting-chunk j user cursor chunk_size a)) in
            let up : cursor ≤ seq = rw chunk at (
              last_seq-ge cursor chunk_size (waiting j user cursor)
                (waiting-Ascending j user cursor a)) in
            let fewer = drop-shorter 199 (waiting j user cursor) c rows chunk in
            let ih =
              deliver-Delivered fuel (advance_cursor j device seq) user device seq a
                (cursor-advance j device seq (omega (arith, g, up)))
                (rw rest (omega (arith, fewer, h))) in
            rw (deliver-cons fuel j user device cursor c rows e)
              (chunk-Delivered j _ user device cursor seq (c ∷ rows) _ chunk rest ih)
      ]

  -- With a turn for each change that waits, a delivery sends, once and in order, every change of the user
  -- after the device's cursor that another device made, keeps the journal, and leaves no change waiting.
  pub deliver_backlog-Delivered :
      (fuel : ℕ) (j : Journal P) (user device : ℕ)
      → Ascending 0 j.changes
      → length (waiting j user (get_cursor j device)) ≤ fuel
      → Delivered j user device
          (get_cursor j device)
          (deliver_backlog fuel j user device).0
          (deliver_backlog fuel j user device).1
  unfolding deliver_backlog
  deliver_backlog-Delivered fuel j user device a h =
      deliver-Delivered fuel j user device (get_cursor j device) a refl h
