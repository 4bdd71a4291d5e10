-- ===== src/Bodies/Import.antt =====
-- crates/keeplin-srv/src/http.rs: what is imported is exported again.
use keeplin_srv.Base.{
  ℕ, ◌+◌, ◌<◌, ◌≡◌, refl, Bool, subst, sym, ◌∙◌, ap, String, true, false, ◌&&◌, none, some, List,
  [], ◌∷◌, length, ltb, find, update_first, filter, ◌==◌, nat_key, ok, arith, Bool-cases, inl, inr,
  eq_refl, nat_beq_iff,
}
use keeplin_srv.Protocol.{Uuid, Time, Text, Stamp}
use keeplin_srv.Permissions.{
  Note, PermissionScheme, note_row, get_note_on, resolve_note_access_on, owner, has,
}
use keeplin_srv.Permissions.Resolve.{resolve_note_access-owner}
use keeplin_srv.Lines.{
  Line, NoteOrder, Store, line_rows, list_lines, decrypt_all, insert_line_on, get_note_order_on,
  set_note_order_on, initialize_note_order_on, new_row, reorder_row,
}
use keeplin_srv.Sharing.{note_access}
use keeplin_srv.Bodies.{
  Tables, split_lines, join_lines, line_by_id, live_contents, materialize_body, new_note,
  create_note_on, insert_lines, ids_from, import_note, export_note,
}
use keeplin_srv.Bodies.Join.{join_lines-split_lines, length-join_lines}

-- Every text is read again as it was written.
abbrev pub AllReadable : (Text → Bool) → List Text → Type 0
AllReadable readable [] = Unit {0}
AllReadable readable (l ∷ lines) = (readable l ≡ true) × AllReadable readable lines

abbrev AllRows : (Text → Bool) → List Line → Type 0
AllRows readable [] = Unit {0}
AllRows readable (l ∷ rows) = (readable l.content ≡ true) × AllRows readable rows

decrypt_all-readable :
    (readable : Text → Bool) (rows : List Line)
    → AllRows readable rows
    → decrypt_all readable rows ≡ ok rows
unfolding decrypt_all
decrypt_all-readable readable [] all = refl
decrypt_all-readable readable (l ∷ rows) (h, all) =
    rw (decrypt_all-readable readable rows all, h) refl

module _ (max_notes_per_user : ℕ) (user_id : Uuid) (uuid_to_string : Uuid → String) where
  module _ (new_id : ℕ → Uuid) (distinct : (i j : ℕ) → new_id i ≡ new_id j → i ≡ j) (now : Time)
      (note_id : Uuid) (stamp : Stamp) where
    abbrev filled : ℕ → List Text → Store → Store
    filled k lines s =
        insert_lines max_notes_per_user user_id uuid_to_string new_id now note_id stamp k lines s

    abbrev ids : ℕ → List Text → List Uuid
    ids k lines = ids_from max_notes_per_user user_id uuid_to_string new_id k lines

    other_id : (i k : ℕ) → i < k → (new_id k == new_id i) ≡ false
    other_id i k lt = elim (Bool-cases (new_id k == new_id i)) [
      | inl same ↦ absurd (omega (arith, distinct k i ((nat_beq_iff (new_id k) (new_id i)).0 same)))
      | inr other ↦ other
    ]

    -- The later lines leave an earlier one where it is.
    line_by_id-filled :
        (k i : ℕ) (lines : List Text) (s : Store)
        → i < k
        → line_by_id (line_rows (filled k lines s) note_id) (new_id i)
          ≡ line_by_id (line_rows s note_id) (new_id i)
    unfolding insert_lines
    line_by_id-filled k i [] s lt = refl
    line_by_id-filled k i (c ∷ lines) s lt =
        line_by_id-filled (k + 1) i lines (insert_line_on s now (new_id k) note_id c stamp)
          (omega arith)
        ∙ (unfold insert_line_on in
            unfold line_rows in
            unfold filter in unfold find in rw (eq_refl note_id, other_id i k lt) refl)

    line_by_id-insert :
        (k : ℕ) (c : Text) (s : Store)
        → line_by_id
            (line_rows (insert_line_on s now (new_id k) note_id c stamp) note_id)
            (new_id k)
          ≡ some (new_row now (new_id k) note_id c stamp)
    unfolding insert_line_on line_rows filter find
    line_by_id-insert k c s = rw (eq_refl note_id, eq_refl (new_id k)) refl

    live_contents-filled :
        (k : ℕ) (lines : List Text) (s : Store)
        → live_contents (line_rows (filled k lines s) note_id) (ids k lines) ≡ lines
    unfolding insert_lines ids_from live_contents
    live_contents-filled k [] s = refl
    live_contents-filled k (c ∷ lines) s =
        let s' : Store = insert_line_on s now (new_id k) note_id c stamp in
        rw
          (
            line_by_id-filled (k + 1) k lines s' (omega arith),
            line_by_id-insert k c s,
            live_contents-filled (k + 1) lines s',
          )
          refl

    filled-note_orders :
        (k : ℕ) (lines : List Text) (s : Store) → (filled k lines s).note_orders ≡ s.note_orders
    unfolding insert_lines
    filled-note_orders k [] s = refl
    filled-note_orders k (c ∷ lines) s =
        filled-note_orders (k + 1) lines (insert_line_on s now (new_id k) note_id c stamp)
        ∙ (unfold insert_line_on in refl)

    filled-readable :
        (k : ℕ) (lines : List Text) (s : Store) → (filled k lines s).readable ≡ s.readable
    unfolding insert_lines
    filled-readable k [] s = refl
    filled-readable k (c ∷ lines) s =
        filled-readable (k + 1) lines (insert_line_on s now (new_id k) note_id c stamp)
        ∙ (unfold insert_line_on in refl)

    insert_line-AllRows :
        (readable : Text → Bool) (k : ℕ) (c : Text) (s : Store)
        → readable c ≡ true
        → AllRows readable (line_rows s note_id)
        → AllRows readable (line_rows (insert_line_on s now (new_id k) note_id c stamp) note_id)
    unfolding insert_line_on line_rows filter
    insert_line-AllRows readable k c s h all = rw (eq_refl note_id) (h, all)

    filled-AllRows :
        (readable : Text → Bool) (k : ℕ) (lines : List Text) (s : Store)
        → AllReadable readable lines
        → AllRows readable (line_rows s note_id)
        → AllRows readable (line_rows (filled k lines s) note_id)
    unfolding insert_lines
    filled-AllRows readable k [] s h all = all
    filled-AllRows readable k (c ∷ lines) s (h, hs) all =
        filled-AllRows readable (k + 1) lines (insert_line_on s now (new_id k) note_id c stamp) hs
          (insert_line-AllRows readable k c s h all)

  -- The body of a store whose order for the note is that of the lines.
  materialize_body-of :
      (limit : ℕ) (s : Store) (id : Uuid) (o : NoteOrder) (lines : List Text)
      → get_note_order_on s id ≡ some o
      → list_lines s id ≡ ok (line_rows s id)
      → live_contents (line_rows s id) o.order ≡ lines
      → (ltb 0 limit && ltb limit (length (join_lines lines))) ≡ false
      → materialize_body limit s id ≡ ok (join_lines lines)
  unfolding materialize_body
  materialize_body-of limit s id o lines e r l h =
      rw (e, r, l, sym (length-join_lines lines), h) refl

  get_note_order_on-set :
      (s : Store) (id : Uuid) (order : List Uuid) (stamp : Stamp) (o : NoteOrder)
      (rest : List NoteOrder)
      → s.note_orders ≡ o ∷ rest
      → (o.note_id == id) ≡ true
      → get_note_order_on (set_note_order_on s id order stamp) id ≡ some (reorder_row order stamp o)
  unfolding get_note_order_on set_note_order_on
  get_note_order_on-set s id order stamp o rest e same =
      rw e (unfold update_first in rw same (unfold find in rw same refl))

  note_row-first :
      (t : Tables) (n : Note) (rest : List Note)
      → t.db.grants.notes ≡ n ∷ rest
      → n.deleted_at ≡ none
      → note_row t.db.grants n.id ≡ some n
  unfolding note_row find
  note_row-first t n rest e live = ground (arith, e, live)

  get_note_on-readable :
      (t : Tables) (n : Note)
      → note_row t.db.grants n.id ≡ some n
      → t.db.grants.readable n.title ≡ true
      → get_note_on t.db.grants n.id ≡ ok (some n)
  unfolding get_note_on
  get_note_on-readable t n found h = rw (found, h) refl

  note_access-own :
      (scheme : PermissionScheme) (t : Tables) (n : Note)
      → get_note_on t.db.grants n.id ≡ ok (some n)
      → n.owner_id ≡ user_id
      → note_access scheme user_id t.db n.id ≡ ok (n, owner)
  unfolding note_access
  note_access-own scheme t n found owns =
      let reads : resolve_note_access_on t.db.grants scheme n user_id ≡ ok owner =
        ap (λ (u : Uuid). resolve_note_access_on t.db.grants scheme n u) (sym owns)
        ∙ resolve_note_access-owner t.db.grants scheme n in
      rw (found, reads) refl

  -- The user's own note, just made, is found and may be read.
  export-made :
      (scheme : PermissionScheme) (limit : ℕ) (t : Tables) (n : Note) (body : Text)
      → note_access scheme user_id t.db n.id ≡ ok (n, owner)
      → materialize_body limit t.store n.id ≡ ok body
      → export_note scheme limit user_id t n.id ≡ ok (n, body)
  unfolding export_note has
  export-made scheme limit t n body e b = rw (e, b) refl

  abbrev made_note : Tables → Uuid → Text → Note
  made_note t id title = new_note t.db.now id title user_id

  abbrev made_store : Uuid → (ℕ → Uuid) → Uuid → Time → Text → Tables → Store
  made_store device_id new_id id now body t =
      let writer : String = uuid_to_string device_id in
      let lines : List Text = split_lines body in
      set_note_order_on
        (insert_lines max_notes_per_user user_id uuid_to_string new_id t.db.now id
          (record { vv = (writer, 1) ∷ []; last_writer = writer; updated_at = now }) 0 lines
          (initialize_note_order_on t.store t.db.now id (uuid_to_string user_id)))
        id (ids_from max_notes_per_user user_id uuid_to_string new_id 0 lines)
        (record { vv = (writer, length lines) ∷ []; last_writer = writer; updated_at = now })

  abbrev first_order : Time → Uuid → NoteOrder
  first_order now id = record {
    note_id = id;
    order = [];
    updated_at = now;
    vv = [];
    last_writer = uuid_to_string user_id;
  }

  initialize-note_orders :
      (s : Store) (now : Time) (id : Uuid)
      → (initialize_note_order_on s now id (uuid_to_string user_id)).note_orders
        ≡ first_order now id ∷ s.note_orders
  unfolding initialize_note_order_on
  initialize-note_orders s now id = refl

  line_rows-set_note_order :
      (s : Store) (id : Uuid) (order : List Uuid) (stamp : Stamp)
      → line_rows (set_note_order_on s id order stamp) id ≡ line_rows s id
  unfolding set_note_order_on line_rows
  line_rows-set_note_order s id order stamp = refl

  import_note-steps :
      (device_id new_note_id id : Uuid) (new_id : ℕ → Uuid) (now : Time) (title body : Text)
      (t t' : Tables) (count : ℕ)
      → import_note max_notes_per_user user_id uuid_to_string device_id new_id new_note_id now title
          body t
        ≡ ok ((id, count), t')
      → (id ≡ new_note_id)
        × (count ≡ length (split_lines body))
        × (t'.store ≡ made_store device_id new_id new_note_id now body t)
        × (t'.db.grants.readable ≡ t.db.grants.readable)
        × (t'.db.grants.notes ≡ made_note t new_note_id title ∷ t.db.grants.notes)
  unfolding import_note create_note_on
  import_note-steps device_id new_note_id id new_id now title body t t' count h = (
    ground (arith, h),
    ground (arith, h),
    ground (arith, h),
    ground (arith, h),
    ground (arith, h),
  )

  readable-set_note_order :
      (s : Store) (id : Uuid) (order : List Uuid) (stamp : Stamp)
      → (set_note_order_on s id order stamp).readable ≡ s.readable
  unfolding set_note_order_on
  readable-set_note_order s id order stamp = refl

  initialize-lines :
      (s : Store) (now : Time) (id : Uuid)
      → ((initialize_note_order_on s now id (uuid_to_string user_id)).readable ≡ s.readable)
        × (line_rows (initialize_note_order_on s now id (uuid_to_string user_id)) id
            ≡ line_rows s id)
  unfolding initialize_note_order_on line_rows
  initialize-lines s now id = (refl, refl)

  made_store-readable :
      (device_id id : Uuid) (new_id : ℕ → Uuid) (now : Time) (body : Text) (t : Tables)
      → ((i j : ℕ) → new_id i ≡ new_id j → i ≡ j)
      → AllReadable t.store.readable (split_lines body)
      → line_rows t.store id ≡ []
      → list_lines (made_store device_id new_id id now body t) id
        ≡ ok (line_rows (made_store device_id new_id id now body t) id)
  unfolding list_lines
  made_store-readable device_id id new_id now body t distinct all fresh =
      let writer : String = uuid_to_string device_id in
      let lines : List Text = split_lines body in
      let stamp : Stamp = record {
        vv = (writer, 1) ∷ [];
        last_writer = writer;
        updated_at = now;
      } in
      let s0 : Store = initialize_note_order_on t.store t.db.now id (uuid_to_string user_id) in
      let s1 : Store =
        insert_lines max_notes_per_user user_id uuid_to_string new_id t.db.now id stamp 0 lines
          s0 in
      let ordered : List Uuid = ids_from max_notes_per_user user_id uuid_to_string new_id 0 lines in
      let stamp' : Stamp = record {
        vv = (writer, length lines) ∷ [];
        last_writer = writer;
        updated_at = now;
      } in
      let made : Store = made_store device_id new_id id now body t in
      let kept : made.readable ≡ t.store.readable =
        readable-set_note_order s1 id ordered stamp'
        ∙ filled-readable new_id distinct t.db.now id stamp 0 lines s0
        ∙ (initialize-lines t.store t.db.now id).0 in
      let none_before : line_rows s0 id ≡ [] = (initialize-lines t.store t.db.now id).1 ∙ fresh in
      let rows : AllRows t.store.readable (line_rows made id) =
        subst (AllRows t.store.readable) (sym (line_rows-set_note_order s1 id ordered stamp')) (
          filled-AllRows new_id distinct t.db.now id stamp t.store.readable 0 lines s0 all
            (subst (AllRows t.store.readable) (sym none_before) tt)) in
      decrypt_all-readable made.readable (line_rows made id)
        (subst (λ (r : Text → Bool). AllRows r (line_rows made id)) (sym kept) rows)

  made_body :
      (device_id id : Uuid) (new_id : ℕ → Uuid) (now : Time) (body : Text) (t : Tables) (limit : ℕ)
      → ((i j : ℕ) → new_id i ≡ new_id j → i ≡ j)
      → AllReadable t.store.readable (split_lines body)
      → line_rows t.store id ≡ []
      → (ltb 0 limit && ltb limit (length body)) ≡ false
      → materialize_body limit (made_store device_id new_id id now body t) id ≡ ok body
  made_body device_id id new_id now body t limit distinct all fresh small =
      let writer : String = uuid_to_string device_id in
      let lines : List Text = split_lines body in
      let stamp : Stamp = record {
        vv = (writer, 1) ∷ [];
        last_writer = writer;
        updated_at = now;
      } in
      let s0 : Store = initialize_note_order_on t.store t.db.now id (uuid_to_string user_id) in
      let s1 : Store =
        insert_lines max_notes_per_user user_id uuid_to_string new_id t.db.now id stamp 0 lines
          s0 in
      let order =
        get_note_order_on-set s1 id
          (ids_from max_notes_per_user user_id uuid_to_string new_id 0 lines)
          (record { vv = (writer, length lines) ∷ []; last_writer = writer; updated_at = now })
          (first_order t.db.now id) t.store.note_orders
          (filled-note_orders new_id distinct t.db.now id stamp 0 lines s0
            ∙ initialize-note_orders t.store t.db.now id)
          (eq_refl id) in
      let ordered : List Uuid = ids_from max_notes_per_user user_id uuid_to_string new_id 0 lines in
      let stamp' : Stamp = record {
        vv = (writer, length lines) ∷ [];
        last_writer = writer;
        updated_at = now;
      } in
      let contents : live_contents (line_rows (made_store device_id new_id id now body t) id)
            ordered
          ≡ lines =
        ap (λ (rows : List Line). live_contents rows ordered)
          (line_rows-set_note_order s1 id ordered stamp')
        ∙ live_contents-filled new_id distinct t.db.now id stamp 0 lines s0 in
      materialize_body-of limit (made_store device_id new_id id now body t) id
        (reorder_row ordered stamp' (first_order t.db.now id)) lines order
        (made_store-readable device_id id new_id now body t distinct all fresh) contents
        (rw (join_lines-split_lines body) small)
      ∙ ap ok (join_lines-split_lines body)

  -- A body that is imported is what the user gets by exporting the note, with its title, if it is not over
  -- the limit on bodies, the lines get ids of their own, no line is of that note before, and the store's
  -- cipher reads the title and each line again as it wrote them; as many lines are counted as it has.
  pub import_note-export_note :
      (device_id new_note_id id : Uuid) (new_id : ℕ → Uuid) (now : Time) (title body : Text)
      (t t' : Tables) (count limit : ℕ) (scheme : PermissionScheme)
      → ((i j : ℕ) → new_id i ≡ new_id j → i ≡ j)
      → t.db.grants.readable title ≡ true
      → AllReadable t.store.readable (split_lines body)
      → line_rows t.store new_note_id ≡ []
      → (ltb 0 limit && ltb limit (length body)) ≡ false
      → import_note max_notes_per_user user_id uuid_to_string device_id new_id new_note_id now title
          body t
        ≡ ok ((id, count), t')
      → (export_note scheme limit user_id t' id ≡ ok (made_note t id title, body))
        × (count ≡ length (split_lines body))
  import_note-export_note device_id new_note_id id new_id now title body t t' count limit scheme
        distinct titled all fresh small h =
      let (same, counted, store, cipher, notes) =
        import_note-steps device_id new_note_id id new_id now title body t t' count h in
      let found =
        get_note_on-readable t' (made_note t new_note_id title)
          (note_row-first t' (made_note t new_note_id title) t.db.grants.notes notes refl)
          (rw cipher titled) in
      (
        rw same (
            export-made scheme limit t' (made_note t new_note_id title) body
              (note_access-own scheme t' (made_note t new_note_id title) found refl)
              (rw store (
                made_body device_id new_note_id new_id now body t limit distinct all fresh small))),
        counted,
      )
