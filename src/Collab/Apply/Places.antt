-- ===== src/Collab/Apply/Places.antt =====
-- What an accepted operation does to the lines and the orders, said without the functions that do it.
use keeplin_srv.Base.{
  ◌≤◌, ◌≡◌, String, Bool, false, not, Option, none, some, List, [], ◌∷◌, ◌++◌, contains, filter,
  ◌==◌, nat_key,
}
use keeplin_srv.Protocol.{
  Uuid, Time, Text, VersionVector, Stamp, LineOp, insert, update, delete, move,
}
use keeplin_srv.Protocol.Versions.{counter}
use keeplin_srv.External.{KeeplinCore}
use keeplin_srv.Lines.{Line, NoteOrder, Store, line_row, get_note_order_on}

-- The ids stand behind the first place of `after`, or in front of all if there is none.
abbrev pub IsPlaced : Option Uuid → List Uuid → List Uuid → List Uuid → Type 0
IsPlaced none ids before now = now ≡ ids ++ before
IsPlaced (some after) ids before now =
    (front : List Uuid) × (rest : List Uuid) × (before ≡ front ++ after ∷ rest)
    × (contains front after ≡ false)
    × (now ≡ front ++ after ∷ (ids ++ rest))

-- What is stored has taken in the operation's vector, and carries its writer and its time.
pub record IsStamped (st : Stamp) (before now : VersionVector) (writer : String) (time : Time)
    : Type 0 where
  pub kept : (w : String) → counter before w ≤ counter now w
  pub reached : (w : String) → counter st.vv w ≤ counter now w
  pub last_writer : writer ≡ st.last_writer
  pub updated_at : time ≡ st.updated_at

module _ (core : KeeplinCore) (s : Store) (n : Uuid) (t : Store) where
  -- The ids are placed in the order of the note, which holds `left` but for them.
  pub record OrderPlaced (ids : List Uuid) (after : Option Uuid) (st : Stamp)
      (left : List Uuid → List Uuid) : Type 0 where
    pub before : NoteOrder
    pub now : NoteOrder
    pub stored : get_note_order_on s n ≡ some before
    pub placed : get_note_order_on t n ≡ some now
    pub order : IsPlaced after ids (left before.order) now.order
    pub stamped : IsStamped st before.vv now.vv now.last_writer now.updated_at

  abbrev pub names : LineOp → Uuid → Bool
  names (insert after id c st) j = id == j
  names (update id c st) j = id == j
  names (delete id at st) j = id == j
  names (move ids after st) j = false

  -- The line with the content that the operation gives, or with the one it had.
  pub record LineChanged (id : Uuid) (content : Option Text) (dead : Option Time) (st : Stamp)
      : Type 0 where
    pub before : Line
    pub now : Line
    pub stored : line_row s id ≡ some before
    pub changed : line_row t id ≡ some now
    pub content_now : now.content ≡ (elim content [ none ↦ before.content | some c ↦ c ])
    pub deleted : now.deleted_at ≡ dead
    pub of_note : now.note_id ≡ n
    pub created : now.created_at ≡ before.created_at
    pub stamped : IsStamped st before.vv now.vv now.last_writer now.updated_at

  pub record LineAdded (now : Time) (id : Uuid) (content : Text) (st : Stamp) : Type 0 where
    pub line : Line
    pub fresh : line_row s id ≡ none
    pub added : line_row t id ≡ some line
    pub content_now : line.content ≡ content
    pub alive : line.deleted_at ≡ none
    pub of_note : line.note_id ≡ n
    pub created : line.created_at ≡ now
    pub vector : line.vv ≡ st.vv
    pub writer : line.last_writer ≡ st.last_writer

  abbrev pub Change : Time → LineOp → Type 0
  Change now (insert after id c st) =
      OrderPlaced (id ∷ []) after st (λ xs. xs) × LineAdded now id c st
  Change now (update id c st) = LineChanged id (some c) none st
  Change now (delete id at st) = LineChanged id none (some at) st
  Change now (move ids after st) =
      OrderPlaced ids after st (λ xs. filter (λ id. not (contains ids id)) xs)

  -- The change that the operation asks for, and no other: the lines that it does not name are as they were,
  -- and so are the orders of other notes.
  pub record IsDone (now : Time) (op : LineOp) : Type 0 where
    pub change : Change now op
    pub lines : (j : Uuid) → names op j ≡ false → line_row t j ≡ line_row s j
    pub orders : (m : Uuid) → (n == m) ≡ false → get_note_order_on t m ≡ get_note_order_on s m
