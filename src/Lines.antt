-- ===== src/Lines.antt =====
-- crates/keeplin-srv/src/store.rs: the tables `lines` and `note_line_order`, and the statements that
-- read and write them. The column of the content holds what `cipher.encrypt` makes of the text that a row
-- has here, and a statement that reads rows gives what `cipher.decrypt` makes of the column: the text
-- where `readable` says so, and an error where not. For a cipher and one text this is the theorem
-- Crypto.RoundTrip.decrypt-encrypt_readable. An infrastructure fault of the database, or of sealing a
-- text, is not modelled.
pub mod Rows
use keeplin_srv.Base.{
  ℕ, String, Bool, true, false, ◌&&◌, not, Option, none, some, List, [], ◌∷◌, length, is_none,
  is_some, is_empty, ltb, contains, find, filter, update_first, count_where, if◌then◌else◌, ◌==◌,
  nat_key, unreadable, Result, ok, err, ◌>>=◌,
}
use keeplin_srv.Protocol.{Uuid, Time, Text, VersionVector, Stamp}

pub record Line : Type 0 where
  pub id : Uuid
  pub note_id : Uuid
  pub content : Text
  pub created_at : Time
  pub updated_at : Time
  pub deleted_at : Option Time
  pub vv : VersionVector
  pub last_writer : String

pub record NoteOrder : Type 0 where
  pub note_id : Uuid
  pub order : List Uuid
  pub updated_at : Time
  pub vv : VersionVector
  pub last_writer : String

-- `readable` is the store's cipher: which texts it reads again as it wrote them.
pub record Store : Type 0 where
  pub readable : Text → Bool
  pub lines : List Line
  pub note_orders : List NoteOrder

-- The row of a line, before its content is decrypted: `SELECT … FROM lines WHERE id = $1`.
unfoldable pub line_row : Store → Uuid → Option Line
line_row s id = find (λ (l : Line). l.id == id) s.lines

-- `SELECT … FROM lines WHERE note_id = $1`, before the contents are decrypted
unfoldable pub line_rows : Store → Uuid → List Line
line_rows s note_id = filter (λ (l : Line). l.note_id == note_id) s.lines

abbrev pub decrypted : (Text → Bool) → Option Line → Result (Option Line)
decrypted readable none = ok none
decrypted readable (some l) = if readable l.content then ok (some l) else err unreadable

unfoldable pub get_line_on : Store → Uuid → Result (Option Line)
get_line_on s id = decrypted s.readable (line_row s id)

unfoldable pub decrypt_all : (Text → Bool) → List Line → Result (List Line)
decrypt_all readable [] = ok []
decrypt_all readable (l ∷ rows) = do
  rest ← decrypt_all readable rows
  if readable l.content then ok (l ∷ rest) else err unreadable

unfoldable pub list_lines : Store → Uuid → Result (List Line)
list_lines s note_id = decrypt_all s.readable (line_rows s note_id)

-- `SET content, vv, last_writer, updated_at, deleted_at = NULL`: an edit revives the line.
abbrev pub edit_row : Text → Stamp → Line → Line
edit_row content stamp l = record l {
  content = content;
  vv = stamp.vv;
  last_writer = stamp.last_writer;
  updated_at = stamp.updated_at;
  deleted_at = none;
}

abbrev pub bury_row : Time → Stamp → Line → Line
bury_row deleted_at stamp l = record l {
  deleted_at = some deleted_at;
  vv = stamp.vv;
  last_writer = stamp.last_writer;
  updated_at = stamp.updated_at;
}

abbrev pub reorder_row : List Uuid → Stamp → NoteOrder → NoteOrder
reorder_row order stamp o = record o {
  order = order;
  vv = stamp.vv;
  last_writer = stamp.last_writer;
  updated_at = stamp.updated_at;
}

abbrev pub new_row : Time → Uuid → Uuid → Text → Stamp → Line
new_row now id note_id content stamp = record {
  id = id;
  note_id = note_id;
  content = content;
  created_at = now;
  updated_at = stamp.updated_at;
  deleted_at = none;
  vv = stamp.vv;
  last_writer = stamp.last_writer;
}

-- `INSERT INTO lines`: the new row is live, with the content as it was given, which the column holds sealed. The order of rows is not observed.
unfoldable pub insert_line_on : Store → Time → Uuid → Uuid → Text → Stamp → Store
insert_line_on s now id note_id content stamp = record s {
  lines = new_row now id note_id content stamp ∷ s.lines;
}

-- `UPDATE lines … WHERE id = $1`
unfoldable pub update_line_on : Store → Uuid → Text → Stamp → Store
update_line_on s id content stamp = record s {
  lines = update_first (λ (l : Line). l.id == id) (edit_row content stamp) s.lines;
}

unfoldable pub soft_delete_line_on : Store → Uuid → Time → Stamp → Store
soft_delete_line_on s id deleted_at stamp = record s {
  lines = update_first (λ (l : Line). l.id == id) (bury_row deleted_at stamp) s.lines;
}

unfoldable pub get_note_order_on : Store → Uuid → Option NoteOrder
get_note_order_on s note_id = find (λ (o : NoteOrder). o.note_id == note_id) s.note_orders

unfoldable pub set_note_order_on : Store → Uuid → List Uuid → Stamp → Store
set_note_order_on s note_id order stamp = record s {
  note_orders =
      update_first (λ (o : NoteOrder). o.note_id == note_id) (reorder_row order stamp)
        s.note_orders;
}

-- `VALUES ($1, '[]', now(), '{}', owner)`
unfoldable pub initialize_note_order_on : Store → Time → Uuid → String → Store
initialize_note_order_on s now note_id owner_id = record s {
  note_orders =
      record { note_id = note_id; order = []; updated_at = now; vv = []; last_writer = owner_id }
      ∷ s.note_orders;
}

abbrev pub is_live : Line → Bool
is_live l = is_none l.deleted_at

-- `SELECT COUNT(*) FROM lines WHERE note_id = $1 AND deleted_at IS NULL`
unfoldable pub count_live_lines_on : Store → Uuid → ℕ
count_live_lines_on s note_id =
    count_where (λ (l : Line). l.note_id == note_id && is_live l) s.lines
