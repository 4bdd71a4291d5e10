-- ===== src/Protocol.antt =====
-- crates/keeplin-srv/src/protocol.rs: the messages of the collaborative channel, and the version
-- vectors that operations carry. Ids are numbers, a timestamp is a number of microseconds, and a
-- text is the list of its UTF-8 bytes (`content.len()` counts bytes).
pub mod Versions
use keeplin_srv.Base.{ℕ, String, Option, none, some, List}
use keeplin_srv.Base.Dict.{Dict}

abbrev pub Uuid : Type 0
Uuid = ℕ

abbrev pub Time : Type 0
Time = ℕ

abbrev pub Text : Type 0
Text = List ℕ

-- `keeplin_core::storage::note_log::VersionVector`, a map from a writer to its counter
abbrev pub VersionVector : Type 0
VersionVector = Dict String ℕ

pub record Cursor : Type 0 where
  pub line_id : Uuid
  pub column : ℕ

pub record LineSnapshot : Type 0 where
  pub id : Uuid
  pub content : Text
  pub created_at : Time
  pub updated_at : Time
  pub deleted_at : Option Time
  pub vv : VersionVector
  pub last_writer : String

pub record NoteLinesSnapshot : Type 0 where
  pub note_id : Uuid
  pub order : List Uuid
  pub updated_at : Time
  pub vv : VersionVector
  pub last_writer : String
  pub lines : List LineSnapshot

-- What every operation carries.
pub record Stamp : Type 0 where
  pub vv : VersionVector
  pub last_writer : String
  pub updated_at : Time

pub data LineOp : Type 0 where
  insert : Option Uuid → Uuid → Text → Stamp → LineOp
  update : Uuid → Text → Stamp → LineOp
  delete : Uuid → Time → Stamp → LineOp
  move : List Uuid → Option Uuid → Stamp → LineOp

abbrev pub stamp : LineOp → Stamp
stamp (insert after line_id content s) = s
stamp (update line_id content s) = s
stamp (delete line_id deleted_at s) = s
stamp (move line_ids after s) = s

unfoldable pub last_writer : LineOp → String
last_writer op = (stamp op).last_writer

pub record PresenceInfo : Type 0 where
  pub user_id : String
  pub display_name : String
  pub cursor : Option Cursor

pub data CollabClientMsg : Type 0 where
  join leave : Uuid → CollabClientMsg
  op : Uuid → List LineOp → CollabClientMsg
  cursor : Uuid → Cursor → CollabClientMsg
  ack : ℕ → CollabClientMsg

pub data CollabServerMsg : Type 0 where
  welcome : Uuid → NoteLinesSnapshot → CollabServerMsg
  op : ℕ → Uuid → Uuid → List LineOp → CollabServerMsg
  presence : Uuid → List PresenceInfo → CollabServerMsg
  error : String → Option Uuid → CollabServerMsg
