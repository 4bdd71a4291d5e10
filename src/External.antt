-- ===== src/External.antt =====
-- What the server takes from other packages: keeplin-core's `note_log::resolve` and format limits,
-- the textual form of an id (the crate `uuid`), and the standard library's functions on strings.
-- None of it is in this repository.
use keeplin_srv.Base.{ℕ, String}
use keeplin_srv.Protocol.{Uuid, Time, Text, VersionVector}

-- `keeplin_core::storage::note_log::Winner`
pub data Winner : Type 0 where
  local incoming : Winner

pub record KeeplinCore : Type 0 where
  -- local vector, time and writer; then the incoming ones
  pub resolve : VersionVector → Time → String → VersionVector → Time → String → Winner
  pub max_line_bytes : ℕ
  pub max_lines_per_note : ℕ
  pub max_notes_per_notebook : ℕ
  pub code_line_too_long : String
  pub code_too_many_lines : String
  -- `Uuid::to_string`
  pub uuid_to_string : Uuid → String

-- `str::trim` and `str::to_lowercase` of the standard library
pub record StdText : Type 0 where
  pub trim : Text → Text
  pub to_lowercase : Text → Text
