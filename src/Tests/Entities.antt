-- ===== src/Tests/Entities.antt =====
-- A table of one notebook of user 1, and a note's tag.
use keeplin_srv.Base.{ℕ, ◌≡◌, refl, none, List, [], ◌∷◌, ltb, find, if◌then◌else◌, ◌==◌, nat_key}
use keeplin_srv.Protocol.{Uuid, Stamp}
use keeplin_srv.External.{KeeplinCore, local, incoming}
use keeplin_srv.Entities.{Entity, Model, NotebookBody, NoteTag, with_id, upsert_notebook}
use keeplin_srv.Entities.Rows.{UniqueIds, upserted, upsert-with_id}

-- A `resolve` that goes by the time alone.
abbrev core : KeeplinCore
core = record {
  resolve = λ v t w v' t' w'. if ltb t t' then incoming else local;
  max_line_bytes = 8;
  max_lines_per_note = 3;
  max_notes_per_notebook = 2;
  code_line_too_long = "line_too_long";
  code_too_many_lines = "too_many_lines";
  uuid_to_string = λ id. "laptop";
}

abbrev at_time : ℕ → Stamp
at_time t = record { vv = ("laptop", t) ∷ []; last_writer = "laptop"; updated_at = t }

abbrev notebooks : List (Entity NotebookBody)
notebooks =
    record {
      id = 5;
      user_id = 1;
      body = record { title = 65 ∷ []; alias = none };
      created_at = 1;
      deleted_at = none;
      stamp = at_time 3;
    }
    ∷ []

abbrev notebook_id : Uuid
notebook_id = 5

abbrev renamed : Model NotebookBody
renamed = record {
  id = 5;
  body = record { title = 66 ∷ []; alias = none };
  created_at = 1;
  deleted_at = none;
  stamp = at_time 4;
}

notebooks-UniqueIds : UniqueIds core notebooks
unfolding find
notebooks-UniqueIds = (refl, tt)

upsert-with_id_example : with_id core 5 (upsert_notebook core notebooks 2 renamed).1 ≡ (
    if renamed.id == 5
    then upserted core 2 renamed (with_id core 5 notebooks)
    else with_id core 5 notebooks)
upsert-with_id_example = upsert-with_id core notebooks 2 renamed 5 notebooks-UniqueIds

abbrev tag_of_note : NoteTag
tag_of_note = record { user_id = 1; note_id = 2; tag_id = 3; deleted_at = none; stamp = at_time 4 }
