-- ===== src/Tests/Bodies.antt =====
-- User 1 imports a body of two lines and exports it again; one more note would be over the quota.
use keeplin_srv.Base.{
  true, ℕ, ◌+◌, ◌≡◌, refl, filter, String, false, none, [], ◌∷◌, ok, length, arith, any,
  count_where, update_first, err, quota_exceeded,
}
use keeplin_srv.Protocol.{Uuid, Text}
use keeplin_srv.Permissions.{strict}
use keeplin_srv.Tables.{count_live_notes_for_user_on}
use keeplin_srv.Lines.{Line, line_rows, insert_line_on, set_note_order_on, initialize_note_order_on}
use keeplin_srv.Bodies.{
  Tables, new_note, create_note_on, create_note, split_lines, import_note, insert_lines, ids_from,
  export_note,
}
use keeplin_srv.Bodies.Import.{AllReadable, import_note-export_note}
use keeplin_srv.Bodies.Quota.{live_notes, over_quota, create_note-quota}

abbrev empty : Tables
empty = record {
  db = record {
    now = 4;
    grants = record {
      readable = λ t. true;
      notes = [];
      note_shares = [];
      notebooks = [];
      notebook_shares = [];
    };
    users = [];
    resources = [];
  };
  store = record { readable = λ t. true; lines = []; note_orders = [] };
}

abbrev name : Uuid → String
name id = "laptop"

abbrev two_lines : Text
two_lines = 65 ∷ 10 ∷ 66 ∷ []

abbrev id_of_line : ℕ → Uuid
id_of_line k = k + 20

distinct : (i j : ℕ) → id_of_line i ≡ id_of_line j → i ≡ j
distinct i j e = omega arith

abbrev line : Uuid → Text → Line
line id content = record {
  id = id;
  note_id = 9;
  content = content;
  created_at = 4;
  updated_at = 6;
  deleted_at = none;
  vv = ("laptop", 1) ∷ [];
  last_writer = "laptop";
}

abbrev imported : Tables
imported = record {
  db = record empty.db { grants = record empty.db.grants { notes = new_note 4 9 [] 1 ∷ [] } };
  store = record {
    readable = λ t. true;
    lines = line 21 (66 ∷ []) ∷ line 20 (65 ∷ []) ∷ [];
    note_orders =
        record {
          note_id = 9;
          order = 20 ∷ 21 ∷ [];
          updated_at = 6;
          vv = ("laptop", 2) ∷ [];
          last_writer = "laptop";
        }
        ∷ [];
  };
}

import_note_run : import_note 1 1 name 3 id_of_line 9 6 [] two_lines empty ≡ ok ((9, 2), imported)
unfolding import_note create_note_on any count_live_notes_for_user_on count_where split_lines
    insert_lines ids_from insert_line_on set_note_order_on initialize_note_order_on update_first
import_note_run = refl

no_lines : line_rows empty.store 9 ≡ []
unfolding line_rows filter
no_lines = refl

lines_read : AllReadable empty.store.readable (split_lines two_lines)
unfolding split_lines
lines_read = (refl, (refl, tt))

import_note-export_note_example :
    (export_note strict 8 1 imported 9 ≡ ok (new_note 4 9 [] 1, two_lines))
    × (2 ≡ length (split_lines two_lines))
import_note-export_note_example =
    import_note-export_note 1 1 name 3 9 9 id_of_line 6 [] two_lines empty imported 2 8 strict
      distinct refl lines_read no_lines refl import_note_run

abbrev created : Tables
created = record imported {
  store = record {
    readable = λ t. true;
    lines = [];
    note_orders =
        record { note_id = 9; order = []; updated_at = 4; vv = []; last_writer = "laptop" } ∷ [];
  };
}

create_note_run : create_note 1 1 name 9 [] empty ≡ ok (new_note 4 9 [] 1, created)
unfolding create_note create_note_on any count_live_notes_for_user_on count_where
    initialize_note_order_on
create_note_run = refl

create_note-quota_example :
    (live_notes 1 1 name created ≡ live_notes 1 1 name empty + 1)
    × (over_quota 1 1 name (live_notes 1 1 name created) ≡ false)
create_note-quota_example =
    create_note-quota 1 1 name 9 [] empty created (new_note 4 9 [] 1) create_note_run

-- A second note is refused.
create_note_over : create_note 1 1 name 8 [] created ≡ err (quota_exceeded "note limit reached")
unfolding create_note count_live_notes_for_user_on count_where
create_note_over = refl
