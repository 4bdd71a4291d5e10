-- ===== src/Tests/Permissions.antt =====
-- Access to a note of notebook 5, shared with user 2 for reading and with user 3 by its notebook.
use keeplin_srv.Base.{
  true, ℕ, ◌≡◌, ◌||◌, refl, false, none, some, [], ◌∷◌, if◌then◌else◌, nat_key, ok, err, forbidden,
}
use keeplin_srv.Permissions.{
  read, write, share_read, share_write, manage, strict, Note, Grants, resolve_note_access_on,
  granted, has,
}
use keeplin_srv.Permissions.Bits.{reads, writes, manages, shares_read, shares_write}
use keeplin_srv.Permissions.Resolve.{direct_bits, inherited_bits, resolve_note_access-holds}

abbrev pub note : Note
note = record {
  id = 9;
  title = [];
  owner_id = 1;
  notebook_id = some 5;
  is_todo = false;
  todo_due = none;
  todo_completed = none;
  created_at = 1;
  updated_at = 1;
  deleted_at = none;
}

abbrev pub grants : Grants
grants = record {
  readable = λ t. true;
  notes = note ∷ [];
  note_shares = record { note_id = 9; user_id = 2; capabilities = 8; created_at = 2 } ∷ [];
  notebooks = record { id = 5; user_id = 1; deleted_at = none } ∷ [];
  notebook_shares = record { notebook_id = 5; user_id = 3; capabilities = 16; created_at = 2 } ∷ [];
}

resolve_note_access-holds_example :
    let d : ℕ = direct_bits grants note 3 in
    let i : ℕ = inherited_bits grants note 3 in
    (caps : ℕ) × (resolve_note_access_on grants strict note 3
      ≡ (if reads d || reads i then ok (granted caps) else err forbidden))
    × (has caps read ≡ (reads d || reads i))
    × (has caps write ≡ (writes d || writes i))
    × (has caps share_read ≡ shares_read d)
    × (has caps share_write ≡ shares_write d)
    × (has caps manage ≡ manages d)
resolve_note_access-holds_example = resolve_note_access-holds grants strict note 3 refl
