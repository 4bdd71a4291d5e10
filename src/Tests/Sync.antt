-- ===== src/Tests/Sync.antt =====
-- A journal of two changes of user 1, made by the devices 7 and 8, and the backlog of device 9.
use keeplin_srv.Base.{ℕ, ◌≡◌, ◌≤◌, refl, List, [], ◌∷◌, arith, filter, any, length, map, nat_key}
use keeplin_srv.Base.Dict.{get, put}
use keeplin_srv.Protocol.{Uuid}
use keeplin_srv.Sync.{
  Change, Journal, reserve, commit, place, enqueue, append_changes, changes_after, get_cursor,
  advance_cursor, deliver, deliver_backlog,
}
use keeplin_srv.Sync.Backlog.{Ascending, waiting, Delivered, deliver_backlog-Delivered}
use keeplin_srv.Sync.Batches.{IsJournal, append_changes_again}

abbrev change : ℕ → Uuid → Change ℕ
change seq origin = record {
  seq = seq;
  user_id = 1;
  origin_device_id = origin;
  batch_id = seq;
  batch_index = 0;
  sync_device_id = "d";
  payload = 100;
}

abbrev journal : Journal ℕ
journal = record { changes = change 1 7 ∷ change 2 8 ∷ []; next_seq = 3; cursors = []; jobs = [] }

journal-Ascending : Ascending 0 journal.changes
journal-Ascending = (omega arith, (omega arith, tt))

journal-IsJournal : IsJournal journal
journal-IsJournal = record {
  ascending = journal-Ascending;
  ahead = (omega arith, (omega arith, tt));
  started = omega arith;
}

two_wait : length (waiting journal 1 (get_cursor journal 9)) ≤ 2
unfolding waiting get_cursor get filter
two_wait = omega arith

deliver_backlog-Delivered_example :
    Delivered journal 1 9
      (get_cursor journal 9)
      (deliver_backlog 2 journal 1 9).0
      (deliver_backlog 2 journal 1 9).1
deliver_backlog-Delivered_example =
    deliver_backlog-Delivered 2 journal 1 9 journal-Ascending two_wait

append_changes_again_example :
    let j1 = (append_changes journal 5 1 7 "d" 4 (10 ∷ 11 ∷ [])).1 in
    let again = append_changes j1 6 1 8 "e" 4 (10 ∷ 11 ∷ []) in
    (again.0 ≡ []) × (again.1.changes ≡ j1.changes) × (again.1.jobs ≡ j1.jobs)
append_changes_again_example = append_changes_again journal 5 6 1 7 8 "d" "e" 4 (10 ∷ 11 ∷ [])

-- Device 7 reserves the number 3 and device 8 the number 4; device 8 commits first, device 9 reads its
-- backlog, then device 7 commits. The change of number 3 is in the journal and never waits for device 9.
abbrev first_rows : List (Change ℕ)
first_rows = (reserve journal 3 1 7 "d" 5 0 (10 ∷ [])).0

abbrev second_rows : List (Change ℕ)
second_rows = (reserve journal 4 1 8 "e" 6 0 (11 ∷ [])).0

abbrev read_between : Journal ℕ
read_between = (deliver_backlog 3 (commit 5 second_rows journal) 1 9).1

abbrev both_committed : Journal ℕ
both_committed = commit 6 first_rows read_between

late_commit :
    (map (λ (c : Change ℕ). c.seq) both_committed.changes ≡ 1 ∷ 2 ∷ 3 ∷ 4 ∷ [])
    × (get_cursor both_committed 9 ≡ 4)
    × (waiting both_committed 1 (get_cursor both_committed 9) ≡ [])
unfolding reserve commit place enqueue any deliver_backlog deliver changes_after advance_cursor
    get_cursor get put filter waiting
late_commit = (refl, refl, refl)
