-- ===== src/Lines/Rows.antt =====
-- What each statement on lines and orders does to what the others read.
use keeplin_srv.Base.{
  ℕ, ◌+◌, ◌≤◌, ◌≡◌, refl, Bool, true, ◌&&◌, some, List, [], ◌∷◌, arith, find, update_first, ◌⊎◌,
  inl, inr, Option-cases, Bool-cases, ok, err, unreadable, count_where, if◌then◌else◌, ◌==◌,
  nat_key,
}
use mathlib.Core.Option
use keeplin_srv.Protocol.{Uuid, Time, Text, Stamp}
use keeplin_srv.Lines.{
  Line, NoteOrder, Store, line_row, get_line_on, insert_line_on, update_line_on,
  soft_delete_line_on, get_note_order_on, set_note_order_on, count_live_lines_on, is_live, edit_row,
  bury_row, reorder_row, new_row,
}

-- A row keeps its key when it is updated.
module _ {A : Type 0} (key : A → ℕ) (f : A → A) (keep : (a : A) → key (f a) ≡ key a) where
  find-update_first :
      (k j : ℕ) (xs : List A)
      → find (λ a. key a == j) (update_first (λ a. key a == k) f xs)
        ≡ (if k == j then Option.map f (find (λ a. key a == j) xs) else find (λ a. key a == j) xs)
  unfolding find update_first
  find-update_first k j [] = ground arith
  find-update_first k j (x ∷ xs) = ground (arith, keep x, find-update_first k j xs)

-- An update of one row adds one at most to a count, and nothing if no row comes to be counted.
module _ {A : Type 0} (p : A → Bool) (f : A → A) (q : A → Bool) where
  pub count_where-update_first :
      (xs : List A) → count_where q (update_first p f xs) ≤ count_where q xs + 1
  unfolding count_where update_first
  count_where-update_first [] = omega arith
  count_where-update_first (x ∷ xs) = ground (arith, count_where-update_first xs)

  count_where-update_first_le :
      ((a : A) → q (f a) ≡ true → q a ≡ true)
      → (xs : List A) → count_where q (update_first p f xs) ≤ count_where q xs
  unfolding count_where update_first
  count_where-update_first_le h [] = omega arith
  count_where-update_first_le h (x ∷ xs) = ground (arith, h x, count_where-update_first_le h xs)

pub get_line-insert_line :
    (s : Store) (now : Time) (id n : Uuid) (c : Text) (st : Stamp) (j : Uuid)
    → line_row (insert_line_on s now id n c st) j
      ≡ (if id == j then some (new_row now id n c st) else line_row s j)
unfolding line_row insert_line_on find
get_line-insert_line s now id n c st j = refl

pub get_line-update_line :
    (s : Store) (id : Uuid) (c : Text) (st : Stamp) (j : Uuid)
    → line_row (update_line_on s id c st) j
      ≡ (if id == j then Option.map (edit_row c st) (line_row s j) else line_row s j)
unfolding line_row update_line_on
get_line-update_line s id c st j =
    find-update_first (λ (l : Line). l.id) (edit_row c st) (λ l. refl) id j s.lines

pub get_line-soft_delete_line :
    (s : Store) (id : Uuid) (at : Time) (st : Stamp) (j : Uuid)
    → line_row (soft_delete_line_on s id at st) j
      ≡ (if id == j then Option.map (bury_row at st) (line_row s j) else line_row s j)
unfolding line_row soft_delete_line_on
get_line-soft_delete_line s id at st j =
    find-update_first (λ (l : Line). l.id) (bury_row at st) (λ l. refl) id j s.lines

pub get_note_order-set_note_order :
    (s : Store) (n : Uuid) (order : List Uuid) (st : Stamp) (m : Uuid)
    → get_note_order_on (set_note_order_on s n order st) m ≡ (
        if n == m
        then Option.map (reorder_row order st) (get_note_order_on s m)
        else get_note_order_on s m)
unfolding get_note_order_on set_note_order_on
get_note_order-set_note_order s n order st m =
    find-update_first (λ (o : NoteOrder). o.note_id) (reorder_row order st) (λ o. refl) n m
      s.note_orders

-- The statements on one table leave the other as it is.
pub get_line-set_note_order :
    (s : Store) (n : Uuid) (order : List Uuid) (st : Stamp) (j : Uuid)
    → line_row (set_note_order_on s n order st) j ≡ line_row s j
unfolding line_row set_note_order_on
get_line-set_note_order s n order st j = refl

pub get_note_order-insert_line :
    (s : Store) (now : Time) (id n : Uuid) (c : Text) (st : Stamp) (m : Uuid)
    → get_note_order_on (insert_line_on s now id n c st) m ≡ get_note_order_on s m
unfolding get_note_order_on insert_line_on
get_note_order-insert_line s now id n c st m = refl

pub get_note_order-update_line :
    (s : Store) (id : Uuid) (c : Text) (st : Stamp) (m : Uuid)
    → get_note_order_on (update_line_on s id c st) m ≡ get_note_order_on s m
unfolding get_note_order_on update_line_on
get_note_order-update_line s id c st m = refl

pub get_note_order-soft_delete_line :
    (s : Store) (id : Uuid) (at : Time) (st : Stamp) (m : Uuid)
    → get_note_order_on (soft_delete_line_on s id at st) m ≡ get_note_order_on s m
unfolding get_note_order_on soft_delete_line_on
get_note_order-soft_delete_line s id at st m = refl

id-find :
    (j : Uuid) (xs : List Line) (l : Line) → find (λ (a : Line). a.id == j) xs ≡ some l → l.id ≡ j
unfolding find
id-find j [] l h = cc
id-find j (x ∷ xs) l h = ground (arith, id-find j xs l)

-- A line that is found has the id that was asked for, and so has an order.
pub id-get_line : (s : Store) (j : Uuid) (l : Line) → line_row s j ≡ some l → l.id ≡ j
unfolding line_row
id-get_line s j l h = id-find j s.lines l h

-- Inserting adds one live line to its note; burying adds none; editing adds one at most.
pub count_live-insert_line :
    (s : Store) (now : Time) (id n : Uuid) (c : Text) (st : Stamp) (m : Uuid)
    → count_live_lines_on (insert_line_on s now id n c st) m
      ≡ (if n == m then 1 else 0) + count_live_lines_on s m
unfolding count_live_lines_on insert_line_on count_where
count_live-insert_line s now id n c st m = ground arith

pub count_live-soft_delete_line :
    (s : Store) (id : Uuid) (at : Time) (st : Stamp) (m : Uuid)
    → count_live_lines_on (soft_delete_line_on s id at st) m ≤ count_live_lines_on s m
unfolding count_live_lines_on soft_delete_line_on
count_live-soft_delete_line s id at st m =
    count_where-update_first_le (λ (l : Line). l.id == id) (bury_row at st)
      (λ (l : Line). l.note_id == m && is_live l) (λ a h. ground arith) s.lines

pub count_live-update_line :
    (s : Store) (id : Uuid) (c : Text) (st : Stamp) (m : Uuid)
    → count_live_lines_on (update_line_on s id c st) m ≤ count_live_lines_on s m + 1
unfolding count_live_lines_on update_line_on
count_live-update_line s id c st m =
    count_where-update_first (λ (l : Line). l.id == id) (edit_row c st)
      (λ (l : Line). l.note_id == m && is_live l) s.lines

pub count_live-set_note_order :
    (s : Store) (n : Uuid) (order : List Uuid) (st : Stamp) (m : Uuid)
    → count_live_lines_on (set_note_order_on s n order st) m ≡ count_live_lines_on s m
unfolding count_live_lines_on set_note_order_on
count_live-set_note_order s n order st m = refl

-- What a statement that reads a line gives: the row, or an error.
pub get_line_on-cases :
    (s : Store) (id : Uuid)
    → (get_line_on s id ≡ ok (line_row s id)) ⊎ (get_line_on s id ≡ err unreadable)
unfolding get_line_on
get_line_on-cases s id = elim (Option-cases (line_row s id)) [
  | inl e ↦ inl (rw e refl)
  | inr (l, e) ↦ elim (Bool-cases (s.readable l.content)) [
    | inl r ↦ inl (rw (e, r) refl)
    | inr r ↦ inr (rw (e, r) refl)
  ]
]
