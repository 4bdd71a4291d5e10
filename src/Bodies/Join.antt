-- ===== src/Bodies/Join.antt =====
-- crates/keeplin-srv/src/http.rs: the lines of an imported body make that body up again.
use keeplin_srv.Base.{
  ℕ, ◌+◌, ◌-◌, ◌≤◌, ◌≡◌, refl, ◌∙◌, List, [], ◌∷◌, length, ◌==◌, nat_key, arith, Bool-cases, inl,
  inr, nat_beq_iff, length-append,
}
use keeplin_srv.Protocol.{Text}
use keeplin_srv.Bodies.{newline, split_lines, join_lines, to_first, total_length}

join_lines-to_first : (c : ℕ) (ls : List Text) → join_lines (to_first c ls) ≡ c ∷ join_lines ls
unfolding join_lines
join_lines-to_first c [] = refl
join_lines-to_first c (l ∷ []) = refl
join_lines-to_first c (l ∷ m ∷ ls) = refl

split_lines-some : (body : Text) → 1 ≤ length (split_lines body)
unfolding split_lines
split_lines-some [] = omega arith
split_lines-some (c ∷ cs) = elim (Bool-cases (c == newline)) [
  | inl e ↦ rw e (omega arith)
  | inr e ↦ rw e (some_first c (split_lines cs))
]
  where
    some_first : (c : ℕ) (ls : List Text) → 1 ≤ length (to_first c ls)
    some_first c [] = omega arith
    some_first c (l ∷ ls) = omega arith

join_lines-empty_first :
    (ls : List Text) → 1 ≤ length ls → join_lines ([] ∷ ls) ≡ newline ∷ join_lines ls
unfolding join_lines
join_lines-empty_first [] h = absurd (omega arith)
join_lines-empty_first (l ∷ ls) h = refl

-- A body is put together from its parts.
pub join_lines-split_lines : (body : Text) → join_lines (split_lines body) ≡ body
unfolding split_lines
join_lines-split_lines [] = unfold join_lines in refl
join_lines-split_lines (c ∷ cs) =
    let ih = join_lines-split_lines cs in
    let ne = split_lines-some cs in
    elim (Bool-cases (c == newline)) [
      | inl e ↦
          rw e
            (join_lines-empty_first (split_lines cs) ne ∙ rw (ih, (nat_beq_iff c newline).0 e) refl)
      | inr e ↦ rw e (join_lines-to_first c (split_lines cs) ∙ rw ih refl)
    ]

-- The length that the limit on bodies is compared with is that of the body.
pub length-join_lines :
    (ls : List Text) → length (join_lines ls) ≡ total_length ls + (length ls - 1)
unfolding join_lines
length-join_lines [] = omega arith
length-join_lines (l ∷ []) = omega arith
length-join_lines (l ∷ m ∷ ls) =
    omega (arith, length-append l (newline ∷ join_lines (m ∷ ls)), length-join_lines (m ∷ ls))
