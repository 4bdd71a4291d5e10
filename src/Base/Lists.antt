-- ===== src/Base/Lists.antt =====
-- Lists measured and indexed by native numbers, under the library's names.
use Prim.Native.Nat.{ℕ, zero, suc, ◌+◌, ◌≤◌}
use mathlib.Core.Path.{◌≡◌, refl}
use mathlib.Core.Bool.{Bool, true, false, not}
use mathlib.Core.List.{List, [], ◌∷◌, ◌++◌}
use mathlib.Core.Option.{Option, none, some}
use native.Mathlib.Omega.{arith}
use keeplin_srv.Base.Tests.{nat_beq, if◌then◌else◌, nat_beq_iff}

module _ {ℓ} {A : Type ℓ} where
  abbrev pub length : List A → ℕ
  length [] = 0
  length (x ∷ xs) = suc (length xs)

  abbrev pub is_empty : List A → Bool
  is_empty [] = true
  is_empty (x ∷ xs) = false

  abbrev pub take : ℕ → List A → List A
  take zero xs = []
  take (suc n) [] = []
  take (suc n) (x ∷ xs) = x ∷ take n xs

  abbrev pub drop : ℕ → List A → List A
  drop zero xs = xs
  drop (suc n) [] = []
  drop (suc n) (x ∷ xs) = drop n xs

  pub length-append : (xs ys : List A) → length (xs ++ ys) ≡ length xs + length ys
  length-append [] ys = omega arith
  length-append (x ∷ xs) ys = omega (arith, length-append xs ys)

  -- Rust's `filter`, over a Boolean test.
  unfoldable pub filter : (A → Bool) → List A → List A
  filter p [] = []
  filter p (x ∷ xs) = let rest = filter p xs in if p x then x ∷ rest else rest

  unfoldable pub any : (A → Bool) → List A → Bool
  any p [] = false
  any p (x ∷ xs) = if p x then true else any p xs

  -- The rows of a table that fit, by number.
  unfoldable pub count_where : (A → Bool) → List A → ℕ
  count_where p [] = 0
  count_where p (x ∷ xs) = (if p x then 1 else 0) + count_where p xs

  -- `SELECT … WHERE p`, of which at most one row is fetched.
  unfoldable pub find : (A → Bool) → List A → Option A
  find p [] = none
  find p (x ∷ xs) = if p x then some x else find p xs

  -- `UPDATE … WHERE p`, where `p` holds of at most one row.
  unfoldable pub update_first : (A → Bool) → (A → A) → List A → List A
  update_first p f [] = []
  update_first p f (x ∷ xs) = if p x then f x ∷ xs else x ∷ update_first p f xs

unfoldable pub contains : List ℕ → ℕ → Bool
contains [] a = false
contains (x ∷ xs) a = if nat_beq x a then true else contains xs a

-- How often an id stands in a list.
unfoldable pub count : ℕ → List ℕ → ℕ
count a [] = 0
count a (x ∷ xs) = (if nat_beq x a then 1 else 0) + count a xs

pub count-append : (a : ℕ) (xs ys : List ℕ) → count a (xs ++ ys) ≡ count a xs + count a ys
unfolding count
count-append a [] ys = omega arith
count-append a (x ∷ xs) ys = omega (arith, count-append a xs ys)

pub count-take-drop :
    (a n : ℕ) (xs : List ℕ) → count a (take n xs) + count a (drop n xs) ≡ count a xs
unfolding count
count-take-drop a zero xs = omega arith
count-take-drop a (suc n) [] = omega arith
count-take-drop a (suc n) (x ∷ xs) = omega (arith, count-take-drop a n xs)

pub contains-false : (a : ℕ) (xs : List ℕ) → contains xs a ≡ false → count a xs ≡ 0
unfolding contains count
contains-false a [] h = refl
contains-false a (x ∷ xs) h = ground (arith, contains-false a xs)

pub contains-true : (a : ℕ) (xs : List ℕ) → contains xs a ≡ true → 1 ≤ count a xs
unfolding contains count
contains-true a [] h = ground arith
contains-true a (x ∷ xs) h = ground (arith, contains-true a xs)

pub count-filter-not-contains :
    (a : ℕ) (ids xs : List ℕ)
    → count a (filter (λ x. not (contains ids x)) xs) ≡ (if contains ids a then 0 else count a xs)
unfolding filter count
count-filter-not-contains a ids [] = ground arith
count-filter-not-contains a ids (x ∷ xs) =
    ground (arith, count-filter-not-contains a ids xs, nat_beq_iff x a)

pub find-none {ℓ} :
    {A : Type ℓ} (p : A → Bool) (xs : List A) → ((a : A) → p a ≡ false) → find p xs ≡ none
unfolding find
find-none p [] h = refl
find-none p (x ∷ xs) h = rw (h x) (find-none p xs h)
