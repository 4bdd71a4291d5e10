-- ===== src/Permissions/Union.antt =====
-- `Capabilities::from_bits(x | y)` on any two stored numbers, and the test by which a handler finds that
-- capabilities are lost. The low digits of `|` come from a recursion on digits.
use Prim.Native.Nat.{bit_and, bit_or, max, digits, bit_or-bitwise}
use keeplin_srv.Base.{
  ℕ, zero, suc, ◌+◌, ◌-◌, ◌*◌, ◌/◌, ◌%◌, ◌^◌, ◌≤◌, ◌<◌, ◌≡◌, refl, ap, sym, ◌∙◌, Bool, true, false,
  not, ◌&&◌, ◌||◌, arith, ◌==◌, nat_key, ltb,
}
use keeplin_srv.Permissions.{
  read, write, share_read, share_write, manage, normalized, from_bits, has,
}
use keeplin_srv.Permissions.Bits.{all_below, all_below-holds, agree, agree-eq}

-- Once the first number fits, the count of digits to go does not matter.
module _ (z : ℕ → ℕ) (f : ℕ → ℕ → ℕ) where
  digits-zero : (n b : ℕ) → digits z f n zero b ≡ z b
  digits-zero zero b = refl
  digits-zero (suc n) b = refl

  digits-count : (n m a b : ℕ) → a ≤ n → a ≤ m → digits z f n a b ≡ digits z f m a b
  digits-count n m zero b p q = digits-zero n b ∙ sym (digits-zero m b)
  digits-count zero m (suc a) b p q = absurd (omega arith)
  digits-count (suc n) zero (suc a) b p q = absurd (omega arith)
  digits-count (suc n) (suc m) (suc a) b p q =
      ap (λ (rest : ℕ). rest * 2 + f (suc a % 2) (b % 2))
        (digits-count n m (suc a / 2) (b / 2) (omega arith) (omega arith))

-- The lowest digit, and the rest.
bit_or-digit : (a b : ℕ) → bit_or a b ≡ bit_or (a / 2) (b / 2) * 2 + max (a % 2) (b % 2)
bit_or-digit zero b = simp bit_or-bitwise (omega arith)
bit_or-digit (suc a) b = simp bit_or-bitwise (
    omega (
      arith,
      digits-count (λ y. y) max a (suc a / 2) (suc a / 2) (b / 2) (omega arith) (omega arith),
    ))

-- The low digits of `a | b` are those of the low digits of both, for one more digit at a time.
abbrev DigitsAgree : ℕ → Type 0
DigitsAgree m = (a b : ℕ) → bit_or a b % m ≡ bit_or (a % m) (b % m) % m

halves :
    (m a b : ℕ)
    → a % (2 * m) / 2 ≡ a / 2 % m
    → b % (2 * m) / 2 ≡ b / 2 % m
    → a % (2 * m) % 2 ≡ a % 2
    → b % (2 * m) % 2 ≡ b % 2
    → bit_or (a % (2 * m) / 2) (b % (2 * m) / 2) * 2 + max (a % (2 * m) % 2) (b % (2 * m) % 2)
      ≡ bit_or (a / 2 % m) (b / 2 % m) * 2 + max (a % 2) (b % 2)
halves m a b p q r s = rw (p, q, r, s) refl

low_1 : DigitsAgree 1
low_1 a b = omega arith

low_2 : DigitsAgree 2
low_2 a b =
    let low : bit_or (a % 2) (b % 2) ≡ bit_or (a / 2 % 1) (b / 2 % 1) * 2 + max (a % 2) (b % 2) =
      bit_or-digit (a % 2) (b % 2)
      ∙ halves 1 a b (omega arith) (omega arith) (omega arith) (omega arith) in
    omega (arith, bit_or-digit a b, low, low_1 (a / 2) (b / 2))

low_4 : DigitsAgree 4
low_4 a b =
    let low : bit_or (a % 4) (b % 4) ≡ bit_or (a / 2 % 2) (b / 2 % 2) * 2 + max (a % 2) (b % 2) =
      bit_or-digit (a % 4) (b % 4)
      ∙ halves 2 a b (omega arith) (omega arith) (omega arith) (omega arith) in
    omega (arith, bit_or-digit a b, low, low_2 (a / 2) (b / 2))

low_8 : DigitsAgree 8
low_8 a b =
    let low : bit_or (a % 8) (b % 8) ≡ bit_or (a / 2 % 4) (b / 2 % 4) * 2 + max (a % 2) (b % 2) =
      bit_or-digit (a % 8) (b % 8)
      ∙ halves 4 a b (omega arith) (omega arith) (omega arith) (omega arith) in
    omega (arith, bit_or-digit a b, low, low_4 (a / 2) (b / 2))

low_16 : DigitsAgree 16
low_16 a b =
    let low : bit_or (a % 16) (b % 16) ≡ bit_or (a / 2 % 8) (b / 2 % 8) * 2 + max (a % 2) (b % 2) =
      bit_or-digit (a % 16) (b % 16)
      ∙ halves 8 a b (omega arith) (omega arith) (omega arith) (omega arith) in
    omega (arith, bit_or-digit a b, low, low_8 (a / 2) (b / 2))

low_32 : DigitsAgree 32
low_32 a b =
    let low : bit_or (a % 32) (b % 32)
        ≡ bit_or (a / 2 % 16) (b / 2 % 16) * 2 + max (a % 2) (b % 2) =
      bit_or-digit (a % 32) (b % 32)
      ∙ halves 16 a b (omega arith) (omega arith) (omega arith) (omega arith) in
    omega (arith, bit_or-digit a b, low, low_16 (a / 2) (b / 2))

-- What a union holds, whatever both numbers are.
union_at : ℕ → ℕ → Bool
union_at x y =
    let a : ℕ = normalized x in
    let b : ℕ = normalized y in
    let j : ℕ = normalized (bit_or x y % 32) in
    agree (has j manage) (has a manage || has b manage)
    && agree (has j share_write) (has a share_write || has b share_write)
    && agree (has j share_read) (has a share_read || has b share_read)
    && agree (has j write) (has a write || has b write)
    && agree (has j read) (has a read || has b read)
    && ltb j 32

union_table : all_below 32 (λ x. all_below 32 (union_at x)) ≡ true
unfolding all_below union_at agree has normalized
union_table = refl

pub from_bits-or :
    (x y : ℕ)
    → let j : ℕ = from_bits (bit_or x y) in
      (has j manage ≡ (has (from_bits x) manage || has (from_bits y) manage))
      × (has j share_write ≡ (has (from_bits x) share_write || has (from_bits y) share_write))
      × (has j share_read ≡ (has (from_bits x) share_read || has (from_bits y) share_read))
      × (has j write ≡ (has (from_bits x) write || has (from_bits y) write))
      × (has j read ≡ (has (from_bits x) read || has (from_bits y) read))
      × (j < 32)
unfolding from_bits union_at
from_bits-or x y =
    let h =
      all_below-holds 32 (union_at (x % 32)) (y % 32)
        (all_below-holds 32 (λ x. all_below 32 (union_at x)) (x % 32) union_table (omega arith))
        (omega arith) in
    let a : ℕ = normalized (x % 32) in
    let b : ℕ = normalized (y % 32) in
    let k : ℕ = normalized (bit_or (x % 32) (y % 32) % 32) in
    rw (low_32 x y) (
      ground (
        arith,
        agree-eq (has k manage) (has a manage || has b manage),
        agree-eq (has k share_write) (has a share_write || has b share_write),
        agree-eq (has k share_read) (has a share_read || has b share_read),
        agree-eq (has k write) (has a write || has b write),
        agree-eq (has k read) (has a read || has b read),
      ))

closed_at : ℕ → ℕ → Bool
closed_at x y =
    normalized (bit_or (normalized x) (normalized y) % 32) == normalized (bit_or x y % 32)

closed_table : all_below 32 (λ x. all_below 32 (closed_at x)) ≡ true
unfolding all_below closed_at normalized
closed_table = refl

low_table : all_below 32 (λ x. ltb (normalized x) 32) ≡ true
unfolding all_below normalized
low_table = refl

-- To close both sets before their union makes no difference.
pub from_bits-or_closed :
    (x y : ℕ) → from_bits (bit_or (from_bits x) (from_bits y)) ≡ from_bits (bit_or x y)
unfolding from_bits closed_at
from_bits-or_closed x y =
    let h =
      all_below-holds 32 (closed_at (x % 32)) (y % 32)
        (all_below-holds 32 (λ x. all_below 32 (closed_at x)) (x % 32) closed_table (omega arith))
        (omega arith) in
    rw (low_32 x y) (ground arith)

-- A capability that is in the first and not in the second number shows in `before & !after`.
abbrev pub missing : ℕ → ℕ → ℕ → Bool
missing before after capability = has before capability && not (has after capability)

abbrev pub lost : ℕ → ℕ → Bool
lost before after = not (before == after) && not (bit_and before (2 ^ 32 - 1 - after) == 0)

abbrev pub any_missing : ℕ → ℕ → Bool
any_missing b a =
    missing b a manage
    || (missing b a share_write
        || (missing b a share_read || (missing b a write || missing b a read)))

lost_at : ℕ → ℕ → Bool
lost_at b a = agree (lost b a) (any_missing b a)

lost_table : all_below 32 (λ x. all_below 32 (lost_at x)) ≡ true
unfolding all_below lost_at agree has
lost_table = refl

-- The test finds a loss exactly if a capability that was held is not held any more.
pub lost-any : (b a : ℕ) → b < 32 → a < 32 → lost b a ≡ any_missing b a
unfolding lost_at
lost-any b a sb sa = agree-eq (lost b a) (any_missing b a) (
    all_below-holds 32 (lost_at b) a
      (all_below-holds 32 (λ x. all_below 32 (lost_at x)) b lost_table sb) sa)

from_bits-zero : from_bits 0 ≡ 0
unfolding from_bits normalized
from_bits-zero = refl

has-zero :
    (has 0 manage ≡ false)
    × (has 0 share_write ≡ false)
    × (has 0 share_read ≡ false)
    × (has 0 write ≡ false)
    × (has 0 read ≡ false)
unfolding has
has-zero = (refl, refl, refl, refl, refl)

-- Nothing is lost by what is added.
pub lost-or_nothing : (s y : ℕ) → lost (from_bits (bit_or s 0)) (from_bits (bit_or s y)) ≡ false
lost-or_nothing s y =
    let b = from_bits-or s 0 in
    let a = from_bits-or s y in
    rw
      (
        lost-any (from_bits (bit_or s 0)) (from_bits (bit_or s y)) b.5 a.5,
        b.0,
        b.1,
        b.2,
        b.3,
        b.4,
        a.0,
        a.1,
        a.2,
        a.3,
        a.4,
        from_bits-zero,
      )
      (ground (arith, has-zero))
