-- ===== src/Permissions/Bits.antt =====
-- `Capabilities`: five bits, closed under what a higher capability implies. The laws are checked over
-- all values, five bits or two times five.
use Prim.Native.Nat.{bit_and, bit_or}
use keeplin_srv.Base.{
  refl, ◌||◌, false, ap, ltb, ℕ, zero, suc, ◌%◌, ◌<◌, ◌≡◌, Bool, true, ◌&&◌, not, arith, ◌==◌,
  nat_key,
}
use keeplin_srv.Permissions.{
  PermissionScheme, notebook_inheritance, read, write, share_read, share_write, manage, normalized,
  from_bits, has,
}

unfoldable pub all_below : ℕ → (ℕ → Bool) → Bool
all_below zero p = true
all_below (suc n) p = p n && all_below n p

pub all_below-holds : (n : ℕ) (p : ℕ → Bool) (x : ℕ) → all_below n p ≡ true → x < n → p x ≡ true
unfolding all_below
all_below-holds zero p x h lt = absurd (omega arith)
all_below-holds (suc n) p x h lt = ground (arith, all_below-holds n p x)

unfoldable pub agree : Bool → Bool → Bool
agree true b = b
agree false b = not b

pub agree-eq : (a b : Bool) → agree a b ≡ true → a ≡ b
unfolding agree
agree-eq true b h = ground arith
agree-eq false b h = ground arith

-- Which of the bits imply a capability, itself among them.
abbrev pub manages : ℕ → Bool
manages b = has b manage

abbrev pub shares_write : ℕ → Bool
shares_write b = has b share_write || manages b

abbrev pub shares_read : ℕ → Bool
shares_read b = has b share_read || shares_write b

abbrev pub writes : ℕ → Bool
writes b = has b write || shares_write b

abbrev pub reads : ℕ → Bool
reads b = has b read || (writes b || shares_read b)

closed_at : ℕ → Bool
closed_at b =
    agree (has (normalized b) manage) (manages b)
    && agree (has (normalized b) share_write) (shares_write b)
    && agree (has (normalized b) share_read) (shares_read b)
    && agree (has (normalized b) write) (writes b)
    && agree (has (normalized b) read) (reads b)
    && normalized (normalized b) == normalized b
    && ltb (normalized b) 32

closed_table : all_below 32 closed_at ≡ true
unfolding all_below closed_at agree has normalized
closed_table = refl

small_mod : (x : ℕ) → x < 32 → x % 32 ≡ x
small_mod x h = omega arith

closed :
    (b : ℕ)
    → b < 32
    → (has (normalized b) manage ≡ manages b)
      × (has (normalized b) share_write ≡ shares_write b)
      × (has (normalized b) share_read ≡ shares_read b)
      × (has (normalized b) write ≡ writes b)
      × (has (normalized b) read ≡ reads b)
      × (normalized (normalized b) ≡ normalized b)
      × (normalized b < 32)
unfolding closed_at
closed b small =
    let h = all_below-holds 32 closed_at b closed_table small in
    ground (
      arith,
      agree-eq (has (normalized b) manage) (manages b),
      agree-eq (has (normalized b) share_write) (shares_write b),
      agree-eq (has (normalized b) share_read) (shares_read b),
      agree-eq (has (normalized b) write) (writes b),
      agree-eq (has (normalized b) read) (reads b),
    )

-- Of any stored number of capabilities, `from_bits` holds a capability exactly if its low bits set it
-- or one that implies it; it is below 32, and taking it again changes nothing.
pub from_bits-closed :
    (bits : ℕ)
    → (has (from_bits bits) manage ≡ manages (bits % 32))
      × (has (from_bits bits) share_write ≡ shares_write (bits % 32))
      × (has (from_bits bits) share_read ≡ shares_read (bits % 32))
      × (has (from_bits bits) write ≡ writes (bits % 32))
      × (has (from_bits bits) read ≡ reads (bits % 32))
      × (from_bits (from_bits bits) ≡ from_bits bits)
      × (from_bits bits < 32)
unfolding from_bits
from_bits-closed bits =
    let c = closed (bits % 32) (omega arith) in
    ground (arith, ap normalized (small_mod (normalized (bits % 32)) c.6))

-- A mask with read and write, and the union of two closed sets.
masked_at : ℕ → Bool
masked_at x =
    let i : ℕ = normalized (bit_and (normalized x) (bit_or read write)) in
    agree (has i manage) false
    && agree (has i share_write) false
    && agree (has i share_read) false
    && agree (has i write) (has (normalized x) write)
    && agree (has i read) (has (normalized x) read)
    && bit_and (normalized x) (bit_or read write) == bit_and (normalized x) (bit_or read write) % 32
    && normalized i == i
    && ltb i 32

masked_table : all_below 32 masked_at ≡ true
unfolding all_below masked_at agree has normalized
masked_table = refl

joined_at : ℕ → ℕ → Bool
joined_at x y =
    let a : ℕ = normalized x in
    let b : ℕ = normalized y in
    let j : ℕ = normalized (bit_or a b) in
    agree (has j manage) (has a manage || has b manage)
    && agree (has j share_write) (has a share_write || has b share_write)
    && agree (has j share_read) (has a share_read || has b share_read)
    && agree (has j write) (has a write || has b write)
    && agree (has j read) (has a read || has b read)
    && agree (j == 0) (not (has a read || has b read))
    && ltb (bit_or a b) 32

joined_table : all_below 32 (λ x. all_below 32 (joined_at x)) ≡ true
unfolding all_below joined_at agree has normalized
joined_table = refl

masked :
    (x : ℕ)
    → x < 32
    → (i : ℕ) → i ≡ normalized (bit_and (normalized x) (bit_or read write) % 32)
    → (has i manage ≡ false)
      × (has i share_write ≡ false)
      × (has i share_read ≡ false)
      × (has i write ≡ has (normalized x) write)
      × (has i read ≡ has (normalized x) read)
      × (normalized i ≡ i)
      × (i < 32)
unfolding masked_at
masked x small i e =
    let h = all_below-holds 32 masked_at x masked_table small in
    let j : ℕ = normalized (bit_and (normalized x) (bit_or read write)) in
    ground (
      arith,
      agree-eq (has j manage) false,
      agree-eq (has j share_write) false,
      agree-eq (has j share_read) false,
      agree-eq (has j write) (has (normalized x) write),
      agree-eq (has j read) (has (normalized x) read),
    )

joined :
    (x y : ℕ)
    → x < 32
    → y < 32
    → (j : ℕ) → j ≡ normalized (bit_or (normalized x) (normalized y) % 32)
    → (has j manage ≡ (has (normalized x) manage || has (normalized y) manage))
      × (has j share_write ≡ (has (normalized x) share_write || has (normalized y) share_write))
      × (has j share_read ≡ (has (normalized x) share_read || has (normalized y) share_read))
      × (has j write ≡ (has (normalized x) write || has (normalized y) write))
      × (has j read ≡ (has (normalized x) read || has (normalized y) read))
      × ((j == 0) ≡ not (has (normalized x) read || has (normalized y) read))
unfolding joined_at
joined x y sx sy j e =
    let h =
      all_below-holds 32 (joined_at x) y
        (all_below-holds 32 (λ x. all_below 32 (joined_at x)) x joined_table sx) sy in
    let a : ℕ = normalized x in
    let b : ℕ = normalized y in
    let k : ℕ = normalized (bit_or a b) in
    ground (
      arith,
      small_mod (bit_or a b),
      agree-eq (has k manage) (has a manage || has b manage),
      agree-eq (has k share_write) (has a share_write || has b share_write),
      agree-eq (has k share_read) (has a share_read || has b share_read),
      agree-eq (has k write) (has a write || has b write),
      agree-eq (has k read) (has a read || has b read),
      agree-eq (k == 0) (not (has a read || has b read)),
    )

-- What is inherited through the scheme's mask: read and write, as the notebook gives them.
pub from_bits-masked :
    (scheme : PermissionScheme) (x : ℕ)
    → let i : ℕ = from_bits (bit_and (from_bits x) (notebook_inheritance scheme)) in
      (has i manage ≡ false)
      × (has i share_write ≡ false)
      × (has i share_read ≡ false)
      × (has i write ≡ writes (x % 32))
      × (has i read ≡ reads (x % 32))
      × (from_bits i ≡ i)
unfolding from_bits notebook_inheritance
from_bits-masked scheme x =
    let m = masked (x % 32) (omega arith) _ refl in
    let c = closed (x % 32) (omega arith) in
    ground (
      arith,
      ap normalized
          (small_mod (normalized (bit_and (normalized (x % 32)) (bit_or read write) % 32)) m.6),
    )

-- The union of two sets of capabilities holds what either holds, and is empty if neither can read.
pub from_bits-union :
    (x y : ℕ)
    → from_bits x ≡ x
    → from_bits y ≡ y
    → let j : ℕ = from_bits (bit_or x y) in
      (has j manage ≡ (has x manage || has y manage))
      × (has j share_write ≡ (has x share_write || has y share_write))
      × (has j share_read ≡ (has x share_read || has y share_read))
      × (has j write ≡ (has x write || has y write))
      × (has j read ≡ (has x read || has y read))
      × ((j == 0) ≡ not (has x read || has y read))
unfolding from_bits
from_bits-union x y ex ey =
    rw (ex, ey) at (joined (x % 32) (y % 32) (omega arith) (omega arith) _ refl)
