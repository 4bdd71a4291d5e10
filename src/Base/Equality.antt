-- ===== src/Base/Equality.antt =====
-- What a key of a table has to offer: a test of equality that is right. Ids are numbers, writers are
-- strings.
use Prim.Native.Nat.{ℕ}
use Prim.Native.String.{String}
use mathlib.Core.Path.{◌≡◌, refl}
use mathlib.Core.Logic.{◌↔◌}
use mathlib.Core.Bool.{Bool, true}
use text.Mathlib.Text.{◌==◌ as string_same}
use text.Mathlib.TextEquality.{eq_iff}
use keeplin_srv.Base.Tests.{nat_beq, nat_beq_iff}

pub record Key {ℓ} (K : Type ℓ) : Type ℓ where
  pub same : K → K → Bool
  pub same_iff : (j k : K) → (same j k ≡ true) ↔ (j ≡ k)

instance abbrev pub nat_key : Key ℕ
nat_key = record { same = nat_beq; same_iff = nat_beq_iff }

module _ {ℓ} {K : Type ℓ} ⦃key : Key K⦄ where
  infix 50 ◌==◌
  abbrev pub ◌==◌ : K → K → Bool
  j == k = key.same j k

  pub eq_refl : (k : K) → (k == k) ≡ true
  eq_refl k = (key.same_iff k k).1 refl

instance abbrev pub string_key : Key String
string_key = record { same = string_same; same_iff = eq_iff }
