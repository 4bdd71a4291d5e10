-- ===== src/Base/Dict.antt =====
-- Maps as association lists (Rust's `HashMap`), with their laws in `if` form.
use mathlib.Core.Path.{◌≡◌, refl}
use mathlib.Core.Option.{Option, none, some}
use mathlib.Core.List.{List, [], ◌∷◌}
use native.Mathlib.Omega.{arith}
use mathlib.Core.Bool.{Bool}
use keeplin_srv.Base.Lists.{filter}
use keeplin_srv.Base.Tests.{if◌then◌else◌}
use keeplin_srv.Base.Equality.{Key, ◌==◌}

abbrev pub Dict {ℓ κ} : Type ℓ → Type κ → Type (ℓ ⊔ κ)
Dict K V = List (K × V)

module _ {ℓ κ} {K : Type ℓ} {V : Type κ} ⦃e : Key K⦄ where
  unfoldable pub get : K → Dict K V → Option V
  get k [] = none
  get k ((j, v) ∷ m) = if j == k then some v else get k m

  unfoldable pub put : K → V → Dict K V → Dict K V
  put k v [] = (k, v) ∷ []
  put k v ((j, w) ∷ m) = if j == k then (k, v) ∷ m else (j, w) ∷ put k v m

  unfoldable pub remove : K → Dict K V → Dict K V
  remove k [] = []
  remove k ((j, w) ∷ m) = let rest = remove k m in if j == k then rest else (j, w) ∷ rest

  pub get-put :
      (k j : K) (v : V) (m : Dict K V) → get j (put k v m) ≡ (if k == j then some v else get j m)
  unfolding get put
  get-put k j v [] = refl
  get-put k j v ((i, w) ∷ m) =
      ground (arith, e.same_iff k j, e.same_iff i k, e.same_iff i j, get-put k j v m)

  pub get-remove :
      (k j : K) (m : Dict K V) → get j (remove k m) ≡ (if k == j then none else get j m)
  unfolding get remove
  get-remove k j [] = ground arith
  get-remove k j ((i, w) ∷ m) =
      ground (arith, e.same_iff k j, e.same_iff i k, e.same_iff i j, get-remove k j m)

module _ {K V : Type 0} ⦃e : Key K⦄ where
  -- The entries of a map: no key stands twice.
  abbrev pub IsMap : Dict K V → Type 0
  IsMap [] = Unit {0}
  IsMap ((k, v) ∷ m) = (get k m ≡ none) × IsMap m

  pub put-IsMap : (k : K) (v : V) (m : Dict K V) → IsMap m → IsMap (put k v m)
  unfolding put get
  put-IsMap k v [] h = (refl, tt)
  put-IsMap k v ((j, w) ∷ m) h =
      ground (arith, put-IsMap k v m h.1, get-put k j v m, e.same_iff j k, e.same_iff k j)

  abbrev pub keep_if : (K → V → Bool) → K → Option V → Option V
  keep_if p k none = none
  keep_if p k (some v) = if p k v then some v else none

  get-none-filter :
      (p : K → V → Bool) (k : K) (m : Dict K V)
      → get k m ≡ none
      → get k (filter (λ (x : K × V). p x.0 x.1) m) ≡ none
  unfolding get filter
  get-none-filter p k [] h = refl
  get-none-filter p k ((j, v) ∷ m) h = ground (arith, get-none-filter p k m)

  -- `retain` on a map
  pub get-filter :
      (p : K → V → Bool) (k : K) (m : Dict K V)
      → IsMap m
      → get k (filter (λ (x : K × V). p x.0 x.1) m) ≡ keep_if p k (get k m)
  unfolding get filter
  get-filter p k [] h = refl
  get-filter p k ((j, v) ∷ m) h =
      ground (arith, get-filter p k m h.1, get-none-filter p k m, e.same_iff j k)

  pub filter-IsMap :
      (p : K → V → Bool) (m : Dict K V) → IsMap m → IsMap (filter (λ (x : K × V). p x.0 x.1) m)
  unfolding filter
  filter-IsMap p [] h = tt
  filter-IsMap p ((j, v) ∷ m) h = ground (arith, filter-IsMap p m h.1, get-none-filter p j m)
