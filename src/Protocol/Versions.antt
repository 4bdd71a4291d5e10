-- ===== src/Protocol/Versions.antt =====
-- crates/keeplin-srv/src/collab.rs: `merge_vv` and `advances_writer`.
use keeplin_srv.Base.{
  ℕ, ◌≤◌, max, String, ◌≡◌, Bool, Option, none, some, [], ◌∷◌, arith, ltb, eq_iff, if◌then◌else◌,
  ◌==◌, string_key,
}
use keeplin_srv.Base.Dict.{Dict, get, put, get-put, IsMap, put-IsMap}

abbrev VersionVector : Type 0
VersionVector = Dict String ℕ

-- `get(writer).copied().unwrap_or(0)`
abbrev pub or_zero : Option ℕ → ℕ
or_zero none = 0
or_zero (some n) = n

unfoldable pub counter : VersionVector → String → ℕ
counter vv w = or_zero (get w vv)

-- `let entry = out.entry(k).or_insert(0); if v > *entry { *entry = v }`
unfoldable pub raise : String → ℕ → VersionVector → VersionVector
unfolding counter
raise k v out = put k (if ltb (counter out k) v then v else counter out k) out

-- The loop of `merge_vv`, over the entries of `b`.
unfoldable pub merge_into : VersionVector → VersionVector → VersionVector
merge_into out [] = out
merge_into out ((k, v) ∷ b) = merge_into (raise k v out) b

unfoldable pub merge_vv : VersionVector → VersionVector → VersionVector
merge_vv a b = merge_into a b

unfoldable pub advances_writer : VersionVector → VersionVector → String → Bool
unfolding counter
advances_writer current op_vv writer = ltb (counter current writer) (counter op_vv writer)

-- The largest counter that a list of entries has for a writer. A map lists a writer once, so this is
-- its counter.
unfoldable pub top : VersionVector → String → ℕ
top [] w = 0
top ((k, v) ∷ b) w = max (if k == w then v else 0) (top b w)

pub counter-raise :
    (k : String) (v : ℕ) (out : VersionVector) (w : String)
    → counter (raise k v out) w ≡ max (counter out w) (if k == w then v else 0)
unfolding raise counter
counter-raise k v out w =
    ground (arith, eq_iff k w, get-put k w (if ltb (counter out k) v then v else counter out k) out)

merge_into-counter :
    (out b : VersionVector) (w : String)
    → counter (merge_into out b) w ≡ max (counter out w) (top b w)
unfolding merge_into top
merge_into-counter out [] w = omega arith
merge_into-counter out ((k, v) ∷ b) w =
    omega (arith, merge_into-counter (raise k v out) b w, counter-raise k v out w)

-- Counter by counter, a merge is the maximum.
pub counter-merge_vv :
    (a b : VersionVector) (w : String) → counter (merge_vv a b) w ≡ max (counter a w) (top b w)
unfolding merge_vv
counter-merge_vv a b w = merge_into-counter a b w

pub counter-le-top : (b : VersionVector) (w : String) → counter b w ≤ top b w
unfolding counter get top
counter-le-top [] w = omega arith
counter-le-top ((k, v) ∷ b) w = ground (arith, counter-le-top b w, eq_iff k w)

top-none : (b : VersionVector) (w : String) → get w b ≡ none → top b w ≡ 0
unfolding top get
top-none [] w h = omega arith
top-none ((k, v) ∷ b) w h = ground (arith, top-none b w, eq_iff k w)

pub top-eq-counter : (b : VersionVector) (w : String) → IsMap b → top b w ≡ counter b w
unfolding top counter get
top-eq-counter [] w m = omega arith
top-eq-counter ((k, v) ∷ b) w m =
    ground (arith, top-eq-counter b w m.1, top-none b k m.0, eq_iff k w)

merge_into-IsMap : (out b : VersionVector) → IsMap out → IsMap (merge_into out b)
unfolding merge_into raise
merge_into-IsMap out [] m = m
merge_into-IsMap out ((k, v) ∷ b) m =
    merge_into-IsMap (raise k v out) b
      (put-IsMap k (if ltb (counter out k) v then v else counter out k) out m)

pub merge_vv-IsMap : (a b : VersionVector) → IsMap a → IsMap (merge_vv a b)
unfolding merge_vv
merge_vv-IsMap a b m = merge_into-IsMap a b m

-- The merge is the least upper bound of the two vectors, counter by counter.
pub merge_vv-max :
    (a b : VersionVector)
    → IsMap b
    → (w : String) → counter (merge_vv a b) w ≡ max (counter a w) (counter b w)
merge_vv-max a b m w = omega (arith, counter-merge_vv a b w, top-eq-counter b w m)
