-- ===== src/Prelude/Maps.antt =====
-- Go's maps as association lists. A map that the program ranges over is ranged over in the order
-- of the list.
use mathlib.Core.List.{List, [], ◌∷◌}
use mathlib.Core.Path.{◌≡◌, refl}
use mathlib.Core.Option.{Option, none, some}
use mathlib.Core.Bool.{false}
use mathlib.Core.Logic.{◌⊎◌, inl, inr}
use Prim.Native.Nat.{ℕ, ◌+◌, ◌≤◌, ◌<◌}
use native.Mathlib.Omega.{arith}
use gocacheprog.Prelude.Tests.{if◌then◌else◌, Bool-cases}
use gocacheprog.Prelude.Lists.{length}
use gocacheprog.Prelude.Equality.{Eq, ◌==◌, ==_iff, ==_refl}

-- Every value replaced, the keys kept.
abbrev pub map_values : {K V : Type 0} → (V → V) → List (K × V) → List (K × V)
map_values f [] = []
map_values f ((j, v) ∷ m) = (j, f v) ∷ map_values f m

abbrev pub map? : {V : Type 0} → (V → V) → Option V → Option V
map? f none = none
map? f (some v) = some (f v)

abbrev pub size? : {V : Type 0} → (V → ℕ) → Option V → ℕ
size? size none = 0
size? size (some v) = size v

module _ {K V : Type 0} ⦃e : Eq K⦄ where
  -- m[k]
  abbrev pub lookup : K → List (K × V) → Option V
  lookup k [] = none
  lookup k ((j, v) ∷ m) = if j == k then some v else lookup k m

  -- m[k] = v
  abbrev pub insert : K → V → List (K × V) → List (K × V)
  insert k v [] = (k, v) ∷ []
  insert k v ((j, w) ∷ m) = if j == k then (k, v) ∷ m else (j, w) ∷ insert k v m

  -- delete(m, k)
  abbrev pub remove : K → List (K × V) → List (K × V)
  remove k [] = []
  remove k ((j, w) ∷ m) = let rest = remove k m in if j == k then rest else (j, w) ∷ rest

  -- No key stands twice.
  abbrev pub Distinct : List (K × V) → Type 0
  Distinct [] = Unit
  Distinct ((j, w) ∷ m) = (lookup j m ≡ none) × Distinct m

  pub lookup-insert :
      (k j : K) (v : V) (m : List (K × V))
      → lookup j (insert k v m) ≡ (if k == j then some v else lookup j m)
  lookup-insert k j v [] = refl
  lookup-insert k j v ((i, w) ∷ m) =
      ground (arith, ==_iff k j, ==_iff i k, ==_iff i j, lookup-insert k j v m)

  pub lookup-remove :
      (k j : K) (m : List (K × V)) → lookup j (remove k m) ≡ (if k == j then none else lookup j m)
  lookup-remove k j [] = ground arith
  lookup-remove k j ((i, w) ∷ m) =
      ground (arith, ==_iff k j, ==_iff i k, ==_iff i j, lookup-remove k j m)

  pub lookup-map_values :
      (f : V → V) (k : K) (m : List (K × V)) → lookup k (map_values f m) ≡ map? f (lookup k m)
  lookup-map_values f k [] = refl
  lookup-map_values f k ((j, v) ∷ m) = ground (arith, lookup-map_values f k m)

  pub lookup-insert_self : (k : K) (v : V) (m : List (K × V)) → lookup k (insert k v m) ≡ some v
  lookup-insert_self k v m = rw (lookup-insert k k v m, ==_refl k)

  pub lookup-remove_self : (k : K) (m : List (K × V)) → lookup k (remove k m) ≡ none
  lookup-remove_self k m = rw (lookup-remove k k m, ==_refl k)

  pub lookup-insert-inv :
      (k j : K) (v w : V) (m : List (K × V))
      → lookup j (insert k v m) ≡ some w
      → ((k ≡ j) × (v ≡ w)) ⊎ (lookup j m ≡ some w)
  lookup-insert-inv k j v w m h = elim (Bool-cases (k == j)) [
    | inl e ↦ inl ((==_iff k j).0 e, ground (arith, e, lookup-insert k j v m))
    | inr e ↦ inr (ground (arith, e, lookup-insert k j v m))
  ]

  pub lookup-remove-inv :
      (k j : K) (w : V) (m : List (K × V))
      → lookup j (remove k m) ≡ some w
      → (lookup j m ≡ some w) × ((k == j) ≡ false)
  lookup-remove-inv k j w m h =
      (ground (arith, lookup-remove k j m), ground (arith, lookup-remove k j m))

  pub remove-absent : (k : K) (m : List (K × V)) → lookup k m ≡ none → remove k m ≡ m
  remove-absent k [] h = refl
  remove-absent k ((j, w) ∷ m) h = ground (arith, remove-absent k m)

  pub insert-Distinct : (k : K) (v : V) (m : List (K × V)) → Distinct m → Distinct (insert k v m)
  insert-Distinct k v [] h = (refl, tt)
  insert-Distinct k v ((j, w) ∷ m) h = elim (Bool-cases (j == k)) [
    | inl same ↦ let e : j ≡ k = (==_iff j k).0 same in rw (same, ← e) h
    | inr other ↦
        rw other
          (ground (arith, lookup-insert k j v m, ==_iff k j, ==_iff j k), insert-Distinct k v m h.1)
  ]

  pub remove-Distinct : (k : K) (m : List (K × V)) → Distinct m → Distinct (remove k m)
  remove-Distinct k [] h = tt
  remove-Distinct k ((j, w) ∷ m) h = elim (Bool-cases (j == k)) [
    | inl same ↦ rw same (remove-Distinct k m h.1)
    | inr other ↦ rw other (ground (arith, lookup-remove k j m), remove-Distinct k m h.1)
  ]

  pub length-remove : (k : K) (m : List (K × V)) → length (remove k m) ≤ length m
  length-remove k [] = ground arith
  length-remove k ((j, v) ∷ m) = ground (arith, length-remove k m)

  pub length-remove_found :
      (k : K) (v : V) (m : List (K × V)) → lookup k m ≡ some v → length (remove k m) < length m
  length-remove_found k v [] h = absurd (cc h)
  length-remove_found k v ((j, w) ∷ m) h = elim (Bool-cases (j == k)) [
    | inl same ↦ rw same (omega (arith, length-remove k m))
    | inr apart ↦ rw apart (omega (arith, length-remove_found k v m (rw apart at h)))
  ]

  module _ (size : V → ℕ) where
    -- The sum of the sizes of all entries.
    abbrev pub total : List (K × V) → ℕ
    total [] = 0
    total ((j, w) ∷ m) = size w + total m

    pub total-insert :
        (k : K) (v : V) (m : List (K × V))
        → total (insert k v m) + size? size (lookup k m) ≡ total m + size v
    total-insert k v [] = omega arith
    total-insert k v ((j, w) ∷ m) = ground (arith, total-insert k v m)

    pub total-remove :
        (k : K) (m : List (K × V))
        → Distinct m
        → total (remove k m) + size? size (lookup k m) ≡ total m
    total-remove k [] h = omega arith
    total-remove k ((j, w) ∷ m) h =
        ground (arith, total-remove k m h.1, ==_iff j k, remove-absent k m, h.0)
