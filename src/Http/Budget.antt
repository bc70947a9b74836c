-- ===== src/Http/Budget.antt =====
-- internal/http/handler.go: the combined disk budget, over what a store offers for it. sort.Slice is a
-- parameter; the stores are those of diskBudgetStores.
pub mod Enforced
use gocacheprog.Prelude.{
  ℕ, zero, suc, ◌+◌, ◌-◌, ◌/◌, ◌≤◌, ◌<◌, ◌≡◌, ◌∙◌, refl, ap, inl, inr, Bool, true, false, not,
  Bool-cases, List, [], ◌∷◌, arith, eqb, if◌then◌else◌,
}
use gocacheprog.Prelude.Int.{ℤ, pos, ◌+ℤ◌, ltb_ℤ, pos-+ℤ}

-- The second list has the elements of the first, in some order.
pub data Rearranges {A : Type 0} : List A → List A → Type 0 where
  none_left : Rearranges [] []
  under : (a : A) {l l' : List A} → Rearranges l l' → Rearranges (a ∷ l) (a ∷ l')
  exchange : (a b : A) (l : List A) → Rearranges (a ∷ b ∷ l) (b ∷ a ∷ l)
  chained : {l l' l'' : List A} → Rearranges l l' → Rearranges l' l'' → Rearranges l l''

-- diskBudgetStore
pub record DiskBudgetStore (S : Type 0) : Type 0 where
  pub disk_bytes : S → ℤ
  pub evict_one : S → Bool × S

-- the constant evictionMarginFraction
abbrev pub eviction_margin_fraction : ℕ
eviction_margin_fraction = 10

module _ {S : Type 0} (stores_of : DiskBudgetStore S) where
  -- the sum in `total`
  unfoldable pub total_bytes : List S → ℤ
  total_bytes [] = pos 0
  total_bytes (s ∷ l) = stores_of.disk_bytes s +ℤ total_bytes l

  -- the inner loop, up to the first store that evicts
  unfoldable pub evict_first : List S → Bool × List S
  evict_first [] = (false, [])
  evict_first (s ∷ l) =
      let (evicted, s') = stores_of.evict_one s in
      let (more, l') = evict_first l in if evicted then (true, s' ∷ l) else (more, s' ∷ l')

  -- the outer loop
  unfoldable pub evict_to : (List S → List S) → ℕ → ℕ → List S → List S
  unfolding total_bytes evict_first
  evict_to sort zero target l = l
  evict_to sort (suc fuel) target l =
      if ltb_ℤ (pos target) (total_bytes l)
      then (let (evicted, l') = evict_first (sort l) in
          elim evicted [ true ↦ evict_to sort fuel target l' | false ↦ l' ])
      else l

  -- enforceCombinedBudget, with fuel for its loop
  unfoldable pub enforce_combined_budget : (List S → List S) → ℕ → ℕ → List S → List S
  unfolding evict_to
  enforce_combined_budget sort fuel max_disk_bytes l =
      if eqb max_disk_bytes 0
      then l
      else if not (ltb_ℤ (pos max_disk_bytes) (total_bytes l))
      then l
      else evict_to sort fuel (max_disk_bytes - max_disk_bytes / eviction_margin_fraction) l

-- The stores together take no more than `n` bytes.
abbrev pub Within : {S : Type 0} → DiskBudgetStore S → ℕ → List S → Type 0
Within stores_of n l = ltb_ℤ (pos n) (total_bytes stores_of l) ≡ false

-- What the budget relies on: a store that is well formed counts its bytes, an eviction leaves it fewer
-- entries, and a store that evicts nothing has no bytes.
pub record IsBudgetStore {S : Type 0} (stores_of : DiskBudgetStore S) (Valid : S → Type 0)
    (size entries : S → ℕ) : Type 0 where
  pub sized : (s : S) → Valid s → stores_of.disk_bytes s ≡ pos (size s)
  pub evicts :
      (s : S)
      → Valid s
      → (stores_of.evict_one s).0 ≡ true
      → Valid (stores_of.evict_one s).1 × (entries (stores_of.evict_one s).1 < entries s)
  pub evicts_none :
      (s : S)
      → Valid s
      → (stores_of.evict_one s).0 ≡ false
      → Valid (stores_of.evict_one s).1
        × (size (stores_of.evict_one s).1 ≡ 0)
        × (entries (stores_of.evict_one s).1 ≤ entries s)

unfoldable pub sum_of : {S : Type 0} → (S → ℕ) → List S → ℕ
sum_of f [] = 0
sum_of f (s ∷ l) = f s + sum_of f l

abbrev pub AllValid : {S : Type 0} → (S → Type 0) → List S → Type 0
AllValid Valid [] = Unit
AllValid Valid (s ∷ l) = Valid s × AllValid Valid l
