-- ===== src/Http/Budget/Enforced.antt =====
-- internal/http/handler.go: where the loop of the combined budget stops.
use gocacheprog.Prelude.{
  ℕ, zero, suc, ◌+◌, ◌-◌, ◌/◌, ◌≤◌, ◌<◌, ◌≡◌, ◌∙◌, refl, ap, inl, inr, Bool, true, false,
  Bool-cases, List, [], ◌∷◌, arith, eqb,
}
use gocacheprog.Prelude.Int.{pos, ltb_ℤ, pos-+ℤ}
use gocacheprog.Http.Budget.{
  Rearranges, none_left, under, exchange, chained, DiskBudgetStore, eviction_margin_fraction,
  total_bytes, evict_first, evict_to, enforce_combined_budget, Within, IsBudgetStore, sum_of,
  AllValid,
}

module _ {S : Type 0} (stores_of : DiskBudgetStore S) (Valid : S → Type 0) (size entries : S → ℕ)
    (laws : IsBudgetStore stores_of Valid size entries) where
  AllValid-Rearranges : {l l' : List S} → Rearranges l l' → AllValid Valid l → AllValid Valid l'
  AllValid-Rearranges none_left v = v
  AllValid-Rearranges (under a p) (v, vs) = (v, AllValid-Rearranges p vs)
  AllValid-Rearranges (exchange a b l) (v, (w, vs)) = (w, (v, vs))
  AllValid-Rearranges (chained p q) v = AllValid-Rearranges q (AllValid-Rearranges p v)

  sum_of-Rearranges : (f : S → ℕ) {l l' : List S} → Rearranges l l' → sum_of f l' ≡ sum_of f l
  unfolding sum_of
  sum_of-Rearranges f none_left = refl
  sum_of-Rearranges f (under a p) = ap (λ n. f a + n) (sum_of-Rearranges f p)
  sum_of-Rearranges f (exchange a b l) = omega arith
  sum_of-Rearranges f (chained p q) = sum_of-Rearranges f q ∙ sum_of-Rearranges f p

  total-sized : (l : List S) → AllValid Valid l → total_bytes stores_of l ≡ pos (sum_of size l)
  unfolding total_bytes sum_of
  total-sized [] v = refl
  total-sized (s ∷ l) (v, vs) = rw (laws.sized s v, total-sized l vs) (pos-+ℤ _ _)

  -- What the inner loop leaves: fewer entries, or no bytes at all.
  abbrev Evicted : List S → Bool → List S → Type 0
  Evicted l true l' = AllValid Valid l' × (sum_of entries l' < sum_of entries l)
  Evicted l false l' =
      AllValid Valid l' × (sum_of size l' ≡ 0) × (sum_of entries l' ≤ sum_of entries l)

  evict_first-took :
      (s : S) (l : List S)
      → (stores_of.evict_one s).0 ≡ true
      → evict_first stores_of (s ∷ l) ≡ (true, (stores_of.evict_one s).1 ∷ l)
  evict_first-took s l h = unfold evict_first in rw (evict_first, h)

  evict_first-passed :
      (s : S) (l : List S)
      → (stores_of.evict_one s).0 ≡ false
      → evict_first stores_of (s ∷ l)
        ≡ ((evict_first stores_of l).0, (stores_of.evict_one s).1 ∷ (evict_first stores_of l).1)
  evict_first-passed s l h = unfold evict_first in rw (evict_first, h)

  Evicted-passed :
      (s s' : S) (l : List S) (b : Bool) (l' : List S)
      → Valid s'
      → size s' ≡ 0
      → entries s' ≤ entries s
      → Evicted l b l'
      → Evicted (s ∷ l) b (s' ∷ l')
  unfolding sum_of
  Evicted-passed s s' l true l' v empty le (vs, lt) = ((v, vs), omega arith)
  Evicted-passed s s' l false l' v empty le (vs, none, le') = ((v, vs), omega arith, omega arith)

  evict_first-Evicted :
      (l : List S)
      → AllValid Valid l
      → Evicted l (evict_first stores_of l).0 (evict_first stores_of l).1
  evict_first-Evicted [] v = unfold evict_first sum_of in (v, refl, omega arith)
  evict_first-Evicted (s ∷ l) (v, vs) = elim (Bool-cases (stores_of.evict_one s).0) [
    | inl took ↦
        let (ok, fewer) = laws.evicts s v took in
        rw (evict_first-took s l took) ((ok, vs), unfold sum_of in omega (arith, fewer))
    | inr passed ↦
        let (ok, empty, le) = laws.evicts_none s v passed in
        rw (evict_first-passed s l passed) (
          Evicted-passed s (stores_of.evict_one s).1 l (evict_first stores_of l).0
            (evict_first stores_of l).1 ok empty le (evict_first-Evicted l vs))
  ]

  module _ (sort : List S → List S) (sorts : (l : List S) → Rearranges l (sort l)) where
    under-Within :
        (n : ℕ) (l : List S) → AllValid Valid l → sum_of size l ≤ n → Within stores_of n l
    under-Within n l v le = rw (total-sized l v) (ground arith)

    Within-mono : (n m : ℕ) (l : List S) → n ≤ m → Within stores_of n l → Within stores_of m l
    Within-mono n m l h w = ground arith

    evict_to-under :
        (fuel target : ℕ) (l : List S)
        → Within stores_of target l
        → evict_to stores_of sort (suc fuel) target l ≡ l
    evict_to-under fuel target l low = unfold evict_to in rw (evict_to, low)

    evict_to-over :
        (fuel target : ℕ) (l : List S) (b : Bool)
        → ltb_ℤ (pos target) (total_bytes stores_of l) ≡ true
        → (evict_first stores_of (sort l)).0 ≡ b
        → evict_to stores_of sort (suc fuel) target l ≡ elim b [
          | true ↦ evict_to stores_of sort fuel target (evict_first stores_of (sort l)).1
          | false ↦ (evict_first stores_of (sort l)).1
        ]
    evict_to-over fuel target l b over e = unfold evict_to in rw (evict_to, over, e)

    evict_to-Within :
        (fuel target : ℕ) (l : List S)
        → sum_of entries l < fuel
        → AllValid Valid l
        → AllValid Valid (evict_to stores_of sort fuel target l)
          × Within stores_of target (evict_to stores_of sort fuel target l)
    evict_to-Within zero target l f v = elim f [ ]
    evict_to-Within (suc fuel) target l f v =
        elim (Bool-cases (ltb_ℤ (pos target) (total_bytes stores_of l))) [
          | inr low ↦ rw (evict_to-under fuel target l low) (v, low)
          | inl over ↦
              let r = evict_first-Evicted (sort l) (AllValid-Rearranges (sorts l) v) in
              elim (Bool-cases (evict_first stores_of (sort l)).0) [
                | inl took ↦
                    let (ok, fewer) = rw took at r in
                    rw (evict_to-over fuel target l true over took) (
                      evict_to-Within fuel target (evict_first stores_of (sort l)).1
                        (omega (arith, fewer, sum_of-Rearranges entries (sorts l))) ok)
                | inr passed ↦
                    let (ok, empty, le) = rw passed at r in
                    rw (evict_to-over fuel target l false over passed) (
                      ok,
                      under-Within target (evict_first stores_of (sort l)).1 ok
                          (omega (arith, empty)),
                    )
              ]
        ]

    -- For stores that are valid, obey the laws of the budget and together have fewer entries than
    -- the fuel, a limit above zero and a sort that rearranges, enforceCombinedBudget leaves valid
    -- stores that together take no more than the limit; stores within the limit are left as they
    -- are, and stores over it end within nine tenths of it.
    pub enforce_combined_budget-Within :
        (fuel max_disk_bytes : ℕ) (l : List S)
        → sum_of entries l < fuel
        → AllValid Valid l
        → 0 < max_disk_bytes
        → let l' = enforce_combined_budget stores_of sort fuel max_disk_bytes l in
          AllValid Valid l'
          × Within stores_of max_disk_bytes l'
          × (Within stores_of max_disk_bytes l → l' ≡ l)
          × (ltb_ℤ (pos max_disk_bytes) (total_bytes stores_of l) ≡ true
              → Within stores_of (max_disk_bytes - max_disk_bytes / eviction_margin_fraction) l')
    enforce_combined_budget-Within fuel max_disk_bytes l f v limited =
        let some_limit : eqb max_disk_bytes 0 ≡ false = ground arith in
        elim (Bool-cases (ltb_ℤ (pos max_disk_bytes) (total_bytes stores_of l))) [
          | inr low ↦
              rw (stays some_limit low) (v, low, (λ w. refl), λ over. absurd (cc (low, over)))
          | inl over ↦
              let target = max_disk_bytes - max_disk_bytes / eviction_margin_fraction in
              let (ok, within) = evict_to-Within fuel target l f v in
              rw (evicts some_limit over) (
                ok,
                Within-mono target max_disk_bytes (evict_to stores_of sort fuel target l)
                    (omega arith) within,
                (λ w. absurd (cc (w, over))),
                λ h. within,
              )
        ]
      where
        stays :
            eqb max_disk_bytes 0 ≡ false
            → ltb_ℤ (pos max_disk_bytes) (total_bytes stores_of l) ≡ false
            → enforce_combined_budget stores_of sort fuel max_disk_bytes l ≡ l
        stays some_limit low =
            unfold enforce_combined_budget in rw (enforce_combined_budget, some_limit, low)

        evicts :
            eqb max_disk_bytes 0 ≡ false
            → ltb_ℤ (pos max_disk_bytes) (total_bytes stores_of l) ≡ true
            → enforce_combined_budget stores_of sort fuel max_disk_bytes l
              ≡ evict_to stores_of sort fuel
                  (max_disk_bytes - max_disk_bytes / eviction_margin_fraction)
                  l
        evicts some_limit over =
            unfold enforce_combined_budget in rw (enforce_combined_budget, some_limit, over)
