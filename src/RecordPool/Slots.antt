-- ===== src/RecordPool/Slots.antt =====
-- Counting: a stack of as many slots as the page has holds every slot.
use gocacheprog.Prelude.{
  ℕ, zero, suc, ◌≤◌, ◌<◌, ◌≡◌, refl, true, false, inl, inr, Bool-cases, List, [], ◌∷◌, arith, eqb,
  if◌then◌else◌, length,
}
use gocacheprog.RecordPool.{contains}
use gocacheprog.RecordPool.View.{AreSlots}

without : ℕ → List ℕ → List ℕ
without s [] = []
without s (t ∷ l) = let rest = without s l in if eqb t s then rest else t ∷ rest

contains-without : (s t : ℕ) (l : List ℕ) → contains l t ≡ false → contains (without s l) t ≡ false
unfolding contains without
contains-without s t [] h = refl
contains-without s t (u ∷ l) h = ground (arith, contains-without s t l)

without-absent : (s : ℕ) (l : List ℕ) → contains l s ≡ false → length (without s l) ≡ length l
unfolding contains without
without-absent s [] h = refl
without-absent s (u ∷ l) h = ground (arith, without-absent s l)

length-without : (n s : ℕ) (l : List ℕ) → AreSlots n l → length l ≤ suc (length (without s l))
unfolding without
length-without n s [] v = omega arith
length-without n s (u ∷ l) v = elim (Bool-cases (eqb u s)) [
  | inl e ↦ ground (arith, without-absent s l, v.1)
  | inr e ↦ ground (arith, length-without n s l v.2)
]

without-AreSlots : (n : ℕ) (l : List ℕ) → AreSlots (suc n) l → AreSlots n (without n l)
unfolding without
without-AreSlots n [] v = tt
without-AreSlots n (u ∷ l) v = elim (Bool-cases (eqb u n)) [
  | inl e ↦ rw (e) (without-AreSlots n l v.2)
  | inr e ↦ rw (e) (ground (arith, v.0), contains-without n u l v.1, without-AreSlots n l v.2)
]

length-AreSlots : (n : ℕ) (l : List ℕ) → AreSlots n l → length l ≤ n
length-AreSlots zero [] v = omega arith
length-AreSlots zero (u ∷ l) v = absurd (omega (arith, v.0))
length-AreSlots (suc n) l v =
    omega (
      arith,
      length-without (suc n) n l v,
      length-AreSlots n (without n l) (without-AreSlots n l v),
    )

pub contains_of_full :
    (n s : ℕ) (l : List ℕ) → AreSlots n l → n ≤ length l → s < n → contains l s ≡ true
contains_of_full n s l v h lt = elim (Bool-cases (contains l s)) [
  | inl e ↦ e
  | inr e ↦ absurd (omega (arith, length-AreSlots n (s ∷ l) (lt, e, v)))
]
