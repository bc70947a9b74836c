-- ===== src/Heap/Push.antt =====
-- Proofs about Push: the heap order on the way up, and the items.
use gocacheprog.Prelude.{
  ℕ, zero, suc, ◌<◌, ◌≡◌, ◌≢◌, ◌∙◌, refl, inl, inr, Bool, true, false, Bool-cases, List, [], ◌∷◌,
  ◌++◌, arith, eqb, length, get_or, length-append, get_or-append, tally-append,
}
use gocacheprog.Heap.{swap, parent, up, push}
use gocacheprog.Heap.Order.{
  IsOrder, IsHeap, SameItems, Restored, swap-Restored, length-swap, get_or-swap,
}

module _ {A : Type 0} (d : A) (less : A → A → Bool) (o : IsOrder less) where
  record UpInv (a : List A) (j : ℕ) : Type 0 where
    inside : j < length a
    edges :
        (c : ℕ) → 0 < c → c < length a → c ≢ j → less (get_or a c d) (get_or a (parent c) d) ≡ false
    bridged :
        (c : ℕ)
        → 0 < c
        → c < length a
        → parent c ≡ j
        → 0 < j
        → less (get_or a c d) (get_or a (parent j) d) ≡ false

  swap-UpInv :
      (a : List A) (j : ℕ)
      → UpInv a j
      → 0 < j
      → less (get_or a j d) (get_or a (parent j) d) ≡ true
      → UpInv (swap d less a (parent j) j) (parent j)
  swap-UpInv a j v pos below =
      let at = λ (c : ℕ). get_or-swap d less a (parent j) j c (omega (arith, v.inside)) v.inside in
      record {
        inside = omega (arith, v.inside, length-swap d less a (parent j) j);
        edges = λ c p q t.
            let inside : c < length a = omega (arith, length-swap d less a (parent j) j) in
            ground (
              arith,
              at c,
              at (parent c),
              v.edges c p inside,
              v.bridged c p inside,
              o.asymmetric (get_or a j d) (get_or a (parent j) d) below,
              o.transitive (get_or a j d) (get_or a (parent j) d) (get_or a c d),
            );
        bridged = λ c p q t u.
            let inside : c < length a = omega (arith, length-swap d less a (parent j) j) in
            ground (
              arith,
              at c,
              at (parent (parent j)),
              v.edges c p inside,
              v.edges (parent j) u,
              o.transitive (get_or a (parent (parent j)) d) (get_or a (parent j) d) (get_or a c d),
            );
      }

  up-Restored :
      (fuel : ℕ) (a : List A) (j : ℕ)
      → j < fuel
      → UpInv a j
      → Restored d less o (length a) a (up d less fuel a j)
  unfolding up
  up-Restored zero a j f v = absurd (omega arith)
  up-Restored (suc fuel) a j f v = elim (Bool-cases (eqb (parent j) j)) [
    | inl root ↦ rw root (stays (λ c p q. v.edges c p q (ground arith)))
    | inr low ↦ elim (Bool-cases (less (get_or a j d) (get_or a (parent j) d))) [
      | inl below ↦
          let longer = length-swap d less a (parent j) j in
          let b = up d less fuel (swap d less a (parent j) j) (parent j) in
          let r : Restored d less o (length a) (swap d less a (parent j) j) b = rw longer at (
            up-Restored fuel (swap d less a (parent j) j) (parent j) (ground arith)
              (swap-UpInv a j v (ground arith) below)) in
          rw (low, below)
            (swap-Restored d less o (length a) a b (parent j) j (omega (arith, v.inside)) v.inside
              (omega arith) r)
      | inr settled ↦ rw (low, settled) (stays (λ c p q. ground (arith, v.edges c p q)))
    ]
  ]
    where
      stays : IsHeap d less a → Restored d less o (length a) a a
      stays h = record { heap = h; same = λ p. refl; long = refl; kept = λ c h. refl }

  -- For an order, a push onto a heap gives a heap with the items of the old one and the new item.
  pub push-IsHeap :
      (a : List A) (x : A)
      → IsHeap d less a
      → IsHeap d less (push d less a x) × SameItems d less (x ∷ a) (push d less a x)
  unfolding push
  push-IsHeap a x h =
      let grown = a ++ x ∷ [] in
      let size = length-append a (x ∷ []) in
      let r = up-Restored (suc (length a)) grown (length a) (omega arith) (record {
        inside = omega (arith, size);
        edges = λ c p q t.
            ground (
              arith,
              size,
              h c,
              get_or-append a (x ∷ []) c d,
              get_or-append a (x ∷ []) (parent c) d,
            );
        bridged = λ c p q t u. absurd (omega (arith, size));
      }) in
      (rw (← r.long) at r.heap, λ p. r.same p ∙ omega (arith, tally-append p a (x ∷ [])))
