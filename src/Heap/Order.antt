-- ===== src/Heap/Order.antt =====
-- Proofs about Pop: the heap order on the way down, and the items.
use gocacheprog.Prelude.{
  ℕ, zero, suc, ◌+◌, ◌-◌, ◌*◌, ◌≤◌, ◌<◌, ◌≡◌, ◌≢◌, ◌⊎◌, ◌∙◌, refl, inl, inr, Bool, true, false,
  Bool-cases, List, ◌∷◌, arith, leb, eqb, if◌then◌else◌, length, get_or, set, take, tally,
  get_or-set, tally-set, length-set, get_or-take, tally-take, length-take,
}
use gocacheprog.Heap.{swap, parent, smaller_child, down, pop}

-- `less` is a strict order in which being not less is transitive.
pub record IsOrder {A : Type 0} (less : A → A → Bool) : Type 0 where
  pub asymmetric : (x y : A) → less x y ≡ true → less y x ≡ false
  pub transitive : (x y z : A) → less y x ≡ false → less z y ≡ false → less z x ≡ false

module _ {A : Type 0} (d : A) (less : A → A → Bool) where
  -- No item before `n` is less than its parent.
  abbrev pub IsHeapTo : ℕ → List A → Type 0
  IsHeapTo n a = (c : ℕ) → 0 < c → c < n → less (get_or a c d) (get_or a (parent c) d) ≡ false

  abbrev pub IsHeap : List A → Type 0
  IsHeap a = IsHeapTo (length a) a

  pub length-swap : (a : List A) (i j : ℕ) → length (swap d less a i j) ≡ length a
  length-swap a i j = simp length-set

  pub get_or-swap :
      (a : List A) (i j c : ℕ)
      → i < length a
      → j < length a
      → get_or (swap d less a i j) c d
        ≡ (if eqb j c then get_or a i d else if eqb i c then get_or a j d else get_or a c d)
  get_or-swap a i j c hi hj = rw (
    get_or-set (set a i (get_or a j d)) j c (get_or a i d) d (rw length-set hj),
    get_or-set a i c (get_or a j d) d hi,
  )

  pub tally-swap :
      (p : A → Bool) (a : List A) (i j : ℕ)
      → i < length a
      → j < length a
      → tally p (swap d less a i j) ≡ tally p a
  tally-swap p a i j hi hj =
      let b = set a i (get_or a j d) in
      let first = tally-set p a i (get_or a j d) d hi in
      let second = tally-set p b j (get_or a i d) d (rw length-set hj) in
      let kept : get_or b j d ≡ get_or a j d = ground (arith, get_or-set a i j (get_or a j d) d) in
      omega (arith, rw kept at second)

  -- The same items, as often.
  abbrev pub SameItems : List A → List A → Type 0
  SameItems a b = (p : A → Bool) → tally p b ≡ tally p a

  module _ (o : IsOrder less) where
    record DownInv (n : ℕ) (a : List A) (i : ℕ) : Type 0 where
      long : n ≤ length a
      edges :
          (c : ℕ)
          → 0 < c
          → c < n
          → parent c ≢ i
          → less (get_or a c d) (get_or a (parent c) d) ≡ false
      bridged :
          (c : ℕ)
          → 0 < c
          → c < n
          → parent c ≡ i
          → 0 < i
          → less (get_or a c d) (get_or a (parent i) d) ≡ false

    record IsSmallerChild (n : ℕ) (a : List A) (i m : ℕ) : Type 0 where
      inside : m < n
      child : (m ≡ 2 * i + 1) ⊎ (m ≡ 2 * i + 2)
      least : (c : ℕ) → 0 < c → c < n → parent c ≡ i → less (get_or a c d) (get_or a m d) ≡ false

    irreflexive : (x : A) → less x x ≡ false
    irreflexive x = elim (Bool-cases (less x x)) [ inl e ↦ o.asymmetric x x e | inr e ↦ e ]

    smaller_child-IsSmallerChild :
        (n : ℕ) (a : List A) (i : ℕ)
        → 2 * i + 1 < n
        → IsSmallerChild n a i (smaller_child d less a i n)
    unfolding smaller_child
    smaller_child-IsSmallerChild n a i h =
        let l = get_or a (2 * i + 1) d in
        let r = get_or a (2 * i + 2) d in
        record {
          inside = ground arith;
          child = ground arith;
          least = λ c p q e. elim (two_children c i p e) [
            | inl left ↦ rw left (ground (arith, irreflexive l, o.asymmetric r l))
            | inr right ↦ rw right (ground (arith, irreflexive r))
          ];
        }
      where
        two_children : (c i : ℕ) → 0 < c → parent c ≡ i → (c ≡ 2 * i + 1) ⊎ (c ≡ 2 * i + 2)
        two_children c i p e = omega arith

    swap-DownInv :
        (n : ℕ) (a : List A) (i m : ℕ)
        → DownInv n a i
        → IsSmallerChild n a i m
        → less (get_or a m d) (get_or a i d) ≡ true
        → DownInv n (swap d less a i m) m
    swap-DownInv n a i m v s below =
        let hi : i < length a = omega (arith, v.long, s.inside, s.child) in
        let hm : m < length a = omega (arith, v.long, s.inside) in
        let at = λ (c : ℕ). get_or-swap a i m c hi hm in
        record {
          long = rw length-swap v.long;
          edges = λ c p q t. ground (
            arith,
            at c,
            at (parent c),
            v.edges c,
            v.bridged m,
            s.least c,
            o.asymmetric (get_or a m d) (get_or a i d),
          );
          bridged = λ c p q t u. ground (arith, at c, at (parent m), v.edges c);
        }

    -- What a loop leaves: a heap up to `n` of the same items, with what stands from `n` on untouched.
    pub record Restored (n : ℕ) (a b : List A) : Type 0 where
      pub heap : IsHeapTo n b
      pub same : SameItems a b
      pub long : length b ≡ length a
      pub kept : (c : ℕ) → n ≤ c → get_or b c d ≡ get_or a c d

    pub swap-Restored :
        (n : ℕ) (a b : List A) (i j : ℕ)
        → i < n
        → j < n
        → n ≤ length a
        → Restored n (swap d less a i j) b
        → Restored n a b
    swap-Restored n a b i j hi hj long r = record {
      heap = r.heap;
      same = λ p. r.same p ∙ tally-swap p a i j (omega arith) (omega arith);
      long = r.long ∙ length-swap a i j;
      kept = λ c h. r.kept c h ∙ ground (arith, get_or-swap a i j c);
    }

    down-Restored :
        (fuel n : ℕ) (a : List A) (i : ℕ)
        → n - i < fuel
        → DownInv n a i
        → Restored n a (down d less fuel a i n)
    unfolding down
    down-Restored zero n a i f v = absurd (omega arith)
    down-Restored (suc fuel) n a i f v =
        let m = smaller_child d less a i n in
        elim (Bool-cases (leb n (2 * i + 1))) [
          | inl leaf ↦ rw leaf (record {
            heap = λ c p q. v.edges c p q (ground arith);
            same = λ p. refl;
            long = refl;
            kept = λ c h. refl;
          })
          | inr inner ↦
              let s = smaller_child-IsSmallerChild n a i (ground arith) in
              elim (Bool-cases (less (get_or a m d) (get_or a i d))) [
                | inl below ↦
                    rw (inner, below)
                      (swap-Restored n a (down d less fuel (swap d less a i m) m n) i m
                        (omega (arith, s.inside, s.child)) s.inside v.long
                        (down-Restored fuel n (swap d less a i m) m
                          (omega (arith, s.inside, s.child)) (swap-DownInv n a i m v s below)))
                | inr settled ↦
                    rw (inner, settled)
                      (record {
                        heap = λ c p q. ground (
                          arith,
                          v.edges c,
                          s.least c,
                          o.transitive (get_or a i d) (get_or a m d) (get_or a c d),
                        );
                        same = λ p. refl;
                        long = refl;
                        kept = λ c h. refl;
                      })
              ]
        ]

    -- What is cut from the slice is the old root, and what is left is a heap of the others.
    cut-IsHeap :
        (n : ℕ) (a b : List A)
        → length a ≡ suc n
        → Restored n (swap d less a 0 n) b
        → IsHeap (take n b)
          × SameItems a (get_or b n d ∷ take n b)
          × (length a ≡ suc (length (take n b)))
          × (get_or b n d ≡ get_or a 0 d)
    cut-IsHeap n a b size r =
        let long : length b ≡ suc n = r.long ∙ length-swap a 0 n ∙ size in
        let cut : length (take n b) ≡ n = length-take n b (omega arith) in
        (
          λ c p q. ground (arith, r.heap c, get_or-take n b c d, get_or-take n b (parent c) d),
          λ p.
              let total = tally-take p n b d long in
              let swapped = tally-swap p a 0 n (omega arith) (omega arith) in
              omega (arith, r.same p),
          omega arith,
          r.kept n (omega arith) ∙ ground (arith, get_or-swap a 0 n n),
        )

    -- For an order, a pop from a heap that is not empty returns its root and leaves a heap with the
    -- other items, one fewer.
    pub pop-IsHeap :
        (a : List A)
        → IsHeap a
        → 0 < length a
        → IsHeap (pop d less a).1
          × SameItems a ((pop d less a).0 ∷ (pop d less a).1)
          × (length a ≡ suc (length (pop d less a).1))
          × ((pop d less a).0 ≡ get_or a 0 d)
    unfolding pop
    pop-IsHeap a h pos =
        let n = length a - 1 in
        let size : length a ≡ suc n = omega arith in
        let at = λ (c : ℕ). get_or-swap a 0 n c pos (omega arith) in
        cut-IsHeap n a (down d less (suc n) (swap d less a 0 n) 0 n) size (
          down-Restored (suc n) n (swap d less a 0 n) 0 (omega arith) (record {
            long = omega (arith, length-swap a 0 n);
            edges = λ c p q t. ground (arith, h c, at c, at (parent c));
            bridged = λ c p q t u. absurd (omega arith);
          }))

    -- For an order, no item of a heap is less than its root.
    pub root_least :
        (fuel : ℕ) (a : List A) (i : ℕ)
        → IsHeap a
        → i < fuel
        → i < length a
        → less (get_or a i d) (get_or a 0 d) ≡ false
    root_least zero a i h f q = absurd (omega arith)
    root_least (suc fuel) a zero h f q = irreflexive (get_or a 0 d)
    root_least (suc fuel) a (suc i) h f q =
        o.transitive (get_or a 0 d) (get_or a (parent (suc i)) d) (get_or a (suc i) d)
          (root_least fuel a (parent (suc i)) h (omega arith) (omega arith))
          (h (suc i) (omega arith) q)
