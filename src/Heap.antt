-- ===== src/Heap.antt =====
-- Go's container/heap, on a slice with an order given by `less`. The loops run on fuel: an index only
-- moves towards the root, or towards the end of the slice.
pub mod Order
pub mod Push
use gocacheprog.Prelude.{
  ℕ, zero, suc, ◌+◌, ◌-◌, ◌*◌, ◌/◌, Bool, not, ◌&&◌, ◌||◌, List, [], ◌∷◌, ◌++◌, ltb, leb, eqb,
  if◌then◌else◌, length, get_or, set, take,
}

abbrev pub parent : ℕ → ℕ
parent c = (c - 1) / 2

module _ {A : Type 0} (d : A) (less : A → A → Bool) where
  abbrev pub swap : List A → ℕ → ℕ → List A
  swap a i j = set (set a i (get_or a j d)) j (get_or a i d)

  unfoldable pub up : ℕ → List A → ℕ → List A
  up zero a j = a
  up (suc fuel) a j =
      let rise = up fuel (swap a (parent j) j) (parent j) in
      if eqb (parent j) j || not (less (get_or a j d) (get_or a (parent j) d)) then a else rise

  -- the child that is less; the left child stands before `n`
  unfoldable pub smaller_child : List A → ℕ → ℕ → ℕ
  smaller_child a i n =
      if ltb (2 * i + 2) n && less (get_or a (2 * i + 2) d) (get_or a (2 * i + 1) d)
      then 2 * i + 2
      else 2 * i + 1

  unfoldable pub down : ℕ → List A → ℕ → ℕ → List A
  unfolding smaller_child
  down zero a i n = a
  down (suc fuel) a i n =
      let j = smaller_child a i n in
      let sink = down fuel (swap a i j) j n in
      if leb n (2 * i + 1) || not (less (get_or a j d) (get_or a i d)) then a else sink

  -- heap.Push
  unfoldable pub push : List A → A → List A
  push a x = up (suc (length a)) (a ++ x ∷ []) (length a)

  -- heap.Pop on a heap that is not empty
  unfoldable pub pop : List A → A × List A
  pop a = let n = length a - 1 in let b = down (suc n) (swap a 0 n) 0 n in (get_or b n d, take n b)
