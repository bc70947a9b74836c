-- ===== src/Gocache/Ordering.antt =====
-- Proofs about the order that moreEvictable gives.
use gocacheprog.Prelude.{ℕ, arith}
use gocacheprog.Heap.Order.{IsOrder}
use gocacheprog.Gocache.{more_evictable, entry_less}

-- For every bucket, the comparison of the eviction heap is asymmetric, and being not less is
-- transitive.
pub entry_less-IsOrder : (bucket : ℕ) → IsOrder (entry_less bucket)
unfolding more_evictable
entry_less-IsOrder bucket = record {
  asymmetric = λ x y h. ground arith;
  transitive = λ x y z h k. ground arith;
}
