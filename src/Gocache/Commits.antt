-- ===== src/Gocache/Commits.antt =====
-- Proofs about the parts of putOne: what storePutBody leaves, and the last part, which changes the index.
use gocacheprog.Prelude.{
  ℕ, ◌+◌, ◌≡◌, refl, inl, inr, true, ◌&&◌, Bool-cases, Option, none, some, List, String, arith, ltb,
  leb, eqb, length, string_eq, ==_refl,
}
use gocacheprog.Prelude.Int.{ℤ, pos, ◌+ℤ◌, ◌-ℤ◌, pos--ℤ-+ℤ, pos-+ℤ}
use gocacheprog.Prelude.Maps.{
  lookup, insert, total, total-insert, insert-Distinct, lookup-insert-inv,
}
use gocacheprog.Heap.Push.{push-IsHeap}
use gocacheprog.RecordPool.{PutResult, stored, declined, failed, panicked}
use gocacheprog.Gocache.{
  IndexEntry, HeapEntry, Store, entry_stored_size, heap_entry, entry_less, no_entry, heap_push,
}
use gocacheprog.Gocache.Ordering.{entry_less-IsOrder}
use gocacheprog.Gocache.Consistent.{same_entry, Consistent, IsStore}
use gocacheprog.Gocache.Budget.{evict_on_disk_full-IsStore}
use gocacheprog.Gocache.Save.{
  SaveIo, WriteOutcome, written, disk_full, write_error, put_commit, store_put_body, store_pooled,
  store_plain,
}

same_entry_refl : (e : HeapEntry) → same_entry e e ≡ true
same_entry_refl e = ground (arith, ==_refl e.path)

new-Consistent :
    (bucket : ℕ) (index : List (String × IndexEntry)) (bytes : ℤ) (heap : List HeapEntry)
    (path : String) (ie : IndexEntry)
    → Consistent bucket index bytes heap
    → lookup path index ≡ none
    → Consistent bucket
        (insert path ie index)
        (bytes +ℤ pos (entry_stored_size ie))
        (heap_push bucket heap (heap_entry path ie))
new-Consistent bucket index bytes heap path ie v fresh =
    let e = heap_entry path ie in
    let (ordered, same) =
      push-IsHeap no_entry (entry_less bucket) (entry_less-IsOrder bucket) heap e v.ordered in
    let grown : total entry_stored_size (insert path ie index)
        ≡ total entry_stored_size index + entry_stored_size ie =
      omega (arith, rw fresh at (total-insert entry_stored_size path ie index)) in
    record {
      distinct = insert-Distinct path ie index v.distinct;
      counted = rw (v.counted, grown) (pos-+ℤ _ _);
      ordered = ordered;
      covered = λ other je h. elim (lookup-insert-inv path other ie je index h) [
        | inl (here, entry) ↦
            rw (← here, ← entry)
              (omega (arith, same (same_entry e), rw (same_entry_refl e) at (same (same_entry e))))
        | inr old ↦ omega (arith, same (same_entry (heap_entry other je)), v.covered other je old)
      ];
    }

resaved-Consistent :
    (bucket : ℕ) (index : List (String × IndexEntry)) (bytes : ℤ) (heap : List HeapEntry)
    (path : String) (old ie : IndexEntry)
    → Consistent bucket index bytes heap
    → lookup path index ≡ some old
    → heap_entry path ie ≡ heap_entry path old
    → Consistent bucket
        (insert path ie index)
        (bytes -ℤ pos (entry_stored_size old) +ℤ pos (entry_stored_size ie))
        heap
resaved-Consistent bucket index bytes heap path old ie v there alike = record {
  distinct = insert-Distinct path ie index v.distinct;
  counted = rw v.counted (
      pos--ℤ-+ℤ _ (entry_stored_size old) (entry_stored_size ie) _
        (rw there at (total-insert entry_stored_size path ie index)));
  ordered = v.ordered;
  covered = λ other je h. elim (lookup-insert-inv path other ie je index h) [
    | inl (here, entry) ↦ rw (← here, ← entry, alike) (v.covered path old there)
    | inr kept ↦ v.covered other je kept
  ];
}

-- What storePutBody leaves: after an error a consistent store; else one in which only the pool and
-- the files differ, and an entry that differs in its location alone.
abbrev pub Stores : Store → IndexEntry → Option IndexEntry → Store → Type 0
Stores s ie none t = IsStore t
Stores s ie (some je) t =
    IsStore t
    × (t.index ≡ s.index)
    × (entry_stored_size je ≡ entry_stored_size ie)
    × (je.mod_time_micro ≡ ie.mod_time_micro)
    × (je.size ≡ ie.size)

module _ (io : SaveIo) (path : String) (ie : IndexEntry) (body : List ℕ) where
  store_plain-Stores :
      (s t : Store)
      → IsStore t
      → t.index ≡ s.index
      → Stores s ie (store_plain io t path ie body).0 (store_plain io t path ie body).1
  unfolding store_plain
  store_plain-Stores s t v same = by_outcome io.write refl
    where
      by_outcome :
          (w : WriteOutcome)
          → io.write ≡ w
          → Stores s ie (store_plain io t path ie body).0 (store_plain io t path ie body).1
      by_outcome disk_full e = rw (e, store_plain) (evict_on_disk_full-IsStore t v)
      by_outcome write_error e = rw (e, store_plain) v
      by_outcome written e =
          rw (e, store_plain)
            (elim (Bool-cases (eqb (length body) (entry_stored_size ie))) [
              | inr q ↦ rw q v
              | inl q ↦ rw q (elim (Bool-cases io.chtimes) [
                | inl c ↦ rw c (v, same, refl, refl, refl)
                | inr c ↦ rw c v
              ])
            ])

  store_pooled-Stores :
      (s t : Store) (r : PutResult)
      → IsStore t
      → t.index ≡ s.index
      → Stores s ie (store_pooled io t path ie body r).0 (store_pooled io t path ie body r).1
  unfolding store_pooled
  store_pooled-Stores s t (stored loc) v same = (v, same, refl, refl, refl)
  store_pooled-Stores s t declined v same = store_plain-Stores s t v same
  store_pooled-Stores s t (failed e) v same = elim (Bool-cases io.pool_disk_full) [
    | inl q ↦ rw q (evict_on_disk_full-IsStore t v)
    | inr q ↦ rw q v
  ]
  store_pooled-Stores s t panicked v same = v

  pub store_put_body-Stores :
      (s : Store)
      → IsStore s
      → Stores s ie (store_put_body io s path ie body).0 (store_put_body io s path ie body).1
  unfolding store_put_body
  store_put_body-Stores s v =
      elim (Bool-cases
        (ltb 0 (entry_stored_size ie) && leb (entry_stored_size ie) s.pool.max_record_bytes)) [
          | inr large ↦ rw large (store_plain-Stores s s v refl)
          | inl small ↦ rw small (elim (Bool-cases (eqb (length body) (entry_stored_size ie))) [
            | inr short ↦ rw short v
            | inl full ↦ rw full (store_pooled-Stores s _ _ v refl)
          ])
        ]

-- The last part of putOne keeps the store consistent while the index still holds what was read.
pub put_commit-IsStore :
    (s : Store) (path : String) (existing : Option IndexEntry) (ie : IndexEntry)
    → IsStore s
    → lookup path s.index ≡ existing
    → ((old : IndexEntry) → existing ≡ some old → heap_entry path ie ≡ heap_entry path old)
    → IsStore (put_commit s path existing ie)
unfolding put_commit
put_commit-IsStore s path none ie v there alike =
    new-Consistent s.eviction_bucket s.index s.current_disk_bytes s.evict_heap path ie v there
put_commit-IsStore s path (some old) ie v there alike =
    resaved-Consistent s.eviction_bucket s.index s.current_disk_bytes s.evict_heap path old ie v
      there (alike old refl)

pub index-put_commit :
    (s : Store) (path : String) (existing : Option IndexEntry) (ie : IndexEntry)
    → (put_commit s path existing ie).index ≡ insert path ie s.index
unfolding put_commit
index-put_commit s path none ie = refl
index-put_commit s path (some old) ie = refl
