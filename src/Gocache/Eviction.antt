-- ===== src/Gocache/Eviction.antt =====
-- evictOneLocked and the loops over it: what is evicted, and where the loops stop.
use gocacheprog.Prelude.{
  ℕ, zero, suc, ◌+◌, ◌≤◌, ◌<◌, ◌≡◌, ◌⊎◌, ◌∙◌, ap, refl, sym, inl, inr, Bool, true, false,
  Bool-cases, Option-cases, List-cases, none, some, List, [], ◌∷◌, String, arith, length, tally,
  tally-pos, get_or, string_eq, ==_iff, ==_refl,
}
use gocacheprog.Prelude.Int.{pos--ℤ}
use gocacheprog.Prelude.Maps.{
  lookup, remove, total, total-remove, remove-Distinct, lookup-remove-inv,
}
use gocacheprog.Heap
use gocacheprog.Heap.Order.{IsHeap, SameItems, pop-IsHeap, root_least}
use gocacheprog.Gocache.{
  IndexEntry, HeapEntry, Store, entry_stored_size, heap_entry, entry_less, more_evictable, no_entry,
  drop_entry, live_entry, evict_one,
}
use gocacheprog.Gocache.Ordering.{entry_less-IsOrder}
use gocacheprog.Gocache.Consistent.{same_entry, IsStore}

-- An entry of the index, the first to be evicted, has gone from the store.
pub record Evicts (s s' : Store) : Type 0 where
  pub path : String
  pub entry : IndexEntry
  pub found : lookup path s.index ≡ some entry
  pub gone : s'.index ≡ remove path s.index
  pub first :
      (other : String) (ie : IndexEntry)
      → lookup other s.index ≡ some ie
      → more_evictable ie.mod_time_micro
          (entry_stored_size ie)
          entry.mod_time_micro
          (entry_stored_size entry)
          s.eviction_bucket
        ≡ false
  pub shorter : length s'.evict_heap < length s.evict_heap
  pub same_limits :
      (s'.eviction_bucket ≡ s.eviction_bucket) × (s'.max_disk_bytes ≡ s.max_disk_bytes)

-- What evictOneLocked reports: an eviction, or that no entry is left.
abbrev pub EvictResult : Store → Bool → Store → Type 0
EvictResult s true s' = IsStore s' × Evicts s s'
EvictResult s false s' = IsStore s' × (s.index ≡ []) × (s'.index ≡ [])

same_entry→eq : (a b : HeapEntry) → same_entry a b ≡ true → a ≡ b
same_entry→eq a b h = ground (arith, ==_iff a.path b.path)

index_empty :
    (index : List (String × IndexEntry))
    → ((path : String) (ie : IndexEntry) → lookup path index ≡ some ie → ⊥)
    → index ≡ []
index_empty [] h = refl
index_empty ((path, ie) ∷ rest) h = absurd (h path ie (rw (==_refl path)))

-- The heap without its root, and the root.
module _ (bucket : ℕ) (e₀ : HeapEntry) (r₀ : List HeapEntry) where
  abbrev heap₀ : List HeapEntry
  heap₀ = e₀ ∷ r₀

  abbrev top : HeapEntry
  top = (Heap.pop no_entry (entry_less bucket) heap₀).0

  abbrev others : List HeapEntry
  others = (Heap.pop no_entry (entry_less bucket) heap₀).1

  module _ (ordered : IsHeap no_entry (entry_less bucket) heap₀) where
    popped :
        IsHeap no_entry (entry_less bucket) others
        × SameItems no_entry (entry_less bucket) heap₀ (top ∷ others)
        × (length heap₀ ≡ suc (length others))
        × (top ≡ get_or heap₀ 0 no_entry)
    popped =
        pop-IsHeap no_entry (entry_less bucket) (entry_less-IsOrder bucket) heap₀ ordered
          (omega arith)

    -- What the heap holds is the root, or is left.
    left_of_heap :
        (e : HeapEntry)
        → 0 < tally (same_entry e) heap₀
        → (e ≡ top) ⊎ (0 < tally (same_entry e) others)
    left_of_heap e h = elim (Bool-cases (same_entry e top)) [
      | inl same ↦ inl (same_entry→eq e top same)
      | inr other ↦ inr (ground (arith, popped.1 (same_entry e), other))
    ]

    top_first : (e : HeapEntry) → 0 < tally (same_entry e) heap₀ → entry_less bucket e top ≡ false
    top_first e h =
        let (i, inside, same) = tally-pos (same_entry e) heap₀ no_entry h in
        let at_i : e ≡ get_or heap₀ i no_entry = same_entry→eq e _ same in
        rw (at_i, popped.3)
          (root_least no_entry (entry_less bucket) (entry_less-IsOrder bucket) (suc i) heap₀ i
            ordered (omega arith) inside)

live_entry-heap_entry :
    (s : Store) (path : String) (ie : IndexEntry)
    → lookup path s.index ≡ some ie
    → live_entry s (heap_entry path ie) ≡ some ie
live_entry-heap_entry s path ie h = unfold live_entry in rw (live_entry, h) (ground arith)

live_entry-inv :
    (s : Store) (e : HeapEntry) (ie : IndexEntry)
    → live_entry s e ≡ some ie
    → (lookup e.path s.index ≡ some ie) × (heap_entry e.path ie ≡ e)
unfolding live_entry
live_entry-inv s e ie h = elim (Option-cases (lookup e.path s.index)) [
  | inl q ↦ cc (rw (live_entry, q) at h)
  | inr (je, q) ↦ (ground (arith, q), ground (arith, q))
]

module _ (s : Store) (e₀ : HeapEntry) (r₀ : List HeapEntry) (filled : s.evict_heap ≡ e₀ ∷ r₀)
    (v : IsStore s) where
  abbrev bucket : ℕ
  bucket = s.eviction_bucket

  abbrev pub popped_store : Store
  popped_store = record s { evict_heap = others s.eviction_bucket e₀ r₀ }

  ordered₀ : IsHeap no_entry (entry_less s.eviction_bucket) (e₀ ∷ r₀)
  ordered₀ = rw filled at v.ordered

  covered₀ :
      (path : String) (ie : IndexEntry)
      → lookup path s.index ≡ some ie
      → 0 < tally (same_entry (heap_entry path ie)) (e₀ ∷ r₀)
  covered₀ path ie h = rw filled at (v.covered path ie h)

  -- A stale entry may go.
  stale-IsStore :
      live_entry popped_store (top s.eviction_bucket e₀ r₀) ≡ none → IsStore popped_store
  stale-IsStore stale = record {
    distinct = v.distinct;
    counted = v.counted;
    ordered = (popped s.eviction_bucket e₀ r₀ ordered₀).0;
    covered = λ path ie h.
        elim (left_of_heap s.eviction_bucket e₀ r₀ ordered₀ (heap_entry path ie)
          (covered₀ path ie h)) [
            | inl same ↦ absurd (
                cc (
                  live_entry-heap_entry popped_store path ie h,
                  ap (live_entry popped_store) same,
                  stale,
                ))
            | inr left ↦ left
          ];
  }

  -- A live entry may be evicted.
  module _ (ie : IndexEntry)
      (live : live_entry popped_store (top s.eviction_bucket e₀ r₀) ≡ some ie) where
    abbrev evicted : Store
    evicted = drop_entry popped_store (top s.eviction_bucket e₀ r₀).path ie

    evicted-IsStore : IsStore evicted
    unfolding drop_entry
    evicted-IsStore =
        let path = (top s.eviction_bucket e₀ r₀).path in
        let (listed, same_as) = live_entry-inv popped_store (top s.eviction_bucket e₀ r₀) ie live in
        let split : total entry_stored_size (remove path s.index) + entry_stored_size ie
            ≡ total entry_stored_size s.index =
          rw listed at (total-remove entry_stored_size path s.index v.distinct) in
        record {
          distinct = remove-Distinct path s.index v.distinct;
          counted = rw v.counted (pos--ℤ _ (entry_stored_size ie) _ split);
          ordered = (popped s.eviction_bucket e₀ r₀ ordered₀).0;
          covered = λ other je h.
              let (kept, apart) = lookup-remove-inv path other je s.index h in
              elim (left_of_heap s.eviction_bucket e₀ r₀ ordered₀ (heap_entry other je)
                (covered₀ other je kept)) [
                  | inl same ↦
                      absurd (cc (apart, ap (λ (e : HeapEntry). e.path) same, ==_refl path))
                  | inr left ↦ left
                ];
        }

    evicted-Evicts : Evicts s evicted
    unfolding drop_entry
    evicted-Evicts =
        let (listed, same_as) = live_entry-inv popped_store (top s.eviction_bucket e₀ r₀) ie live in
        record {
          path = (top s.eviction_bucket e₀ r₀).path;
          entry = ie;
          found = listed;
          gone = refl;
          first = λ other je h. rw (← same_as) at (
              top_first s.eviction_bucket e₀ r₀ ordered₀ (heap_entry other je)
                (covered₀ other je h));
          shorter = rw filled (omega (arith, (popped s.eviction_bucket e₀ r₀ ordered₀).2));
          same_limits = (refl, refl);
        }

EvictResult-after_stale :
    (s t u : Store) (b : Bool)
    → t.index ≡ s.index
    → t.eviction_bucket ≡ s.eviction_bucket
    → t.max_disk_bytes ≡ s.max_disk_bytes
    → length t.evict_heap ≤ length s.evict_heap
    → EvictResult t b u
    → EvictResult s b u
EvictResult-after_stale s t u true same bucket limit le (v, e) = (
  v,
  record {
    path = e.path;
    entry = e.entry;
    found = rw same at e.found;
    gone = rw same at e.gone;
    first = rw (same, bucket) at e.first;
    shorter = omega (arith, e.shorter);
    same_limits = (e.same_limits.0 ∙ bucket, e.same_limits.1 ∙ limit);
  },
)
EvictResult-after_stale s t u false same bucket limit le (v, empty, empty') =
    (v, sym same ∙ empty, empty')

evict_one-empty : (fuel : ℕ) (s : Store) → s.evict_heap ≡ [] → evict_one (suc fuel) s ≡ (false, s)
evict_one-empty fuel s e = unfold evict_one in simp (evict_one, e)

evict_one-pop :
    (fuel : ℕ) (s : Store) (e₀ : HeapEntry) (r₀ : List HeapEntry)
    → s.evict_heap ≡ e₀ ∷ r₀
    → let t = record s { evict_heap = others s.eviction_bucket e₀ r₀ } in
      evict_one (suc fuel) s ≡ elim (live_entry t (top s.eviction_bucket e₀ r₀)) [
        | none ↦ evict_one fuel t
        | some ie ↦ (true, drop_entry t (top s.eviction_bucket e₀ r₀).path ie)
      ]
evict_one-pop fuel s e₀ r₀ e = unfold evict_one in rw (evict_one, e)

-- On a consistent store, with fuel above the length of the heap, evictOne reports an eviction and
-- has removed exactly one entry of the index, one that no entry of the index is more evictable
-- than, or reports none and the index was empty; the store stays consistent, stale heap entries or
-- not.
pub evict_one-EvictResult :
    (fuel : ℕ) (s : Store)
    → length s.evict_heap < fuel
    → IsStore s
    → EvictResult s (evict_one fuel s).0 (evict_one fuel s).1
evict_one-EvictResult zero s f v = elim f [ ]
evict_one-EvictResult (suc fuel) s f v = elim (List-cases s.evict_heap) [
  | inl e ↦
      let empty =
        index_empty s.index (λ path ie h. absurd (omega (arith, rw e at (v.covered path ie h)))) in
      rw (evict_one-empty fuel s e) (v, empty, empty)
  | inr (e₀, r₀, e) ↦
      let t = popped_store s e₀ r₀ e v in
      let shorter : suc (length t.evict_heap) ≡ length s.evict_heap =
        sym (popped s.eviction_bucket e₀ r₀ (ordered₀ s e₀ r₀ e v)).2 ∙ sym (ap length e) in
      elim (Option-cases (live_entry t (top s.eviction_bucket e₀ r₀))) [
        | inl stale ↦
            rw (evict_one-pop fuel s e₀ r₀ e, stale)
              (EvictResult-after_stale s t (evict_one fuel t).1 (evict_one fuel t).0 refl refl refl
                (omega (arith, shorter))
                (evict_one-EvictResult fuel t (omega (arith, shorter))
                  (stale-IsStore s e₀ r₀ e v stale)))
        | inr (ie, live) ↦
            rw (evict_one-pop fuel s e₀ r₀ e, live)
              (evicted-IsStore s e₀ r₀ e v ie live, evicted-Evicts s e₀ r₀ e v ie live)
      ]
]
