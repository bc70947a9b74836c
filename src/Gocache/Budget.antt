-- ===== src/Gocache/Budget.antt =====
-- The loops over evictOneLocked: where they stop.
use gocacheprog.Prelude.{
  ℕ, refl, zero, suc, ◌≤◌, ◌<◌, ◌≡◌, ◌∙◌, ap, inl, inr, Bool, true, false, Bool-cases, List, [],
  String, arith, eqb, length, string_eq,
}
use gocacheprog.Prelude.Int.{pos, ltb_ℤ}
use gocacheprog.Prelude.Maps.{total}
use gocacheprog.Gocache.{
  IndexEntry, Store, entry_stored_size, evict_once, evict_until, evict_if_needed, eviction_target,
}
use gocacheprog.Gocache.Consistent.{IsStore}
use gocacheprog.Gocache.Eviction.{evict_one-EvictResult}
use gocacheprog.Gocache.{evict_many, evict_on_disk_full}

-- The byte count in terms of the index: no more than `n`, for a store with nothing in it at once.
abbrev pub Within : ℕ → Store → Type 0
Within n s = ltb_ℤ (pos n) s.current_disk_bytes ≡ false

empty-Within : (n : ℕ) (s : Store) → IsStore s → s.index ≡ [] → Within n s
empty-Within n s v e =
    let none_left : s.current_disk_bytes ≡ pos 0 =
      v.counted ∙ ap (λ (m : List (String × IndexEntry)). pos (total entry_stored_size m)) e in
    rw none_left (ground arith)

Within-mono : (n m : ℕ) (s : Store) → n ≤ m → Within n s → Within m s
Within-mono n m s h w = ground arith

module _ (fuel target : ℕ) (s : Store) where
  evict_until-under :
      ltb_ℤ (pos target) s.current_disk_bytes ≡ false → evict_until (suc fuel) target s ≡ s
  evict_until-under low = unfold evict_until in rw (evict_until, low)

  evict_until-over :
      (b : Bool)
      → ltb_ℤ (pos target) s.current_disk_bytes ≡ true
      → (evict_once s).0 ≡ b
      → evict_until (suc fuel) target s
        ≡ elim b [ true ↦ evict_until fuel target (evict_once s).1 | false ↦ (evict_once s).1 ]
  evict_until-over b over e = unfold evict_until in rw (evict_until, over, e)

-- The loop ends with the count at its target.
evict_until-Within :
    (fuel target : ℕ) (s : Store)
    → length s.evict_heap < fuel
    → IsStore s
    → IsStore (evict_until fuel target s) × Within target (evict_until fuel target s)
evict_until-Within zero target s f v = elim f [ ]
evict_until-Within (suc fuel) target s f v =
    elim (Bool-cases (ltb_ℤ (pos target) s.current_disk_bytes)) [
      | inr low ↦ rw (evict_until-under fuel target s low) (v, low)
      | inl over ↦
          let r = evict_one-EvictResult (suc (length s.evict_heap)) s (omega arith) v in
          elim (Bool-cases (evict_once s).0) [
            | inl went ↦
                let (ok, e) = rw went at r in
                rw (evict_until-over fuel target s true over went)
                  (evict_until-Within fuel target (evict_once s).1 (omega (arith, e.shorter)) ok)
            | inr stayed ↦
                let (ok, empty, empty') = rw stayed at r in
                rw (evict_until-over fuel target s false over stayed)
                  (ok, empty-Within target (evict_once s).1 ok empty')
          ]
    ]

-- On a consistent store with a disk limit, evictIfNeeded gives a consistent store whose byte count
-- is within the limit, and within the eviction target, nine tenths of the limit, if the limit was
-- exceeded.
pub evict_if_needed-Within :
    (s : Store)
    → IsStore s
    → 0 < s.max_disk_bytes
    → IsStore (evict_if_needed s)
      × Within s.max_disk_bytes (evict_if_needed s)
      × (ltb_ℤ (pos s.max_disk_bytes) s.current_disk_bytes ≡ true
          → Within (eviction_target s.max_disk_bytes) (evict_if_needed s))
evict_if_needed-Within s v limited =
    let some_limit : eqb s.max_disk_bytes 0 ≡ false = ground arith in
    elim (Bool-cases (ltb_ℤ (pos s.max_disk_bytes) s.current_disk_bytes)) [
      | inr low ↦ rw (stays some_limit low) (v, low, λ over. cc)
      | inl over ↦
          let (ok, within) =
            evict_until-Within (suc (length s.evict_heap)) (eviction_target s.max_disk_bytes) s
              (omega arith) v in
          rw (evicts some_limit over) (
            ok,
            Within-mono (eviction_target s.max_disk_bytes) s.max_disk_bytes
                (evict_until (suc (length s.evict_heap)) (eviction_target s.max_disk_bytes) s)
                (omega arith) within,
            λ _. within,
          )
    ]
  where
    stays :
        eqb s.max_disk_bytes 0 ≡ false
        → ltb_ℤ (pos s.max_disk_bytes) s.current_disk_bytes ≡ false
        → evict_if_needed s ≡ s
    stays l e = unfold evict_if_needed in rw (evict_if_needed, l, e)

    evicts :
        eqb s.max_disk_bytes 0 ≡ false
        → ltb_ℤ (pos s.max_disk_bytes) s.current_disk_bytes ≡ true
        → evict_if_needed s
          ≡ evict_until (suc (length s.evict_heap)) (eviction_target s.max_disk_bytes) s
    evicts l e = unfold evict_if_needed in rw (evict_if_needed, l, e)

evict_many-zero : (s : Store) → evict_many 0 s ≡ s
unfolding evict_many
evict_many-zero s = refl

evict_many-step :
    (n : ℕ) (s : Store) (b : Bool)
    → (evict_once s).0 ≡ b
    → evict_many (suc n) s
      ≡ elim b [ true ↦ evict_many n (evict_once s).1 | false ↦ (evict_once s).1 ]
evict_many-step n s b e = unfold evict_many in rw (evict_many, e)

evict_many-IsStore : (n : ℕ) (s : Store) → IsStore s → IsStore (evict_many n s)
evict_many-IsStore zero s v = rw (evict_many-zero s) v
evict_many-IsStore (suc n) s v =
    let r = evict_one-EvictResult (suc (length s.evict_heap)) s (omega arith) v in
    elim (Bool-cases (evict_once s).0) [
      | inl went ↦
          rw (evict_many-step n s true went)
            (evict_many-IsStore n (evict_once s).1 (rw went at r).0)
      | inr stayed ↦ rw (evict_many-step n s false stayed) (rw stayed at r).0
    ]

-- A full disk makes room by evictions alone, which keep the store consistent.
pub evict_on_disk_full-IsStore : (s : Store) → IsStore s → IsStore (evict_on_disk_full s)
unfolding evict_on_disk_full
evict_on_disk_full-IsStore s v = evict_many-IsStore _ s v

-- EvictNow keeps the store consistent, whether it has a limit or none.
pub evict_if_needed-IsStore : (s : Store) → IsStore s → IsStore (evict_if_needed s)
evict_if_needed-IsStore s v = elim (Bool-cases (eqb s.max_disk_bytes 0)) [
  | inl unlimited ↦ unfold evict_if_needed in rw (evict_if_needed, unlimited) v
  | inr limited ↦ (evict_if_needed-Within s v (ground arith)).0
]
