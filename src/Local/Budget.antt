-- ===== src/Local/Budget.antt =====
-- internal/local/store.go: evictIfNeededLocked, where its loop stops.
use gocacheprog.Prelude.{
  ℕ, zero, suc, ◌≤◌, ◌<◌, ◌≡◌, ◌∙◌, refl, ap, inl, inr, Bool, true, false, Bool-cases, none, List,
  [], ◌∷◌, String, arith, eqb, not, ◌||◌, length, string_eq, ==_refl,
}
use gocacheprog.Prelude.Int.{pos, ltb_ℤ}
use gocacheprog.Prelude.Maps.{lookup, total, length-remove_found}
use gocacheprog.Local.{
  Entry, Store, drop_entry, release_output_ref, evict_one, evict_until, evict_if_needed,
  eviction_target,
}
use gocacheprog.Local.Counted.{uses}
use gocacheprog.Local.Consistent.{IsCounted}
use gocacheprog.Local.Eviction.{Evicts, EvictResult, evict_one-Evicts}

abbrev pub Within : ℕ → Store → Type 0
Within n s = ltb_ℤ (pos n) s.current_disk_bytes ≡ false

pub drop_entry-length : (s t : Store) → Evicts s t → length t.index < length s.index
unfolding drop_entry release_output_ref
drop_entry-length s t e = rw e.dropped (length-remove_found e.action e.entry s.index e.found)

drop_entry-max : (s t : Store) → Evicts s t → t.max_disk_bytes ≡ s.max_disk_bytes
unfolding drop_entry release_output_ref
drop_entry-max s t e = rw e.dropped

no_sizes : (m : List (String × ℕ)) → ((id : String) → lookup id m ≡ none) → m ≡ []
no_sizes [] h = refl
no_sizes ((id, n) ∷ m) h = absurd (ground (arith, h id, ==_refl id))

-- A store without entries takes no bytes.
pub no_entries-size : (s : Store) → IsCounted s → s.index ≡ [] → total (λ n. n) s.output_sizes ≡ 0
no_entries-size s (d, c) e =
    ap (λ (m : List (String × ℕ)). total (λ k. k) m)
      (no_sizes s.output_sizes
        (λ id. c.unused id (ap (λ (m : List (String × Entry)). uses m id) e)))

empty-Within : (n : ℕ) (s : Store) → IsCounted s → s.index ≡ [] → Within n s
empty-Within n s v e =
    let count : s.current_disk_bytes ≡ pos 0 = v.1.summed ∙ ap pos (no_entries-size s v e) in
    rw count (ground arith)

module _ (fuel target : ℕ) (s : Store) where
  evict_until-under :
      ltb_ℤ (pos target) s.current_disk_bytes ≡ false → evict_until (suc fuel) target s ≡ s
  evict_until-under low = unfold evict_until in rw (evict_until, low)

  evict_until-over :
      (b : Bool)
      → ltb_ℤ (pos target) s.current_disk_bytes ≡ true
      → (evict_one s).0 ≡ b
      → evict_until (suc fuel) target s
        ≡ elim b [ true ↦ evict_until fuel target (evict_one s).1 | false ↦ (evict_one s).1 ]
  evict_until-over b over e = unfold evict_until in rw (evict_until, over, e)

evict_until-Within :
    (fuel target : ℕ) (s : Store)
    → length s.index < fuel
    → IsCounted s
    → IsCounted (evict_until fuel target s) × Within target (evict_until fuel target s)
evict_until-Within zero target s f v = elim f [ ]
evict_until-Within (suc fuel) target s f v =
    elim (Bool-cases (ltb_ℤ (pos target) s.current_disk_bytes)) [
      | inr low ↦ rw (evict_until-under fuel target s low) (v, low)
      | inl over ↦ elim (Bool-cases (evict_one s).0) [
        | inl went ↦
            let (ok, e) : EvictResult s true (evict_one s).1 = rw went at (evict_one-Evicts s v) in
            rw (evict_until-over fuel target s true over went) (
              evict_until-Within fuel target (evict_one s).1
                (omega (arith, drop_entry-length s (evict_one s).1 e)) ok)
        | inr stayed ↦
            let (empty, same) : EvictResult s false (evict_one s).1 =
              rw stayed at (evict_one-Evicts s v) in
            rw (evict_until-over fuel target s false over stayed, same)
              (v, empty-Within target s v empty)
      ]
    ]

Within-mono : (n m : ℕ) (s : Store) → n ≤ m → Within n s → Within m s
Within-mono n m s h w = ground arith

-- EvictNow keeps the counts in agreement with the index, and ends within the limit if there is one, and
-- within the eviction target if it was exceeded.
pub evict_if_needed-Budget :
    (s : Store)
    → IsCounted s
    → IsCounted (evict_if_needed s)
      × (0 < s.max_disk_bytes → Within s.max_disk_bytes (evict_if_needed s))
      × (0 < s.max_disk_bytes
          → ltb_ℤ (pos s.max_disk_bytes) s.current_disk_bytes ≡ true
          → Within (eviction_target s.max_disk_bytes) (evict_if_needed s))
evict_if_needed-Budget s v = elim (Bool-cases (eqb s.max_disk_bytes 0)) [
  | inl unlimited ↦
      rw (stays (rw unlimited))
        (v, (λ h. absurd (ground (arith, unlimited))), λ h. absurd (ground (arith, unlimited)))
  | inr limited ↦ elim (Bool-cases (ltb_ℤ (pos s.max_disk_bytes) s.current_disk_bytes)) [
    | inr low ↦ rw (stays (rw (limited, low))) (v, (λ h. low), λ h over. absurd (cc (low, over)))
    | inl over ↦
        let (ok, within) =
          evict_until-Within (suc (length s.index)) (eviction_target s.max_disk_bytes) s
            (omega arith) v in
        rw (evicts limited over) (
          ok,
          (λ h.
              Within-mono (eviction_target s.max_disk_bytes) s.max_disk_bytes
                (evict_until (suc (length s.index)) (eviction_target s.max_disk_bytes) s)
                (omega arith) within),
          λ h _. within,
        )
  ]
]
  where
    stays :
        (eqb s.max_disk_bytes 0 || not (ltb_ℤ (pos s.max_disk_bytes) s.current_disk_bytes)) ≡ true
        → evict_if_needed s ≡ s
    stays e = unfold evict_if_needed in simp (evict_if_needed, e)

    evicts :
        eqb s.max_disk_bytes 0 ≡ false
        → ltb_ℤ (pos s.max_disk_bytes) s.current_disk_bytes ≡ true
        → evict_if_needed s
          ≡ evict_until (suc (length s.index)) (eviction_target s.max_disk_bytes) s
    evicts l e = unfold evict_if_needed in rw (evict_if_needed, l, e)
