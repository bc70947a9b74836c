-- ===== src/Gocache/Restore/Budgeted.antt =====
-- Proofs about selectRestoreEntries: the limits of the request and of the store.
use gocacheprog.Prelude.{
  ◌&&◌, ◌||◌, ℕ, ◌+◌, ◌≤◌, ◌<◌, ◌≡◌, ◌⊎◌, refl, inl, inr, Bool, true, false, ◌||◌, Bool-cases, List,
  [], ◌∷◌, String, arith, if◌then◌else◌, string_eq, eqb, ltb, length, tally,
}
use gocacheprog.Gocache.{entry_stored_size}
use gocacheprog.Gocache.Restore.{
  RestoreEntry, Limits, small_enough, keep_small, insert_sorted, sort_stable, restored_before,
  within_budget, select_few, select_restore_entries,
}

abbrev pub total_stored : List RestoreEntry → ℕ
total_stored [] = 0
total_stored (e ∷ rest) = entry_stored_size e.ie + total_stored rest

module _ {A : Type 0} (before : A → A → Bool) (p : A → Bool) where
  tally-insert_sorted :
      (a : A) (l : List A) → tally p (insert_sorted before a l) ≡ (if p a then 1 else 0) + tally p l
  unfolding insert_sorted
  tally-insert_sorted a [] = omega arith
  tally-insert_sorted a (b ∷ l) = ground (arith, tally-insert_sorted a l)

  tally-sort_stable : (l : List A) → tally p (sort_stable before l) ≡ tally p l
  unfolding sort_stable
  tally-sort_stable [] = refl
  tally-sort_stable (a ∷ l) =
      omega (arith, tally-insert_sorted a (sort_stable before l), tally-sort_stable l)

total-within_budget :
    (budget used : ℕ) (l : List RestoreEntry)
    → used ≤ budget
    → used + total_stored (within_budget budget used l) ≤ budget
unfolding within_budget
total-within_budget budget used [] h = omega arith
total-within_budget budget used (e ∷ l) h =
    ground (arith, total-within_budget budget (used + entry_stored_size e.ie) l)

tally-within_budget :
    (p : RestoreEntry → Bool) (budget used : ℕ) (l : List RestoreEntry)
    → tally p (within_budget budget used l) ≤ tally p l
unfolding within_budget
tally-within_budget p budget used [] = omega arith
tally-within_budget p budget used (e ∷ l) =
    ground (arith, tally-within_budget p budget (used + entry_stored_size e.ie) l)

tally-keep_small :
    (p : RestoreEntry → Bool) (l : Limits) (es : List RestoreEntry)
    → tally p (keep_small l es) ≤ tally p es
unfolding keep_small
tally-keep_small p l [] = omega arith
tally-keep_small p l (e ∷ es) = ground (arith, tally-keep_small p l es)

-- An entry is above a file limit, of the request or of the store, where there is one.
abbrev pub too_large : Limits → RestoreEntry → Bool
too_large l e =
    (ltb 0 l.request_max_file_bytes && ltb l.request_max_file_bytes e.ie.size)
    || (ltb 0 l.store_max_file_bytes && ltb l.store_max_file_bytes e.ie.size)

tally-keep_small-too_large :
    (l : Limits) (es : List RestoreEntry) → tally (too_large l) (keep_small l es) ≡ 0
unfolding keep_small
tally-keep_small-too_large l [] = refl
tally-keep_small-too_large l (e ∷ es) =
    by_test (Bool-cases (small_enough l e)) (tally-keep_small-too_large l es)
  where
    by_test :
        (small_enough l e ≡ true) ⊎ (small_enough l e ≡ false)
        → tally (too_large l) (keep_small l es) ≡ 0
        → tally (too_large l) (keep_small l (e ∷ es)) ≡ 0
    by_test (inl q) later =
        rw (keep_small, q)
          (let own : too_large l e ≡ false = ground (arith, q) in rw own (omega (arith, later)))
    by_test (inr q) later = rw (keep_small, q) later

tally-select_few :
    (p : RestoreEntry → Bool) (budget : ℕ) (l : List RestoreEntry)
    → tally p (select_few budget l) ≤ tally p l
unfolding select_few
tally-select_few p budget [] = omega arith
tally-select_few p budget (e ∷ l) = ground arith

total-select_few :
    (budget : ℕ) (l : List RestoreEntry)
    → 0 < budget
    → ltb (length l) 2 ≡ true
    → total_stored (select_few budget l) ≤ budget
unfolding select_few
total-select_few budget [] pos few = omega arith
total-select_few budget (e ∷ []) pos few = ground arith
total-select_few budget (e ∷ f ∷ l) pos few = absurd (ground arith)

-- selectRestoreEntries takes no entry more often than it is given, none above the file limits of
-- the request or the store, and, if the request has a total limit, entries whose stored sizes add
-- up to at most that limit.
pub total-select_restore_entries :
    (path_less : String → String → Bool) (l : Limits) (es : List RestoreEntry)
    → let selected = select_restore_entries path_less l es in
      ((p : RestoreEntry → Bool) → tally p selected ≤ tally p es)
      × (tally (too_large l) selected ≡ 0)
      × (0 < l.max_preload_total_bytes → total_stored selected ≤ l.max_preload_total_bytes)
unfolding select_restore_entries
total-select_restore_entries path_less l es =
    let kept = keep_small l es in
    let budget = l.max_preload_total_bytes in
    let sorted = sort_stable (restored_before path_less) kept in
    let order = tally-sort_stable (restored_before path_less) in
    elim (Bool-cases (eqb l.max_preload_total_bytes 0 || ltb (length (keep_small l es)) 2)) [
      | inl few ↦ rw few (
        λ p. omega (arith, tally-select_few p budget kept, tally-keep_small p l es),
        omega (arith, tally-select_few (too_large l) budget kept, tally-keep_small-too_large l es),
        λ pos. total-select_few budget kept pos (ground arith),
      )
      | inr many ↦ rw many (
        λ p.
            omega
              (arith, tally-within_budget p budget 0 sorted, order p kept, tally-keep_small p l es),
        omega (
          arith,
          tally-within_budget (too_large l) budget 0 sorted,
          order (too_large l) kept,
          tally-keep_small-too_large l es,
        ),
        λ pos. omega (arith, total-within_budget budget 0 sorted (omega arith)),
      )
    ]
