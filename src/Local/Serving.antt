-- ===== src/Local/Serving.antt =====
-- internal/local/store.go: what Get and Preload serve, and what Preload removes.
use gocacheprog.Prelude.{
  ℕ, ◌+◌, ◌≤◌, ◌<◌, ◌≡◌, ◌∙◌, refl, sym, ap, inl, inr, true, false, ◌&&◌, Bool-cases, Option, none,
  some, String, arith, ltb, if◌then◌else◌, string_eq, ◌==◌, ==_iff, ==_refl,
}
use gocacheprog.Prelude.Maps.{lookup, insert, remove, lookup-insert, lookup-remove, insert-Distinct}
use gocacheprog.Wire.Response.{ResponseItem}
use gocacheprog.Local.{Entry, Store, drop_entry, release_output_ref, lru_time_micro, evict_one}
use gocacheprog.Local.Get.{response_item, miss_item, missed, accessed, get_listed, get_one}
use gocacheprog.Local.Counted.{uses}
use gocacheprog.Local.Consistent.{IsCounted, uses-insert_again, Counts-same}
use gocacheprog.Local.Eviction.{evict_one-Evicts, Evicts, EvictResult}

-- What Get answers and does for an action: an entry that is not too large is served and its access
-- noted, and for any other action there is a miss.
abbrev pub GetResult : ℕ → Store → String → Option Entry → ResponseItem × Store → Type 0
GetResult now s action none (item, t) = (item ≡ miss_item action) × (t ≡ missed s)
GetResult now s action (some ie) (item, t) =
    if ltb 0 s.max_file_bytes && ltb s.max_file_bytes ie.size
    then (item ≡ miss_item action) × (t ≡ missed s)
    else (item ≡ response_item t action (accessed now ie))
      × (t.index ≡ insert action (accessed now ie) s.index)
      × (t.hits ≡ s.hits + 1)

module _ (now : ℕ) (s : Store) (action : String) where
  get_one-absent :
      lookup action s.index ≡ none → get_one now s action ≡ (miss_item action, missed s)
  get_one-absent h = unfold get_one in simp (get_one, h)

  pub get_one-listed :
      (ie : Entry)
      → lookup action s.index ≡ some ie
      → get_one now s action ≡ get_listed now s action ie
  get_one-listed ie h = unfold get_one in simp (get_one, h)

touched-IsCounted :
    (s : Store) (action : String) (ie : Entry) (now : ℕ)
    → IsCounted s
    → lookup action s.index ≡ some ie
    → IsCounted (record s { index = insert action (accessed now ie) s.index })
touched-IsCounted s action ie now (d, c) h = (
  insert-Distinct action (accessed now ie) s.index d,
  Counts-same (uses s.index) (uses (insert action (accessed now ie) s.index)) s
      (λ id. omega (arith, uses-insert_again s.index action ie (accessed now ie) id h)) c,
)

-- Get keeps the counts in agreement with the index, and answers as `GetResult` says.
pub get_one-Result :
    (now : ℕ) (s : Store) (action : String)
    → IsCounted s
    → IsCounted (get_one now s action).1
      × GetResult now s action (lookup action s.index) (get_one now s action)
get_one-Result now s action v = by_entry (lookup action s.index) refl
  where
    by_entry :
        (found : Option Entry)
        → lookup action s.index ≡ found
        → IsCounted (get_one now s action).1 × GetResult now s action found (get_one now s action)
    by_entry none h = rw (get_one-absent now s action h) (v, (refl, refl))
    by_entry (some ie) h =
        elim (Bool-cases (ltb 0 s.max_file_bytes && ltb s.max_file_bytes ie.size)) [
          | inl big ↦ rw (get_one-listed now s action ie h, big) (v, (refl, refl))
          | inr fits ↦
              rw (get_one-listed now s action ie h, fits)
                (touched-IsCounted s action ie now v h, (refl, refl, refl))
        ]

-- An entry that another was used before stays.
evict_one-keeps :
    (s : Store) (action : String) (ie : Entry) (other : String) (je : Entry)
    → IsCounted s
    → lookup action s.index ≡ some ie
    → lookup other s.index ≡ some je
    → lru_time_micro je < lru_time_micro ie
    → ((evict_one s).0 ≡ true) × (lookup action (evict_one s).1.index ≡ some ie)
unfolding drop_entry release_output_ref
evict_one-keeps s action ie other je v h there older = elim (Bool-cases (evict_one s).0) [
  | inr stayed ↦
      let (empty, same) : EvictResult s false (evict_one s).1 =
        rw stayed at (evict_one-Evicts s v) in
      absurd (cc (rw empty at h))
  | inl went ↦
      let (ok, e) : EvictResult s true (evict_one s).1 = rw went at (evict_one-Evicts s v) in
      let le : lru_time_micro e.entry ≤ lru_time_micro je = e.first other je there in
      elim (Bool-cases (e.action == action)) [
        | inl same ↦
            let entry : some e.entry ≡ some ie =
              sym e.found ∙ ap (λ a. lookup a s.index) ((==_iff e.action action).0 same) ∙ h in
            absurd (some-older e.entry ie je entry le older)
        | inr apart ↦ (
          went,
          rw (drop_entry-index s (evict_one s).1 e)
              (rw (lookup-remove e.action action s.index, apart) h),
        )
      ]
]
  where
    some-older :
        (a b c : Entry)
        → some a ≡ some b
        → lru_time_micro a ≤ lru_time_micro c
        → lru_time_micro c < lru_time_micro b
        → ⊥
    some-older a b c same le lt =
        let times : lru_time_micro a ≡ lru_time_micro b =
          ap (λ o. elim o [ none ↦ 0 | some e ↦ lru_time_micro e ]) same in
        omega (arith, times)

    drop_entry-index : (s t : Store) (e : Evicts s t) → t.index ≡ remove e.action s.index
    drop_entry-index s t e = ap (λ (x : Store). x.index) e.dropped

-- On a store whose counts agree with its index, when Get serves an action at a time later than the
-- last use of some other action, the next eviction takes an entry and it is not the one of the
-- action that was served.
pub evict_one-get_one :
    (now : ℕ) (s : Store) (action : String) (ie : Entry) (other : String) (je : Entry)
    → IsCounted s
    → lookup action s.index ≡ some ie
    → (ltb 0 s.max_file_bytes && ltb s.max_file_bytes ie.size) ≡ false
    → (other == action) ≡ false
    → lookup other s.index ≡ some je
    → lru_time_micro je < now
    → let t = (get_one now s action).1 in
      ((evict_one t).0 ≡ true) × (lookup action (evict_one t).1.index ≡ some (accessed now ie))
evict_one-get_one now s action ie other je v h fits apart there older =
    let (ok, result) : IsCounted (get_one now s action).1
        × GetResult now s action (some ie) (get_one now s action) =
      rw h at (get_one-Result now s action v) in
    let (served, index', hits') = rw fits at result in
    evict_one-keeps (get_one now s action).1 action (accessed now ie) other je ok
      (rw index'
        (ground (arith, lookup-insert action action (accessed now ie) s.index, ==_refl action)))
      (rw index' (
        ground (
          arith,
          lookup-insert action other (accessed now ie) s.index,
          ==_iff action other,
          ==_iff other action,
        )))
      (ground arith)
