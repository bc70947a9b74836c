-- ===== src/Local/Preloads.antt =====
-- internal/local/store.go: Preload, what it serves and what it removes.
use gocacheprog.Prelude.{
  ℕ, ◌≡◌, ◌⊎◌, refl, inl, inr, Bool, false, ◌&&◌, ◌||◌, Bool-cases, Option-cases, List, [], ◌∷◌,
  map, String, arith, ltb, eqb, if◌then◌else◌, length, string_eq, ◌==◌,
}
use gocacheprog.Prelude.Maps.{lookup, Distinct}
use gocacheprog.Gocache.Save.{yields}
use gocacheprog.Wire.Response.{ResponseItem}
use gocacheprog.Local.{Entry, Store, output_name, drop_entry}
use gocacheprog.Local.Get.{response_item, is_broken, left_out, preload_loop, preload_item, preload}
use gocacheprog.Local.Snapshot.{Holds, listed, Holds-rest, drop_entry-Holds}
use gocacheprog.Local.Consistent.{IsCounted, drop_entry-IsCounted}
use gocacheprog.Local.Warming.{
  is_chosen, Fate, loop-Warmed, loop-out, loop-broken, loop-served, remove_broken-drops,
}
use gocacheprog.Local.Lasting.{NamesApart, drop_entry-NamesApart, loop-file}

-- An item for this action is among the items.
unfoldable pub served : String → List ResponseItem → Bool
served action [] = false
served action (item ∷ items) = item.action_id == action || served action items

abbrev bytes_declared : ResponseItem → ℕ
bytes_declared item = if ltb 0 item.wire_size then item.wire_size else item.size

-- An item from a plain file has all the bytes that it says.
abbrev pub IsWhole : ResponseItem → Type 0
IsWhole item =
    (item.disk_path ≡ "")
    ⊎ ((b : List ℕ) × (item.body ≡ yields b) × (length b ≡ bytes_declared item))

abbrev pub AreWhole : List ResponseItem → Type 0
AreWhole [] = Unit
AreWhole (item ∷ items) = IsWhole item × AreWhole items

served-map :
    (t : Store) (action : String) (chosen : List (String × Entry))
    → served action (map (preload_item t) chosen) ≡ is_chosen action chosen
unfolding served preload_item response_item
served-map t action [] = refl
served-map t action ((other, ie) ∷ rest) = rw (served-map t action rest)

-- An entry whose file is whole before the rest of the loop, and is left by it, gives a whole item.
preload_item-IsWhole :
    (s t : Store) (action : String) (ie : Entry)
    → (eqb ie.pool_page 0 && is_broken s ie) ≡ false
    → lookup (output_name ie.output_id) t.files ≡ lookup (output_name ie.output_id) s.files
    → IsWhole (preload_item t (action, ie))
unfolding preload_item response_item
preload_item-IsWhole s t action ie good kept = elim (Bool-cases (eqb ie.pool_page 0)) [
  | inr pooled ↦ inl (rw pooled)
  | inl plain ↦ elim (Option-cases (lookup (output_name ie.output_id) s.files)) [
    | inl e ↦ absurd (ground (arith, good, plain, e))
    | inr (bytes, e) ↦ inr (bytes, rw (plain, kept, e), ground (arith, good, plain, e))
  ]
]

module _ (filter : String → Bool) (max_size : ℕ) where
  loop-AreWhole :
      (snapshot : List (String × Entry)) (s : Store)
      → Distinct snapshot
      → IsCounted s
      → NamesApart s
      → Holds snapshot s
      → let (chosen, t) = preload_loop filter max_size s snapshot in
        AreWhole (map (preload_item t) chosen)
  loop-AreWhole [] s d v apart holds = unfold preload_loop in tt
  loop-AreWhole ((action, ie) ∷ rest) s (fresh, d) v apart holds =
      let later = Holds-rest s action ie rest fresh holds in
      let here = listed s action ie rest fresh holds in
      elim (Bool-cases (left_out filter max_size action ie)) [
        | inl out ↦
            rw (loop-out filter max_size s action ie rest out)
              (loop-AreWhole rest s d v apart later)
        | inr wanted ↦ elim (Bool-cases (eqb ie.pool_page 0 && is_broken s ie)) [
          | inl broken ↦
              rw
                (
                  loop-broken filter max_size s action ie rest wanted broken,
                  remove_broken-drops filter max_size s action ie rest fresh holds,
                )
                (loop-AreWhole rest (drop_entry s action ie) d
                  (drop_entry-IsCounted s action ie v here)
                  (drop_entry-NamesApart s action ie apart)
                  (drop_entry-Holds s action ie rest fresh holds))
          | inr good ↦ rw (loop-served filter max_size s action ie rest wanted good) (
            preload_item-IsWhole s (preload_loop filter max_size s rest).1 action ie good
                (loop-file filter max_size rest s action ie d v apart later fresh here),
            loop-AreWhole rest s d v apart later,
          )
        ]
      ]

  -- What a preload leaves and gives, with the limit that it goes by.
  pub record Preloaded (s : Store) (r : List ResponseItem × Store) : Type 0 where
    pub counted : IsCounted r.1
    pub whole : AreWhole r.0
    pub fates :
        (action : String)
        → Fate filter
            (if eqb max_size 0 then 600000 else max_size)
            s.files
            (lookup action s.index)
            action
            (lookup action s.index)
            (lookup action r.1.index)
            (served action r.0)

-- Preload keeps the counts in agreement with the index.
pub preload-IsCounted :
    (filter : String → Bool) (max_size : ℕ) (s : Store)
    → IsCounted s
    → IsCounted (preload filter max_size s).1
unfolding preload
preload-IsCounted filter max_size s v =
    (loop-Warmed filter (if eqb max_size 0 then 600000 else max_size) s.index s v.0 v
      (λ action ie h. h)).counted

-- Preload of a store whose counts agree with its index, and whose outputs have files of different
-- names, keeps the counts in agreement. Each action of the index is left as it is and not served if
-- it is not in the filter or has more bytes than the limit, which is 600,000 if none is given;
-- otherwise it is served exactly if it is still in the index afterwards, always if its body is in
-- the pool, and never if there is no plain file under its output's own name. No other action is
-- served or changed, and an item served from a file, whose body is read after all broken entries
-- have been removed, has all the bytes that it says.
pub preload-Preloaded :
    (filter : String → Bool) (max_size : ℕ) (s : Store)
    → IsCounted s
    → NamesApart s
    → Preloaded filter max_size s (preload filter max_size s)
unfolding preload
preload-Preloaded filter max_size s v apart =
    let limit = if eqb max_size 0 then 600000 else max_size in
    let w = loop-Warmed filter limit s.index s v.0 v (λ action ie h. h) in
    let (chosen, t) = preload_loop filter limit s s.index in
    record {
      counted = w.counted;
      whole = loop-AreWhole filter limit s.index s v.0 v apart (λ action ie h. h);
      fates = λ action. rw (served-map t action chosen) (w.fates action);
    }
