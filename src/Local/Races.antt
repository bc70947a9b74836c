-- ===== src/Local/Races.antt =====
-- internal/local/store.go: an eviction between the two parts of putOne under the lock. The entry and the
-- output that putOne has read are gone when it takes the lock again.
use gocacheprog.Prelude.{◌<◌, ◌≡◌, true, some, String, arith, leb, string_eq, ◌==◌, ==_refl}
use gocacheprog.Prelude.Maps.{lookup, insert, remove, lookup-remove_self}
use gocacheprog.RecordPool.{Loc}
use gocacheprog.Local.{
  Entry, Store, get_count, resize_output, release_output_ref, replace_output_ref, drop_entry,
}
use gocacheprog.Local.Put.{at_loc, count_output, put_commit}
use gocacheprog.Local.Counted.{uses, get_count-remove}
use gocacheprog.Local.Consistent.{IsCounted, uses-insert_new}

module _ (s : Store) (action : String) (old ie : Entry) (loc : Loc) where
  -- The store when putOne takes the lock again.
  abbrev pub evicted : Store
  evicted = drop_entry s action old

  abbrev pub committed : Store
  committed = put_commit evicted action (some old) ie loc

  committed-refs :
      leb (get_count s.output_refs old.output_id) 1 ≡ true
      → (old.output_id == ie.output_id) ≡ true
      → committed.output_refs ≡ remove old.output_id s.output_refs
  unfolding put_commit count_output replace_output_ref resize_output drop_entry release_output_ref
  committed-refs last again = rw (again, last)

  committed-index :
      (old.output_id == ie.output_id) ≡ true
      → committed.index ≡ insert action (at_loc ie loc) (remove action s.index)
  unfolding put_commit count_output replace_output_ref resize_output drop_entry release_output_ref
  committed-index again = rw again

  -- When putOne has read the only entry of an output, the entry is evicted, and putOne then commits
  -- an entry with the same output, the output has no reference while the index uses it, and the
  -- counts disagree with the index.
  pub put_commit-loses_output :
      IsCounted s
      → lookup action s.index ≡ some old
      → uses s.index old.output_id ≡ 1
      → ie.output_id ≡ old.output_id
      → (get_count committed.output_refs old.output_id ≡ 0)
        × (0 < uses committed.index old.output_id)
        × ¬ IsCounted committed
  put_commit-loses_output v listed once same_output =
      let last : leb (get_count s.output_refs old.output_id) 1 ≡ true =
        ground (arith, v.1.counted old.output_id, once) in
      let again : (old.output_id == ie.output_id) ≡ true = rw same_output (==_refl old.output_id) in
      let none_left : get_count committed.output_refs old.output_id ≡ 0 = rw (
        committed-refs last again,
        get_count-remove old.output_id old.output_id s.output_refs,
        ==_refl old.output_id,
      ) in
      let used : 0 < uses committed.index old.output_id = rw (committed-index again) (
        ground (
          arith,
          uses-insert_new (remove action s.index) action (at_loc ie loc) old.output_id
              (lookup-remove_self action s.index),
          same_output,
          ==_refl old.output_id,
        )) in
      (none_left, used, λ bad. omega (arith, bad.1.counted old.output_id, none_left, used))
