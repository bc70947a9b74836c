-- ===== src/Local/Tests.antt =====
-- A store that starts empty, and requests to it.
use gocacheprog.Prelude.{
  ℕ, ◌<◌, ◌≡◌, ◌⊎◌, inl, inr, Bool-cases, ◌==◌, ==_iff, sym, refl, true, false, ◌&&◌, ltb, none,
  some, [], ◌∷◌, String, arith, length, string_eq,
}
use gocacheprog.Prelude.Int.{pos}
use gocacheprog.Prelude.Maps.{lookup}
use gocacheprog.RecordPool
use gocacheprog.RecordPool.View.{IsPool}
use gocacheprog.RecordPool.Reconcile.{finish_reconcile, discover_pages}
use gocacheprog.Gocache.Save.{Codec, yields, written}
use gocacheprog.Wire.Response.{ResponseItem}
use gocacheprog.Local.{Entry, Store, output_name, evict_one, add_output_ref, get_count}
use gocacheprog.Local.Put.{
  PutIo, put_commit, count_output, put_one, put_body, store_put_body, store_plain, body_for_put,
  completed, no_loc, uncompressed_body,
}
use gocacheprog.Local.Get.{get_one, preload, accessed}
use gocacheprog.Local.Counted.{uses}
use gocacheprog.Local.Consistent.{IsCounted, put_commit-IsCounted}
use gocacheprog.Local.Eviction.{EvictResult, evict_one-Evicts}
use gocacheprog.Local.Budget.{Within}
use gocacheprog.Local.Puts.{PutResultOf, put_one-Result}
use gocacheprog.Local.Serving.{evict_one-get_one}
use gocacheprog.Local.Preloads.{Preloaded, preload-Preloaded}
use gocacheprog.Local.Lasting.{NamesApart}
use gocacheprog.Local.Integrity.{integrity_check}
use gocacheprog.Local.Integrity.Checks.{Agree, fails, is_reported, integrity_check-dry_run}
use gocacheprog.Local.Integrity.Removals.{Removes, integrity_check-Removes}
use gocacheprog.Local.Rebuild.{rebuild_storage_state, rebuild_loop}
use gocacheprog.Local.Rebuild.Counting.{IsLoaded}
use gocacheprog.Local.Requests.{
  Request, Reach, started, next, store_item, Reach-IsCounted, Reach-Budget,
}
use gocacheprog.Local.Races.{committed, put_commit-loses_output}
use gocacheprog.Local.RoundTrip.Bodies.{uncompressed_body-get_one-put_one}

abbrev pub blank : Store
blank = record {
  compress = false;
  max_disk_bytes = 8;
  max_file_bytes = 0;
  manifest_max_age = 0;
  index = [];
  output_refs = [];
  output_sizes = [];
  dirty = false;
  current_disk_bytes = pos 0;
  eviction_scheduled = false;
  pool = RecordPool.new 4 8;
  output_locs = [];
  pool_disabled = false;
  files = [];
  legacy = [];
  hits = 0;
  misses = 0;
  puts = 0;
  puts_exist = 0;
  puts_completed = 0;
  errors = 0;
}

blank-IsPool : IsPool blank.pool
blank-IsPool = record { fits = omega arith; bounded = omega arith; classes = λ size c h. cc h }

blank-IsLoaded : IsLoaded blank
blank-IsLoaded = record { distinct = tt; no_refs = refl; no_sizes = refl; no_bytes = refl }

pub blank-IsCounted : IsCounted blank
blank-IsCounted = (
  tt,
  record {
    counted = λ id. refl;
    positive = λ id n h. cc h;
    distinct = tt;
    unused = λ id h. refl;
    summed = refl;
  },
)

abbrev pub entry : String → ℕ → ℕ → Entry
entry output size time = record {
  output_id = output;
  size = size;
  time_micro = time;
  access_time_micro = 0;
  compressed = 0;
  wire_size = 0;
  pool_page = 0;
  pool_slot = 0;
}

abbrev pub one : Store
one = put_commit blank "a" none (entry "o" 5 1) no_loc

pub one-IsCounted : IsCounted one
one-IsCounted = put_commit-IsCounted blank "a" (entry "o" 5 1) no_loc blank-IsCounted

abbrev two : Store
two = put_commit one "b" (lookup "b" one.index) (entry "p" 6 2) no_loc

two-IsCounted : IsCounted two
two-IsCounted = put_commit-IsCounted one "b" (entry "p" 6 2) no_loc one-IsCounted

one_a : lookup "a" one.index ≡ some (entry "o" 5 1)
unfolding put_commit count_output add_output_ref
one_a = refl

two_a : lookup "a" two.index ≡ some (entry "o" 5 1)
unfolding put_commit count_output add_output_ref
two_a = refl

two_b : lookup "b" two.index ≡ some (entry "p" 6 2)
unfolding put_commit count_output add_output_ref
two_b = refl

evict_one-Evicts_example : EvictResult two (evict_one two).0 (evict_one two).1
evict_one-Evicts_example = evict_one-Evicts two two-IsCounted

abbrev codec : Codec
codec = record { encode = λ b. b; decode = λ b. some b }

abbrev io : PutIo
io = record { now = 3; pool = record { create = none; write = none }; write = written }

abbrev item : ResponseItem
item = record {
  action_id = "c";
  miss = false;
  output_id = "q";
  size = 6;
  time = none;
  is_compressed = false;
  wire_size = 0;
  disk_path = "";
  body = yields (1 ∷ 2 ∷ 3 ∷ 4 ∷ 5 ∷ 6 ∷ []);
}

put_one-Result_example :
    IsCounted (put_one codec io two item).1
    × PutResultOf two item (put_one codec io two item).0 (put_one codec io two item).1
put_one-Result_example = put_one-Result codec io two item two-IsCounted

two_fits : (ltb 0 two.max_file_bytes && ltb two.max_file_bytes 5) ≡ false
unfolding put_commit
two_fits = refl

evict_one-get_one_example :
    ((evict_one (get_one 9 two "a").1).0 ≡ true)
    × (lookup "a" (evict_one (get_one 9 two "a").1).1.index ≡ some (accessed 9 (entry "o" 5 1)))
evict_one-get_one_example =
    evict_one-get_one 9 two "a" (entry "o" 5 1) "b" (entry "p" 6 2) two-IsCounted two_a two_fits
      refl two_b (omega arith)

-- One output has its file, the other has not.
abbrev half : Store
half = record two { files = ("o", 1 ∷ 2 ∷ 3 ∷ 4 ∷ 5 ∷ []) ∷ [] }

half_outputs :
    (a : String) (je : Entry)
    → lookup a half.index ≡ some je
    → (je ≡ entry "o" 5 1) ⊎ (je ≡ entry "p" 6 2)
unfolding put_commit count_output add_output_ref
half_outputs a je h = elim (Bool-cases ("a" == a)) [
  | inl first ↦ inl (ground (arith, h, first))
  | inr other ↦ inr (ground (arith, h, other))
]

names_differ : (output_name "o" == output_name "p") ≡ false
unfolding output_name
names_differ = refl

half-NamesApart : NamesApart half
half-NamesApart a b je ie ha hb h = both (half_outputs a je ha) (half_outputs b ie hb)
  where
    both :
        (je ≡ entry "o" 5 1) ⊎ (je ≡ entry "p" 6 2)
        → (ie ≡ entry "o" 5 1) ⊎ (ie ≡ entry "p" 6 2)
        → je.output_id ≡ ie.output_id
    both (inl x) (inl y) = rw (x, y) refl
    both (inr x) (inr y) = rw (x, y) refl
    both (inl x) (inr y) =
        absurd (cc (names_differ, (==_iff (output_name "o") (output_name "p")).1 (rw (x, y) at h)))
    both (inr x) (inl y) =
        absurd
          (cc (names_differ, (==_iff (output_name "o") (output_name "p")).1 (sym (rw (x, y) at h))))

preload-Preloaded_example : Preloaded (λ action. true) 100 half (preload (λ action. true) 100 half)
preload-Preloaded_example =
    preload-Preloaded (λ action. true) 100 half two-IsCounted half-NamesApart

integrity_check-Removes_example : Removes codec two two.index (integrity_check codec false two)
integrity_check-Removes_example = integrity_check-Removes codec two two-IsCounted

one-Agree : Agree codec one one.index
unfolding put_commit count_output add_output_ref
one-Agree a b ie je h k same = ground arith

integrity_check-dry_run_example :
    ((integrity_check codec true one).1 ≡ one)
    × ((integrity_check codec true one).0.checked ≡ length one.index)
    × ((action : String)
        → is_reported action (integrity_check codec true one).0.broken
          ≡ fails codec one (lookup action one.index))
integrity_check-dry_run_example = integrity_check-dry_run codec one one-IsCounted one-Agree

abbrev start : Store
start = record blank { pool = finish_reconcile blank.pool }

blank-start : rebuild_storage_state [] blank ≡ some start
unfolding rebuild_storage_state rebuild_loop finish_reconcile discover_pages
blank-start = refl

blank-pages : discover_pages blank.pool [] ≡ some blank.pool
unfolding discover_pages
blank-pages = refl

abbrev reached : Reach blank (put_one codec io start item).1
reached = next (started [] blank.pool start blank-pages blank-start) (store_item codec io item)

Reach-IsCounted_example : IsCounted (put_one codec io start item).1
Reach-IsCounted_example = Reach-IsCounted blank-IsLoaded reached

limited : 0 < (put_one codec io start item).1.max_disk_bytes
unfolding put_one put_body store_put_body store_plain body_for_put put_commit count_output
    add_output_ref finish_reconcile
limited = omega arith

Reach-Budget_example :
    (u : Store) × Request (put_one codec io start item).1 u
    × Reach blank u
    × IsCounted u
    × Within (put_one codec io start item).1.max_disk_bytes u
Reach-Budget_example = Reach-Budget blank-IsLoaded reached limited

one_use : uses one.index "o" ≡ 1
unfolding put_commit count_output add_output_ref
one_use = refl

put_commit-loses_output_example :
    (get_count (committed one "a" (entry "o" 5 1) (entry "o" 5 4) no_loc).output_refs "o" ≡ 0)
    × (0 < uses (committed one "a" (entry "o" 5 1) (entry "o" 5 4) no_loc).index "o")
    × ¬ IsCounted (committed one "a" (entry "o" 5 1) (entry "o" 5 4) no_loc)
put_commit-loses_output_example =
    put_commit-loses_output one "a" (entry "o" 5 1) (entry "o" 5 4) no_loc one-IsCounted one_a
      one_use refl

completes : (put_one codec io blank item).0 ≡ completed
unfolding put_one put_body store_put_body store_plain body_for_put put_commit
completes = refl

uncompressed_body-get_one-put_one_example :
    uncompressed_body codec (get_one 9 (put_one codec io blank item).1 "c").0
    ≡ uncompressed_body codec item
uncompressed_body-get_one-put_one_example =
    uncompressed_body-get_one-put_one codec (λ b. refl) io blank item 9 blank-IsPool
      (λ p h c k. cc k) refl refl completes
