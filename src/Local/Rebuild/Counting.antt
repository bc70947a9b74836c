-- ===== src/Local/Rebuild/Counting.antt =====
-- internal/local/store.go: rebuildStorageState counts every output as often as the index uses it.
use gocacheprog.Prelude.{
  ℕ, ◌+◌, ◌≡◌, ◌∙◌, refl, inl, inr, true, false, not, Bool-cases, none, some, List, [], ◌∷◌, String,
  arith, eqb, if◌then◌else◌, string_eq, ◌==◌, ==_iff, ==_refl,
}
use gocacheprog.Prelude.Int.{pos}
use gocacheprog.Prelude.Maps.{lookup, remove, Distinct, lookup-remove, remove-Distinct}
use gocacheprog.RecordPool.{is_zero, Pool}
use gocacheprog.RecordPool.Reconcile.{DirEntry, discover_pages, valid, finish_reconcile}
use gocacheprog.Gocache.Manifest.{mem}
use gocacheprog.Local.{Entry, Store, get_count, entry_stored_size, entry_loc, add_output_ref}
use gocacheprog.Local.Counted.{uses, same, Counts, add_output_ref-Counts, get_count-insert}
use gocacheprog.Local.Consistent.{IsCounted, Counts-same, uses-remove}
use gocacheprog.Local.Snapshot.{Holds}
use gocacheprog.Local.Rebuild.{
  output_file_size, count_first, count_ref, rebuild_loop, rebuild_storage_state,
}

-- The outputs seen are those that are counted.
abbrev Seen : List String → Store → Type 0
Seen seen s = (id : String) → mem id seen ≡ not (eqb (get_count s.output_refs id) 0)

-- The counts are those of the entries before `rest`.
record Rebuilds (seen : List String) (s : Store) (u : String → ℕ) (rest : List (String × Entry))
    : Type 0 where
  distinct : Distinct s.index
  holds : Holds rest s
  seen_counted : Seen seen s
  counts : Counts u s.output_refs s.output_sizes s.current_disk_bytes
  done : (id : String) → u id + uses rest id ≡ uses s.index id

module _ (s : Store) (seen : List String) (u : String → ℕ) (action : String) (ie : Entry)
    (rest : List (String × Entry)) where
  loop-dropped :
      valid s.pool (entry_stored_size ie) (entry_loc ie) ≡ false
      → rebuild_loop seen s ((action, ie) ∷ rest)
        ≡ rebuild_loop seen (record s { index = remove action s.index; dirty = true }) rest
  loop-dropped h = unfold rebuild_loop in simp (rebuild_loop, h)

  loop-again :
      valid s.pool (entry_stored_size ie) (entry_loc ie) ≡ true
      → mem ie.output_id seen ≡ true
      → rebuild_loop seen s ((action, ie) ∷ rest)
        ≡ rebuild_loop seen (count_ref s ie.output_id) rest
  loop-again h m = unfold rebuild_loop in simp (rebuild_loop, h, m)

  loop-first :
      valid s.pool (entry_stored_size ie) (entry_loc ie) ≡ true
      → mem ie.output_id seen ≡ false
      → rebuild_loop seen s ((action, ie) ∷ rest)
        ≡ rebuild_loop (ie.output_id ∷ seen) (count_first (count_ref s ie.output_id) ie) rest
  loop-first h m = unfold rebuild_loop in simp (rebuild_loop, h, m)

  module _ (fresh : lookup action rest ≡ none) (r : Rebuilds seen s u ((action, ie) ∷ rest)) where
    rest-apart :
        (other : String) (je : Entry) → lookup other rest ≡ some je → (action == other) ≡ false
    rest-apart other je h = ground (arith, ==_iff action other)

    rest-Holds : Holds rest s
    rest-Holds other je h = r.holds other je (rw (rest-apart other je h) h)

    abbrev more : String → ℕ
    more id = u id + same ie.output_id id

    dropped-Rebuilds :
        Rebuilds seen (record s { index = remove action s.index; dirty = true }) u rest
    dropped-Rebuilds = record {
      distinct = remove-Distinct action s.index r.distinct;
      holds = λ other je h.
          lookup-remove action other s.index ∙ rw (rest-apart other je h) (rest-Holds other je h);
      seen_counted = r.seen_counted;
      counts = r.counts;
      done = λ id. omega (
        arith,
        r.done id,
        uses-remove s.index action ie id (r.holds action ie (rw (==_refl action))) r.distinct,
      );
    }

    more-done : (id : String) → more id + uses rest id ≡ uses s.index id
    more-done id = omega (arith, r.done id)

    again-Rebuilds :
        eqb (get_count s.output_refs ie.output_id) 0 ≡ false
        → Rebuilds seen (count_ref s ie.output_id) more rest
    unfolding add_output_ref
    again-Rebuilds old = record {
      distinct = r.distinct;
      holds = rest-Holds;
      seen_counted = λ id.
          r.seen_counted id
          ∙ ground (
            arith,
            old,
            get_count-insert ie.output_id id (get_count s.output_refs ie.output_id + 1)
                s.output_refs,
            ==_iff ie.output_id id,
          );
      counts =
          rw old at
            (add_output_ref-Counts u more s ie.output_id r.counts 0 (entry_loc ie) (λ j. refl));
      done = more-done;
    }

    first-Rebuilds :
        eqb (get_count s.output_refs ie.output_id) 0 ≡ true
        → Rebuilds (ie.output_id ∷ seen) (count_first (count_ref s ie.output_id) ie) more rest
    unfolding count_first add_output_ref
    first-Rebuilds new = record {
      distinct = r.distinct;
      holds = rest-Holds;
      seen_counted = λ id. ground (
        arith,
        r.seen_counted id,
        get_count-insert ie.output_id id (get_count s.output_refs ie.output_id + 1) s.output_refs,
      );
      counts = rw new at (
          add_output_ref-Counts u more s ie.output_id r.counts
            (if is_zero (entry_loc ie) then output_file_size s ie else entry_stored_size ie)
            (entry_loc ie) (λ j. refl));
      done = more-done;
    }

rebuild_loop-Rebuilds :
    (rest : List (String × Entry)) (s : Store) (seen : List String) (u : String → ℕ)
    → Distinct rest
    → Rebuilds seen s u rest
    → IsCounted (rebuild_loop seen s rest)
rebuild_loop-Rebuilds [] s seen u d r =
    unfold rebuild_loop in
    (r.distinct, Counts-same u (uses s.index) s (λ id. omega (arith, r.done id)) r.counts)
rebuild_loop-Rebuilds ((action, ie) ∷ rest) s seen u (fresh, d) r =
    let u' = more s seen u action ie rest fresh r in
    elim (Bool-cases (valid s.pool (entry_stored_size ie) (entry_loc ie))) [
      | inr gone ↦
          rw (loop-dropped s seen u action ie rest gone) (
            rebuild_loop-Rebuilds rest _ seen u d
              (dropped-Rebuilds s seen u action ie rest fresh r))
      | inl kept ↦ elim (Bool-cases (mem ie.output_id seen)) [
        | inl met ↦ rw (loop-again s seen u action ie rest kept met) (
            rebuild_loop-Rebuilds rest _ seen u' d (
              again-Rebuilds s seen u action ie rest fresh r
                (ground (arith, met, r.seen_counted ie.output_id))))
        | inr new ↦ rw (loop-first s seen u action ie rest kept new) (
            rebuild_loop-Rebuilds rest _ (ie.output_id ∷ seen) u' d (
              first-Rebuilds s seen u action ie rest fresh r
                (ground (arith, new, r.seen_counted ie.output_id))))
      ]
    ]

-- A store as NewStore has it after it has read its index: nothing is counted yet.
pub record IsLoaded (s : Store) : Type 0 where
  pub distinct : Distinct s.index
  pub no_refs : s.output_refs ≡ []
  pub no_sizes : s.output_sizes ≡ []
  pub no_bytes : s.current_disk_bytes ≡ pos 0

loaded-Rebuilds : (s : Store) → IsLoaded s → Rebuilds [] s (λ id. 0) s.index
loaded-Rebuilds s l = record {
  distinct = l.distinct;
  holds = λ action ie h. h;
  seen_counted = λ id. rw l.no_refs;
  counts =
      rw (l.no_refs, l.no_sizes, l.no_bytes)
        (record {
          counted = λ id. refl;
          positive = λ id n h. absurd (cc h);
          distinct = tt;
          unused = λ id h. refl;
          summed = refl;
        });
  done = λ id. omega arith;
}

IsLoaded-pool : (s : Store) (pool : Pool) → IsLoaded s → IsLoaded (record s { pool = pool })
IsLoaded-pool s pool l = record {
  distinct = l.distinct;
  no_refs = l.no_refs;
  no_sizes = l.no_sizes;
  no_bytes = l.no_bytes;
}

-- If the pool can be opened, rebuildStorageState counts the outputs of what it keeps of the index.
pub rebuild_storage_state-IsCounted :
    (dir : List DirEntry) (s : Store) (pool : Pool)
    → IsLoaded s
    → discover_pages s.pool dir ≡ some pool
    → (t : Store) × (rebuild_storage_state dir s ≡ some t) × IsCounted t
rebuild_storage_state-IsCounted dir s pool l h =
    let s' = record s { pool = pool } in
    let t = rebuild_loop [] s' s'.index in
    (
      record t { pool = finish_reconcile t.pool },
      unfold rebuild_storage_state in simp (rebuild_storage_state, h),
      rebuild_loop-Rebuilds s'.index s' [] (λ id. 0) l.distinct
          (loaded-Rebuilds s' (IsLoaded-pool s pool l)),
    )
