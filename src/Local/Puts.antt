-- ===== src/Local/Puts.antt =====
-- internal/local/store.go: putOne on each of its branches.
use gocacheprog.Prelude.{
  ℕ, ◌+◌, ◌<◌, ◌≡◌, refl, ap, inl, inr, true, false, Bool-cases, Option, none, some, List, String,
  arith, ltb, leb, eqb, not, ◌&&◌, length, string_eq, ◌==◌, ==_iff,
}
use gocacheprog.Prelude.Maps.{lookup, insert, remove}
use gocacheprog.RecordPool
use gocacheprog.RecordPool.{Loc, Pool, PutResult, stored, declined, failed, panicked}
use gocacheprog.Gocache.Save.{Codec, written, disk_full, write_error, WriteOutcome, Prepared}
use gocacheprog.Wire.Response.{ResponseItem}
use gocacheprog.Local.{
  Entry, Store, output_name, entry_stored_size, resize_output, add_output_ref, release_output_ref,
  replace_output_ref,
}
use gocacheprog.Local.Put.{
  PutIo, body_for_put, entry_of, store_plain, store_pooled, store_pool_eligible, store_put_body,
  put_commit, at_loc, failed_put, counted_put, PutOutcome, completed, skipped, empty_output,
  put_error, put_stored, stored_loc, put_body, put_one, count_output,
}
use gocacheprog.Local.Consistent.{IsCounted, put_commit-IsCounted, count_output-index}

-- Only the pool and the files have changed.
pub record Stores (s t : Store) : Type 0 where
  pub pool : Pool
  pub files : List (String × List ℕ)
  pub same : t ≡ record s { pool = pool; files = files }

Stores-refl : (s : Store) → Stores s s
Stores-refl s = record { pool = s.pool; files = s.files; same = refl }

store_plain-Stores :
    (io : PutIo) (s : Store) (id : String) (body : List ℕ) (size : ℕ)
    → Stores s (store_plain io s id body size).1
store_plain-Stores io s id body size = by_outcome io.write refl
  where
    by_outcome : (w : WriteOutcome) → io.write ≡ w → Stores s (store_plain io s id body size).1
    by_outcome disk_full e = unfold store_plain in rw (store_plain, e) (Stores-refl s)
    by_outcome write_error e = unfold store_plain in rw (store_plain, e) (Stores-refl s)
    by_outcome written e = elim (Bool-cases (eqb (length body) size)) [
      | inl full ↦
          unfold store_plain in
          rw (store_plain, e, full)
            (record { pool = s.pool; files = insert (output_name id) body s.files; same = refl })
      | inr short ↦
          unfold store_plain in
          rw (store_plain, e, short)
            (record { pool = s.pool; files = remove (output_name id) s.files; same = refl })
    ]

store_pooled-Stores :
    (io : PutIo) (s : Store) (pool : Pool) (id : String) (body : List ℕ) (answer : PutResult)
    → Stores s (store_pooled io (record s { pool = pool }) id body answer).1
unfolding store_pooled
store_pooled-Stores io s pool id body answer = by_answer answer io.write refl
  where
    kept : Stores s (record s { pool = pool })
    kept = record { pool = pool; files = s.files; same = refl }

    by_answer :
        (answer : PutResult) (w : WriteOutcome)
        → io.write ≡ w
        → Stores s (store_pooled io (record s { pool = pool }) id body answer).1
    by_answer (stored loc) w e = kept
    by_answer declined disk_full e = rw e kept
    by_answer declined write_error e = rw e kept
    by_answer declined written e =
        rw e (record { pool = pool; files = insert (output_name id) body s.files; same = refl })
    by_answer (failed err) w e = kept
    by_answer panicked w e = kept

store_pool_eligible-Stores :
    (io : PutIo) (s : Store) (id : String) (body : List ℕ) (size : ℕ)
    → Stores s (store_pool_eligible io s id body size).1
store_pool_eligible-Stores io s id body size = elim (Bool-cases (eqb (length body) size)) [
  | inl full ↦
      unfold store_pool_eligible in
      rw (store_pool_eligible, full)
        (store_pooled-Stores io s (RecordPool.put io.pool s.pool size body).1 id body
          (RecordPool.put io.pool s.pool size body).0)
  | inr short ↦ unfold store_pool_eligible in rw (store_pool_eligible, short) (Stores-refl s)
]

pub store_put_body-Stores :
    (io : PutIo) (s : Store) (id : String) (body : List ℕ) (size : ℕ) (there : Option Loc)
    → Stores s (store_put_body io s id body size there).1
store_put_body-Stores io s id body size (some loc) = unfold store_put_body in Stores-refl s
store_put_body-Stores io s id body size none =
    elim (Bool-cases (not s.pool_disabled && ltb 0 size && leb size s.pool.max_record_bytes)) [
      | inl pooled ↦
          unfold store_put_body in
          rw (store_put_body, pooled) (store_pool_eligible-Stores io s id body size)
      | inr plain ↦
          unfold store_put_body in rw (store_put_body, plain) (store_plain-Stores io s id body size)
    ]

-- What a put reports and what it has done to the index and the counts.
abbrev pub PutResultOf : Store → ResponseItem → PutOutcome → Store → Type 0
PutResultOf s item completed t =
    ((e : Entry) × (t.index ≡ insert item.action_id e s.index)
      × (e.output_id ≡ item.output_id)
      × (e.size ≡ item.size))
    × (t.puts_completed ≡ s.puts_completed + 1)
    × (t.errors ≡ s.errors)
    × (t.dirty ≡ true)
PutResultOf s item skipped t = (t ≡ s) × (0 < s.max_file_bytes) × (s.max_file_bytes < item.size)
PutResultOf s item empty_output t = (t ≡ failed_put s) × (item.output_id ≡ "")
PutResultOf s item put_error t =
    (t.index ≡ s.index)
    × (t.output_refs ≡ s.output_refs)
    × (t.output_sizes ≡ s.output_sizes)
    × (t.output_locs ≡ s.output_locs)
    × (t.current_disk_bytes ≡ s.current_disk_bytes)
    × (t.errors ≡ s.errors + 1)
    × (t.puts_completed ≡ s.puts_completed)

abbrev Good : Store → ResponseItem → PutOutcome × Store → Type 0
Good s item (outcome, t) = IsCounted t × PutResultOf s item outcome t

count_output-counters :
    (s : Store) (existing : Option Entry) (ie : Entry) (size : ℕ) (loc : Loc)
    → ((count_output s existing ie size loc).puts_completed ≡ s.puts_completed)
      × ((count_output s existing ie size loc).errors ≡ s.errors)
unfolding count_output replace_output_ref resize_output add_output_ref release_output_ref
count_output-counters s none ie size loc = (refl, refl)
count_output-counters s (some old) ie size loc = (ground arith, ground arith)

counted_put-frame :
    (s : Store) (existing : Option Entry)
    → (n m : ℕ) × (counted_put s existing ≡ record s { puts = n; puts_exist = m })
counted_put-frame s none = (s.puts + 1, s.puts_exist, refl)
counted_put-frame s (some old) = (s.puts + 1, s.puts_exist + 1, refl)

module _ (s : Store) (item : ResponseItem) (v : IsCounted s) (n m : ℕ) where
  abbrev begun : Store
  begun = record s { puts = n; puts_exist = m }

  put_commit-Good :
      (e : Entry) (loc : Loc) (pool : Pool) (files : List (String × List ℕ))
      → e.output_id ≡ item.output_id
      → e.size ≡ item.size
      → Good s item (
        completed,
        put_commit
            (record begun { pool = pool; files = files })
            item.action_id
            (lookup item.action_id s.index)
            e
            loc,
      )
  put_commit-Good e loc pool files same same_size =
      let t = record begun { pool = pool; files = files } in
      let existing = lookup item.action_id s.index in
      let (completed', errors') = count_output-counters t existing e (entry_stored_size e) loc in
      (
        put_commit-IsCounted t item.action_id e loc v,
        unfold put_commit in
            (
              (
                at_loc e loc,
                ap (insert item.action_id (at_loc e loc))
                    (count_output-index t existing e (entry_stored_size e) loc),
                same,
                same_size,
              ),
              ap (λ k. k + 1) completed',
              errors',
              refl,
            ),
      )

  put_stored-Good :
      (e : Entry) (r : Option Loc × Store)
      → Stores begun r.1
      → e.output_id ≡ item.output_id
      → e.size ≡ item.size
      → Good s item (put_stored item.action_id (lookup item.action_id s.index) e r)
  put_stored-Good e (none, t) h same same_size =
      rw h.same (v, (refl, refl, refl, refl, refl, refl, refl))
  put_stored-Good e (some loc, t) h same same_size =
      rw h.same (put_commit-Good e loc h.pool h.files same same_size)

  put_body-Good :
      (io : PutIo) (there : Option Loc) (body : Option Prepared)
      → Good s item (put_body io begun item (lookup item.action_id s.index) there body)
  unfolding put_body
  put_body-Good io there none = (v, (refl, refl, refl, refl, refl, refl, refl))
  put_body-Good io there (some body) =
      let e = entry_of item io.now body in
      put_stored-Good e
        (store_put_body io begun item.output_id body.bytes (entry_stored_size e) there)
        (store_put_body-Stores io begun item.output_id body.bytes (entry_stored_size e) there) refl
        refl

module _ (z : Codec) (io : PutIo) (s : Store) (item : ResponseItem) where
  pub put_one-big :
      (ltb 0 s.max_file_bytes && ltb s.max_file_bytes item.size) ≡ true
      → put_one z io s item ≡ (skipped, s)
  put_one-big h = unfold put_one in simp (put_one, h)

  pub put_one-empty :
      (ltb 0 s.max_file_bytes && ltb s.max_file_bytes item.size) ≡ false
      → (item.output_id == "") ≡ true
      → put_one z io s item ≡ (empty_output, failed_put s)
  put_one-empty h e = unfold put_one in simp (put_one, h, e)

  pub put_one-proper :
      (ltb 0 s.max_file_bytes && ltb s.max_file_bytes item.size) ≡ false
      → (item.output_id == "") ≡ false
      → put_one z io s item
        ≡ put_body io
            (counted_put s (lookup item.action_id s.index))
            item
            (lookup item.action_id s.index)
            (stored_loc s item.output_id)
            (body_for_put z item s.compress)
  put_one-proper h e = unfold put_one in simp (put_one, h, e)

-- On a store whose counts agree with its index they agree after putOne, on every branch. A put that
-- completes adds or replaces the entry of its action alone and counts as completed; one over the
-- file limit changes nothing; one without an output, and only the count of errors, fails; any other
-- failure leaves the index, the references, sizes and locations of the outputs and the byte count
-- as they were, and counts as an error.
pub put_one-Result :
    (z : Codec) (io : PutIo) (s : Store) (item : ResponseItem)
    → IsCounted s
    → IsCounted (put_one z io s item).1
      × PutResultOf s item (put_one z io s item).0 (put_one z io s item).1
put_one-Result z io s item v =
    elim (Bool-cases (ltb 0 s.max_file_bytes && ltb s.max_file_bytes item.size)) [
      | inl big ↦ rw (put_one-big z io s item big) (v, (refl, ground arith, ground arith))
      | inr fits ↦ elim (Bool-cases (item.output_id == "")) [
        | inl empty ↦
            rw (put_one-empty z io s item fits empty)
              (v, (refl, (==_iff item.output_id "").0 empty))
        | inr proper ↦
            let (n, m, frame) = counted_put-frame s (lookup item.action_id s.index) in
            rw (put_one-proper z io s item fits proper, frame)
              (put_body-Good s item v n m io (stored_loc s item.output_id)
                (body_for_put z item s.compress))
      ]
    ]
