-- ===== src/Local/RoundTrip.antt =====
-- internal/local/store.go: what Get serves after putOne.
pub mod Served
pub mod Bodies
use gocacheprog.Prelude.{
  ℕ, ◌+◌, ◌≤◌, ◌<◌, ◌≡◌, ◌∙◌, refl, sym, ap, inl, inr, Bool, true, false, Bool-cases, Option-cases,
  Option, none, some, List, [], ◌∷◌, String, arith, ltb, leb, eqb, not, ◌&&◌, ◌||◌, length,
  string_eq, ◌==◌, if◌then◌else◌, ==_iff, ==_refl,
}
use gocacheprog.Prelude.Maps.{lookup, insert, remove, lookup-insert_self}
use gocacheprog.RecordPool
use gocacheprog.RecordPool.{
  Loc, Pool, PutResult, stored, declined, failed, panicked, ReadResult, found, read_error, read,
  is_zero,
}
use gocacheprog.RecordPool.View.{IsPool}
use gocacheprog.RecordPool.Put.{HasPages, put-Puts}
use gocacheprog.RecordPool.Free.{read-put}
use gocacheprog.Gocache.Save.{
  Codec, written, disk_full, write_error, WriteOutcome, Prepared, Body, yields, failing, no_reader,
}
use gocacheprog.Wire.Response.{ResponseItem}
use gocacheprog.Local.{Entry, Store, output_name, output_file, entry_stored_size}
use gocacheprog.Local.Put.{PutIo, store_plain, store_pooled, store_pool_eligible, store_put_body}

-- The store has the body of this output at its location, with the size that it says.
abbrev pub Readable : Store → String → ℕ → List ℕ → Option Loc → Type 0
Readable t id size body none = Unit
Readable t id size body (some loc) =
    (length body ≡ size)
    × (if eqb loc.page 0 then output_file t id ≡ some body else read t.pool size loc ≡ found body)

output_file-written :
    (s : Store) (id : String) (body : List ℕ)
    → output_file (record s { files = insert (output_name id) body s.files }) id ≡ some body
output_file-written s id body = rw (output_file, lookup-insert_self (output_name id) body s.files)

store_plain-Readable :
    (io : PutIo) (s : Store) (id : String) (body : List ℕ) (size : ℕ)
    → Readable (store_plain io s id body size).1 id size body (store_plain io s id body size).0
store_plain-Readable io s id body size = by_outcome io.write refl
  where
    by_outcome :
        (w : WriteOutcome)
        → io.write ≡ w
        → Readable (store_plain io s id body size).1 id size body (store_plain io s id body size).0
    by_outcome disk_full e = unfold store_plain in rw (store_plain, e) tt
    by_outcome write_error e = unfold store_plain in rw (store_plain, e) tt
    by_outcome written e = elim (Bool-cases (eqb (length body) size)) [
      | inl full ↦
          unfold store_plain in
          rw (store_plain, e, full) (ground (arith, full), output_file-written s id body)
      | inr short ↦ unfold store_plain in rw (store_plain, e, short) tt
    ]

-- What the pool answers can be read where it says.
abbrev Reads : Store → ℕ → List ℕ → PutResult → Type 0
Reads s size body answer =
    (loc : Loc)
    → answer ≡ stored loc
    → (eqb loc.page 0 ≡ false) × (read s.pool size loc ≡ found body)

store_pooled-Readable :
    (io : PutIo) (s : Store) (id : String) (body : List ℕ) (size : ℕ) (answer : PutResult)
    → length body ≡ size
    → Reads s size body answer
    → Readable
        (store_pooled io s id body answer).1
        id
        size
        body
        (store_pooled io s id body answer).0
unfolding store_pooled
store_pooled-Readable io s id body size answer fits reads = by_answer answer io.write refl reads
  where
    by_answer :
        (answer : PutResult) (w : WriteOutcome)
        → io.write ≡ w
        → Reads s size body answer
        → Readable
            (store_pooled io s id body answer).1
            id
            size
            body
            (store_pooled io s id body answer).0
    by_answer (stored loc) w e reads = let (paged, there) = reads loc refl in (fits, rw paged there)
    by_answer declined disk_full e reads = rw e tt
    by_answer declined write_error e reads = rw e tt
    by_answer declined written e reads = rw e (fits, output_file-written s id body)
    by_answer (failed err) w e reads = tt
    by_answer panicked w e reads = tt

put-Reads :
    (io : PutIo) (s : Store) (body : List ℕ) (size : ℕ)
    → IsPool s.pool
    → HasPages s.pool size
    → Reads
        (record s { pool = (RecordPool.put io.pool s.pool size body).1 })
        size
        body
        (RecordPool.put io.pool s.pool size body).0
put-Reads io s body size v room loc e =
    let answer : RecordPool.put io.pool s.pool size body
        ≡ (stored loc, (RecordPool.put io.pool s.pool size body).1) =
      ap (λ a. (a, (RecordPool.put io.pool s.pool size body).1)) e in
    (
      (rw e at (put-Puts io.pool s.pool size body v room).1).0,
      (read-put io.pool s.pool (RecordPool.put io.pool s.pool size body).1 size body loc v room
          answer).0,
    )

store_pool_eligible-Readable :
    (io : PutIo) (s : Store) (id : String) (body : List ℕ) (size : ℕ)
    → IsPool s.pool
    → HasPages s.pool size
    → Readable
        (store_pool_eligible io s id body size).1
        id
        size
        body
        (store_pool_eligible io s id body size).0
store_pool_eligible-Readable io s id body size v room = elim (Bool-cases (eqb (length body) size)) [
  | inl full ↦
      unfold store_pool_eligible in
      rw (store_pool_eligible, full)
        (store_pooled-Readable io (record s { pool = (RecordPool.put io.pool s.pool size body).1 })
          id body size (RecordPool.put io.pool s.pool size body).0 (ground (arith, full))
          (put-Reads io s body size v room))
  | inr short ↦ unfold store_pool_eligible in rw (store_pool_eligible, short) tt
]

-- A body that is stored for an output that is new can be read where it is stored.
pub store_put_body-Readable :
    (io : PutIo) (s : Store) (id : String) (body : List ℕ) (size : ℕ)
    → IsPool s.pool
    → HasPages s.pool size
    → Readable
        (store_put_body io s id body size none).1
        id
        size
        body
        (store_put_body io s id body size none).0
store_put_body-Readable io s id body size v room =
    elim (Bool-cases (not s.pool_disabled && ltb 0 size && leb size s.pool.max_record_bytes)) [
      | inl pooled ↦
          unfold store_put_body in
          rw (store_put_body, pooled) (store_pool_eligible-Readable io s id body size v room)
      | inr plain ↦
          unfold store_put_body in
          rw (store_put_body, plain) (store_plain-Readable io s id body size)
    ]
