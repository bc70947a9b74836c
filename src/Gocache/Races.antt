-- ===== src/Gocache/Races.antt =====
-- Proofs about putOne when another request comes between its parts, or a body is cut short.
use gocacheprog.Prelude.{
  ℕ, ◌+◌, ◌<◌, ◌≡◌, ◌≢◌, ◌∙◌, ap, refl, true, [], ◌∷◌, false, ◌&&◌, Option, none, some, List,
  String, arith, ltb, leb, eqb, length, string_eq, ◌==◌,
}
use gocacheprog.Prelude.Int.{pos, ◌+ℤ◌, ◌-ℤ◌, pos-+ℤ}
use gocacheprog.Prelude.Maps.{
  lookup, insert, remove, total, total-insert, lookup-insert_self, lookup-remove_self,
}
use gocacheprog.Gocache.{IndexEntry, Store, entry_stored_size}
use gocacheprog.Gocache.Consistent.{IsStore}
use gocacheprog.Gocache.Save.{
  Codec, FileItem, SaveIo, written, Prepared, save_error, put_commit, put_one, put_body,
  store_put_body, store_plain, body_for_put, entry_of, put_stored, counted_put, failed_put,
}
use gocacheprog.Gocache.Saves.{put_one-body}
use gocacheprog.Gocache.Restore.{RestoreEntry}
use gocacheprog.Gocache.Clear.{serve, is_broken, remove_broken_entry}

module _ (s : Store) (path : String) (v : IsStore s) (fresh : lookup path s.index ≡ none) where
  -- When two saves of a path that is not in the index of a consistent store both read the index
  -- before either wrote it, the byte count ends above the sum of the stored sizes by the stored
  -- size of the first save.
  pub double_save_overcounts :
      (first second : IndexEntry)
      → let t = put_commit (put_commit s path none first) path none second in
        t.current_disk_bytes ≡ pos (total entry_stored_size t.index + entry_stored_size first)
  unfolding put_commit
  double_save_overcounts first second =
      let once : total entry_stored_size (insert path first s.index)
          ≡ total entry_stored_size s.index + entry_stored_size first =
        omega (arith, rw fresh at (total-insert entry_stored_size path first s.index)) in
      let twice =
        rw (lookup-insert_self path first s.index) at
          (total-insert entry_stored_size path second (insert path first s.index)) in
      rw (v.counted, pos-+ℤ, pos-+ℤ) (ap pos (omega arith))

  -- When a save found an entry for its path, and the entry has left the index of a consistent store
  -- before the save writes the index, the byte count ends below the sum of the stored sizes by the
  -- stored size of that entry.
  pub save_after_eviction_undercounts :
      (old new : IndexEntry)
      → let t = put_commit s path (some old) new in
        t.current_disk_bytes +ℤ pos (entry_stored_size old) ≡ pos (total entry_stored_size t.index)
  unfolding put_commit
  save_after_eviction_undercounts old new =
      let once : total entry_stored_size (insert path new s.index)
          ≡ total entry_stored_size s.index + entry_stored_size new =
        omega (arith, rw fresh at (total-insert entry_stored_size path new s.index)) in
      rw (v.counted, once) (undercount _ (entry_stored_size old) (entry_stored_size new))
    where
      undercount : (a b c : ℕ) → pos a -ℤ pos b +ℤ pos c +ℤ pos b ≡ pos (a + c)
      undercount a b c = unfold ◌+ℤ◌ ◌-ℤ◌ in ground arith

module _ (io : SaveIo) (s : Store) (path : String) (ie : IndexEntry) (body : List ℕ)
    (large : s.pool.max_record_bytes < entry_stored_size ie) (wrote : io.write ≡ written)
    (short : length body ≢ entry_stored_size ie) where
  store_put_body-truncated :
      store_put_body io s path ie body
      ≡ (none, record s { objects = remove path (insert path body s.objects) })
  store_put_body-truncated =
      let not_pooled : (ltb 0 (entry_stored_size ie)
            && leb (entry_stored_size ie) s.pool.max_record_bytes)
          ≡ false =
        ground arith in
      let other : eqb (length body) (entry_stored_size ie) ≡ false = ground arith in
      unfold store_put_body store_plain in
      simp (store_put_body, store_plain, not_pooled, wrote, other)

module _ (z : Codec) (io : SaveIo) (item : FileItem) (body : Prepared)
    (existing : Option IndexEntry) (wrote : io.write ≡ written) where
  put_body-truncated :
      (s : Store)
      → let ie = entry_of item existing io.now body in
        s.pool.max_record_bytes < entry_stored_size ie
        → length body.bytes ≢ entry_stored_size ie
        → put_body z io s item existing (some body) ≡ (
          save_error,
          failed_put
              (record s { objects = remove item.path (insert item.path body.bytes s.objects) }),
        )
  put_body-truncated s large short =
      unfold put_body in
      ap (put_stored item.path existing) (
        store_put_body-truncated io s item.path (entry_of item existing io.now body) body.bytes
          large wrote short)

-- A truncated save leaves no file under its path, and the index as it was.
truncated_save_removes_object :
    (z : Codec) (io : SaveIo) (s : Store) (item : FileItem) (body : Prepared)
    → (item.path == "") ≡ false
    → (ltb 0 s.max_file_bytes && ltb s.max_file_bytes item.size) ≡ false
    → body_for_put z item s.compress ≡ some body
    → let ie = entry_of item (lookup item.path s.index) io.now body in
      s.pool.max_record_bytes < entry_stored_size ie
      → io.write ≡ written
      → length body.bytes ≢ entry_stored_size ie
      → let r = put_one z io s item in
        (r.0 ≡ save_error) × (r.1.index ≡ s.index) × (lookup item.path r.1.objects ≡ none)
truncated_save_removes_object z io s item body named small prepared large wrote short =
    rw (put_one-body z io s item named small, prepared) (by_entry (lookup item.path s.index) refl)
  where
    by_entry :
        (existing : Option IndexEntry)
        → lookup item.path s.index ≡ existing
        → let r = put_body z io (counted_put s existing) item existing (some body) in
          (r.0 ≡ save_error) × (r.1.index ≡ s.index) × (lookup item.path r.1.objects ≡ none)
    by_entry none e =
        rw (put_body-truncated z io item body none wrote (counted_put s none) large short)
          (refl, refl, lookup-remove_self item.path (insert item.path body.bytes s.objects))
    by_entry (some old) e =
        rw
          (put_body-truncated z io item body (some old) wrote (counted_put s (some old)) large
            short)
          (refl, refl, lookup-remove_self item.path (insert item.path body.bytes s.objects))

-- When a listed path with a plain file is saved again, with a body within the file limit and larger
-- than the pool takes that is written in another length than announced, the save fails, the path
-- stays listed and has no file, and a restore that then comes to the entry sends nothing and takes
-- it out of the index.
pub truncated_save_loses_entry :
    (z : Codec) (io : SaveIo) (s : Store) (item : FileItem) (body : Prepared) (old : IndexEntry)
    → (item.path == "") ≡ false
    → (ltb 0 s.max_file_bytes && ltb s.max_file_bytes item.size) ≡ false
    → lookup item.path s.index ≡ some old
    → old.pool_page ≡ 0
    → body_for_put z item s.compress ≡ some body
    → let ie = entry_of item (lookup item.path s.index) io.now body in
      s.pool.max_record_bytes < entry_stored_size ie
      → io.write ≡ written
      → length body.bytes ≢ entry_stored_size ie
      → let r = put_one z io s item in
        let (t, sent) = serve r.1 (record { path = item.path; ie = old } ∷ []) in
        (r.0 ≡ save_error)
        × (lookup item.path r.1.index ≡ some old)
        × (lookup item.path r.1.objects ≡ none)
        × (sent ≡ [])
        × (t.index ≡ remove item.path s.index)
truncated_save_loses_entry z io s item body old named small there plain prepared large wrote short =
    let (error, same, gone) =
      truncated_save_removes_object z io s item body named small prepared large wrote short in
    let t = (put_one z io s item).1 in
    let e : RestoreEntry = record { path = item.path; ie = old } in
    let bad : is_broken t e ≡ true = rw (plain, gone) refl in
    (
      error,
      ap (lookup item.path) same ∙ there,
      gone,
      ap (λ (x : Store × List RestoreEntry). x.1) (serve-broken t e bad),
      ap (λ (x : Store × List RestoreEntry). x.0.index) (serve-broken t e bad)
          ∙ index-remove_broken_entry t item.path old
          ∙ ap (remove item.path) same,
    )
  where
    serve-broken :
        (t : Store) (e : RestoreEntry)
        → is_broken t e ≡ true
        → serve t (e ∷ []) ≡ (remove_broken_entry t e.path e.ie, [])
    serve-broken t e bad = unfold serve in rw (serve, bad) refl

    index-remove_broken_entry :
        (t : Store) (path : String) (ie : IndexEntry)
        → (remove_broken_entry t path ie).index ≡ remove path t.index
    index-remove_broken_entry t path ie = unfold remove_broken_entry in refl
