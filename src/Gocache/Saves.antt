-- ===== src/Gocache/Saves.antt =====
-- Proofs about putOne and the invariant of the store, without other requests in between.
use gocacheprog.Prelude.{
  ◌≡◌, ◌∙◌, ap, refl, sym, inl, inr, true, false, ◌&&◌, Bool-cases, Option, none, some, arith, ltb,
  string_eq, ◌==◌, ==_iff,
}
use gocacheprog.Prelude.Maps.{lookup, insert}
use gocacheprog.Gocache.{IndexEntry, HeapEntry, Store, entry_stored_size, heap_entry}
use gocacheprog.Gocache.Consistent.{IsStore}
use gocacheprog.Gocache.Save.{
  Codec, FileItem, SaveIo, saved, skipped, empty_path, save_error, Prepared, SaveResult, put_one,
  put_body, put_stored, body_for_put, entry_of, counted_put,
}
use gocacheprog.Gocache.Commits.{
  store_put_body-Stores, Stores, put_commit-IsStore, index-put_commit,
}

-- What a call of putOne did to the index: a save adds or replaces the entry of its path and no other;
-- an item that is too large or has no path changes nothing.
abbrev pub Saved : Store → FileItem → SaveResult → Store → Type 0
Saved s item saved t =
    IsStore t
    × ((ie : IndexEntry) × (t.index ≡ insert item.path ie s.index)
        × (ie.size ≡ item.size)
        × ((old : IndexEntry)
            → lookup item.path s.index ≡ some old
            → ie.mod_time_micro ≡ old.mod_time_micro))
Saved s item skipped t = t ≡ s
Saved s item empty_path t = (t ≡ s) × (item.path ≡ "")
Saved s item save_error t = IsStore t

-- What is saved again is stored at the size that it had.
abbrev pub SameStoredSize : Codec → Store → FileItem → Type 0
SameStoredSize z s item =
    (old : IndexEntry) (body : Prepared)
    → lookup item.path s.index ≡ some old
    → body_for_put z item s.compress ≡ some body
    → entry_stored_size (entry_of item (some old) 0 body) ≡ entry_stored_size old

-- The same once the guards have passed.
abbrev Attempted : Store → FileItem → SaveResult → Store → Type 0
Attempted s item saved t = Saved s item saved t
Attempted s item save_error t = IsStore t
Attempted s item skipped t = ⊥
Attempted s item empty_path t = ⊥

Attempted-Saved :
    (s s' : Store) (item : FileItem) (r : SaveResult) (t : Store)
    → s'.index ≡ s.index
    → Attempted s' item r t
    → Saved s item r t
Attempted-Saved s s' item saved t same (v, (ie, after, size, time)) = (
  v,
  (
    ie,
    after ∙ ap (insert item.path ie) same,
    size,
    λ old e. time old (ap (lookup item.path) same ∙ e),
  ),
)
Attempted-Saved s s' item save_error t same v = v
Attempted-Saved s s' item skipped t same h = absurd h
Attempted-Saved s s' item empty_path t same h = absurd h

counted_put-IsStore : (s : Store) (o : Option IndexEntry) → IsStore s → IsStore (counted_put s o)
counted_put-IsStore s none v = v
counted_put-IsStore s (some old) v = v

index-counted_put : (s : Store) (o : Option IndexEntry) → (counted_put s o).index ≡ s.index
index-counted_put s none = refl
index-counted_put s (some old) = refl

put_stored-Attempted :
    (s t : Store) (item : FileItem) (existing : Option IndexEntry) (ie : IndexEntry)
    (r : Option IndexEntry)
    → lookup item.path s.index ≡ existing
    → ie.size ≡ item.size
    → ((old : IndexEntry)
        → existing ≡ some old
        → heap_entry item.path ie ≡ heap_entry item.path old)
    → Stores s ie r t
    → Attempted s item
        (put_stored item.path existing (r, t)).0
        (put_stored item.path existing (r, t)).1
put_stored-Attempted s t item existing ie none there size alike v = v
put_stored-Attempted s t item existing ie (some je) there size alike
      (v, same, stored_size, time, same_size) =
    let there' : lookup item.path t.index ≡ existing = ap (lookup item.path) same ∙ there in
    let entry : heap_entry item.path je ≡ heap_entry item.path ie =
      ground (arith, stored_size, time) in
    (
      put_commit-IsStore t item.path existing je v there' (λ old e. entry ∙ alike old e),
      (
        je,
        index-put_commit t item.path existing je ∙ ap (insert item.path je) same,
        same_size ∙ size,
        λ old e. ap (λ (h : HeapEntry). h.mod_time_micro) (entry ∙ alike old (sym there ∙ e)),
      ),
    )

put_body-Attempted :
    (z : Codec) (io : SaveIo) (s : Store) (item : FileItem) (existing : Option IndexEntry)
    (body : Option Prepared)
    → IsStore s
    → lookup item.path s.index ≡ existing
    → ((old : IndexEntry) (b : Prepared)
        → existing ≡ some old
        → body ≡ some b
        → entry_stored_size (entry_of item (some old) 0 b) ≡ entry_stored_size old)
    → Attempted s item (put_body z io s item existing body).0 (put_body z io s item existing body).1
unfolding put_body
put_body-Attempted z io s item existing none v there alike = v
put_body-Attempted z io s item existing (some b) v there alike =
    put_stored-Attempted s _ item existing (entry_of item existing io.now b) _ there refl
      (λ old e. rw e (λ i. record {
        path = item.path;
        size = alike old b e refl i;
        mod_time_micro = old.mod_time_micro;
      }))
      (store_put_body-Stores io item.path (entry_of item existing io.now b) b.bytes s v)

module _ (z : Codec) (io : SaveIo) (s : Store) (item : FileItem) where
  put_one-blank : (item.path == "") ≡ true → put_one z io s item ≡ (empty_path, s)
  put_one-blank e = unfold put_one in rw (put_one, e)

  module _ (named : (item.path == "") ≡ false) where
    put_one-large :
        (ltb 0 s.max_file_bytes && ltb s.max_file_bytes item.size) ≡ true
        → put_one z io s item ≡ (skipped, s)
    put_one-large q = unfold put_one in rw (put_one, named, q)

    pub put_one-body :
        (ltb 0 s.max_file_bytes && ltb s.max_file_bytes item.size) ≡ false
        → put_one z io s item
          ≡ put_body z io
              (counted_put s (lookup item.path s.index))
              item
              (lookup item.path s.index)
              (body_for_put z item s.compress)
    put_one-body q = unfold put_one in rw (put_one, named, q)

-- On a consistent store, with no other request in between and a stored size for a path that is
-- listed equal to the listed one, putOne keeps the store consistent whatever fails; a save adds or
-- replaces the entry of its path and no other and keeps the time of an entry that was there; an
-- item that is over the limit or has no path changes nothing.
pub put_one-Saved :
    (z : Codec) (io : SaveIo) (s : Store) (item : FileItem)
    → IsStore s
    → SameStoredSize z s item
    → Saved s item (put_one z io s item).0 (put_one z io s item).1
put_one-Saved z io s item v alike = elim (Bool-cases (item.path == "")) [
  | inl e ↦ rw (put_one-blank z io s item e) (refl, (==_iff item.path "").0 e)
  | inr e ↦ elim (Bool-cases (ltb 0 s.max_file_bytes && ltb s.max_file_bytes item.size)) [
    | inl q ↦ rw (put_one-large z io s item e q) refl
    | inr q ↦
        let existing = lookup item.path s.index in
        let s' = counted_put s existing in
        let same = index-counted_put s existing in
        rw (put_one-body z io s item e q) (
          Attempted-Saved s s' item _ _ same (
            put_body-Attempted z io s' item existing (body_for_put z item s.compress)
              (counted_put-IsStore s existing v) (ap (lookup item.path) same)
              (λ old b h k. alike old b h k)))
  ]
]
