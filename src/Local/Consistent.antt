-- ===== src/Local/Consistent.antt =====
-- internal/local/store.go: the counts of the outputs under the operations that change the index.
use gocacheprog.Prelude.{
  ℕ, ◌+◌, ◌≡◌, ◌∙◌, refl, sym, ap, inl, inr, true, Bool-cases, Option, none, some, List, String,
  arith, string_eq, ◌==◌, ==_iff, ==_refl,
}
use gocacheprog.Prelude.Maps.{
  lookup, insert, remove, Distinct, total-insert, total-remove, insert-Distinct, remove-Distinct,
}
use gocacheprog.RecordPool.{Loc}
use gocacheprog.Local.{
  Entry, Store, entry_stored_size, add_output_ref, release_output_ref, resize_output,
  replace_output_ref, drop_entry,
}
use gocacheprog.Local.Put.{count_output, put_commit, at_loc}
use gocacheprog.Local.Counted.{
  use_of, uses, same, Counts, add_output_ref-Counts, release_output_ref-Counts,
  resize_output-Counts,
}

pub Counts-same :
    (u u' : String → ℕ) (s : Store)
    → ((id : String) → u' id ≡ u id)
    → Counts u s.output_refs s.output_sizes s.current_disk_bytes
    → Counts u' s.output_refs s.output_sizes s.current_disk_bytes
Counts-same u u' s h c = record {
  counted = λ id. c.counted id ∙ sym (h id);
  positive = c.positive;
  distinct = c.distinct;
  unused = λ id none_used. c.unused id (sym (h id) ∙ none_used);
  summed = c.summed;
}

-- The store's counts are those of the entries `index`.
abbrev pub CountsOf : List (String × Entry) → Store → Type 0
CountsOf index s = Counts (uses index) s.output_refs s.output_sizes s.current_disk_bytes

-- The counts agree with the index, and an action has one entry.
abbrev pub IsCounted : Store → Type 0
IsCounted s = Distinct s.index × CountsOf s.index s

module _ (index : List (String × Entry)) (action : String) where
  pub uses-insert_new :
      (ie : Entry) (id : String)
      → lookup action index ≡ none
      → uses (insert action ie index) id ≡ uses index id + same ie.output_id id
  uses-insert_new ie id h = ground (arith, total-insert (use_of id) action ie index)

  pub uses-remove :
      (ie : Entry) (id : String)
      → lookup action index ≡ some ie
      → Distinct index
      → uses (remove action index) id + same ie.output_id id ≡ uses index id
  uses-remove ie id h d = rw h at (total-remove (use_of id) action index d)

  pub uses-insert_again :
      (old new : Entry) (id : String)
      → lookup action index ≡ some old
      → uses (insert action new index) id + same old.output_id id
        ≡ uses index id + same new.output_id id
  uses-insert_again old new id h = rw h at (total-insert (use_of id) action new index)

pub drop_entry-IsCounted :
    (s : Store) (action : String) (ie : Entry)
    → IsCounted s
    → lookup action s.index ≡ some ie
    → IsCounted (drop_entry s action ie)
unfolding drop_entry release_output_ref
drop_entry-IsCounted s action ie (d, c) h = (
  remove-Distinct action s.index d,
  release_output_ref-Counts (uses s.index) (uses (remove action s.index))
      (record s { index = remove action s.index; dirty = true }) ie.output_id c
      (λ id. uses-remove s.index action ie id h d),
)

module _ (s : Store) (action : String) (ie : Entry) (size : ℕ) (loc : Loc) (d : Distinct s.index)
    (c : CountsOf s.index s) where
  abbrev index' : List (String × Entry)
  index' = insert action ie s.index

  count_new :
      lookup action s.index ≡ none → CountsOf index' (add_output_ref s ie.output_id size loc)
  count_new h =
      add_output_ref-Counts (uses s.index) (uses index') s ie.output_id c size loc
        (λ id. uses-insert_new s.index action ie id h)

  module _ (old : Entry) (h : lookup action s.index ≡ some old) where
    resized :
        (old.output_id == ie.output_id) ≡ true
        → CountsOf index' (resize_output s old.output_id size)
    resized eq =
        resize_output-Counts (uses s.index) (uses index') s old.output_id c size
          (λ id. omega (
            arith,
            uses-insert_again s.index action old ie id h,
            ap (λ k. same k id) ((==_iff old.output_id ie.output_id).0 eq),
          ))
          (ground (arith, ==_refl old.output_id, uses-remove s.index action old old.output_id h d))

    replaced :
        CountsOf index' (add_output_ref (release_output_ref s old.output_id) ie.output_id size loc)
    replaced =
        add_output_ref-Counts (uses (remove action s.index)) (uses index')
          (release_output_ref s old.output_id) ie.output_id
          (release_output_ref-Counts (uses s.index) (uses (remove action s.index)) s old.output_id c
            (λ id. uses-remove s.index action old id h d))
          size loc
          (λ id. omega (
            arith,
            uses-remove s.index action old id h d,
            uses-insert_again s.index action old ie id h,
          ))

    count_again : CountsOf index' (replace_output_ref s old ie size loc)
    count_again = elim (Bool-cases (old.output_id == ie.output_id)) [
      | inl eq ↦ unfold replace_output_ref in rw (replace_output_ref, eq) (resized eq)
      | inr apart ↦ unfold replace_output_ref in rw (replace_output_ref, apart) replaced
    ]

  pub count_output-Counts :
      (existing : Option Entry)
      → lookup action s.index ≡ existing
      → CountsOf index' (count_output s existing ie size loc)
  unfolding count_output
  count_output-Counts none h = count_new h
  count_output-Counts (some old) h = count_again old h

pub count_output-index :
    (s : Store) (existing : Option Entry) (ie : Entry) (size : ℕ) (loc : Loc)
    → (count_output s existing ie size loc).index ≡ s.index
unfolding count_output replace_output_ref resize_output add_output_ref release_output_ref
count_output-index s none ie size loc = refl
count_output-index s (some old) ie size loc = ground arith

count_output-at_loc :
    (s : Store) (existing : Option Entry) (ie : Entry) (size : ℕ) (loc : Loc)
    → count_output s existing (at_loc ie loc) size loc ≡ count_output s existing ie size loc
unfolding count_output replace_output_ref
count_output-at_loc s none ie size loc = refl
count_output-at_loc s (some old) ie size loc = refl

pub put_commit-IsCounted :
    (s : Store) (action : String) (ie : Entry) (loc : Loc)
    → IsCounted s
    → IsCounted (put_commit s action (lookup action s.index) ie loc)
unfolding put_commit
put_commit-IsCounted s action ie loc (d, c) =
    let existing = lookup action s.index in
    let size = entry_stored_size ie in
    rw (count_output-index s existing ie size loc) (
      insert-Distinct action (at_loc ie loc) s.index d,
      rw (count_output-at_loc s existing ie size loc) at
          (count_output-Counts s action (at_loc ie loc) size loc d c existing refl),
    )
