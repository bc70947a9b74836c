-- ===== src/Local/Counted.antt =====
-- The counts of the outputs: how often the index uses each, and how many bytes they take.
use gocacheprog.Prelude.{
  ℕ, ◌+◌, ◌-◌, ◌<◌, ◌≡◌, ◌∙◌, sym, ap, inl, inr, false, Bool-cases, none, some, List, String, arith,
  leb, eqb, if◌then◌else◌, string_eq, ◌==◌, ==_iff, ==_refl,
}
use gocacheprog.Prelude.Int.{ℤ, pos, pos-+ℤ, pos--ℤ, pos-+ℤ--ℤ}
use gocacheprog.Prelude.Maps.{
  lookup, insert, remove, total, Distinct, lookup-insert, lookup-remove, total-insert, total-remove,
  insert-Distinct, remove-Distinct,
}
use gocacheprog.RecordPool.{Loc}
use gocacheprog.Local.{Entry, Store, get_count, add_output_ref, release_output_ref, resize_output}

-- 1 for an entry of this output.
abbrev pub use_of : String → Entry → ℕ
use_of id ie = if ie.output_id == id then 1 else 0

-- How many entries of the index have this output.
abbrev pub uses : List (String × Entry) → String → ℕ
uses index id = total (use_of id) index

abbrev pub same : String → String → ℕ
same i j = if i == j then 1 else 0

-- `refs` counts as `used` says and has no zero, no other output has a size, and the byte count is the
-- sum of the sizes.
pub record Counts (used : String → ℕ) (refs sizes : List (String × ℕ)) (bytes : ℤ) : Type 0 where
  pub counted : (id : String) → get_count refs id ≡ used id
  pub positive : (id : String) (n : ℕ) → lookup id refs ≡ some n → 0 < n
  pub distinct : Distinct sizes
  pub unused : (id : String) → used id ≡ 0 → lookup id sizes ≡ none
  pub summed : bytes ≡ pos (total (λ n. n) sizes)

pub get_count-insert :
    (id j : String) (n : ℕ) (m : List (String × ℕ))
    → get_count (insert id n m) j ≡ (if id == j then n else get_count m j)
get_count-insert id j n m = ground (arith, lookup-insert id j n m)

pub get_count-remove :
    (id j : String) (m : List (String × ℕ))
    → get_count (remove id m) j ≡ (if id == j then 0 else get_count m j)
get_count-remove id j m = ground (arith, lookup-remove id j m)

-- The sizes' total in terms of get_count.
total_sizes-insert :
    (id : String) (n : ℕ) (m : List (String × ℕ))
    → total (λ k. k) (insert id n m) + get_count m id ≡ total (λ k. k) m + n
total_sizes-insert id n m = ground (arith, total-insert (λ k. k) id n m)

total_sizes-remove :
    (id : String) (m : List (String × ℕ))
    → Distinct m
    → total (λ k. k) (remove id m) + get_count m id ≡ total (λ k. k) m
total_sizes-remove id m d = ground (arith, total-remove (λ k. k) id m d)

module _ (u u' : String → ℕ) (s : Store) (id : String)
    (c : Counts u s.output_refs s.output_sizes s.current_disk_bytes) where
  pub add_output_ref-Counts :
      (size : ℕ) (loc : Loc)
      → ((j : String) → u' j ≡ u j + same id j)
      → let t = add_output_ref s id size loc in
        Counts u' t.output_refs t.output_sizes t.current_disk_bytes
  unfolding add_output_ref
  add_output_ref-Counts size loc more = elim (Bool-cases (eqb (get_count s.output_refs id) 0)) [
    | inl fresh ↦
        let none_yet : get_count s.output_sizes id ≡ 0 =
          ground (arith, c.counted id, c.unused id) in
        rw fresh (record {
          counted = λ j. ground (
            arith,
            more j,
            c.counted j,
            c.counted id,
            get_count-insert id j (get_count s.output_refs id + 1) s.output_refs,
            ==_iff id j,
          );
          positive = λ j n h. ground (
            arith,
            lookup-insert id j (get_count s.output_refs id + 1) s.output_refs,
            c.positive j n,
          );
          distinct = insert-Distinct id size s.output_sizes c.distinct;
          unused =
              λ j h. ground (arith, more j, c.unused j, lookup-insert id j size s.output_sizes);
          summed =
              rw c.summed
                (pos-+ℤ _ _ ∙ ap pos (omega (arith, total_sizes-insert id size s.output_sizes)));
        })
    | inr old ↦ rw old (record {
      counted = λ j. ground (
        arith,
        more j,
        c.counted j,
        c.counted id,
        get_count-insert id j (get_count s.output_refs id + 1) s.output_refs,
        ==_iff id j,
      );
      positive = λ j n h. ground (
        arith,
        lookup-insert id j (get_count s.output_refs id + 1) s.output_refs,
        c.positive j n,
      );
      distinct = c.distinct;
      unused = λ j h. c.unused j (omega (arith, more j));
      summed = c.summed;
    })
  ]

  pub release_output_ref-Counts :
      ((j : String) → u' j + same id j ≡ u j)
      → let t = release_output_ref s id in
        Counts u' t.output_refs t.output_sizes t.current_disk_bytes
  unfolding release_output_ref
  release_output_ref-Counts less = elim (Bool-cases (leb (get_count s.output_refs id) 1)) [
    | inl last ↦ rw last (record {
      counted = λ j. ground (
        arith,
        less j,
        c.counted j,
        c.counted id,
        get_count-remove id j s.output_refs,
        ==_iff id j,
      );
      positive = λ j n h. ground (arith, lookup-remove id j s.output_refs, c.positive j n);
      distinct = remove-Distinct id s.output_sizes c.distinct;
      unused = λ j h. ground (arith, less j, c.unused j, lookup-remove id j s.output_sizes);
      summed = rw c.summed (
          pos--ℤ _ (get_count s.output_sizes id) _
            (total_sizes-remove id s.output_sizes c.distinct));
    })
    | inr more ↦ rw more (record {
      counted = λ j. ground (
        arith,
        less j,
        c.counted j,
        c.counted id,
        get_count-insert id j (get_count s.output_refs id - 1) s.output_refs,
        ==_iff id j,
      );
      positive = λ j n h. ground (
        arith,
        lookup-insert id j (get_count s.output_refs id - 1) s.output_refs,
        c.positive j n,
      );
      distinct = c.distinct;
      unused = λ j h. c.unused j (kept j more h);
      summed = c.summed;
    })
  ]
    where
      kept : (j : String) → leb (get_count s.output_refs id) 1 ≡ false → u' j ≡ 0 → u j ≡ 0
      kept j more h = elim (Bool-cases (id == j)) [
        | inl eq ↦
            absurd (ground (arith, less id, c.counted id, ==_refl id, ap u' ((==_iff id j).0 eq)))
        | inr apart ↦ ground (arith, less j)
      ]

  pub resize_output-Counts :
      (size : ℕ)
      → ((j : String) → u' j ≡ u j)
      → 0 < u id
      → let t = resize_output s id size in
        Counts u' t.output_refs t.output_sizes t.current_disk_bytes
  unfolding resize_output
  resize_output-Counts size as_before used = record {
    counted = λ j. c.counted j ∙ sym (as_before j);
    positive = c.positive;
    distinct = insert-Distinct id size s.output_sizes c.distinct;
    unused = λ j h.
        ground
          (arith, as_before j, c.unused j, lookup-insert id j size s.output_sizes, ==_iff id j);
    summed = rw c.summed (pos-+ℤ--ℤ _ _ _ _ (total_sizes-insert id size s.output_sizes));
  }
