-- ===== src/Local/Lasting.antt =====
-- internal/local/store.go: the plain file of an action that stays in the index, while Preload removes
-- other actions.
use gocacheprog.Prelude.{
  ℕ, ◌≤◌, ◌≡◌, ◌∙◌, refl, sym, ap, inl, inr, Bool, true, false, ◌&&◌, Bool-cases, none, some, List,
  [], ◌∷◌, String, arith, eqb, leb, string_eq, ◌==◌, ==_iff, ==_refl,
}
use gocacheprog.Prelude.Maps.{
  lookup, remove, Distinct, remove-Distinct, lookup-remove, lookup-remove-inv,
}
use gocacheprog.Local.{Entry, Store, output_name, drop_entry, release_output_ref, get_count}
use gocacheprog.Local.Get.{is_broken, left_out, preload_loop}
use gocacheprog.Local.Counted.{uses, same}
use gocacheprog.Local.Snapshot.{Holds, listed, Holds-rest, drop_entry-Holds, drop_entry-other}
use gocacheprog.Local.Consistent.{IsCounted, uses-remove, drop_entry-IsCounted}
use gocacheprog.Local.Warming.{loop-out, loop-broken, loop-served, remove_broken-drops}

-- Outputs of the index that differ have files with different names.
abbrev pub NamesApart : Store → Type 0
NamesApart s =
    (a b : String) (je ie : Entry)
    → lookup a s.index ≡ some je
    → lookup b s.index ≡ some ie
    → output_name je.output_id ≡ output_name ie.output_id
    → je.output_id ≡ ie.output_id

-- Two actions of one output use it twice.
uses_twice :
    (index : List (String × Entry)) (a b : String) (je ie : Entry)
    → Distinct index
    → lookup a index ≡ some je
    → lookup b index ≡ some ie
    → (b == a) ≡ false
    → je.output_id ≡ ie.output_id
    → 2 ≤ uses index ie.output_id
uses_twice index a b je ie d ha hb apart alike =
    let first = uses-remove index b ie ie.output_id hb d in
    let there : lookup a (remove b index) ≡ some je = rw (lookup-remove b a index, apart) ha in
    let second = uses-remove (remove b index) a je ie.output_id there (remove-Distinct b index d) in
    let one : same ie.output_id ie.output_id ≡ 1 = rw (==_refl ie.output_id) in
    let one' : same je.output_id ie.output_id ≡ 1 = rw alike one in
    omega (arith, first, second, one, one')

release_output_ref-kept :
    (s : Store) (id : String)
    → leb (get_count s.output_refs id) 1 ≡ false
    → (release_output_ref s id).files ≡ s.files
unfolding release_output_ref
release_output_ref-kept s id h = ground (arith, h)

release_output_ref-apart :
    (s : Store) (id : String) (name : String)
    → (output_name id == name) ≡ false
    → lookup name (release_output_ref s id).files ≡ lookup name s.files
unfolding release_output_ref
release_output_ref-apart s id name h =
    ground (arith, h, lookup-remove (output_name id) name s.files)

drop_entry-file :
    (s : Store) (a b : String) (je ie : Entry)
    → IsCounted s
    → NamesApart s
    → lookup a s.index ≡ some je
    → lookup b s.index ≡ some ie
    → (b == a) ≡ false
    → lookup (output_name je.output_id) (drop_entry s b ie).files
      ≡ lookup (output_name je.output_id) s.files
unfolding drop_entry
drop_entry-file s a b je ie (d, c) apart ha hb other =
    let cut = record s { index = remove b s.index; dirty = true } in
    elim (Bool-cases (output_name ie.output_id == output_name je.output_id)) [
      | inr differ ↦ release_output_ref-apart cut ie.output_id (output_name je.output_id) differ
      | inl alike ↦
          let name : output_name ie.output_id ≡ output_name je.output_id =
            (==_iff (output_name ie.output_id) (output_name je.output_id)).0 alike in
          let twice =
            uses_twice s.index a b je ie d ha hb other (apart a b je ie ha hb (sym name)) in
          let refs : leb (get_count s.output_refs ie.output_id) 1 ≡ false =
            ground (arith, c.counted ie.output_id, twice) in
          ap (lookup (output_name je.output_id)) (release_output_ref-kept cut ie.output_id refs)
    ]

pub drop_entry-NamesApart :
    (s : Store) (action : String) (ie : Entry) → NamesApart s → NamesApart (drop_entry s action ie)
unfolding drop_entry release_output_ref
drop_entry-NamesApart s action ie apart a b je ke ha hb =
    apart a b je ke (lookup-remove-inv action a je s.index ha).0
      (lookup-remove-inv action b ke s.index hb).0

-- The rest of the loop leaves the file of an action that it does not come to.
pub loop-file :
    (filter : String → Bool) (max_size : ℕ) (snapshot : List (String × Entry)) (s : Store)
    (a : String) (je : Entry)
    → Distinct snapshot
    → IsCounted s
    → NamesApart s
    → Holds snapshot s
    → lookup a snapshot ≡ none
    → lookup a s.index ≡ some je
    → lookup (output_name je.output_id) (preload_loop filter max_size s snapshot).1.files
      ≡ lookup (output_name je.output_id) s.files
loop-file filter max_size [] s a je d v apart holds passed there = unfold preload_loop in refl
loop-file filter max_size ((action, ie) ∷ rest) s a je (fresh, d) v apart holds passed there =
    let later = Holds-rest s action ie rest fresh holds in
    let other : (action == a) ≡ false = ground arith in
    let passed' : lookup a rest ≡ none = ground arith in
    let same = loop-file filter max_size rest s a je d v apart later passed' there in
    elim (Bool-cases (left_out filter max_size action ie)) [
      | inl out ↦ rw (loop-out filter max_size s action ie rest out) same
      | inr wanted ↦ elim (Bool-cases (eqb ie.pool_page 0 && is_broken s ie)) [
        | inr good ↦ rw (loop-served filter max_size s action ie rest wanted good) same
        | inl broken ↦
            let here = listed s action ie rest fresh holds in
            rw
              (
                loop-broken filter max_size s action ie rest wanted broken,
                remove_broken-drops filter max_size s action ie rest fresh holds,
              )
              (loop-file filter max_size rest (drop_entry s action ie) a je d
                  (drop_entry-IsCounted s action ie v here)
                  (drop_entry-NamesApart s action ie apart)
                  (drop_entry-Holds s action ie rest fresh holds) passed'
                  (drop_entry-other s action ie rest fresh holds a other ∙ there)
                ∙ drop_entry-file s a action je ie v apart there here other)
      ]
    ]
