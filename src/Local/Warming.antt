-- ===== src/Local/Warming.antt =====
-- internal/local/store.go: the loop of Preload, what it collects and what it removes.
use gocacheprog.Prelude.{
  ℕ, ◌≡◌, ◌∙◌, refl, inl, inr, Bool, true, false, not, ◌&&◌, ◌||◌, Bool-cases, Option, none, some,
  List, [], ◌∷◌, String, arith, ltb, eqb, if◌then◌else◌, string_eq, ◌==◌, ==_iff, ==_refl,
}
use gocacheprog.Prelude.Maps.{lookup, Distinct, lookup-remove}
use gocacheprog.Local.{Entry, Store, output_name, drop_entry, release_output_ref}
use gocacheprog.Local.Get.{remove_broken, is_broken, left_out, preload_loop}
use gocacheprog.Local.Snapshot.{
  drop_entry-gone, Holds, listed, Holds-rest, drop_entry-lookup, drop_entry-Holds,
}
use gocacheprog.Local.Consistent.{IsCounted, drop_entry-IsCounted}

-- The action is among those that the loop collected.
abbrev pub is_chosen : String → List (String × Entry) → Bool
is_chosen action [] = false
is_chosen action ((other, ie) ∷ rest) = other == action || is_chosen action rest

abbrev pub is_some : Option Entry → Bool
is_some none = false
is_some (some ie) = true

drop_entry-files :
    (s : Store) (action : String) (ie : Entry) (name : String)
    → lookup name s.files ≡ none
    → lookup name (drop_entry s action ie).files ≡ none
unfolding drop_entry release_output_ref
drop_entry-files s action ie name h =
    ground (arith, h, lookup-remove (output_name ie.output_id) name s.files)

module _ (filter : String → Bool) (max_size : ℕ) where
  -- What becomes of an action, by its entry in the snapshot: its entry in the index before and after,
  -- and whether it is served. `files` are the plain files before.
  abbrev pub Fate :
      List (String × List ℕ) → Option Entry → String → Option Entry → Option Entry → Bool → Type 0
  Fate files none action before after is_served = (after ≡ before) × (is_served ≡ false)
  Fate files (some ie) action before after is_served =
      if not (filter action) || ltb max_size (if eqb ie.wire_size 0 then ie.size else ie.wire_size)
      then (after ≡ some ie) × (is_served ≡ false)
      else (is_served ≡ is_some after)
        × (eqb ie.pool_page 0 ≡ false → is_served ≡ true)
        × (eqb ie.pool_page 0 ≡ true
            → lookup (output_name ie.output_id) files ≡ none
            → is_served ≡ false)

  Fate-mono :
      (files files' : List (String × List ℕ)) (entry : Option Entry) (action : String)
      (before after : Option Entry) (is_served : Bool)
      → ((name : String) → lookup name files ≡ none → lookup name files' ≡ none)
      → Fate files' entry action before after is_served
      → Fate files entry action before after is_served
  Fate-mono files files' none action before after is_served fewer f = f
  Fate-mono files files' (some ie) action before after is_served fewer f =
      elim (Bool-cases (left_out filter max_size action ie)) [
        | inl out ↦ rw out (rw out at f)
        | inr wanted ↦
            let (same, pooled, absent) = rw wanted at f in
            rw wanted (same, pooled, λ plain none_there. absent plain (fewer _ none_there))
      ]

  -- What the loop does with the entries of a snapshot.
  pub record Warmed (s : Store) (snapshot : List (String × Entry))
      (r : List (String × Entry) × Store) : Type 0 where
    pub counted : IsCounted r.1
    pub fates :
        (action : String)
        → Fate s.files
            (lookup action snapshot)
            action
            (lookup action s.index)
            (lookup action r.1.index)
            (is_chosen action r.0)

  module _ (s : Store) (action : String) (ie : Entry) (rest : List (String × Entry)) where
    pub loop-out :
        left_out filter max_size action ie ≡ true
        → preload_loop filter max_size s ((action, ie) ∷ rest) ≡ preload_loop filter max_size s rest
    loop-out h = unfold preload_loop in rw (preload_loop, h)

    pub loop-broken :
        left_out filter max_size action ie ≡ false
        → (eqb ie.pool_page 0 && is_broken s ie) ≡ true
        → preload_loop filter max_size s ((action, ie) ∷ rest)
          ≡ preload_loop filter max_size (remove_broken s action ie) rest
    loop-broken h b = unfold preload_loop in rw (preload_loop, h, b)

    pub loop-served :
        left_out filter max_size action ie ≡ false
        → (eqb ie.pool_page 0 && is_broken s ie) ≡ false
        → preload_loop filter max_size s ((action, ie) ∷ rest) ≡ (
          (action, ie) ∷ (preload_loop filter max_size s rest).0,
          (preload_loop filter max_size s rest).1,
        )
    loop-served h b = unfold preload_loop in rw (preload_loop, h, b)

    module _ (fresh : lookup action rest ≡ none) (holds : Holds ((action, ie) ∷ rest) s) where
      pub remove_broken-drops : remove_broken s action ie ≡ drop_entry s action ie
      remove_broken-drops =
          unfold remove_broken in simp (remove_broken, listed s action ie rest fresh holds)

      -- The fates after an entry more, which has no part in those of the rest.
      fates-more :
          (s' : Store) (r' : List (String × Entry) × Store) (items : List (String × Entry))
          → ((name : String) → lookup name s.files ≡ none → lookup name s'.files ≡ none)
          → Fate s.files
              (some ie)
              action
              (some ie)
              (lookup action r'.1.index)
              (is_chosen action items)
          → ((other : String)
              → (action == other) ≡ false
              → (lookup other s'.index ≡ lookup other s.index)
                × (is_chosen other items ≡ is_chosen other r'.0))
          → Warmed s' rest r'
          → (other : String)
          → Fate s.files
              (lookup other ((action, ie) ∷ rest))
              other
              (lookup other s.index)
              (lookup other r'.1.index)
              (is_chosen other items)
      fates-more s' r' items fewer fate apart_same p other = elim (Bool-cases (action == other)) [
        | inl same ↦ let e : action ≡ other = (==_iff action other).0 same in rw (same, ← e) fate
        | inr apart ↦
            let (before, srv) = apart_same other apart in
            rw (apart, ← before, srv)
              (Fate-mono s.files s'.files (lookup other rest) other (lookup other s'.index)
                (lookup other r'.1.index) (is_chosen other r'.0) fewer (p.fates other))
      ]

  pub loop-Warmed :
      (snapshot : List (String × Entry)) (s : Store)
      → Distinct snapshot
      → IsCounted s
      → Holds snapshot s
      → Warmed s snapshot (preload_loop filter max_size s snapshot)
  loop-Warmed [] s d v holds =
      unfold preload_loop in record { counted = v; fates = λ action. (refl, refl) }
  loop-Warmed ((action, ie) ∷ rest) s (fresh, d) v holds =
      elim (Bool-cases (left_out filter max_size action ie)) [
        | inl out ↦
            let p = loop-Warmed rest s d v (Holds-rest s action ie rest fresh holds) in
            let mine : (lookup action (preload_loop filter max_size s rest).1.index
                  ≡ lookup action s.index)
                × (is_chosen action (preload_loop filter max_size s rest).0 ≡ false) =
              rw fresh at (p.fates action) in
            rw (loop-out s action ie rest out) (record {
              counted = p.counted;
              fates =
                  fates-more s action ie rest fresh holds s (preload_loop filter max_size s rest)
                    (preload_loop filter max_size s rest).0 (λ name h. h)
                    (rw out (mine.0 ∙ listed s action ie rest fresh holds, mine.1))
                    (λ other apart. (refl, refl)) p;
            })
        | inr wanted ↦ elim (Bool-cases (eqb ie.pool_page 0 && is_broken s ie)) [
          | inl broken ↦
              let s' = drop_entry s action ie in
              let p =
                loop-Warmed rest s' d
                  (drop_entry-IsCounted s action ie v (listed s action ie rest fresh holds))
                  (drop_entry-Holds s action ie rest fresh holds) in
              let mine : (lookup action (preload_loop filter max_size s' rest).1.index
                    ≡ lookup action s'.index)
                  × (is_chosen action (preload_loop filter max_size s' rest).0 ≡ false) =
                rw fresh at (p.fates action) in
              let gone : lookup action (preload_loop filter max_size s' rest).1.index ≡ none =
                mine.0 ∙ drop_entry-gone s action ie rest fresh holds in
              rw
                (
                  loop-broken s action ie rest wanted broken,
                  remove_broken-drops s action ie rest fresh holds,
                )
                (record {
                  counted = p.counted;
                  fates =
                      fates-more s action ie rest fresh holds s'
                        (preload_loop filter max_size s' rest)
                        (preload_loop filter max_size s' rest).0 (drop_entry-files s action ie)
                        (rw (wanted, gone)
                          (
                            mine.1,
                            (λ pooled. absurd (ground (arith, broken, pooled))),
                            λ plain none_there. mine.1,
                          ))
                        (λ other apart.
                          (drop_entry-lookup s action ie rest fresh holds other ∙ rw apart, refl))
                        p;
                })
          | inr good ↦
              let p = loop-Warmed rest s d v (Holds-rest s action ie rest fresh holds) in
              let r = preload_loop filter max_size s rest in
              let item : String × Entry = (action, ie) in
              let mine : (lookup action r.1.index ≡ lookup action s.index)
                  × (is_chosen action r.0 ≡ false) =
                rw fresh at (p.fates action) in
              rw (loop-served s action ie rest wanted good) (record {
                counted = p.counted;
                fates =
                    fates-more s action ie rest fresh holds s r (item ∷ r.0) (λ name h. h)
                      (rw (wanted, mine.0, listed s action ie rest fresh holds, ==_refl action)
                        (
                          refl,
                          (λ pooled. refl),
                          λ plain none_there. absurd (ground (arith, good, plain, none_there)),
                        ))
                      (λ other apart. (refl, rw apart)) p;
              })
        ]
      ]
