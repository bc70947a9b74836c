-- ===== src/Local/Integrity/Removals.antt =====
-- internal/local/store.go: what IntegrityCheck removes.
use gocacheprog.Prelude.{
  suc, ◌≡◌, ◌∙◌, refl, ap, inl, inr, Bool, true, false, ◌&&◌, ◌||◌, Bool-cases, Option, none, some,
  List, [], ◌∷◌, String, arith, if◌then◌else◌, length, string_eq, ◌==◌, ==_iff, ==_refl,
}
use gocacheprog.Prelude.Maps.{lookup, insert, Distinct}
use gocacheprog.Gocache.Save.{Codec}
use gocacheprog.Local.{Entry, Store, drop_entry}
use gocacheprog.Local.Integrity.{
  same_entry, remove_if_unchanged, Broken, Report, verdict, passed, reported, integrity_loop,
  integrity_check,
}
use gocacheprog.Local.Snapshot.{
  drop_entry-gone, drop_entry-other, Holds, listed, Holds-rest, drop_entry-Holds,
}
use gocacheprog.Local.Consistent.{IsCounted, drop_entry-IsCounted}
use gocacheprog.Local.Integrity.Checks.{is_reported, loop-step}

unfoldable pub is_removed : String → List Broken → Bool
is_removed action [] = false
is_removed action (b ∷ l) = (b.action_id == action && b.removed) || is_removed action l

same_entry_refl : (ie : Entry) → same_entry ie ie ≡ true
same_entry_refl ie = ground (arith, ==_refl ie.output_id)

module _ (z : Codec) where
  -- What a check leaves of an entry: those that are reported are removed and gone, all others stay.
  abbrev pub Fate : Option Entry → Option Entry → Option Entry → Bool → Bool → Type 0
  Fate none before after reports removes = (after ≡ before) × (reports ≡ false) × (removes ≡ false)
  Fate (some ie) before after reports removes =
      (removes ≡ reports) × (after ≡ (if reports then none else some ie))

  pub record Removes (s : Store) (snapshot : List (String × Entry)) (r : Report × Store)
      : Type 0 where
    pub counted : IsCounted r.1
    pub all : r.0.checked ≡ length snapshot
    pub fates :
        (action : String)
        → Fate
            (lookup action snapshot)
            (lookup action s.index)
            (lookup action r.1.index)
            (is_reported action r.0.broken)
            (is_removed action r.0.broken)

  module _ (s : Store) (action : String) (ie : Entry) (rest : List (String × Entry))
      (fresh : lookup action rest ≡ none) (holds : Holds ((action, ie) ∷ rest) s) where
    remove_if_unchanged-drops : remove_if_unchanged s action ie ≡ (true, drop_entry s action ie)
    remove_if_unchanged-drops =
        unfold remove_if_unchanged in
        simp (remove_if_unchanged, listed s action ie rest fresh holds, same_entry_refl ie)

    -- The rest of the loop leaves the first entry as it finds it.
    unchanged :
        (s' : Store) (r : Report × Store)
        → Removes s' rest r
        → Fate none
            (lookup action s'.index)
            (lookup action r.1.index)
            (is_reported action r.0.broken)
            (is_removed action r.0.broken)
    unchanged s' r p = rw fresh at (p.fates action)

    passed-Removes :
        (r : Report × Store) → Removes s rest r → Removes s ((action, ie) ∷ rest) (passed r.0, r.1)
    passed-Removes r p = record {
      counted = p.counted;
      all = ap suc p.all;
      fates = λ other. elim (Bool-cases (action == other)) [
        | inl same ↦
            let e : action ≡ other = (==_iff action other).0 same in
            let (after, silent, kept) = unchanged s r p in
            rw (same, ← e, silent) (kept, after ∙ listed s action ie rest fresh holds)
        | inr apart ↦ rw apart (p.fates other)
      ];
    }

    reported-Removes :
        (r : Report × Store)
        → Removes (drop_entry s action ie) rest r
        → Removes s ((action, ie) ∷ rest) (reported action ie true r.0, r.1)
    unfolding is_reported is_removed
    reported-Removes r p = record {
      counted = p.counted;
      all = ap suc p.all;
      fates = λ other. elim (Bool-cases (action == other)) [
        | inl same ↦
            let e : action ≡ other = (==_iff action other).0 same in
            let (after, silent, kept) = unchanged (drop_entry s action ie) r p in
            rw (← e, ==_refl action) (refl, after ∙ drop_entry-gone s action ie rest fresh holds)
        | inr apart ↦
            rw (apart, ← (drop_entry-other s action ie rest fresh holds other apart))
              (p.fates other)
      ];
    }

  loop-Removes :
      (snapshot : List (String × Entry)) (s : Store) (verified : List (String × Bool))
      → Distinct snapshot
      → IsCounted s
      → Holds snapshot s
      → Removes s snapshot (integrity_loop z false s verified snapshot)
  loop-Removes [] s verified d v holds =
      unfold integrity_loop is_reported is_removed in
      record { counted = v; all = refl; fates = λ action. (refl, refl, refl) }
  loop-Removes ((action, ie) ∷ rest) s verified (fresh, d) v holds =
      elim (Bool-cases (verdict z s verified ie)) [
        | inl ok ↦ rw (loop-step z false s verified action ie rest true ok true false s refl refl) (
            passed-Removes s action ie rest fresh holds
              (integrity_loop z false s (insert ie.output_id true verified) rest)
              (loop-Removes rest s (insert ie.output_id true verified) d v
                (Holds-rest s action ie rest fresh holds)))
        | inr bad ↦
            let s' = drop_entry s action ie in
            rw
              (loop-step z false s verified action ie rest false bad false true s' refl
                (remove_if_unchanged-drops s action ie rest fresh holds))
              (reported-Removes s action ie rest fresh holds
                (integrity_loop z false s' (insert ie.output_id false verified) rest)
                (loop-Removes rest s' (insert ie.output_id false verified) d
                  (drop_entry-IsCounted s action ie v (listed s action ie rest fresh holds))
                  (drop_entry-Holds s action ie rest fresh holds)))
      ]

  -- An integrity check that is no dry run, on a store whose counts agree with its index, counts
  -- every entry as checked, removes exactly the entries that it reports, says of each that it is
  -- removed, leaves every other entry as it was, and keeps the counts in agreement.
  pub integrity_check-Removes :
      (s : Store) → IsCounted s → Removes s s.index (integrity_check z false s)
  unfolding integrity_check
  integrity_check-Removes s v = loop-Removes s.index s [] v.0 v (λ action ie h. h)
