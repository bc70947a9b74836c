-- ===== src/Local/Integrity/Checks.antt =====
-- internal/local/store.go: what IntegrityCheck reports and removes.
use gocacheprog.Prelude.{
  suc, ◌≡◌, ◌∙◌, refl, sym, ap, inl, inr, Bool, true, false, not, ◌||◌, Bool-cases, Option-cases,
  Option, none, some, List, [], ◌∷◌, String, arith, if◌then◌else◌, length, string_eq, ◌==◌, ==_iff,
  ==_refl,
}
use gocacheprog.Prelude.Maps.{lookup, insert, Distinct, lookup-insert-inv}
use gocacheprog.Gocache.Save.{Codec}
use gocacheprog.Local.{Entry, Store}
use gocacheprog.Local.Integrity.{
  verify_output, remove_if_unchanged, Broken, Report, verdict, passed, reported, integrity_loop,
  integrity_check,
}
use gocacheprog.Local.Consistent.{IsCounted}

unfoldable pub is_reported : String → List Broken → Bool
is_reported action [] = false
is_reported action (b ∷ l) = b.action_id == action || is_reported action l

module _ (z : Codec) where
  module _ (dry_run : Bool) (s : Store) (verified : List (String × Bool)) (action : String)
      (ie : Entry) (rest : List (String × Entry)) (ok : Bool)
      (judged : verdict z s verified ie ≡ ok) where
    abbrev verified' : List (String × Bool)
    verified' = insert ie.output_id ok verified

    pub loop-step :
        (skips removed : Bool) (s' : Store)
        → (ok || dry_run) ≡ skips
        → (if skips then (false, s) else remove_if_unchanged s action ie) ≡ (removed, s')
        → integrity_loop z dry_run s verified ((action, ie) ∷ rest) ≡ (
          if ok
              then passed (integrity_loop z dry_run s' verified' rest).0
              else reported action ie removed (integrity_loop z dry_run s' verified' rest).0,
          (integrity_loop z dry_run s' verified' rest).1,
        )
    loop-step skips removed s' h q = unfold integrity_loop in rw (integrity_loop, judged, h, q)

  -- Entries with one output have one verdict.
  abbrev pub Agree : Store → List (String × Entry) → Type 0
  Agree s snapshot =
      (a b : String) (ie je : Entry)
      → lookup a snapshot ≡ some ie
      → lookup b snapshot ≡ some je
      → ie.output_id ≡ je.output_id
      → verify_output z s ie ≡ verify_output z s je

  -- The verdicts that are kept are right.
  abbrev Memo : Store → List (String × Bool) → List (String × Entry) → Type 0
  Memo s verified snapshot =
      (a : String) (ie : Entry) (ok : Bool)
      → lookup a snapshot ≡ some ie
      → lookup ie.output_id verified ≡ some ok
      → verify_output z s ie ≡ ok

  abbrev pub fails : Store → Option Entry → Bool
  fails s none = false
  fails s (some ie) = not (verify_output z s ie)

  record DryRun (s : Store) (snapshot : List (String × Entry)) (r : Report × Store) : Type 0 where
    same : r.1 ≡ s
    all : r.0.checked ≡ length snapshot
    finds : (action : String) → is_reported action r.0.broken ≡ fails s (lookup action snapshot)

  module _ (s : Store) (action : String) (ie : Entry) (rest : List (String × Entry))
      (fresh : lookup action rest ≡ none) where
    in_rest :
        (other : String) (je : Entry)
        → lookup other rest ≡ some je
        → lookup other ((action, ie) ∷ rest) ≡ some je
    in_rest other je h = ground (arith, h, fresh, ==_iff action other)

    Agree-rest : Agree s ((action, ie) ∷ rest) → Agree s rest
    Agree-rest agree a b je ke h k same = agree a b je ke (in_rest a je h) (in_rest b ke k) same

    Memo-rest :
        (verified : List (String × Bool)) (ok : Bool)
        → verify_output z s ie ≡ ok
        → Agree s ((action, ie) ∷ rest)
        → Memo s verified ((action, ie) ∷ rest)
        → Memo s (insert ie.output_id ok verified) rest
    Memo-rest verified ok right agree memo a je ok' h k =
        elim (lookup-insert-inv ie.output_id je.output_id ok ok' verified k) [
          | inl (same, is_ok) ↦
              agree a action je ie (in_rest a je h) (rw (==_refl action)) (sym same) ∙ right ∙ is_ok
          | inr before ↦ memo a je ok' (in_rest a je h) before
        ]

    judged-Memo :
        (verified : List (String × Bool))
        → Memo s verified ((action, ie) ∷ rest)
        → verdict z s verified ie ≡ verify_output z s ie
    judged-Memo verified memo = elim (Option-cases (lookup ie.output_id verified)) [
      | inl e ↦ rw (verdict, e)
      | inr (ok, e) ↦ rw (verdict, e) (sym (memo action ie ok (rw (==_refl action)) e))
    ]

    passed-DryRun :
        (r : Report × Store)
        → verify_output z s ie ≡ true
        → DryRun s rest r
        → DryRun s ((action, ie) ∷ rest) (passed r.0, r.1)
    passed-DryRun r ok p = record {
      same = p.same;
      all = ap suc p.all;
      finds = λ other. elim (Bool-cases (action == other)) [
        | inl same ↦
            let e : action ≡ other = (==_iff action other).0 same in
            rw (same, ← e, ok) (p.finds action ∙ rw fresh)
        | inr apart ↦ rw apart (p.finds other)
      ];
    }

    reported-DryRun :
        (r : Report × Store) (removed : Bool)
        → verify_output z s ie ≡ false
        → DryRun s rest r
        → DryRun s ((action, ie) ∷ rest) (reported action ie removed r.0, r.1)
    unfolding is_reported
    reported-DryRun r removed bad p = record {
      same = p.same;
      all = ap suc p.all;
      finds = λ other. elim (Bool-cases (action == other)) [
        | inl same ↦ rw (same, bad)
        | inr apart ↦ rw apart (p.finds other)
      ];
    }

  loop-DryRun :
      (snapshot : List (String × Entry)) (s : Store) (verified : List (String × Bool))
      → Distinct snapshot
      → Agree s snapshot
      → Memo s verified snapshot
      → DryRun s snapshot (integrity_loop z true s verified snapshot)
  loop-DryRun [] s verified d agree memo =
      unfold integrity_loop is_reported in
      record { same = refl; all = refl; finds = λ action. refl }
  loop-DryRun ((action, ie) ∷ rest) s verified (fresh, d) agree memo =
      let judged = judged-Memo s action ie rest fresh verified memo in
      let agree' = Agree-rest s action ie rest fresh agree in
      elim (Bool-cases (verify_output z s ie)) [
        | inl ok ↦
            rw (loop-step true s verified action ie rest true (judged ∙ ok) true false s refl refl)
              (passed-DryRun s action ie rest fresh
                (integrity_loop z true s (insert ie.output_id true verified) rest) ok
                (loop-DryRun rest s (insert ie.output_id true verified) d agree'
                  (Memo-rest s action ie rest fresh verified true ok agree memo)))
        | inr bad ↦
            rw
              (loop-step true s verified action ie rest false (judged ∙ bad) true false s refl refl)
              (reported-DryRun s action ie rest fresh
                (integrity_loop z true s (insert ie.output_id false verified) rest) false bad
                (loop-DryRun rest s (insert ie.output_id false verified) d agree'
                  (Memo-rest s action ie rest fresh verified false bad agree memo)))
      ]

  loop-same :
      (snapshot : List (String × Entry)) (s : Store) (verified : List (String × Bool))
      → (integrity_loop z true s verified snapshot).1 ≡ s
  loop-same [] s verified = unfold integrity_loop in refl
  loop-same ((action, ie) ∷ rest) s verified = elim (Bool-cases (verdict z s verified ie)) [
    | inl ok ↦
        rw (loop-step true s verified action ie rest true ok true false s refl refl)
          (loop-same rest s (insert ie.output_id true verified))
    | inr bad ↦
        rw (loop-step true s verified action ie rest false bad true false s refl refl)
          (loop-same rest s (insert ie.output_id false verified))
  ]

  -- A dry run leaves the store as it is.
  pub integrity_check-same : (s : Store) → (integrity_check z true s).1 ≡ s
  unfolding integrity_check
  integrity_check-same s = loop-same s.index s []

  -- On a store whose counts agree with its index and whose entries with one output verify alike, a
  -- dry run changes nothing, counts every entry, and, though it verifies each output once, reports
  -- the same entries as a verification of each entry by itself.
  pub integrity_check-dry_run :
      (s : Store)
      → IsCounted s
      → Agree s s.index
      → ((integrity_check z true s).1 ≡ s)
        × ((integrity_check z true s).0.checked ≡ length s.index)
        × ((action : String)
            → is_reported action (integrity_check z true s).0.broken
              ≡ fails s (lookup action s.index))
  integrity_check-dry_run s v agree =
      let p = loop-DryRun s.index s [] v.0 agree (λ a ie ok h k. absurd (cc k)) in
      unfold integrity_check in (p.same, p.all, p.finds)
