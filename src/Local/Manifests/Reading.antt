-- ===== src/Local/Manifests/Reading.antt =====
-- internal/local/store.go: what loadManifest gives of a text, and of the text that mergeManifest writes.
use gocacheprog.Prelude.{
  ◌≡◌, ◌∙◌, refl, sym, ap, inl, inr, Bool, true, false, ◌||◌, Bool-cases, Option-cases, Option,
  none, some, List, [], ◌∷◌, ◌++◌, map, String, arith, if◌then◌else◌, string_eq, ◌==◌, ==_iff,
  ==_refl,
}
use gocacheprog.Prelude.Maps.{lookup, insert, lookup-insert_self}
use gocacheprog.Gocache.Manifest.{mem}
use gocacheprog.Gocache.Manifest.Healing.{named, names, mem-take_lines}
use gocacheprog.Local.Lines.{drop_cr, split_lines, scan_lines, manifest_body}
use gocacheprog.Local.Lines.Scans.{
  is_one_line, AreOneLine, IsGood, AreGood, scan_lines-inv, scan_lines-manifest_body,
}
use gocacheprog.Local.Manifests.{
  Keys, Files, TextFile, text, broken, trimmed_line, load_lines, Loaded, missing, unreadable,
  ids_of, scanned, read_manifest, merged_ids,
}

-- What strings.TrimSpace does: trimming again changes nothing, a line stays a line that fits, and a
-- carriage return at the end, which is white space, goes and makes no difference.
pub record TrimLaws (k : Keys) : Type 0 where
  pub again : (s : String) → k.trim_space (k.trim_space s) ≡ k.trim_space s
  pub one_line :
      (s : String)
      → is_one_line k.byte_length s ≡ true
      → is_one_line k.byte_length (k.trim_space s) ≡ true
  pub no_cr : (s : String) → drop_cr (k.trim_space s) ≡ k.trim_space s
  pub drops : (s : String) → k.trim_space (drop_cr s) ≡ k.trim_space s

-- The IDs of a manifest.
abbrev pub has_id : Loaded → String → Bool
has_id missing p = false
has_id unreadable p = false
has_id (ids_of l) p = mem p l

-- An ID that a manifest gives back as it is.
abbrev pub IsKept : Keys → String → Type 0
IsKept k q = (trimmed_line k q ≡ some q) × IsGood k.byte_length q

module _ (k : Keys) (laws : TrimLaws k) where
  mem-load_lines :
      (l : List String) (p : String) → mem p (load_lines k l) ≡ named (trimmed_line k) p l
  unfolding load_lines
  mem-load_lines [] p = refl
  mem-load_lines (raw ∷ l) p = elim (Option-cases (trimmed_line k raw)) [
    | inl e ↦ ground (arith, e, mem-load_lines l p)
    | inr (q, e) ↦ ground (arith, e, mem-load_lines l p)
  ]

  names-IsKept :
      (q raw : String)
      → is_one_line k.byte_length raw ≡ true
      → names (trimmed_line k) q raw ≡ true
      → IsKept k q
  names-IsKept q raw one h = elim (Bool-cases (k.trim_space raw == "")) [
    | inl blank ↦ absurd (ground (arith, h, blank))
    | inr proper ↦
        let same : k.trim_space raw ≡ q =
          (==_iff (k.trim_space raw) q).0 (ground (arith, h, proper)) in
        let stable : k.trim_space q ≡ q = ap k.trim_space (sym same) ∙ laws.again raw ∙ same in
        let proper' : (q == "") ≡ false = ap (λ s. s == "") (sym same) ∙ proper in
        (
          rw (stable, proper') refl,
          (proper', rw same at (laws.one_line raw one), rw same at (laws.no_cr raw)),
        )
  ]

  pub named-IsKept :
      (q : String) (l : List String)
      → AreOneLine k.byte_length l
      → named (trimmed_line k) q l ≡ true
      → IsKept k q
  named-IsKept q [] one h = absurd (cc h)
  named-IsKept q (raw ∷ l) (one, more) h = elim (Bool-cases (names (trimmed_line k) q raw)) [
    | inl here ↦ names-IsKept q raw one here
    | inr there ↦ named-IsKept q l more (ground (arith, h, there))
  ]

  -- A carriage return that the scanner drops makes no difference.
  named-drop_cr :
      (p : String) (raw : List String)
      → named (trimmed_line k) p (map drop_cr raw) ≡ named (trimmed_line k) p raw
  named-drop_cr p [] = refl
  named-drop_cr p (line ∷ raw) =
      let nonblank : String → Option String = λ t. if t == "" then none else some t in
      let gives : String → Bool = λ t. elim (nonblank t) [ none ↦ false | some q ↦ q == p ] in
      let same : gives (k.trim_space (drop_cr line)) ≡ gives (k.trim_space line) =
        ap gives (laws.drops line) in
      ap (λ b. b || named (trimmed_line k) p (map drop_cr raw)) same
      ∙ ap (λ b. names (trimmed_line k) p line || b) (named-drop_cr p raw)

  pub named-mem :
      (p : String) (l : List String)
      → ((q : String) → mem q l ≡ true → trimmed_line k q ≡ some q)
      → named (trimmed_line k) p l ≡ mem p l
  named-mem p [] h = refl
  named-mem p (q ∷ l) h =
      let stable : trimmed_line k q ≡ some q = h q (rw (==_refl q)) in
      let later = named-mem p l (λ r m. h r (ground (arith, m))) in ground (arith, stable, later)

  pub named-append :
      (p : String) (a b : List String)
      → named (trimmed_line k) p (a ++ b)
        ≡ (named (trimmed_line k) p a || named (trimmed_line k) p b)
  named-append p [] b = refl
  named-append p (x ∷ a) b = rw (named-append p a b) (ground arith)

  -- What a manifest gives is kept.
  pub read_manifest-IsKept :
      (files : Files) (path : String) (l : List String)
      → read_manifest k files path ≡ ids_of l
      → (q : String) → mem q l ≡ true
      → IsKept k q
  unfolding read_manifest
  read_manifest-IsKept files path l h q m = by_file (lookup path files) refl
    where
      by_scan :
          (body : String) (o : Option (List String))
          → scan_lines k.byte_length body ≡ o
          → scanned k o ≡ ids_of l
          → IsKept k q
      by_scan body none e g = absurd (cc g)
      by_scan body (some lines) e g =
          let (same, one) = scan_lines-inv k.byte_length body lines e in
          let there : mem q (load_lines k lines) ≡ true = ap (λ x. has_id x q) g ∙ m in
          named-IsKept q (split_lines body) one (
            sym (named-drop_cr q (split_lines body))
            ∙ ap (named (trimmed_line k) q) (sym same)
            ∙ sym (mem-load_lines lines q)
            ∙ there)

      by_file : (o : Option TextFile) → lookup path files ≡ o → IsKept k q
      by_file none e = absurd (cc (rw (read_manifest, e) at h))
      by_file (some broken) e = absurd (cc (rw (read_manifest, e) at h))
      by_file (some (text body)) e =
          by_scan body (scan_lines k.byte_length body) refl (rw (read_manifest, e) at h)

  mem-AreGood :
      (l : List String) → ((q : String) → mem q l ≡ true → IsKept k q) → AreGood k.byte_length l
  mem-AreGood [] h = tt
  mem-AreGood (q ∷ l) h = ((h q (rw (==_refl q))).1, mem-AreGood l (λ r m. h r (ground (arith, m))))

  module _ (existing ids : List String) (one : AreOneLine k.byte_length ids)
      (kept : (q : String) → named (trimmed_line k) q existing ≡ true → IsKept k q) where
    mem-merged_ids :
        (q : String)
        → mem q (merged_ids k existing ids)
          ≡ (named (trimmed_line k) q existing || named (trimmed_line k) q ids)
    mem-merged_ids q =
        ground (arith, mem-take_lines (trimmed_line k) [] (existing ++ ids) q)
        ∙ named-append q existing ids

    merged_ids-IsKept : (q : String) → mem q (merged_ids k existing ids) ≡ true → IsKept k q
    merged_ids-IsKept q m = elim (Bool-cases (named (trimmed_line k) q existing)) [
      | inl old ↦ kept q old
      | inr new ↦ named-IsKept q ids one (ground (arith, m, mem-merged_ids q, new))
    ]

    -- Reading the text of what was merged gives what was merged.
    pub read_manifest-merged_ids :
        (path : String) (files : Files)
        → read_manifest k
            (insert path (text (manifest_body (merged_ids k existing ids))) files)
            path
          ≡ ids_of (load_lines k (merged_ids k existing ids))
    unfolding read_manifest
    read_manifest-merged_ids path files =
        let body = manifest_body (merged_ids k existing ids) in
        rw (read_manifest, lookup-insert_self path (text body) files)
          (ap (scanned k) (
            scan_lines-manifest_body k.byte_length (merged_ids k existing ids)
              (mem-AreGood (merged_ids k existing ids) merged_ids-IsKept)))

    pub mem-load_lines-merged_ids :
        (p : String)
        → mem p (load_lines k (merged_ids k existing ids))
          ≡ (named (trimmed_line k) p existing || named (trimmed_line k) p ids)
    mem-load_lines-merged_ids p =
        mem-load_lines (merged_ids k existing ids) p
        ∙ named-mem p (merged_ids k existing ids) (λ q m. (merged_ids-IsKept q m).0)
        ∙ mem-merged_ids p
