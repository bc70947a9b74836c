-- ===== src/Local/Lines/Scans.antt =====
-- Proofs about the text of a manifest: scanning the body that was written gives the lines.
use gocacheprog.Prelude.{
  ℕ, ◌≡◌, ◌∙◌, refl, sym, ap, inl, inr, Bool, true, false, not, ◌&&◌, Bool-cases, Option, none,
  some, List, [], ◌∷◌, map, String, arith, ltb, string_eq, ◌==◌, ==_iff,
}
use Prim.Native.Char.{Char}
use gocacheprog.Local.Lines.{
  concat, is_line_feed, on_first, split_lines, drop_cr, max_line_bytes, all_fit, scan_lines,
  join_lines, manifest_body,
}

-- No character is a line feed.
unfoldable pub has_no_break : String → Bool
has_no_break String.[] = true
has_no_break (String.◌∷◌ c s) = not (is_line_feed c) && has_no_break s

-- A line that a scanner can give back.
abbrev pub is_one_line : (String → ℕ) → String → Bool
is_one_line byte_length s = has_no_break s && ltb (byte_length s) max_line_bytes

abbrev pub AreOneLine : (String → ℕ) → List String → Type 0
AreOneLine byte_length [] = Unit
AreOneLine byte_length (s ∷ l) = (is_one_line byte_length s ≡ true) × AreOneLine byte_length l

concat_assoc : (a b c : String) → concat (concat a b) c ≡ concat a (concat b c)
unfolding concat
concat_assoc String.[] b c = refl
concat_assoc (String.◌∷◌ x a) b c = ap (String.◌∷◌ x) (concat_assoc a b c)

-- Each line with its line feed.
unfoldable ended : List String → String
ended [] = ""
ended (s ∷ l) = concat s (concat "\n" (ended l))

join_lines-ended : (s : String) (l : List String) → concat (join_lines (s ∷ l)) "\n" ≡ ended (s ∷ l)
unfolding join_lines ended concat
join_lines-ended s [] = refl
join_lines-ended s (t ∷ l) =
    concat_assoc s (concat "\n" (join_lines (t ∷ l))) "\n"
    ∙ ap (λ x. concat s (concat "\n" x)) (join_lines-ended t l)

split_lines-line :
    (s t : String)
    → has_no_break s ≡ true
    → split_lines (concat s (concat "\n" t)) ≡ s ∷ split_lines t
unfolding split_lines concat has_no_break
split_lines-line String.[] t h = refl
split_lines-line (String.◌∷◌ c s) t h =
    let plain : is_line_feed c ≡ false = ground (arith, h) in
    rw (plain, split_lines-line s t (ground (arith, h))) refl

abbrev HaveNoBreak : List String → Type 0
HaveNoBreak [] = Unit
HaveNoBreak (s ∷ l) = (has_no_break s ≡ true) × HaveNoBreak l

on_first-HaveNoBreak :
    (c : Char) (l : List String)
    → is_line_feed c ≡ false
    → HaveNoBreak l
    → HaveNoBreak (on_first c l)
unfolding has_no_break
on_first-HaveNoBreak c [] h l = (rw h refl, tt)
on_first-HaveNoBreak c (s ∷ rest) h (first, more) = (rw (h, first) refl, more)

split_lines-HaveNoBreak : (text : String) → HaveNoBreak (split_lines text)
unfolding split_lines has_no_break
split_lines-HaveNoBreak String.[] = tt
split_lines-HaveNoBreak (String.◌∷◌ c s) =
    let rest = split_lines-HaveNoBreak s in
    elim (Bool-cases (is_line_feed c)) [
      | inl ends ↦ rw ends (refl, rest)
      | inr plain ↦ rw plain (on_first-HaveNoBreak c (split_lines s) plain rest)
    ]

module _ (byte_length : String → ℕ) where
  fitting :
      (l : List String) → HaveNoBreak l → all_fit byte_length l ≡ true → AreOneLine byte_length l
  fitting [] h f = tt
  fitting (s ∷ l) (here, later) f = (ground (arith, here, f), fitting l later (ground (arith, f)))

  -- What a scan gives is what it read, without carriage returns, of lines that fit.
  pub scan_lines-inv :
      (text : String) (l : List String)
      → scan_lines byte_length text ≡ some l
      → (l ≡ map drop_cr (split_lines text)) × AreOneLine byte_length (split_lines text)
  unfolding scan_lines
  scan_lines-inv text l h = elim (Bool-cases (all_fit byte_length (split_lines text))) [
    | inr long ↦ absurd (cc (rw long at h))
    | inl short ↦
        let h' : some (map drop_cr (split_lines text)) ≡ some l = rw short at h in
        (
          sym (ap (λ (o : Option (List String)). elim o [ none ↦ [] | some x ↦ x ]) h'),
          fitting (split_lines text) (split_lines-HaveNoBreak text) short,
        )
  ]

  -- A line that is written and read back as it is.
  abbrev pub IsGood : String → Type 0
  IsGood s = ((s == "") ≡ false) × (is_one_line byte_length s ≡ true) × (drop_cr s ≡ s)

  abbrev pub AreGood : List String → Type 0
  AreGood [] = Unit
  AreGood (s ∷ l) = IsGood s × AreGood l

  split_lines-ended : (l : List String) → AreGood l → split_lines (ended l) ≡ l
  unfolding ended
  split_lines-ended [] g = unfold split_lines in refl
  split_lines-ended (s ∷ l) ((full, one, cr), g) =
      split_lines-line s (ended l) (ground (arith, one)) ∙ ap (◌∷◌ s) (split_lines-ended l g)

  all_fit-AreGood : (l : List String) → AreGood l → all_fit byte_length l ≡ true
  all_fit-AreGood [] g = refl
  all_fit-AreGood (s ∷ l) ((full, one, cr), g) = ground (arith, one, all_fit-AreGood l g)

  drop_cr-AreGood : (l : List String) → AreGood l → map drop_cr l ≡ l
  drop_cr-AreGood [] g = refl
  drop_cr-AreGood (s ∷ l) ((full, one, cr), g) = cc (cr, drop_cr-AreGood l g)

  concat-full : (s t : String) → (s == "") ≡ false → (concat s t == "") ≡ false
  unfolding concat
  concat-full String.[] t h = absurd (cc h)
  concat-full (String.◌∷◌ c s) t h = elim (Bool-cases (String.◌∷◌ c (concat s t) == "")) [
    | inl e ↦ absurd (cc ((==_iff (String.◌∷◌ c (concat s t)) "").0 e))
    | inr e ↦ e
  ]

  manifest_body-ended : (l : List String) → AreGood l → manifest_body l ≡ ended l
  unfolding manifest_body
  manifest_body-ended [] g = unfold join_lines ended in refl
  manifest_body-ended (s ∷ l) ((full, one, cr), g) = rw (joined l) (join_lines-ended s l)
    where
      joined : (rest : List String) → (join_lines (s ∷ rest) == "") ≡ false
      joined [] = unfold join_lines in full
      joined (t ∷ rest) = unfold join_lines in concat-full s _ full

  -- A scan of the body that was written gives its lines.
  pub scan_lines-manifest_body :
      (l : List String) → AreGood l → scan_lines byte_length (manifest_body l) ≡ some l
  unfolding scan_lines
  scan_lines-manifest_body l g =
      let split = split_lines-ended l g in
      rw (manifest_body-ended l g, split, all_fit-AreGood l g, drop_cr-AreGood l g) refl
