-- ===== src/Gocache/Manifest/Healing.antt =====
-- Proofs about loading and merging manifests: which paths they keep.
use gocacheprog.Prelude.{
  ◌≡◌, ◌≢◌, ◌∙◌, sym, refl, inl, inr, Bool, true, false, not, ◌&&◌, ◌||◌, Bool-cases, Option-cases,
  Option, none, some, List, [], ◌∷◌, ◌++◌, String, arith, string_eq, ◌==◌, ◌⊎◌, ==_iff,
}
use gocacheprog.Gocache.{IndexEntry}
use gocacheprog.Gocache.Manifest.{
  Paths, mem, take_line, take_lines, indexed, prune, manifest_line, load_manifest, union_line,
  union_manifest_paths,
}

-- No path stands twice, and none is among `seen`.
abbrev pub Fresh : List String → List String → Type 0
Fresh seen [] = Unit
Fresh seen (p ∷ rest) = (mem p seen ≡ false) × Fresh (p ∷ seen) rest

-- A line gives this path.
abbrev pub names : (String → Option String) → String → String → Bool
names accept p raw = elim (accept raw) [ none ↦ false | some q ↦ q == p ]

abbrev pub named : (String → Option String) → String → List String → Bool
named accept p [] = false
named accept p (raw ∷ rest) = names accept p raw || named accept p rest

module _ (accept : String → Option String) where
  take_line-fresh :
      (seen : List String) (raw p : String)
      → take_line accept seen raw ≡ some p
      → (accept raw ≡ some p) × (mem p seen ≡ false)
  unfolding take_line
  take_line-fresh seen raw p e = elim (Option-cases (accept raw)) [
    | inl q ↦ cc (rw (take_line, q) at e)
    | inr (r, q) ↦ elim (Bool-cases (mem r seen)) [
      | inl old ↦ cc (rw (take_line, q, old) at e)
      | inr new ↦ let same : r ≡ p = ground arith in (rw (q, same) refl, rw (← same) new)
    ]
  ]

  names-none : (p raw : String) → accept raw ≡ none → names accept p raw ≡ false
  names-none p raw q = rw (names, q) refl

  names-some : (p raw r : String) → accept raw ≡ some r → names accept p raw ≡ (r == p)
  names-some p raw r q = rw (names, q) refl

  take_line-skipped :
      (seen : List String) (raw p : String)
      → take_line accept seen raw ≡ none
      → (names accept p raw && not (mem p seen)) ≡ false
  unfolding take_line
  take_line-skipped seen raw p e = elim (Option-cases (accept raw)) [
    | inl q ↦ ground (arith, names-none p raw q)
    | inr (r, q) ↦ elim (Bool-cases (mem r seen)) [
      | inr new ↦ cc (rw (take_line, q, new) at e)
      | inl old ↦ elim (Bool-cases (r == p)) [
        | inr other ↦ ground (arith, names-some p raw r q)
        | inl same ↦ let e' : r ≡ p = (==_iff r p).0 same in ground (arith, rw e' at old)
      ]
    ]
  ]

  pub take_lines-Fresh : (seen text : List String) → Fresh seen (take_lines accept seen text).0
  unfolding take_lines
  take_lines-Fresh seen [] = tt
  take_lines-Fresh seen (raw ∷ rest) =
      by_line (take_line accept seen raw) refl (λ s. take_lines-Fresh s rest)
    where
      by_line :
          (o : Option String)
          → take_line accept seen raw ≡ o
          → ((s : List String) → Fresh s (take_lines accept s rest).0)
          → Fresh seen (take_lines accept seen (raw ∷ rest)).0
      by_line none e later = rw (take_lines, e) (later seen)
      by_line (some p) e later =
          rw (take_lines, e) ((take_line-fresh seen raw p e).1, later (p ∷ seen))

  pub mem-take_lines :
      (seen text : List String) (p : String)
      → mem p (take_lines accept seen text).0 ≡ (named accept p text && not (mem p seen))
  unfolding take_lines
  mem-take_lines seen [] p = refl
  mem-take_lines seen (raw ∷ rest) p =
      by_line (take_line accept seen raw) refl (λ s. mem-take_lines s rest p)
    where
      split : (q : String) → mem q seen ≡ false → (q == p) ≡ true → mem p seen ≡ false
      split q new same = rw ((==_iff q p).0 same) at new

      by_line :
          (o : Option String)
          → take_line accept seen raw ≡ o
          → ((s : List String)
              → mem p (take_lines accept s rest).0 ≡ (named accept p rest && not (mem p s)))
          → mem p (take_lines accept seen (raw ∷ rest)).0
            ≡ ((names accept p raw || named accept p rest) && not (mem p seen))
      by_line none e later =
          rw (take_lines, e) (ground (arith, later seen, take_line-skipped seen raw p e))
      by_line (some q) e later =
          let (taken, new) = take_line-fresh seen raw q e in
          rw (take_lines, e, names-some p raw q taken)
            (ground (arith, later (q ∷ seen), new, split q new))

pub mem-prune :
    (keep : String → Bool) (l : List String) (p : String)
    → mem p (prune keep l).0 ≡ (mem p l && keep p)
unfolding prune
mem-prune keep [] p = refl
mem-prune keep (q ∷ l) p = ground (arith, mem-prune keep l p, ==_iff q p)

Fresh-mono :
    (seen more l : List String)
    → ((p : String) → mem p seen ≡ false → mem p more ≡ false)
    → Fresh seen l
    → Fresh more l
Fresh-mono seen more [] sub h = tt
Fresh-mono seen more (q ∷ l) sub h =
    (sub q h.0, Fresh-mono (q ∷ seen) (q ∷ more) l (λ p e. ground (arith, sub p)) h.1)

prune-Fresh :
    (keep : String → Bool) (seen l : List String) → Fresh seen l → Fresh seen (prune keep l).0
prune-Fresh keep seen [] h = unfold prune in tt
prune-Fresh keep seen (q ∷ l) h = by_test (Bool-cases (keep q)) (prune-Fresh keep (q ∷ seen) l h.1)
  where
    by_test :
        (keep q ≡ true) ⊎ (keep q ≡ false)
        → Fresh (q ∷ seen) (prune keep l).0
        → Fresh seen (prune keep (q ∷ l)).0
    by_test (inl e) later = unfold prune in rw (prune, e) (h.0, later)
    by_test (inr e) later =
        unfold prune in
        rw (prune, e) (Fresh-mono (q ∷ seen) seen (prune keep l).0 (λ p e. ground arith) later)

-- Loading a manifest gives exactly the paths that a line of it names and that the index has, each
-- once.
pub mem-load_manifest :
    (l : Paths) (index : List (String × IndexEntry)) (text : List String)
    → Fresh [] (load_manifest l index text).0
      × ((p : String)
          → mem p (load_manifest l index text).0
            ≡ (named (manifest_line l) p text && indexed index p))
unfolding load_manifest
mem-load_manifest l index text = (
  prune-Fresh (indexed index) [] _ (take_lines-Fresh (manifest_line l) [] text),
  λ p. ground (
    arith,
    mem-prune (indexed index) (take_lines (manifest_line l) [] text).0 p,
    mem-take_lines (manifest_line l) [] text p,
  ),
)

-- A line is this path after trimming.
abbrev pub Trimmed : Paths → String → List String → Type 0
Trimmed l p [] = ⊥
Trimmed l p (raw ∷ rest) = (l.trim_space raw ≡ p) ⊎ Trimmed l p rest

Trimmed-append :
    (l : Paths) (p : String) (a b : List String)
    → Trimmed l p (a ++ b)
    → Trimmed l p a ⊎ Trimmed l p b
Trimmed-append l p [] b h = inr h
Trimmed-append l p (raw ∷ a) b (inl here) = inl (inl here)
Trimmed-append l p (raw ∷ a) b (inr there) = elim (Trimmed-append l p a b there) [
  | inl first ↦ inl (inr first)
  | inr second ↦ inr second
]

append-Trimmed :
    (l : Paths) (p : String) (a b : List String)
    → Trimmed l p a ⊎ Trimmed l p b
    → Trimmed l p (a ++ b)
append-Trimmed l p [] b (inl h) = absurd h
append-Trimmed l p [] b (inr h) = h
append-Trimmed l p (raw ∷ a) b (inl (inl here)) = inl here
append-Trimmed l p (raw ∷ a) b (inl (inr there)) = inr (append-Trimmed l p a b (inl there))
append-Trimmed l p (raw ∷ a) b (inr second) = inr (append-Trimmed l p a b (inr second))

named-Trimmed :
    (l : Paths) (p : String) (text : List String)
    → named (union_line l) p text ≡ true
    → (p ≢ "") × Trimmed l p text
named-Trimmed l p [] h = absurd (cc h)
named-Trimmed l p (raw ∷ rest) h = elim (Bool-cases (names (union_line l) p raw)) [
  | inr other ↦
      let (proper, there) = named-Trimmed l p rest (ground (arith, h, other)) in (proper, inr there)
  | inl here ↦ elim (Bool-cases (l.trim_space raw == "")) [
    | inl blank ↦ absurd (ground (arith, here, blank))
    | inr proper ↦
        let same : l.trim_space raw ≡ p =
          (==_iff (l.trim_space raw) p).0 (ground (arith, here, proper)) in
        ((λ e. absurd (cc ((==_iff (l.trim_space raw) "").1 (same ∙ e), proper))), inl same)
  ]
]

Trimmed-named :
    (l : Paths) (p : String) (text : List String)
    → p ≢ ""
    → Trimmed l p text
    → named (union_line l) p text ≡ true
Trimmed-named l p [] proper h = absurd h
Trimmed-named l p (raw ∷ rest) proper (inr there) =
    ground (arith, Trimmed-named l p rest proper there)
Trimmed-named l p (raw ∷ rest) proper (inl here) = elim (Bool-cases (l.trim_space raw == "")) [
  | inl blank ↦ absurd (proper (sym here ∙ (==_iff (l.trim_space raw) "").0 blank))
  | inr full ↦
      let same : (l.trim_space raw == p) ≡ true = (==_iff (l.trim_space raw) p).1 here in
      ground (arith, full, same)
]

-- A path stands in the union of two lists of paths if it is not blank and is what trimming gives of
-- an element of either, and does not if it is blank or no element gives it; none stands there
-- twice.
pub mem-union_manifest_paths :
    (l : Paths) (a b : List String)
    → Fresh [] (union_manifest_paths l a b)
      × ((p : String)
          → ((mem p (union_manifest_paths l a b) ≡ true)
              × (p ≢ "")
              × (Trimmed l p a ⊎ Trimmed l p b))
            ⊎ ((mem p (union_manifest_paths l a b) ≡ false)
                × ((p ≡ "") ⊎ ¬ (Trimmed l p a ⊎ Trimmed l p b))))
unfolding union_manifest_paths
mem-union_manifest_paths l a b = (take_lines-Fresh (union_line l) [] (a ++ b), which)
  where
    which :
        (p : String)
        → let u = (take_lines (union_line l) [] (a ++ b)).0 in
          ((mem p u ≡ true) × (p ≢ "") × (Trimmed l p a ⊎ Trimmed l p b))
          ⊎ ((mem p u ≡ false) × ((p ≡ "") ⊎ ¬ (Trimmed l p a ⊎ Trimmed l p b)))
    which p =
        let taken = mem-take_lines (union_line l) [] (a ++ b) p in
        elim (Bool-cases (named (union_line l) p (a ++ b))) [
          | inl is_in ↦
              let (proper, there) = named-Trimmed l p (a ++ b) is_in in
              inl (ground (arith, taken, is_in), proper, Trimmed-append l p a b there)
          | inr is_out ↦ elim (Bool-cases (p == "")) [
            | inl blank ↦ inr (ground (arith, taken, is_out), inl ((==_iff p "").0 blank))
            | inr full ↦ inr (
              ground (arith, taken, is_out),
              inr (λ there. absurd (
                  cc (
                    Trimmed-named l p (a ++ b) (λ e. absurd (cc ((==_iff p "").1 e, full)))
                        (append-Trimmed l p a b there),
                    is_out,
                  ))),
            )
          ]
        ]
