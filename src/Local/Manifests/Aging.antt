-- ===== src/Local/Manifests/Aging.antt =====
-- internal/local/store.go: the newest manifest of a build type, which Preload falls back to, and the
-- removal of manifests that are too old. What WalkDir and Stat find is an argument; times and ages are
-- numbers of one unit. A directory that cannot be walked is not modelled.
use gocacheprog.Prelude.{
  ℕ, ◌+◌, ◌≤◌, ◌<◌, ==_iff, ◌≡◌, ◌⊎◌, ◌∙◌, refl, inl, inr, Bool, true, false, not, ◌&&◌, ◌||◌,
  Bool-cases, none, List, [], ◌∷◌, String, arith, ltb, eqb, if◌then◌else◌, string_eq, ◌==◌, ==_refl,
  ap,
}
use gocacheprog.Prelude.Maps.{lookup, remove, lookup-remove}
use gocacheprog.Local.Manifests.{Keys, Files, Loaded, ids_of, read_manifest}

pub record Walked : Type 0 where
  pub path : String
  pub is_dir : Bool
  pub is_tmp : Bool
  pub mod_time : ℕ

-- the entries that loadNewestManifest and listManifestFiles look at
abbrev pub is_manifest : Walked → Bool
is_manifest e = not (e.is_dir || e.is_tmp)

-- the walk of loadNewestManifest, from the path and the time found so far
unfoldable pub newest_of : String × ℕ → List Walked → String × ℕ
newest_of best [] = best
newest_of best (e ∷ rest) =
    newest_of (if is_manifest e && ltb best.1 e.mod_time then (e.path, e.mod_time) else best) rest

-- loadNewestManifest; the zero time is 0
unfoldable pub load_newest_manifest : Keys → Files → List Walked → Loaded
unfolding newest_of read_manifest
load_newest_manifest k files walked =
    let (path, time) = newest_of ("", 0) walked in
    if path == "" then ids_of [] else read_manifest k files path

-- `info.ModTime().After(cutoff)`
abbrev pub is_recent : ℕ → ℕ → Walked → Bool
is_recent now max_age e = ltb now (e.mod_time + max_age)

-- the loop of collectStaleManifests over the list of listManifestFiles
unfoldable pub remove_stale : ℕ → ℕ → List Walked → Files → Files
remove_stale now max_age [] files = files
remove_stale now max_age (e ∷ rest) files =
    remove_stale now max_age rest
      (if is_manifest e && not (is_recent now max_age e) then remove e.path files else files)

-- collectStaleManifests
unfoldable pub collect_stale_manifests : ℕ → ℕ → List Walked → Files → Files
unfolding remove_stale
collect_stale_manifests now max_age walked files =
    if eqb max_age 0 then files else remove_stale now max_age walked files

-- A manifest with this path is too old.
unfoldable pub is_stale : ℕ → ℕ → List Walked → String → Bool
is_stale now max_age [] path = false
is_stale now max_age (e ∷ rest) path =
    (is_manifest e && not (is_recent now max_age e) && e.path == path)
    || is_stale now max_age rest path

lookup-remove_stale :
    (now max_age : ℕ) (walked : List Walked) (files : Files) (path : String)
    → lookup path (remove_stale now max_age walked files)
      ≡ (if is_stale now max_age walked path then none else lookup path files)
unfolding remove_stale is_stale
lookup-remove_stale now max_age [] files path = refl
lookup-remove_stale now max_age (e ∷ rest) files path =
    elim (Bool-cases (is_manifest e && not (is_recent now max_age e))) [
      | inl old ↦ rw old (
          lookup-remove_stale now max_age rest (remove e.path files) path
          ∙ ground (arith, lookup-remove e.path path files))
      | inr young ↦ rw young (lookup-remove_stale now max_age rest files path)
    ]

-- A file of this path, no directory and not temporary, was walked over and is at least as old as the
-- limit.
abbrev pub Stale : ℕ → ℕ → List Walked → String → Type 0
Stale now max_age [] path = ⊥
Stale now max_age (e ∷ rest) path =
    ((e.is_dir ≡ false) × (e.is_tmp ≡ false) × (e.path ≡ path) × (e.mod_time + max_age ≤ now))
    ⊎ Stale now max_age rest path

is_stale-Stale :
    (now max_age : ℕ) (walked : List Walked) (path : String)
    → is_stale now max_age walked path ≡ true
    → Stale now max_age walked path
unfolding is_stale
is_stale-Stale now max_age [] path h = absurd (cc h)
is_stale-Stale now max_age (e ∷ rest) path h =
    elim (Bool-cases (is_manifest e && not (is_recent now max_age e) && e.path == path)) [
      | inr other ↦ inr (is_stale-Stale now max_age rest path (ground (arith, h, other)))
      | inl here ↦ inl (
        ground (arith, here),
        ground (arith, here),
        (==_iff e.path path).0 (ground (arith, here)),
        ground (arith, here),
      )
    ]

Stale-is_stale :
    (now max_age : ℕ) (walked : List Walked) (path : String)
    → Stale now max_age walked path
    → is_stale now max_age walked path ≡ true
unfolding is_stale
Stale-is_stale now max_age [] path h = absurd h
Stale-is_stale now max_age (e ∷ rest) path (inl (no_dir, no_tmp, same, old)) =
    let here : (e.path == path) ≡ true = (==_iff e.path path).1 same in
    ground (arith, no_dir, no_tmp, here, old)
Stale-is_stale now max_age (e ∷ rest) path (inr there) =
    ground (arith, Stale-is_stale now max_age rest path there)

-- The file of a path is gone after the removal of stale manifests if there is an age limit and a
-- file of that path, no directory and not temporary, was walked over and is at least as old as the
-- limit; if there is no limit or no such file, it is as it was.
pub lookup-collect_stale_manifests :
    (now max_age : ℕ) (walked : List Walked) (files : Files) (path : String)
    → ((0 < max_age)
        × Stale now max_age walked path
        × (lookup path (collect_stale_manifests now max_age walked files) ≡ none))
      ⊎ (((max_age ≡ 0) ⊎ ¬ Stale now max_age walked path)
          × (lookup path (collect_stale_manifests now max_age walked files) ≡ lookup path files))
unfolding collect_stale_manifests
lookup-collect_stale_manifests now max_age walked files path = elim (Bool-cases (eqb max_age 0)) [
  | inl off ↦ inr (inl (ground (arith, off)), rw off)
  | inr on ↦ elim (Bool-cases (is_stale now max_age walked path)) [
    | inl old ↦ inl (
      ground (arith, on),
      is_stale-Stale now max_age walked path old,
      rw on (lookup-remove_stale now max_age walked files path ∙ rw old),
    )
    | inr young ↦ inr (
      inr (λ stale. absurd (cc (Stale-is_stale now max_age walked path stale, young))),
      rw on (lookup-remove_stale now max_age walked files path ∙ rw young),
    )
  ]
]

-- A manifest of this path and time was walked over.
unfoldable pub is_walked : String × ℕ → List Walked → Bool
is_walked r [] = false
is_walked r (e ∷ rest) =
    (not e.is_dir && not e.is_tmp && e.path == r.0 && eqb e.mod_time r.1) || is_walked r rest

-- No manifest is newer.
abbrev pub NoneNewer : ℕ → List Walked → Type 0
NoneNewer time [] = Unit
NoneNewer time (e ∷ rest) =
    (e.is_dir ≡ false → e.is_tmp ≡ false → e.mod_time ≤ time) × NoneNewer time rest

record IsNewest (best : String × ℕ) (walked : List Walked) (r : String × ℕ) : Type 0 where
  pub later : best.1 ≤ r.1
  pub none_newer : NoneNewer r.1 walked
  pub found : (r ≡ best) ⊎ (is_walked r walked ≡ true)

newest_of-taken :
    (best : String × ℕ) (e : Walked) (rest : List Walked)
    → (is_manifest e && ltb best.1 e.mod_time) ≡ true
    → newest_of best (e ∷ rest) ≡ newest_of (e.path, e.mod_time) rest
newest_of-taken best e rest h = unfold newest_of in rw (newest_of, h)

newest_of-passed :
    (best : String × ℕ) (e : Walked) (rest : List Walked)
    → (is_manifest e && ltb best.1 e.mod_time) ≡ false
    → newest_of best (e ∷ rest) ≡ newest_of best rest
newest_of-passed best e rest h = unfold newest_of in rw (newest_of, h)

taken-found :
    (best : String × ℕ) (e : Walked) (rest : List Walked) (r : String × ℕ)
    → is_manifest e ≡ true
    → (r ≡ (e.path, e.mod_time)) ⊎ (is_walked r rest ≡ true)
    → (r ≡ best) ⊎ (is_walked r (e ∷ rest) ≡ true)
unfolding is_walked
taken-found best e rest r m (inl same) = inr (rw same (ground (arith, m, ==_refl e.path)))
taken-found best e rest r m (inr there) = inr (ground (arith, there))

passed-found :
    (best : String × ℕ) (e : Walked) (rest : List Walked) (r : String × ℕ)
    → (r ≡ best) ⊎ (is_walked r rest ≡ true)
    → (r ≡ best) ⊎ (is_walked r (e ∷ rest) ≡ true)
unfolding is_walked
passed-found best e rest r (inl same) = inl same
passed-found best e rest r (inr there) = inr (ground (arith, there))

newest_of-IsNewest :
    (best : String × ℕ) (walked : List Walked) → IsNewest best walked (newest_of best walked)
newest_of-IsNewest best [] =
    unfold newest_of is_walked in record { later = ground arith; none_newer = tt; found = inl refl }
newest_of-IsNewest best (e ∷ rest) = elim (Bool-cases (is_manifest e && ltb best.1 e.mod_time)) [
  | inl taken ↦
      let n = newest_of-IsNewest (e.path, e.mod_time) rest in
      let r = newest_of (e.path, e.mod_time) rest in
      rw (newest_of-taken best e rest taken) (record {
        later = ground (arith, n.later, taken);
        none_newer = ((λ file kept. n.later), n.none_newer);
        found = taken-found best e rest r (ground (arith, taken)) n.found;
      })
  | inr passed ↦
      let n = newest_of-IsNewest best rest in
      let r = newest_of best rest in
      rw (newest_of-passed best e rest passed) (record {
        later = n.later;
        none_newer = ((λ file kept. ground (arith, n.later, passed, file, kept)), n.none_newer);
        found = passed-found best e rest r n.found;
      })
]

-- No manifest of the walk is newer than the time that the search ends with. When the search found a
-- path, a manifest of that path and time was walked over and is the one that is read; when it found
-- none, there are no IDs.
pub load_newest_manifest-newest :
    (k : Keys) (files : Files) (walked : List Walked)
    → let r = newest_of ("", 0) walked in
      NoneNewer r.1 walked
      × ((r.0 == "") ≡ true → load_newest_manifest k files walked ≡ ids_of [])
      × ((r.0 == "") ≡ false
          → (is_walked r walked ≡ true)
            × (load_newest_manifest k files walked ≡ read_manifest k files r.0))
load_newest_manifest-newest k files walked =
    let n = newest_of-IsNewest ("", 0) walked in
    let r = newest_of ("", 0) walked in
    (
      n.none_newer,
      (λ h. unfold load_newest_manifest in simp (load_newest_manifest, h)),
      λ h. (listed r n.found h, unfold load_newest_manifest in simp (load_newest_manifest, h)),
    )
  where
    listed :
        (r : String × ℕ)
        → (r ≡ ("", 0)) ⊎ (is_walked r walked ≡ true)
        → (r.0 == "") ≡ false
        → is_walked r walked ≡ true
    listed r (inl same) h =
        let empty : String → Bool = λ (x : String). x == "" in
        let nothing : empty r.0 ≡ true = ap (λ (x : String × ℕ). empty x.0) same in
        absurd (cc (nothing, h))
    listed r (inr there) h = there
