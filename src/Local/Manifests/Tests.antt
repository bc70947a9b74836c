-- ===== src/Local/Manifests/Tests.antt =====
-- A build whose actions are recorded, and the preload of the next build of the same commit.
use gocacheprog.Prelude.{
  arith, sym, ◌∙◌, Bool, ap, Bool-cases, inl, inr, ℕ, ◌⊎◌, ◌<◌, ◌≡◌, refl, true, false, ◌||◌, some,
  List, [], ◌∷◌, ◌++◌, String, eqb, none, if◌then◌else◌, string_eq, ◌==◌,
}
use gocacheprog.Prelude.Maps.{lookup}
use gocacheprog.Local.Manifests.Aging.{
  Walked, newest_of, NoneNewer, load_newest_manifest, is_walked, collect_stale_manifests, Stale,
  load_newest_manifest-newest, lookup-collect_stale_manifests,
}
use Prim.Native.Char.{Char, code}
use gocacheprog.Gocache.Manifest.{mem}
use gocacheprog.Local.Lines.{concat, is_line_feed, is_carriage_return, drop_cr}
use gocacheprog.Local.Lines.Scans.{has_no_break, AreOneLine}
use gocacheprog.Local.Manifests.Reading.{TrimLaws, has_id}
use gocacheprog.Gocache.Manifest.Healing.{named}
use gocacheprog.Local.Manifests.{
  Keys, Files, ids_of, text, Loaded, commit_manifest_path, manifest_scope_dir, read_manifest,
  gather_ids, post_cache_used, trimmed_line, preload_filter_action_ids,
}
use gocacheprog.Local.Manifests.Merging.{
  is_readable, others_of, preload_filter_action_ids-post_cache_used,
}

unfoldable join_names : List String → String
unfolding concat
join_names [] = ""
join_names (name ∷ names) = concat name (concat "/" (join_names names))

-- A text without its white space, which is what trimming gives of a text that has none inside.
abbrev is_space : Char → Bool
is_space c = eqb (code c) 32 || is_line_feed c || is_carriage_return c

unfoldable strip : String → String
strip String.[] = String.[]
strip (String.◌∷◌ c s) = let rest = strip s in if is_space c then rest else String.◌∷◌ c rest

abbrev keys : Keys
keys = record {
  trim_space = strip;
  byte_length = λ s. 0;
  valid_scoped_key_name = λ s. true;
  query_escape = λ s. s;
  join = join_names;
}

strip-other :
    (c : Char) (s : String) → is_space c ≡ false → strip (String.◌∷◌ c s) ≡ String.◌∷◌ c (strip s)
unfolding strip
strip-other c s other = rw other refl

strip-space : (c : Char) (s : String) → is_space c ≡ true → strip (String.◌∷◌ c s) ≡ strip s
unfolding strip
strip-space c s space = rw space refl

strip-strip : (s : String) → strip (strip s) ≡ strip s
strip-strip String.[] = unfold strip in refl
strip-strip (String.◌∷◌ c s) = elim (Bool-cases (is_space c)) [
  | inl space ↦ ap strip (strip-space c s space) ∙ strip-strip s ∙ sym (strip-space c s space)
  | inr other ↦
      ap strip (strip-other c s other)
      ∙ strip-other c (strip s) other
      ∙ ap (String.◌∷◌ c) (strip-strip s)
      ∙ sym (strip-other c s other)
]

has_no_break-strip : (s : String) → has_no_break (strip s) ≡ true
unfolding strip has_no_break
has_no_break-strip String.[] = refl
has_no_break-strip (String.◌∷◌ c s) = elim (Bool-cases (is_space c)) [
  | inl space ↦ rw space (has_no_break-strip s)
  | inr other ↦
      let feed : is_line_feed c ≡ false = ground (arith, other) in
      rw (other, feed) (has_no_break-strip s)
]

drop_cr-cons :
    (c : Char) (t : String)
    → is_carriage_return c ≡ false
    → drop_cr t ≡ t
    → drop_cr (String.◌∷◌ c t) ≡ String.◌∷◌ c t
unfolding drop_cr
drop_cr-cons c String.[] other h = rw other refl
drop_cr-cons c (String.◌∷◌ e t) other h = ap (String.◌∷◌ c) h

drop_cr-strip : (s : String) → drop_cr (strip s) ≡ strip s
unfolding strip
drop_cr-strip String.[] = unfold drop_cr in refl
drop_cr-strip (String.◌∷◌ c s) = elim (Bool-cases (is_space c)) [
  | inl space ↦ rw space (drop_cr-strip s)
  | inr other ↦ rw other (drop_cr-cons c (strip s) (ground (arith, other)) (drop_cr-strip s))
]

strip-drop_cr : (s : String) → strip (drop_cr s) ≡ strip s
unfolding strip drop_cr
strip-drop_cr String.[] = refl
strip-drop_cr (String.◌∷◌ c String.[]) = elim (Bool-cases (is_carriage_return c)) [
  | inl ends ↦ rw ends (ground (arith, ends))
  | inr other ↦ ap strip (drop_cr-cons c String.[] other refl)
]
strip-drop_cr (String.◌∷◌ c (String.◌∷◌ e s)) =
    ap (λ r. if is_space c then r else String.◌∷◌ c r) (strip-drop_cr (String.◌∷◌ e s))

keys-TrimLaws : TrimLaws keys
keys-TrimLaws = record {
  again = strip-strip;
  one_line = λ s h. ground (arith, has_no_break-strip s);
  no_cr = drop_cr-strip;
  drops = strip-drop_cr;
}

abbrev path : String
path = join_names ("manifests" ∷ "default" ∷ "c" ∷ "c" ∷ [])

at_path : commit_manifest_path keys "c" "" ≡ some path
unfolding commit_manifest_path manifest_scope_dir strip
at_path = refl

readable : is_readable (read_manifest keys [] path) ≡ true
unfolding read_manifest
readable = refl

not_blank : (keys.trim_space "c" == "") ≡ false
unfolding strip
not_blank = refl

one_line_ids : AreOneLine keys.byte_length ("x" ∷ "y" ∷ [])
unfolding has_no_break
one_line_ids = (refl, (refl, tt))

preload_filter_action_ids-post_cache_used_example :
    let (ok, files') = post_cache_used keys (λ p. true) "c" "" "" ("x" ∷ "y" ∷ []) false [] in
    (ok ≡ true)
    × ((parent changes base : String) (newest : Loaded) (others sources : List String)
        → gather_ids (others_of keys files' parent changes base "") ≡ some (others, sources)
        → (list : List String) × (preload_filter_action_ids keys files' newest (record {
          commit = "c";
          parent_commit = parent;
          changes_id = changes;
          base_commit = base;
          build_type = "";
        })
            ≡ some (list ++ others, "commit" ∷ sources))
          × ((p : String)
              → mem p list ≡ (
                  has_id (read_manifest keys [] path) p
                  || named (trimmed_line keys) p ("x" ∷ "y" ∷ []))))
preload_filter_action_ids-post_cache_used_example =
    preload_filter_action_ids-post_cache_used keys keys-TrimLaws (λ p. true) "c" "" path
      ("x" ∷ "y" ∷ []) false [] refl not_blank at_path refl readable one_line_ids

abbrev walked : List Walked
walked =
    record { path = "old"; is_dir = false; is_tmp = false; mod_time = 3 }
    ∷ record { path = "new"; is_dir = false; is_tmp = false; mod_time = 8 }
    ∷ []

abbrev two_files : Files
two_files = ("old", text "") ∷ ("new", text "x\n") ∷ []

load_newest_manifest-newest_example :
    let r = newest_of ("", 0) walked in
    NoneNewer r.1 walked
    × ((r.0 == "") ≡ true → load_newest_manifest keys two_files walked ≡ ids_of [])
    × ((r.0 == "") ≡ false
        → (is_walked r walked ≡ true)
          × (load_newest_manifest keys two_files walked ≡ read_manifest keys two_files r.0))
load_newest_manifest-newest_example = load_newest_manifest-newest keys two_files walked

abbrev age_limit : ℕ
age_limit = 5

lookup-collect_stale_manifests_example :
    ((0 < age_limit)
      × Stale 9 age_limit walked "old"
      × (lookup "old" (collect_stale_manifests 9 age_limit walked two_files) ≡ none))
    ⊎ (((age_limit ≡ 0) ⊎ ¬ Stale 9 age_limit walked "old")
        × (lookup "old" (collect_stale_manifests 9 age_limit walked two_files)
            ≡ lookup "old" two_files))
lookup-collect_stale_manifests_example =
    lookup-collect_stale_manifests 9 age_limit walked two_files "old"
