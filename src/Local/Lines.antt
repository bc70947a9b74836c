-- ===== src/Local/Lines.antt =====
-- internal/local/store.go: the text of a manifest file, as mergeManifest and PostCacheUsed join it and as
-- the scanner of loadManifest takes it apart. The byte length of a text is a parameter.
pub mod Scans
use gocacheprog.Prelude.{
  ℕ, ◌*◌, Bool, true, false, not, ◌&&◌, Option, none, some, List, [], ◌∷◌, map, String, ltb, eqb,
  if◌then◌else◌, string_eq, ◌==◌,
}
use Prim.Native.String
use Prim.Native.Char.{Char, code}

unfoldable pub concat : String → String → String
concat String.[] t = t
concat (String.◌∷◌ c s) t = String.◌∷◌ c (concat s t)

abbrev pub is_line_feed : Char → Bool
is_line_feed c = eqb (code c) 10

abbrev pub is_carriage_return : Char → Bool
is_carriage_return c = eqb (code c) 13

abbrev pub on_first : Char → List String → List String
on_first c [] = String.◌∷◌ c String.[] ∷ []
on_first c (line ∷ rest) = String.◌∷◌ c line ∷ rest

-- the lines of bufio.ScanLines before a carriage return is dropped; the text after the last line feed is
-- a line if it is not empty
unfoldable pub split_lines : String → List String
split_lines String.[] = []
split_lines (String.◌∷◌ c s) =
    let rest = split_lines s in if is_line_feed c then String.[] ∷ rest else on_first c rest

-- bufio.ScanLines drops one carriage return at the end of a line
unfoldable pub drop_cr : String → String
drop_cr String.[] = String.[]
drop_cr (String.◌∷◌ c String.[]) =
    if is_carriage_return c then String.[] else String.◌∷◌ c String.[]
drop_cr (String.◌∷◌ c (String.◌∷◌ e s)) = String.◌∷◌ c (drop_cr (String.◌∷◌ e s))

abbrev pub max_line_bytes : ℕ
max_line_bytes = 10 * 1024 * 1024

-- the scanner's buffer holds every line with its line feed
abbrev pub all_fit : (String → ℕ) → List String → Bool
all_fit byte_length [] = true
all_fit byte_length (line ∷ rest) =
    ltb (byte_length line) max_line_bytes && all_fit byte_length rest

-- the loop over scanner.Scan in loadManifest; none is scanner.Err
unfoldable pub scan_lines : (String → ℕ) → String → Option (List String)
unfolding split_lines drop_cr
scan_lines byte_length text =
    let raw = split_lines text in if all_fit byte_length raw then some (map drop_cr raw) else none

-- `strings.Join(ids, "\n")`
unfoldable pub join_lines : List String → String
unfolding concat
join_lines [] = ""
join_lines (id ∷ []) = id
join_lines (id ∷ next ∷ ids) = concat id (concat "\n" (join_lines (next ∷ ids)))

-- the body that is written
unfoldable pub manifest_body : List String → String
unfolding join_lines
manifest_body ids = let body = join_lines ids in if body == "" then body else concat body "\n"
