-- ===== src/Wire/Response.antt =====
-- internal/cache/store.go: the wire format of a Response, Response.WriteTo and Response.ReaderFrom.
pub mod Delivery
use gocacheprog.Prelude.{
  ℕ, ◌+◌, ◌≡◌, ◌∙◌, ap, refl, sym, inl, inr, Bool, true, false, ◌&&◌, Bool-cases, Option, none,
  some, List, [], ◌∷◌, ◌++◌, map, String, arith, leb, eqb, if◌then◌else◌, length, take, drop,
  length-take, length-append, append_assoc, ◌⊎◌, Option-cases, drop-drop,
}
use gocacheprog.Gocache.Save.{Body, no_reader, failing, yields}
use gocacheprog.Wire.{
  Json, write_head, read_int32, read_full, no_head, head_cut_off, negative_length, header_cut_off,
  bad_json, Outcome, through, stopped, Callback, read_item, hand_over, read_item-sized,
  read_item-aligned, read_int32-write_head, read_full-append, no_input, cut_off, negative, int32,
}

-- The body is what the item's body reader gives, after PrepareBodyReader; it is no part of the JSON.
pub record ResponseItem : Type 0 where
  pub action_id : String
  pub miss : Bool
  pub output_id : String
  pub size : ℕ
  pub time : Option ℕ
  pub is_compressed : Bool
  pub wire_size : ℕ
  pub disk_path : String
  pub body : Body

-- ResponseItem.WriteTo
unfoldable pub item_bytes : ResponseItem → List ℕ × Bool
item_bytes item = if eqb item.size 0 && eqb item.wire_size 0 then ([], true) else (elim item.body [
  | no_reader ↦ ([], false)
  | failing ↦ ([], false)
  | yields b ↦ if leb item.wire_size (length b) then (take item.wire_size b, true) else ([], false)
])

unfoldable pub write_items : List ResponseItem → List ℕ × Bool
unfolding item_bytes
write_items [] = ([], true)
write_items (item ∷ items) =
    let (more, ok) = write_items items in
    if (item_bytes item).1 then ((item_bytes item).0 ++ more, ok) else (item_bytes item)

-- Response.WriteTo
unfoldable pub write_to : Json (List ResponseItem) → List ResponseItem → List ℕ × Bool
unfolding write_items write_head
write_to json items = elim (write_head (json.marshal items)) [
  | none ↦ ([], false)
  | some head ↦ let (bodies, ok) = write_items items in (head ++ bodies, ok)
]

abbrev pub declared_size : ResponseItem → ℕ
declared_size item = if eqb item.wire_size 0 then item.size else item.wire_size

unfoldable pub sum_sizes : (ResponseItem → ℕ) → List ResponseItem → ℕ
sum_sizes size [] = 0
sum_sizes size (item ∷ items) = size item + sum_sizes size items

-- Response.ContentLength
unfoldable pub content_length : Json (List ResponseItem) → List ResponseItem → ℕ
unfolding sum_sizes
content_length json items = 4 + length (json.marshal items) + sum_sizes declared_size items

-- ReaderNaive: the whole response in a buffer; none is an error
unfoldable pub reader_naive : Json (List ResponseItem) → List ResponseItem → Option (List ℕ)
unfolding write_to content_length
reader_naive json items =
    let (bytes, ok) = write_to json items in
    if ok && eqb (length bytes) (content_length json items) then some bytes else none

module _ {S : Type 0} (read : Callback S ResponseItem) where
  -- the loop of ReaderFrom over the items
  unfoldable pub read_items : S → List ResponseItem → List ℕ → Outcome S
  unfolding read_item
  read_items s [] stream = through s stream
  read_items s (item ∷ items) stream = elim (read_item read s item item.wire_size stream) [
    | stopped e t ↦ stopped e t
    | through t rest ↦ read_items t items rest
  ]

  -- Response.ReaderFrom; a negative length panics
  unfoldable pub reader_from : Json (List ResponseItem) → S → List ℕ → Outcome S
  unfolding read_items read_int32 read_full
  reader_from json s stream = elim (read_int32 stream) [
    | no_input ↦ stopped no_head s
    | cut_off ↦ stopped head_cut_off s
    | negative ↦ stopped negative_length s
    | int32 n rest ↦ elim (read_full n rest) [
      | none ↦ stopped header_cut_off s
      | some (header, bodies) ↦ elim (json.unmarshal header) [
        | none ↦ stopped bad_json s
        | some items ↦ read_items s items bodies
      ]
    ]
  ]

  -- What the callback makes of items that all arrive whole, each as the JSON gives it, with the bytes
  -- that `item_bytes` gives for the sent one.
  unfoldable pub hand_over_all :
      (ResponseItem → ResponseItem) → S → List ResponseItem → List ℕ → Outcome S
  unfolding hand_over
  hand_over_all sent s [] rest = through s rest
  hand_over_all sent s (item ∷ items) rest =
      elim (hand_over read s (sent item) item.wire_size (item_bytes item).0 rest) [
        | stopped e t ↦ stopped e t
        | through t rest' ↦ hand_over_all sent t items rest'
      ]
