-- ===== src/Wire/Stream.antt =====
-- internal/gocache/store.go: the wire format of a stream of file items, StreamWriter and ReadStream.
pub mod Delivery
use gocacheprog.Prelude.{
  ℕ, zero, suc, ◌≤◌, ◌<◌, ◌≡◌, ◌≢◌, ◌∙◌, refl, inl, inr, Bool, true, false, ◌&&◌, Bool-cases, none,
  some, List, [], ◌∷◌, ◌++◌, arith, leb, eqb, if◌then◌else◌, length, take, length-take,
  length-append, append_assoc, ◌⊎◌, Option-cases,
}
use gocacheprog.Gocache.Save.{FileItem, Body, no_reader, failing, yields}
use gocacheprog.Wire.{
  Json, be32, write_head, read_int32, read_full, head_cut_off, negative_length, header_cut_off,
  bad_json, no_fuel, Outcome, through, stopped, Callback, read_item, hand_over, Outcome-cases,
  read_item-ne-no_fuel, length-read_int32, length-read_full, read_int32-write_head, read_item-sized,
  read_item-aligned, read_full-append, no_input, cut_off, negative, int32, Head,
}

abbrev pub stream_size : FileItem → ℕ
stream_size item = if eqb item.wire_size 0 then item.size else item.wire_size

-- FileItem.WriteTo
unfoldable pub file_item_bytes : FileItem → List ℕ × Bool
file_item_bytes item =
    if eqb item.size 0 && eqb item.wire_size 0 then ([], true) else (elim item.body [
      | no_reader ↦ ([], false)
      | failing ↦ ([], false)
      | yields b ↦
          if leb (stream_size item) (length b)
          then (take (stream_size item) b, true)
          else ([], false)
    ])

-- StreamWriter.WriteItem
unfoldable pub write_item : Json FileItem → FileItem → List ℕ × Bool
unfolding file_item_bytes write_head
write_item json item = elim (write_head (json.marshal item)) [
  | none ↦ ([], false)
  | some head ↦ let (body, ok) = file_item_bytes item in (head ++ body, ok)
]

-- WriteItem for each item while none fails, and then Close
unfoldable pub write_stream : Json FileItem → List FileItem → List ℕ × Bool
unfolding write_item be32
write_stream json [] = (be32 0, true)
write_stream json (item ∷ items) =
    let (more, ok) = write_stream json items in
    if (write_item json item).1
    then ((write_item json item).0 ++ more, ok)
    else (write_item json item)

module _ {S : Type 0} (read : Callback S FileItem) (json : Json FileItem) where
  -- the loop of ReadStream; each round takes four bytes or more
  unfoldable pub read_rounds : ℕ → S → List ℕ → Outcome S
  unfolding read_item read_int32 read_full
  read_rounds zero s stream = stopped no_fuel s
  read_rounds (suc fuel) s stream = elim (read_int32 stream) [
    | no_input ↦ through s []
    | cut_off ↦ stopped head_cut_off s
    | negative ↦ stopped negative_length s
    | int32 zero rest ↦ through s rest
    | int32 (suc n) rest ↦ elim (read_full (suc n) rest) [
      | none ↦ stopped header_cut_off s
      | some (header, after) ↦ elim (json.unmarshal header) [
        | none ↦ stopped bad_json s
        | some item ↦ elim (read_item read s item (stream_size item) after) [
          | stopped e t ↦ stopped e t
          | through t rest' ↦ read_rounds fuel t rest'
        ]
      ]
    ]
  ]

  -- ReadStream
  abbrev pub read_stream : S → List ℕ → Outcome S
  read_stream s stream = read_rounds (suc (length stream)) s stream

  -- What the callback makes of items that all arrive whole, as the JSON gives them.
  unfoldable pub hand_over_files : (FileItem → FileItem) → S → List FileItem → List ℕ → Outcome S
  unfolding hand_over
  hand_over_files sent s [] rest = through s rest
  hand_over_files sent s (item ∷ items) rest =
      elim (hand_over read s (sent item) (stream_size item) (file_item_bytes item).0 rest) [
        | stopped e t ↦ stopped e t
        | through t rest' ↦ hand_over_files sent t items rest'
      ]
