-- ===== src/Wire/Tests.antt =====
-- One item on the wire, with a header of one byte, to a callback that keeps the bodies.
use gocacheprog.Prelude.{
  ℕ, ◌+◌, ◌≡◌, ◌≢◌, refl, true, false, Option, none, some, List, [], ◌∷◌, ◌++◌, arith, drop,
}
use gocacheprog.Gocache.Save.{FileItem, yields}
use gocacheprog.Wire.{
  Json, be32, write_head, no_fuel, through, stopped, Callback, read_int32, read_full, read_item,
  read_item_body,
}
use gocacheprog.Wire.Response.{
  ResponseItem, write_to, write_items, item_bytes, reader_from, hand_over_all, reader_naive,
  sum_sizes, read_items,
}
use gocacheprog.Wire.Response.Delivery.{
  received, Declared, reader_from-write_to, reader_from-aligned, reader_naive-write_to,
}
use gocacheprog.Wire.Stream.{
  write_stream, write_item, file_item_bytes, read_stream, hand_over_files,
}
use gocacheprog.Wire.Stream.Delivery.{received_file, read_stream-write_stream, read_stream-ends}

abbrev keep : {A : Type 0} → Callback (List (Option (List ℕ))) A
keep s item body = (true, body ∷ s)

abbrev item : ResponseItem
item = record {
  action_id = "a";
  miss = false;
  output_id = "o";
  size = 3;
  time = none;
  is_compressed = false;
  wire_size = 3;
  disk_path = "";
  body = yields (1 ∷ 2 ∷ 3 ∷ []);
}

-- JSON that knows two lists of items.
abbrev response_json : Json (List ResponseItem)
response_json = record { marshal = λ l. 7 ∷ []; unmarshal = λ b. some (received item ∷ []) }

response_written : (write_to response_json (item ∷ [])).1 ≡ true
unfolding write_to write_head write_items item_bytes
response_written = refl

reader_from-write_to_example :
    reader_from keep response_json [] ((write_to response_json (item ∷ [])).0 ++ 9 ∷ [])
    ≡ hand_over_all keep received [] (item ∷ []) (9 ∷ [])
reader_from-write_to_example =
    reader_from-write_to keep response_json [] (item ∷ []) (9 ∷ []) refl response_written

abbrev head : List ℕ
head = 0 ∷ 0 ∷ 0 ∷ 1 ∷ 7 ∷ []

head_written : write_head (response_json.marshal (item ∷ [])) ≡ some head
unfolding write_head be32
head_written = refl

item_read :
    reader_from keep response_json [] (head ++ 1 ∷ 2 ∷ 3 ∷ 9 ∷ [])
    ≡ through (some (1 ∷ 2 ∷ 3 ∷ []) ∷ []) (9 ∷ [])
unfolding reader_from read_int32 read_full read_items read_item read_item_body
item_read = refl

abbrev nine : List ℕ
nine = 9 ∷ []

reader_from-aligned_example :
    (nine ≡ drop (sum_sizes (λ i. i.wire_size) (received item ∷ [])) (1 ∷ 2 ∷ 3 ∷ 9 ∷ []))
    × (sum_sizes (λ i. i.wire_size) (received item ∷ []) + 1 ≡ 4)
reader_from-aligned_example =
    reader_from-aligned keep response_json [] (some (1 ∷ 2 ∷ 3 ∷ []) ∷ []) (item ∷ [])
      (received item ∷ []) head (1 ∷ 2 ∷ 3 ∷ 9 ∷ []) (9 ∷ []) refl head_written item_read

item-Declared : Declared (item ∷ [])
item-Declared = (λ e. absurd (omega arith), tt)

reader_naive-write_to_example :
    reader_naive response_json (item ∷ []) ≡ some (write_to response_json (item ∷ [])).0
reader_naive-write_to_example =
    reader_naive-write_to response_json (item ∷ []) item-Declared response_written

abbrev file : FileItem
file = record {
  path = "a";
  size = 3;
  mode = 0;
  is_compressed = false;
  wire_size = 0;
  body = yields (1 ∷ 2 ∷ 3 ∷ []);
}

abbrev file_json : Json FileItem
file_json = record { marshal = λ i. 7 ∷ []; unmarshal = λ b. some (received_file file) }

file_written : (write_stream file_json (file ∷ [])).1 ≡ true
unfolding write_stream write_item write_head file_item_bytes
file_written = refl

read_stream-write_stream_example :
    read_stream keep file_json [] ((write_stream file_json (file ∷ [])).0 ++ 9 ∷ [])
    ≡ hand_over_files keep file_json received_file [] (file ∷ []) (9 ∷ [])
read_stream-write_stream_example =
    read_stream-write_stream keep file_json [] (file ∷ []) (9 ∷ []) (refl, omega arith, tt)
      file_written

read_stream-ends_example : read_stream keep file_json [] (0 ∷ 0 ∷ []) ≢ stopped no_fuel []
read_stream-ends_example = read_stream-ends keep file_json [] [] (0 ∷ 0 ∷ [])
