-- ===== src/Wire/Response/Delivery.antt =====
-- Proofs about the wire format of Wire/Response.
use gocacheprog.Prelude.{
  ℕ, ◌+◌, ◌≡◌, ◌∙◌, ap, refl, sym, inl, inr, Bool, true, false, Bool-cases, none, some, List, [],
  ◌∷◌, ◌++◌, map, arith, eqb, if◌then◌else◌, length, drop, length-take, length-append, append_assoc,
  ◌⊎◌, Option-cases, drop-drop,
}
use gocacheprog.Gocache.Save.{Body, no_reader, failing, yields}
use gocacheprog.Wire.{
  Json, write_head, Outcome, through, stopped, Callback, read_item, hand_over, read_item-sized,
  read_item-aligned, read_int32-write_head, read_full-append,
}
use gocacheprog.Wire.Response.{
  ResponseItem, item_bytes, write_items, write_to, declared_size, sum_sizes, content_length,
  reader_naive, read_items, reader_from, hand_over_all,
}

-- An item as the other side gets it.
abbrev pub received : ResponseItem → ResponseItem
received item = record item { body = no_reader }

Body-cases : (b : Body) → ((b ≡ no_reader) ⊎ (b ≡ failing)) ⊎ ((l : List ℕ) × (b ≡ yields l))
Body-cases no_reader = inl (inl refl)
Body-cases failing = inl (inr refl)
Body-cases (yields l) = inr (l, refl)

length-item_bytes :
    (item : ResponseItem) → (item_bytes item).1 ≡ true → length (item_bytes item).0 ≡ item.wire_size
unfolding item_bytes
length-item_bytes item ok = elim (Body-cases item.body) [
  | inl (inl e) ↦ ground arith
  | inl (inr e) ↦ ground arith
  | inr (l, e) ↦ ground (arith, length-take item.wire_size l)
]

write_items-cons :
    (item : ResponseItem) (items : List ResponseItem)
    → (write_items (item ∷ items)).1 ≡ true
    → ((item_bytes item).1 ≡ true)
      × ((write_items items).1 ≡ true)
      × ((write_items (item ∷ items)).0 ≡ (item_bytes item).0 ++ (write_items items).0)
unfolding write_items
write_items-cons item items ok = elim (Bool-cases (item_bytes item).1) [
  | inl e ↦ (e, rw e at ok, rw e refl)
  | inr e ↦ absurd (ground arith)
]

module _ {S : Type 0} (read : Callback S ResponseItem) where
  abbrev reply : S → ResponseItem → List ℕ → Bool × S
  reply s item body = read s item (if eqb item.wire_size 0 then none else some body)

  read_items-step :
      (s : S) (item : ResponseItem) (items : List ResponseItem) (body rest : List ℕ)
      → length body ≡ item.wire_size
      → read_items read s (item ∷ items) (body ++ rest)
        ≡ (elim (hand_over read s item item.wire_size body rest) [
          | stopped e t ↦ stopped e t
          | through t rest' ↦ read_items read t items rest'
        ])
  unfolding read_items
  read_items-step s item items body rest e =
      rw (read_items, read_item-sized read s item item.wire_size body rest e) refl

  read_items-written :
      (s : S) (items : List ResponseItem) (rest : List ℕ)
      → (write_items items).1 ≡ true
      → read_items read s (map received items) ((write_items items).0 ++ rest)
        ≡ hand_over_all read received s items rest
  read_items-written s [] rest ok = unfold read_items hand_over_all write_items in refl
  read_items-written s (item ∷ items) rest ok =
      let (item_ok, more_ok, bytes) = write_items-cons item items ok in
      let tail = (write_items items).0 ++ rest in
      rw (bytes, append_assoc (item_bytes item).0 (write_items items).0 rest)
        (read_items-step s (received item) (map received items) (item_bytes item).0 tail
            (length-item_bytes item item_ok)
          ∙ continue (Bool-cases (reply s (received item) (item_bytes item).0).0)
              (λ t. read_items-written t items rest more_ok))
    where
      continue :
          ((reply s (received item) (item_bytes item).0).0 ≡ true)
            ⊎ ((reply s (received item) (item_bytes item).0).0 ≡ false)
          → ((t : S)
              → read_items read t (map received items) ((write_items items).0 ++ rest)
                ≡ hand_over_all read received t items rest)
          → (elim (hand_over read s
              (received item)
              item.wire_size
              (item_bytes item).0
              ((write_items items).0 ++ rest)) [
                | stopped e t ↦ stopped e t
                | through t rest' ↦ read_items read t (map received items) rest'
              ])
            ≡ hand_over_all read received s (item ∷ items) rest
      continue (inl e) later =
          unfold hand_over_all hand_over in
          rw (e, hand_over_all) (later (reply s (received item) (item_bytes item).0).1)
      continue (inr e) later = unfold hand_over_all hand_over in rw (e, hand_over_all) refl

  reader_from-head :
      (json : Json (List ResponseItem)) (s : S) (items got : List ResponseItem)
      (head bodies : List ℕ)
      → json.unmarshal (json.marshal items) ≡ some got
      → write_head (json.marshal items) ≡ some head
      → reader_from read json s (head ++ bodies) ≡ read_items read s got bodies
  unfolding reader_from
  reader_from-head json s items got head bodies law written =
      let (seen, long, short) = read_int32-write_head (json.marshal items) head bodies written in
      rw (reader_from, seen, read_full-append (json.marshal items) bodies, law) refl

  -- For items that JSON reads back, but for the bodies, when WriteTo comes to its end, ReaderFrom
  -- on these bytes and any that follow hands each item over with its body, in order, until the
  -- callback fails, and stops before the bytes that follow.
  pub reader_from-write_to :
      (json : Json (List ResponseItem)) (s : S) (items : List ResponseItem) (rest : List ℕ)
      → json.unmarshal (json.marshal items) ≡ some (map received items)
      → (write_to json items).1 ≡ true
      → reader_from read json s ((write_to json items).0 ++ rest)
        ≡ hand_over_all read received s items rest
  reader_from-write_to json s items rest law ok =
      elim (Option-cases (write_head (json.marshal items))) [
        | inl e ↦ unfold write_to in absurd (ground arith)
        | inr (head, e) ↦
            let bodies_ok : (write_items items).1 ≡ true =
              unfold write_to in rw (e, write_to) at ok in
            let bytes : (write_to json items).0 ≡ head ++ (write_items items).0 =
              unfold write_to in rw (e, write_to) refl in
            rw (bytes, append_assoc head (write_items items).0 rest)
              (reader_from-head json s items (map received items) head
                  ((write_items items).0 ++ rest) law e
                ∙ read_items-written s items rest bodies_ok)
      ]

  abbrev Aligned : List ResponseItem → List ℕ → List ℕ → Type 0
  Aligned items stream rest =
      (rest ≡ drop (sum_sizes (λ i. i.wire_size) items) stream)
      × (sum_sizes (λ i. i.wire_size) items + length rest ≡ length stream)

  read_items-Aligned :
      (s t : S) (items : List ResponseItem) (stream rest : List ℕ)
      → read_items read s items stream ≡ through t rest
      → Aligned items stream rest
  unfolding read_items sum_sizes
  read_items-Aligned s t [] stream rest h = ground arith
  read_items-Aligned s t (item ∷ items) stream rest h =
      by_item (read_item read s item item.wire_size stream) refl
        (λ u rest' k. read_items-Aligned u t items rest' rest k)
    where
      by_item :
          (o : Outcome S)
          → read_item read s item item.wire_size stream ≡ o
          → ((u : S) (rest' : List ℕ)
              → read_items read u items rest' ≡ through t rest
              → Aligned items rest' rest)
          → Aligned (item ∷ items) stream rest
      by_item (stopped e u) q later = cc (rw (read_items, q) at h)
      by_item (through u rest') q later =
          let (cut, short) = read_item-aligned read s u item item.wire_size stream rest' q in
          let (after, left) = later u rest' (rw (read_items, q) at h) in
          (
            after
                ∙ ap (drop (sum_sizes (λ i. i.wire_size) items)) cut
                ∙ drop-drop (sum_sizes (λ i. i.wire_size) items) item.wire_size _ stream refl,
            omega (arith, left, short),
          )

  -- When JSON reads a written header as some items, and ReaderFrom on the header and any bytes
  -- comes through, whatever the callback is, it has taken exactly the wire sizes that these items
  -- declare, and the bytes that follow are left.
  pub reader_from-aligned :
      (json : Json (List ResponseItem)) (s t : S) (items got : List ResponseItem)
      (head bodies rest : List ℕ)
      → json.unmarshal (json.marshal items) ≡ some got
      → write_head (json.marshal items) ≡ some head
      → reader_from read json s (head ++ bodies) ≡ through t rest
      → (rest ≡ drop (sum_sizes (λ i. i.wire_size) got) bodies)
        × (sum_sizes (λ i. i.wire_size) got + length rest ≡ length bodies)
  reader_from-aligned json s t items got head bodies rest law written h =
      read_items-Aligned s t got bodies rest
        (sym (reader_from-head json s items got head bodies law written) ∙ h)

-- No item has a size and no wire size.
abbrev pub Declared : List ResponseItem → Type 0
Declared [] = Unit
Declared (item ∷ items) = (item.wire_size ≡ 0 → item.size ≡ 0) × Declared items

length-write_items :
    (items : List ResponseItem)
    → Declared items
    → (write_items items).1 ≡ true
    → length (write_items items).0 ≡ sum_sizes declared_size items
unfolding sum_sizes
length-write_items [] d ok = unfold write_items in refl
length-write_items (item ∷ items) d ok =
    let (item_ok, more_ok, bytes) = write_items-cons item items ok in
    let later = length-write_items items d.1 more_ok in
    let own = length-item_bytes item item_ok in
    let declared : item.wire_size ≡ declared_size item = ground (arith, d.0) in
    rw (bytes, length-append (item_bytes item).0 (write_items items).0)
      (omega (arith, later, own, declared))

-- When no item has a size but no wire size and WriteTo comes to its end, the length that WriteTo
-- wrote is the one that ContentLength gives, so ReaderNaive returns these bytes.
pub reader_naive-write_to :
    (json : Json (List ResponseItem)) (items : List ResponseItem)
    → Declared items
    → (write_to json items).1 ≡ true
    → reader_naive json items ≡ some (write_to json items).0
reader_naive-write_to json items d ok = elim (Option-cases (write_head (json.marshal items))) [
  | inl e ↦ unfold write_to in absurd (ground arith)
  | inr (head, e) ↦
      let bodies_ok : (write_items items).1 ≡ true = unfold write_to in rw (e, write_to) at ok in
      let bytes : (write_to json items).0 ≡ head ++ (write_items items).0 =
        unfold write_to in rw (e, write_to) refl in
      let (seen, long, short) = read_int32-write_head (json.marshal items) head [] e in
      let size : length (write_to json items).0 ≡ content_length json items =
        rw (bytes, length-append head (write_items items).0)
          (unfold content_length in omega (arith, long, length-write_items items d bodies_ok)) in
      unfold reader_naive in ground arith
]
