-- ===== src/Wire/Stream/Delivery.antt =====
-- Proofs about the wire format of Wire/Stream.
use gocacheprog.Prelude.{
  ℕ, zero, suc, ◌≤◌, ◌<◌, ◌≡◌, ◌≢◌, ◌∙◌, refl, inl, inr, Bool, true, false, Bool-cases, none, some,
  List, [], ◌∷◌, ◌++◌, arith, eqb, if◌then◌else◌, length, length-take, length-append, append_assoc,
  ◌⊎◌, Option-cases,
}
use gocacheprog.Gocache.Save.{FileItem, Body, no_reader, failing, yields}
use gocacheprog.Wire.{
  Json, be32, write_head, read_int32, read_full, no_fuel, through, stopped, Callback, read_item,
  hand_over, Outcome-cases, read_item-ne-no_fuel, length-read_int32, length-read_full,
  read_int32-write_head, read_item-sized, read_item-aligned, read_full-append, no_input, cut_off,
  negative, int32, Head,
}
use gocacheprog.Wire.Stream.{
  stream_size, file_item_bytes, write_item, write_stream, read_rounds, read_stream, hand_over_files,
}

-- JSON reads back each of these items, but for the body, and writes something for it.
abbrev pub Marshals : Json FileItem → List FileItem → Type 0
Marshals json [] = Unit
Marshals json (item ∷ items) =
    (json.unmarshal (json.marshal item) ≡ some (record item { body = no_reader }))
    × (0 < length (json.marshal item))
    × Marshals json items

-- An item as the other side gets it.
abbrev pub received_file : FileItem → FileItem
received_file item = record item { body = no_reader }

Body-cases : (b : Body) → ((b ≡ no_reader) ⊎ (b ≡ failing)) ⊎ ((l : List ℕ) × (b ≡ yields l))
Body-cases no_reader = inl (inl refl)
Body-cases failing = inl (inr refl)
Body-cases (yields l) = inr (l, refl)

length-file_item_bytes :
    (item : FileItem)
    → (file_item_bytes item).1 ≡ true
    → length (file_item_bytes item).0 ≡ stream_size item
unfolding file_item_bytes
length-file_item_bytes item ok = elim (Body-cases item.body) [
  | inl (inl e) ↦ ground arith
  | inl (inr e) ↦ ground arith
  | inr (l, e) ↦ ground (arith, length-take (stream_size item) l)
]

-- The parts of a stream whose first item was written.
write_stream-cons :
    (json : Json FileItem) (item : FileItem) (items : List FileItem)
    → (write_stream json (item ∷ items)).1 ≡ true
    → (head : List ℕ) × (write_head (json.marshal item) ≡ some head)
      × ((file_item_bytes item).1 ≡ true)
      × ((write_stream json items).1 ≡ true)
      × ((write_stream json (item ∷ items)).0
          ≡ head ++ ((file_item_bytes item).0 ++ (write_stream json items).0))
unfolding write_stream write_item
write_stream-cons json item items ok = elim (Option-cases (write_head (json.marshal item))) [
  | inl e ↦ absurd (ground arith)
  | inr (head, e) ↦ elim (Bool-cases (file_item_bytes item).1) [
    | inr q ↦ absurd (ground arith)
    | inl q ↦ (
      head,
      e,
      q,
      rw (write_stream, write_item, e, q) at ok,
      rw (write_stream, write_item, e, q)
          (append_assoc head (file_item_bytes item).0 (write_stream json items).0),
    )
  ]
]

-- Each item is written in four bytes or more.
items-le-length :
    (json : Json FileItem) (items : List FileItem)
    → (write_stream json items).1 ≡ true
    → length items ≤ length (write_stream json items).0
items-le-length json [] ok = omega arith
items-le-length json (item ∷ items) ok =
    let (head, wrote, item_ok, more_ok, bytes) = write_stream-cons json item items ok in
    let later = items-le-length json items more_ok in
    let (seen, long, short) = read_int32-write_head (json.marshal item) head [] wrote in
    rw (bytes, length-append head, length-append (file_item_bytes item).0)
      (omega (arith, later, long))

module _ {S : Type 0} (read : Callback S FileItem) (json : Json FileItem) where
  -- Every stream.
  pub read_rounds-ends :
      (fuel : ℕ) (s t : S) (stream : List ℕ)
      → length stream < fuel
      → read_rounds read json fuel s stream ≢ stopped no_fuel t
  unfolding read_rounds
  read_rounds-ends zero s t stream enough h = absurd (omega arith)
  read_rounds-ends (suc fuel) s t stream enough h =
      by_head (read_int32 stream) refl (λ u rest k. read_rounds-ends fuel u t rest k)
    where
      by_head :
          (o : Head)
          → read_int32 stream ≡ o
          → ((u : S) (rest : List ℕ)
              → length rest < fuel
              → read_rounds read json fuel u rest ≢ stopped no_fuel t)
          → ⊥
      by_head no_input e later = cc (rw (read_rounds, e) at h)
      by_head cut_off e later = cc (rw (read_rounds, e) at h)
      by_head negative e later = cc (rw (read_rounds, e) at h)
      by_head (int32 zero rest) e later = cc (rw (read_rounds, e) at h)
      by_head (int32 (suc n) rest) e later = elim (Option-cases (read_full (suc n) rest)) [
        | inl q ↦ cc (rw (read_rounds, e, q) at h)
        | inr ((header, after), q) ↦ elim (Option-cases (json.unmarshal header)) [
          | inl j ↦ cc (rw (read_rounds, e, q, j) at h)
          | inr (item, j) ↦ elim (Outcome-cases (read_item read s item (stream_size item) after)) [
            | inl (f, u, r) ↦
                read_item-ne-no_fuel read s t item (stream_size item) after
                  (r ∙ (rw (read_rounds, e, q, j, r) at h))
            | inr (u, rest', r) ↦
                later u rest'
                  (omega (
                    arith,
                    length-read_int32 stream rest (suc n) e,
                    length-read_full (suc n) rest header after q,
                    read_item-aligned read s u item (stream_size item) after rest' r,
                  ))
                  (rw (read_rounds, e, q, j, r) at h)
          ]
        ]
      ]

  -- ReadStream ends on every stream: the rounds of the model, one more than the bytes of the
  -- stream, are enough for any bytes, any JSON and any callback.
  pub read_stream-ends :
      (s t : S) (stream : List ℕ) → read_stream read json s stream ≢ stopped no_fuel t
  read_stream-ends s t stream = read_rounds-ends (suc (length stream)) s t stream (omega arith)

  abbrev reply : S → FileItem → List ℕ → Bool × S
  reply s item body = read s item (if eqb (stream_size item) 0 then none else some body)

  -- one round on an item that is there in whole
  read_rounds-item :
      (fuel : ℕ) (s : S) (item got : FileItem) (head body tail : List ℕ)
      → json.unmarshal (json.marshal item) ≡ some got
      → 0 < length (json.marshal item)
      → write_head (json.marshal item) ≡ some head
      → length body ≡ stream_size got
      → read_rounds read json (suc fuel) s (head ++ (body ++ tail))
        ≡ (elim (hand_over read s got (stream_size got) body tail) [
          | stopped e t ↦ stopped e t
          | through t rest ↦ read_rounds read json fuel t rest
        ])
  unfolding read_rounds
  read_rounds-item fuel s item got head body tail law some_json wrote whole =
      by_length (length (json.marshal item)) refl
    where
      by_length :
          (n : ℕ)
          → length (json.marshal item) ≡ n
          → read_rounds read json (suc fuel) s (head ++ (body ++ tail))
            ≡ (elim (hand_over read s got (stream_size got) body tail) [
              | stopped e t ↦ stopped e t
              | through t rest ↦ read_rounds read json fuel t rest
            ])
      by_length zero e = absurd (omega arith)
      by_length (suc n) e =
          let (seen, long, short) =
            read_int32-write_head (json.marshal item) head (body ++ tail) wrote in
          let header = read_full-append (json.marshal item) (body ++ tail) in
          rw
            (
              read_rounds,
              rw e at seen,
              rw e at header,
              law,
              read_item-sized read s got (stream_size got) body tail whole,
            )
            refl

  read_rounds-written :
      (fuel : ℕ) (s : S) (items : List FileItem) (rest : List ℕ)
      → length items < fuel
      → Marshals json items
      → (write_stream json items).1 ≡ true
      → read_rounds read json fuel s ((write_stream json items).0 ++ rest)
        ≡ hand_over_files read json received_file s items rest
  read_rounds-written zero s items rest enough laws ok = absurd (omega arith)
  read_rounds-written (suc fuel) s [] rest enough laws ok =
      unfold read_rounds write_stream be32 read_int32 hand_over_files in refl
  read_rounds-written (suc fuel) s (item ∷ items) rest enough laws ok =
      let (head, wrote, item_ok, more_ok, bytes) = write_stream-cons json item items ok in
      let body = (file_item_bytes item).0 in
      let more = (write_stream json items).0 in
      rw (bytes, append_assoc head (body ++ more) rest, append_assoc body more rest)
        (read_rounds-item fuel s item (received_file item) head body (more ++ rest) laws.0 laws.1
            wrote (length-file_item_bytes item item_ok)
          ∙ continue (Bool-cases (reply s (received_file item) body).0)
              (λ t. read_rounds-written fuel t items rest (omega arith) laws.2 more_ok))
    where
      continue :
          ((reply s (received_file item) (file_item_bytes item).0).0 ≡ true)
            ⊎ ((reply s (received_file item) (file_item_bytes item).0).0 ≡ false)
          → ((t : S)
              → read_rounds read json fuel t ((write_stream json items).0 ++ rest)
                ≡ hand_over_files read json received_file t items rest)
          → (elim (hand_over read s
              (received_file item)
              (stream_size item)
              (file_item_bytes item).0
              ((write_stream json items).0 ++ rest)) [
                | stopped e t ↦ stopped e t
                | through t rest' ↦ read_rounds read json fuel t rest'
              ])
            ≡ hand_over_files read json received_file s (item ∷ items) rest
      continue (inl e) later =
          unfold hand_over_files hand_over in
          rw (e, hand_over_files) (later (reply s (received_file item) (file_item_bytes item).0).1)
      continue (inr e) later = unfold hand_over_files hand_over in rw (e, hand_over_files) refl

  -- For file items that JSON reads back, but for the body, and writes something for, when every
  -- item is written and the stream is closed, ReadStream on these bytes and any that follow hands
  -- each item over with its body, in order, until the callback fails, and stops before the bytes
  -- that follow.
  pub read_stream-write_stream :
      (s : S) (items : List FileItem) (rest : List ℕ)
      → Marshals json items
      → (write_stream json items).1 ≡ true
      → read_stream read json s ((write_stream json items).0 ++ rest)
        ≡ hand_over_files read json received_file s items rest
  read_stream-write_stream s items rest laws ok =
      read_rounds-written _ s items rest
        (omega
          (arith, items-le-length json items ok, length-append (write_stream json items).0 rest))
        laws ok
