-- ===== src/Wire.antt =====
-- The wire formats of internal/cache/store.go and internal/gocache/store.go: a length as a big-endian
-- int32, a JSON header of that length, and bodies of the sizes that the header declares. A writer is
-- the bytes it has written and whether it came to its end. JSON is a parameter.
pub mod Response
pub mod Stream
mod Tests
use gocacheprog.Prelude.{
  ℕ, ◌+◌, ◌*◌, ◌/◌, ◌%◌, ◌≤◌, ◌<◌, ◌≡◌, Bool, true, false, not, Option, none, some, List, [], ◌∷◌,
  ◌++◌, arith, ltb, leb, eqb, if◌then◌else◌, length, take, drop, length-append, take-append,
  drop-append, Bool-cases, inl, inr, ◌≢◌, ◌⊎◌, refl, length-drop, length-take, length-take_le,
}

-- encoding/json on one type
pub record Json (A : Type 0) : Type 0 where
  pub marshal : A → List ℕ
  pub unmarshal : List ℕ → Option A

abbrev pub max_int32 : ℕ
max_int32 = 2147483647

-- binary.Write of an int32 that is not negative
unfoldable pub be32 : ℕ → List ℕ
be32 n = n / 16777216 % 256 ∷ n / 65536 % 256 ∷ n / 256 % 256 ∷ n % 256 ∷ []

-- binary.Read of an int32, on bytes
pub data Head : Type 0 where
  no_input cut_off negative : Head
  int32 : ℕ → List ℕ → Head

unfoldable pub read_int32 : List ℕ → Head
read_int32 [] = no_input
read_int32 (a ∷ []) = cut_off
read_int32 (a ∷ b ∷ []) = cut_off
read_int32 (a ∷ b ∷ c ∷ []) = cut_off
read_int32 (a ∷ b ∷ c ∷ d ∷ rest) =
    let n = a * 16777216 + b * 65536 + c * 256 + d in
    if leb n max_int32 then int32 n rest else negative

-- io.ReadFull into `n` bytes
unfoldable pub read_full : ℕ → List ℕ → Option (List ℕ × List ℕ)
read_full n stream = if leb n (length stream) then some (take n stream, drop n stream) else none

-- checkedJSONLength, with the length and the header that are written after it
unfoldable pub write_head : List ℕ → Option (List ℕ)
unfolding be32
write_head json = if ltb max_int32 (length json) then none else some (be32 (length json) ++ json)

pub data Fault : Type 0 where
  no_head head_cut_off negative_length header_cut_off bad_json callback_failed short_read : Fault
  no_fuel : Fault

-- How far a reader comes: through, with the bytes that follow, or to a fault.
pub data Outcome (S : Type 0) : Type 0 where
  through : S → List ℕ → Outcome S
  stopped : Fault → S → Outcome S

pub Outcome-cases :
    {S : Type 0} (o : Outcome S)
    → ((e : Fault) × (s : S) × (o ≡ stopped e s))
      ⊎ ((s : S) × (rest : List ℕ) × (o ≡ through s rest))
Outcome-cases (stopped e s) = inl (e, s, refl)
Outcome-cases (through s rest) = inr (s, rest, refl)

-- A callback gets an item with its body, none for an item without one, and says whether it worked. It
-- may leave body bytes unread: the reader drains them.
abbrev pub Callback : Type 0 → Type 0 → Type 0
Callback S A = S → A → Option (List ℕ) → Bool × S

module _ {S A : Type 0} (read : Callback S A) where
  -- readItemBody
  unfoldable pub read_item_body : S → A → ℕ → List ℕ → Outcome S
  read_item_body s item wire_size stream =
      let body = take wire_size stream in
      let (ok, s') = read s item (some body) in
      if not ok
      then stopped callback_failed s'
      else if eqb (length body) wire_size
      then through s' (drop wire_size stream)
      else stopped short_read s'

  -- one item of the loops of ReaderFrom and ReadStream
  unfoldable pub read_item : S → A → ℕ → List ℕ → Outcome S
  unfolding read_item_body
  read_item s item wire_size stream =
      if eqb wire_size 0
      then (let (ok, s') = read s item none in
          if ok then through s' stream else stopped callback_failed s')
      else read_item_body s item wire_size stream

  -- What a callback makes of an item that arrives whole.
  unfoldable pub hand_over : S → A → ℕ → List ℕ → List ℕ → Outcome S
  hand_over s item wire_size body rest =
      let (ok, s') = read s item (if eqb wire_size 0 then none else some body) in
      if ok then through s' rest else stopped callback_failed s'

  -- A whole item at the head of a stream is handed over, and the stream goes on behind it.
  pub read_item-whole :
      (s : S) (item : A) (body rest : List ℕ)
      → read_item s item (length body) (body ++ rest) ≡ hand_over s item (length body) body rest
  unfolding read_item read_item_body hand_over
  read_item-whole s item [] rest = ground arith
  read_item-whole s item (b ∷ body) rest =
      ground (arith, take-append (b ∷ body) rest, drop-append (b ∷ body) rest)

  pub read_item-sized :
      (s : S) (item : A) (n : ℕ) (body rest : List ℕ)
      → length body ≡ n
      → read_item s item n (body ++ rest) ≡ hand_over s item n body rest
  read_item-sized s item n body rest e = rw (← e) (read_item-whole s item body rest)

  -- A reader that gets through an item has taken exactly the bytes that it declares.
  pub read_item-aligned :
      (s t : S) (item : A) (wire_size : ℕ) (stream rest : List ℕ)
      → read_item s item wire_size stream ≡ through t rest
      → (rest ≡ drop wire_size stream) × (wire_size + length rest ≡ length stream)
  unfolding read_item read_item_body
  read_item-aligned s t item wire_size stream rest h = ground (
    arith,
    length-drop wire_size stream,
    length-take wire_size stream,
    length-take_le wire_size stream,
  )

pub read_int32-be32 :
    (n : ℕ) (rest : List ℕ) → n ≤ max_int32 → read_int32 (be32 n ++ rest) ≡ int32 n rest
unfolding read_int32 be32
read_int32-be32 n rest h = ground arith

pub read_full-append :
    (bytes rest : List ℕ) → read_full (length bytes) (bytes ++ rest) ≡ some (bytes, rest)
unfolding read_full
read_full-append bytes rest =
    ground (arith, length-append bytes rest, take-append bytes rest, drop-append bytes rest)

-- What is written as a header is read as its length and the header.
pub read_int32-write_head :
    (json head rest : List ℕ)
    → write_head json ≡ some head
    → (read_int32 (head ++ rest) ≡ int32 (length json) (json ++ rest))
      × (length head ≡ 4 + length json)
      × (length json ≤ max_int32)
unfolding write_head
read_int32-write_head json head rest h = elim (Bool-cases (ltb max_int32 (length json))) [
  | inl e ↦ absurd (ground arith)
  | inr e ↦
      let bytes : be32 (length json) ++ json ≡ head = ground arith in
      rw (← bytes) (
        read_int32-be32 (length json) (json ++ rest) (ground arith),
        unfold be32 in omega arith,
        ground arith,
      )
]

pub length-read_int32 :
    (stream rest : List ℕ) (n : ℕ)
    → read_int32 stream ≡ int32 n rest
    → length stream ≡ 4 + length rest
unfolding read_int32
length-read_int32 [] rest n h = absurd (cc h)
length-read_int32 (a ∷ []) rest n h = absurd (cc h)
length-read_int32 (a ∷ b ∷ []) rest n h = absurd (cc h)
length-read_int32 (a ∷ b ∷ c ∷ []) rest n h = absurd (cc h)
length-read_int32 (a ∷ b ∷ c ∷ d ∷ tail) rest n h = ground arith

pub length-read_full :
    (n : ℕ) (stream got rest : List ℕ)
    → read_full n stream ≡ some (got, rest)
    → length rest ≤ length stream
unfolding read_full
length-read_full n stream got rest h = ground (arith, length-drop n stream)

module _ {S A : Type 0} (read : Callback S A) where
  pub read_item-ne-no_fuel :
      (s t : S) (item : A) (wire_size : ℕ) (stream : List ℕ)
      → read_item read s item wire_size stream ≢ stopped no_fuel t
  unfolding read_item read_item_body
  read_item-ne-no_fuel s t item wire_size stream h = ground arith
