-- ===== src/Local/RoundTrip/Served.antt =====
-- internal/local/store.go: Get after putOne of an action and an output that are new to the store.
use gocacheprog.Prelude.{
  ℕ, ◌+◌, ◌≡◌, ◌∙◌, refl, ap, inl, inr, Bool, true, false, Bool-cases, Option, none, some, List,
  String, ltb, eqb, ◌&&◌, length, string_eq, ◌==◌,
}
use gocacheprog.Prelude.Maps.{lookup, insert, lookup-insert_self}
use gocacheprog.RecordPool.{Loc, found, read_error}
use gocacheprog.RecordPool.View.{IsPool}
use gocacheprog.RecordPool.Put.{HasPages}
use gocacheprog.Gocache.Save.{Codec, Prepared, yields, failing}
use gocacheprog.Wire.Response.{ResponseItem}
use gocacheprog.Local.{Entry, Store, output_file, entry_stored_size, add_output_ref}
use gocacheprog.Local.Put.{
  PutIo, at_loc, count_output, put_commit, put_stored, put_body, put_one, entry_of, body_for_put,
  stored_loc, counted_put, PutOutcome, completed, skipped, put_error, empty_output, store_put_body,
}
use gocacheprog.Local.Get.{get_one, response_item, accessed}
use gocacheprog.Local.Serving.{get_one-listed}
use gocacheprog.Local.Puts.{store_put_body-Stores, put_one-big, put_one-empty, put_one-proper}
use gocacheprog.Local.RoundTrip.{Readable, store_put_body-Readable}

-- The item has the sizes of the entry, and its reader gives this body.
abbrev pub Serves : ResponseItem → Entry → List ℕ → Type 0
Serves item ie body =
    (item.miss ≡ false)
    × (item.output_id ≡ ie.output_id)
    × (item.size ≡ ie.size)
    × (item.is_compressed ≡ eqb ie.compressed 1)
    × (item.wire_size ≡ ie.wire_size)
    × (item.body ≡ yields body)

module _ (s : Store) (action : String) (ie : Entry) (loc : Loc) (body : List ℕ) where
  abbrev committed : Store
  committed = put_commit s action none ie loc

  committed-listed : lookup action committed.index ≡ some (at_loc ie loc)
  unfolding put_commit count_output add_output_ref
  committed-listed = lookup-insert_self action (at_loc ie loc) s.index

  committed-body :
      (u : Store)
      → u.pool ≡ s.pool
      → output_file u ie.output_id ≡ output_file s ie.output_id
      → (now : ℕ) → Readable s ie.output_id (entry_stored_size ie) body (some loc)
      → (response_item u action (accessed now (at_loc ie loc))).body ≡ yields body
  unfolding response_item
  committed-body u same_pool same_file now (fits, there) = elim (Bool-cases (eqb loc.page 0)) [
    | inl plain ↦
        rw (plain)
          (ap (λ o. elim o [ none ↦ failing | some b ↦ yields b ]) (same_file ∙ rw plain at there))
    | inr pooled ↦
        rw (pooled, same_pool)
          (ap (λ o. elim o [ found b ↦ yields b | read_error e ↦ failing ]) (rw pooled at there))
  ]

  abbrev read_store : ℕ → Store
  read_store now = record committed {
    hits = committed.hits + 1;
    index = insert action (accessed now (at_loc ie loc)) committed.index;
    dirty = true;
  }

  committed-Serves :
      (now : ℕ)
      → (ltb 0 s.max_file_bytes && ltb s.max_file_bytes ie.size) ≡ false
      → Readable s ie.output_id (entry_stored_size ie) body (some loc)
      → Serves (get_one now committed action).0 ie body
  unfolding put_commit count_output add_output_ref response_item
  committed-Serves now fits there =
      rw (get_one-listed now committed action (at_loc ie loc) committed-listed, fits)
        (refl, refl, refl, refl, refl, committed-body (read_store now) refl refl now there)

-- What a put that reports this outcome leaves for Get.
abbrev Left : ResponseItem → ℕ → Option Prepared → ℕ → PutOutcome × Store → Type 0
Left item now prepared later (outcome, t) =
    outcome ≡ completed
    → (body : Prepared) × (prepared ≡ some body)
      × (length body.bytes ≡ entry_stored_size (entry_of item now body))
      × Serves (get_one later t item.action_id).0 (entry_of item now body) body.bytes

is_completed : PutOutcome → Bool
is_completed o = elim o [
  | completed ↦ true
  | skipped ↦ false
  | empty_output ↦ false
  | put_error ↦ false
]

not_completed : (o : PutOutcome) → is_completed o ≡ false → o ≡ completed → ⊥
unfolding is_completed
not_completed o h e = absurd (cc (h, ap is_completed e))

module _ (s : Store) (item : ResponseItem) (now later : ℕ)
    (fits : (ltb 0 s.max_file_bytes && ltb s.max_file_bytes item.size) ≡ false) where
  put_stored-Left :
      (body : Prepared) (r : Option Loc × Store)
      → r.1.max_file_bytes ≡ s.max_file_bytes
      → Readable r.1 item.output_id (entry_stored_size (entry_of item now body)) body.bytes r.0
      → Left item now (some body) later (put_stored item.action_id none (entry_of item now body) r)
  put_stored-Left body (none, t) same there e =
      absurd (not_completed put_error (unfold is_completed in refl) e)
  put_stored-Left body (some loc, t) same there e = (
    body,
    refl,
    there.0,
    committed-Serves t item.action_id (entry_of item now body) loc body.bytes later (rw same fits)
        there,
  )

  put_body-Left :
      (io : PutIo) (prepared : Option Prepared)
      → io.now ≡ now
      → IsPool s.pool
      → ((body : Prepared)
          → prepared ≡ some body
          → HasPages s.pool (entry_stored_size (entry_of item now body)))
      → Left item now prepared later (put_body io s item none none prepared)
  unfolding put_body
  put_body-Left io none clock v room =
      λ e. absurd (not_completed put_error (unfold is_completed in refl) e)
  put_body-Left io (some body) clock v room =
      let size = entry_stored_size (entry_of item now body) in
      let there = store_put_body-Readable io s item.output_id body.bytes size v (room body refl) in
      let frame = store_put_body-Stores io s item.output_id body.bytes size none in
      rw clock (
        put_stored-Left body (store_put_body io s item.output_id body.bytes size none)
          (ap (λ (x : Store). x.max_file_bytes) frame.same) there)

stored_loc-none :
    (s : Store) (id : String) → lookup id s.output_refs ≡ none → stored_loc s id ≡ none
stored_loc-none s id h = rw (stored_loc, h)

-- After a put that completes, of an action and an output that are new, Get serves the body that was
-- stored, with the sizes of its entry.
pub get_one-put_one :
    (z : Codec) (io : PutIo) (s : Store) (item : ResponseItem) (later : ℕ)
    → IsPool s.pool
    → ((body : Prepared)
        → body_for_put z item s.compress ≡ some body
        → HasPages s.pool (entry_stored_size (entry_of item io.now body)))
    → lookup item.action_id s.index ≡ none
    → lookup item.output_id s.output_refs ≡ none
    → (put_one z io s item).0 ≡ completed
    → (body : Prepared) × (body_for_put z item s.compress ≡ some body)
      × (length body.bytes ≡ entry_stored_size (entry_of item io.now body))
      × Serves
          (get_one later (put_one z io s item).1 item.action_id).0
          (entry_of item io.now body)
          body.bytes
get_one-put_one z io s item later v room new_action new_output =
    elim (Bool-cases (ltb 0 s.max_file_bytes && ltb s.max_file_bytes item.size)) [
      | inl big ↦
          rw (put_one-big z io s item big)
            (λ e. absurd (not_completed skipped (unfold is_completed in refl) e))
      | inr fits ↦ elim (Bool-cases (item.output_id == "")) [
        | inl empty ↦
            rw (put_one-empty z io s item fits empty)
              (λ e. absurd (not_completed empty_output (unfold is_completed in refl) e))
        | inr proper ↦
            rw
              (
                put_one-proper z io s item fits proper,
                new_action,
                stored_loc-none s item.output_id new_output,
              )
              (put_body-Left (counted_put s none) item io.now later fits io
                (body_for_put z item s.compress) refl v room)
      ]
    ]
