-- ===== src/Local/RoundTrip/Bodies.antt =====
-- internal/local/store.go: the bytes that a client gets of an item that it has put, once they are
-- uncompressed.
use gocacheprog.Prelude.{
  ℕ, ◌≡◌, ◌∙◌, Bool, Option, none, some, List, [], arith, ltb, eqb, ◌&&◌, length, string_eq,
  if◌then◌else◌,
}
use gocacheprog.Prelude.Maps.{lookup}
use gocacheprog.RecordPool.View.{IsPool}
use gocacheprog.RecordPool.Put.{HasPages}
use gocacheprog.Gocache.Save.{Codec, Prepared, Body, yields, failing, no_reader}
use gocacheprog.Wire.Response.{ResponseItem}
use gocacheprog.Local.{Store, entry_stored_size}
use gocacheprog.Local.Put.{
  PutIo, put_one, entry_of, body_for_put, completed, uncompressed_body, compress_now,
}
use gocacheprog.Local.Get.{get_one}
use gocacheprog.Local.RoundTrip.Served.{Serves, get_one-put_one}

module _ (z : Codec) (inverse : (b : List ℕ) → z.decode (z.encode b) ≡ some b) where
  abbrev served_body : ResponseItem → Prepared → Option (List ℕ)
  served_body item p =
      if eqb item.size 0 && eqb p.wire_size 0
      then some []
      else (if eqb p.compressed 1 then z.decode p.bytes else some p.bytes)

  abbrev KeepsBody : ResponseItem → Body → Bool → Type 0
  KeepsBody item body compress =
      (p : Prepared)
      → body_for_put z (record item { body = body }) compress ≡ some p
      → length p.bytes ≡ (if ltb 0 p.wire_size then p.wire_size else item.size)
      → served_body item p ≡ uncompressed_body z (record item { body = body })

  body_for_put-KeepsBody :
      (item : ResponseItem) (body : Body) (compress : Bool) → KeepsBody item body compress
  unfolding body_for_put compress_now
  body_for_put-KeepsBody item no_reader compress p h fits = ground arith
  body_for_put-KeepsBody item failing compress p h fits = ground arith
  body_for_put-KeepsBody item (yields b) compress p h fits = ground (arith, inverse b)

  served-Serves :
      (item served : ResponseItem) (now : ℕ) (p : Prepared)
      → Serves served (entry_of item now p) p.bytes
      → uncompressed_body z served ≡ served_body item p
  served-Serves item served now p (hit, output, sized, compressed, wire, bytes) =
      rw (sized, wire, bytes, compressed)

  -- When decompression undoes compression, the pool is well formed with page numbers left for the
  -- size that is stored, action and output are new to the store, and putOne completes, what Get
  -- serves for the action uncompresses to what the item that was put does, whether the body went to
  -- the pool or to a file, and whether it was compressed, decompressed or passed on.
  pub uncompressed_body-get_one-put_one :
      (io : PutIo) (s : Store) (item : ResponseItem) (later : ℕ)
      → IsPool s.pool
      → ((p : Prepared)
          → body_for_put z item s.compress ≡ some p
          → HasPages s.pool (entry_stored_size (entry_of item io.now p)))
      → lookup item.action_id s.index ≡ none
      → lookup item.output_id s.output_refs ≡ none
      → (put_one z io s item).0 ≡ completed
      → uncompressed_body z (get_one later (put_one z io s item).1 item.action_id).0
        ≡ uncompressed_body z item
  uncompressed_body-get_one-put_one io s item later v room new_action new_output done =
      let (p, prepared, fits, serves) =
        get_one-put_one z io s item later v room new_action new_output done in
      served-Serves item (get_one later (put_one z io s item).1 item.action_id).0 io.now p serves
      ∙ body_for_put-KeepsBody item item.body s.compress p prepared fits
