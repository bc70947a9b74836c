-- ===== src/Local/Integrity.antt =====
-- internal/local/store.go: IntegrityCheck. An error of the verification is not told from another, and
-- no other request comes during a check.
pub mod Checks
pub mod Removals
use gocacheprog.Prelude.{
  ℕ, suc, ◌+◌, ◌≡◌, ◌∙◌, refl, sym, ap, inl, inr, Bool, true, false, not, ◌&&◌, ◌||◌, Bool-cases,
  Option-cases, Option, none, some, List, [], ◌∷◌, String, arith, eqb, if◌then◌else◌, length,
  string_eq, ◌==◌, ==_iff, ==_refl,
}
use gocacheprog.Prelude.Maps.{lookup, insert, remove, Distinct, lookup-insert, lookup-remove}
use gocacheprog.Gocache.Save.{Codec}
use gocacheprog.Local.{Entry, Store, drop_entry, release_output_ref}
use gocacheprog.Local.Put.{uncompressed_body}
use gocacheprog.Local.Get.{response_item}

-- verifyOutput: whether the object decodes to the size that the entry says
unfoldable pub verify_output : Codec → Store → Entry → Bool
unfolding response_item
verify_output z s ie = elim (uncompressed_body z (response_item s "" ie)) [
  | none ↦ false
  | some b ↦ eqb (length b) ie.size
]

-- `current != expected` in Go is the negation of this
abbrev pub same_entry : Entry → Entry → Bool
same_entry a b =
    a.output_id == b.output_id
    && eqb a.size b.size
    && eqb a.time_micro b.time_micro
    && eqb a.access_time_micro b.access_time_micro
    && eqb a.compressed b.compressed
    && eqb a.wire_size b.wire_size
    && eqb a.pool_page b.pool_page
    && eqb a.pool_slot b.pool_slot

-- removeIfUnchanged
unfoldable pub remove_if_unchanged : Store → String → Entry → Bool × Store
unfolding drop_entry
remove_if_unchanged s action expected = elim (lookup action s.index) [
  | none ↦ (false, s)
  | some current ↦
      if same_entry current expected then (true, drop_entry s action expected) else (false, s)
]

pub record Broken : Type 0 where
  pub action_id : String
  pub output_id : String
  pub removed : Bool

pub record Report : Type 0 where
  pub checked : ℕ
  pub broken : List Broken

-- the verdict on an output, from the map of those that are verified
abbrev pub verdict : Codec → Store → List (String × Bool) → Entry → Bool
verdict z s verified ie = elim (lookup ie.output_id verified) [
  | some ok ↦ ok
  | none ↦ verify_output z s ie
]

abbrev pub passed : Report → Report
passed r = record r { checked = suc r.checked }

abbrev pub reported : String → Entry → Bool → Report → Report
reported action ie removed r = record {
  checked = suc r.checked;
  broken = record { action_id = action; output_id = ie.output_id; removed = removed } ∷ r.broken;
}

-- the loop of IntegrityCheck over the snapshot of the index
unfoldable pub integrity_loop :
    Codec → Bool → Store → List (String × Bool) → List (String × Entry) → Report × Store
unfolding verify_output remove_if_unchanged
integrity_loop z dry_run s verified [] = (record { checked = 0; broken = [] }, s)
integrity_loop z dry_run s verified ((action, ie) ∷ rest) =
    let ok = verdict z s verified ie in
    let verified' = insert ie.output_id ok verified in
    let (removed, s') = if ok || dry_run then (false, s) else remove_if_unchanged s action ie in
    let (report, t) = integrity_loop z dry_run s' verified' rest in
    (if ok then passed report else reported action ie removed report, t)

-- IntegrityCheck; the order of the snapshot is that of the index
unfoldable pub integrity_check : Codec → Bool → Store → Report × Store
unfolding integrity_loop
integrity_check z dry_run s = integrity_loop z dry_run s [] s.index
