-- ===== src/Local/Requests.antt =====
-- internal/local/store.go: a store under a sequence of requests, of which none overlaps another. Each
-- request is a step, and the environment chooses which comes next and what it gives.
use gocacheprog.Prelude.{ℕ, ◌<◌, ◌≡◌, ap, Bool, true, false, Option, none, some, List, String}
use gocacheprog.RecordPool.Reconcile.{DirEntry, discover_pages}
use gocacheprog.RecordPool.{Pool}
use gocacheprog.Gocache.Save.{Codec}
use gocacheprog.Wire.Response.{ResponseItem}
use gocacheprog.Local.{Store, evict_one, evict_if_needed}
use gocacheprog.Local.Put.{PutIo, put_one}
use gocacheprog.Local.Get.{get_one, preload}
use gocacheprog.Local.Integrity.{integrity_check}
use gocacheprog.Local.Integrity.Checks.{integrity_check-same}
use gocacheprog.Local.Integrity.Removals.{integrity_check-Removes}
use gocacheprog.Local.Rebuild.{rebuild_storage_state}
use gocacheprog.Local.Rebuild.Counting.{IsLoaded, rebuild_storage_state-IsCounted}
use gocacheprog.Local.Consistent.{IsCounted}
use gocacheprog.Local.Eviction.{EvictResult, evict_one-Evicts}
use gocacheprog.Local.Budget.{Within, evict_if_needed-Budget}
use gocacheprog.Local.Puts.{put_one-Result}
use gocacheprog.Local.Serving.{get_one-Result}
use gocacheprog.Local.Preloads.{preload-IsCounted}

pub data Request (s : Store) : Store → Type 0 where
  store_item : (z : Codec) (io : PutIo) (item : ResponseItem) → Request s (put_one z io s item).1
  get : (now : ℕ) (action : String) → Request s (get_one now s action).1
  warm : (filter : String → Bool) (max_size : ℕ) → Request s (preload filter max_size s).1
  check : (z : Codec) (dry_run : Bool) → Request s (integrity_check z dry_run s).1
  evict : Request s (evict_one s).1
  evict_now : Request s (evict_if_needed s)

-- From a store that rebuildStorageState has started.
pub data Reach (s : Store) : Store → Type 0 where
  started :
      (dir : List DirEntry) (pool : Pool) (t : Store)
      → discover_pages s.pool dir ≡ some pool
      → rebuild_storage_state dir s ≡ some t
      → Reach s t
  next : {t u : Store} → Reach s t → Request t u → Reach s u

result-IsCounted :
    (s : Store) (b : Bool) (t : Store) → IsCounted s → EvictResult s b t → IsCounted t
result-IsCounted s true t v h = h.0
result-IsCounted s false t v h = rw h.1 v

check-IsCounted :
    (z : Codec) (dry_run : Bool) (s : Store)
    → IsCounted s
    → IsCounted (integrity_check z dry_run s).1
check-IsCounted z true s v = rw (integrity_check-same z s) v
check-IsCounted z false s v = (integrity_check-Removes z s v).counted

Request-IsCounted : {s t : Store} → IsCounted s → Request s t → IsCounted t
Request-IsCounted {s} v (store_item z io item) = (put_one-Result z io s item v).0
Request-IsCounted {s} v (get now action) = (get_one-Result now s action v).0
Request-IsCounted {s} v (warm filter max_size) = preload-IsCounted filter max_size s v
Request-IsCounted {s} v (check z dry_run) = check-IsCounted z dry_run s v
Request-IsCounted {s} v evict = result-IsCounted s _ _ v (evict_one-Evicts s v)
Request-IsCounted {s} v evict_now = (evict_if_needed-Budget s v).0

-- From a loaded index in which an action stands once and nothing is counted, after
-- rebuildStorageState and any sequence of puts, gets, preloads, integrity checks and evictions that
-- do not overlap, whatever the environment answers, every output is counted as often as the index
-- uses it, an output that no entry uses has no size, and the byte count is the sum of the sizes.
pub Reach-IsCounted : {s t : Store} → IsLoaded s → Reach s t → IsCounted t
Reach-IsCounted {s} l (started dir pool t found rebuilt) =
    let (t', rebuilt', v) = rebuild_storage_state-IsCounted dir s pool l found in
    same-IsCounted t' t (cc (rebuilt, rebuilt')) v
  where
    same-IsCounted : (t' t : Store) → some t' ≡ some t → IsCounted t' → IsCounted t
    same-IsCounted t' t h v =
        let same : t' ≡ t = ap (λ (o : Option Store). elim o [ none ↦ t' | some x ↦ x ]) h in
        rw (← same) v
Reach-IsCounted l (next r q) = Request-IsCounted (Reach-IsCounted l r) q

-- From every store that requests lead to after a start from a loaded index, if it has a disk limit,
-- there is a further request of that store that leads to a store whose counts agree with its index
-- and whose byte count is within the limit.
pub Reach-Budget :
    {s t : Store}
    → IsLoaded s
    → Reach s t
    → 0 < t.max_disk_bytes
    → (u : Store) × Request t u × Reach s u × IsCounted u × Within t.max_disk_bytes u
Reach-Budget {s} {t} l r limited =
    let (ok, within, margin) = evict_if_needed-Budget t (Reach-IsCounted l r) in
    (evict_if_needed t, evict_now, next r evict_now, ok, within limited)
