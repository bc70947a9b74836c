-- ===== src/Gocache/Requests.antt =====
-- A store under a sequence of requests, in which no save overlaps another request: each request is one
-- step, and the environment chooses which comes next, and what the operating system answers to it.
use gocacheprog.Prelude.{◌<◌, Bool, true, false, List, String, arith}
use gocacheprog.Gocache.{Store, evict_once, evict_if_needed, evict_on_disk_full}
use gocacheprog.Gocache.Consistent.{IsStore}
use gocacheprog.Gocache.Eviction.{EvictResult, evict_one-EvictResult}
use gocacheprog.Gocache.Budget.{
  Within, evict_if_needed-Within, evict_if_needed-IsStore, evict_on_disk_full-IsStore,
}
use gocacheprog.Gocache.Save.{
  Codec, FileItem, SaveIo, SaveResult, saved, skipped, empty_path, save_error, put_one,
}
use gocacheprog.Gocache.Saves.{Saved, SameStoredSize, put_one-Saved}
use gocacheprog.Gocache.Restore.{RestoreEntry}
use gocacheprog.Gocache.Clear.{ClearStats, serve, clear_objects}
use gocacheprog.Gocache.Clear.Cleared.{serve-IsStore, clear_objects-Clears, Clears-IsStore}

pub data Request (s : Store) : Store → Type 0 where
  save :
      (z : Codec) (io : SaveIo) (item : FileItem)
      → SameStoredSize z s item
      → Request s (put_one z io s item).1
  restore : (entries : List RestoreEntry) → Request s (serve s entries).0
  clear :
      (keep paths : List String) (removes : String → Bool) (stats : ClearStats)
      → Request s (clear_objects keep removes s stats paths).1
  evict_now : Request s (evict_if_needed s)
  evict_one : Request s (evict_once s).1
  disk_full : Request s (evict_on_disk_full s)

pub data Reach (s : Store) : Store → Type 0 where
  here : Reach s s
  next : {t u : Store} → Reach s t → Request t u → Reach s u

Saved-IsStore :
    (s : Store) (item : FileItem) (r : SaveResult) (t : Store)
    → IsStore s
    → Saved s item r t
    → IsStore t
Saved-IsStore s item saved t v h = h.0
Saved-IsStore s item skipped t v h = rw h v
Saved-IsStore s item empty_path t v h = rw h.0 v
Saved-IsStore s item save_error t v h = h

evicted-IsStore : (s : Store) (b : Bool) (t : Store) → EvictResult s b t → IsStore t
evicted-IsStore s true t h = h.0
evicted-IsStore s false t h = h.0

Request-IsStore : {s t : Store} → IsStore s → Request s t → IsStore t
Request-IsStore {s} v (save z io item same) =
    Saved-IsStore s item _ _ v (put_one-Saved z io s item v same)
Request-IsStore {s} v (restore entries) = serve-IsStore s entries v
Request-IsStore {s} v (clear keep paths removes stats) =
    Clears-IsStore keep removes paths s stats _ _ _
      (clear_objects-Clears keep removes s stats paths v)
Request-IsStore {s} v evict_now = evict_if_needed-IsStore s v
Request-IsStore {s} v evict_one = evicted-IsStore s _ _ (evict_one-EvictResult _ s (omega arith) v)
Request-IsStore {s} v disk_full = evict_on_disk_full-IsStore s v

-- From a consistent store, any sequence of saves, restores that drop broken entries, removals of
-- objects by Clear, and evictions, none of which overlaps another, leads to a consistent store;
-- each save announces a stored size equal to the listed one if its path is listed.
pub Reach-IsStore : {s t : Store} → IsStore s → Reach s t → IsStore t
Reach-IsStore v here = v
Reach-IsStore v (next r q) = Request-IsStore (Reach-IsStore v r) q

-- From every store that requests lead to, if it has a limit, a further request leads to one within it.
pub Reach-Within :
    {s t : Store}
    → IsStore s
    → Reach s t
    → 0 < t.max_disk_bytes
    → (u : Store) × Request t u × IsStore u × Within t.max_disk_bytes u
Reach-Within {s} {t} v r limited =
    let (ok, within, margin) = evict_if_needed-Within t (Reach-IsStore v r) limited in
    (evict_if_needed t, evict_now, ok, within)
