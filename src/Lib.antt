-- ===== src/Lib.antt =====
-- gocacheprog: the server side of a remote Go build cache.
--
-- The program keeps the objects of Go's build cache on a server. A store (internal/gocache/store.go)
-- maps paths to entries of an index, keeps the body of an entry in a record pool
-- (internal/recordpool/recordpool.go) if it is small and its size is common, and in a file of its own
-- else, and evicts entries by age and size through a heap (internal/gocache/eviction_heap.go). A second
-- store (internal/local/store.go) serves Go's GOCACHEPROG protocol: actions share outputs, which it
-- counts, and it evicts the least recently used action. The HTTP server (internal/http/handler.go) keeps
-- both within a common disk budget.
--
-- Prelude: the shared names, lists measured by native numbers, maps as association lists, integers.
-- RecordPool: internal/recordpool/recordpool.go. The definitions stand in RecordPool.antt and
--   RecordPool/Reconcile.antt: `put` is Put, `allocate` allocateLocked, `create_page`
--   createPageLocked, `free_slot` freeLocked, `read` Read, `free` Free, `discover_pages`
--   DiscoverPages, `note_occupied` NoteOccupied, `finish_reconcile` FinishReconcile. RecordPool/View
--   gives the abstract view, a map from sizes and locations to bodies, and the invariant; Pages,
--   Slots, Allocation, Classes, Promotion, Put and Free prove the operations against that
--   view, and Reconcile/Views the start of a pool.
-- Heap: container/heap, as internal/gocache/eviction_heap.go uses it; Heap/Order has the proofs for
--   Pop, Heap/Push for Push.
-- Gocache: internal/gocache/store.go. Gocache.antt has the state and eviction (`evict_one` is
--   evictOneLocked, `evict_if_needed` evictIfNeededLocked), Gocache/Save putOne and what it calls.
--   Ordering, Consistent, Eviction, Budget, Commits, Saves and Races have the proofs.
--   Gocache/Manifest: loadManifest, unionManifestPaths and mergeManifest on the lines of a manifest, with
--   proofs in Manifest/Healing. Gocache/Restore: restorePaths, its default sources and
--   selectRestoreEntries, with proofs in Restore/Budgeted and Restore/Sources. Gocache/Clear: Restore's
--   loop that sends entries, removeBrokenEntry, and Clear's removal of objects, with proofs in
--   Clear/Cleared.
--   Gocache/Requests: a store under a sequence of requests.
-- Wire: the formats that carry items. Wire.antt has the headers and `read_item_body`, readItemBody of
--   internal/cache/store.go and internal/gocache/store.go; Wire/Response has WriteTo and ReaderFrom of
--   internal/cache/store.go, Wire/Stream has StreamWriter and ReadStream of internal/gocache/store.go.
-- Local: internal/local/store.go. Local.antt has the state, the counts of outputs (`add_output_ref` is
--   addOutputRefLocked, `release_output_ref` releaseOutputRefLocked, `replace_output_ref`
--   replaceOutputRefLocked) and eviction; Local/Put putOne and what it calls; Local/Get getOne and
--   Preload; Local/Integrity IntegrityCheck; Local/Rebuild rebuildStorageState, with its proof in
--   Rebuild/Counting; Local/Lines the text of a manifest and its scanner, with proofs in Lines/Scans;
--   Local/Manifests PostCacheUsed and preloadFilterActionIDs, with proofs in Manifests/Reading and
--   Manifests/Merging, loadNewestManifest and collectStaleManifests in Manifests/Aging. Counted and
--   Consistent prove the counts, Eviction and Budget the evictions, Puts, Serving, Snapshot,
--   Warming, Lasting, Preloads and Integrity/Checks and Integrity/Removals the requests, RoundTrip a
--   Get after a put; Requests puts them in sequence, and Races lets an eviction come between the
--   parts of a put.
-- Http: internal/http/handler.go. Http/Budget is enforceCombinedBudget over the interface
--   diskBudgetStore, with its proof in Budget/Enforced, Http/Stores gives the two stores that
--   interface, Http/Sessions is the map of client sessions, with proofs in Http/Retention.
--
-- Bounds and fuel: sizes, times and counts are natural numbers, and page numbers wrap at 2 ^ 32 where
-- the code's do. `evict_one` has a round for every entry of the heap, which it takes one entry off in
-- each round, and `evict_until` a round for every entry too. The loops of the heap have a round for
-- every index. `read_stream` has a round more than the stream has bytes; a round takes four or more.
-- The eviction of Local has a round more than the index has entries, and so has the combined budget.
--
-- Parameters: the compressor (zstd), JSON, and what strings and path/filepath do are records of
-- functions; what a call of the operating system answers is an argument of the operation.
--
-- Not modelled: the HTTP request handlers and client, the local proxy and shim, the GitHub Actions
-- integration, the command line, log lines, and the contents of temporary files. Of the protocol
-- store, its index file, and failures of the calls that list, stat and remove manifest files. Where
-- the code logs an error of os.Remove and goes on, the model takes the file to be removed; only
-- Clear, which ends there, has that error.
mod Prelude
pub mod Heap
pub mod RecordPool
pub mod Gocache
pub mod Wire
pub mod Local
pub mod Http
