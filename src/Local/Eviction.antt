-- ===== src/Local/Eviction.antt =====
-- internal/local/store.go: evictOneLocked and the loop over it, what they evict and where they stop.
use gocacheprog.Prelude.{
  ◌≤◌, ◌≡◌, ◌⊎◌, refl, inl, inr, Bool, true, false, Bool-cases, List-cases, none, some, List, [],
  ◌∷◌, String, arith, ltb, string_eq, ◌==◌, ==_iff, ==_refl,
}
use gocacheprog.Prelude.Maps.{lookup, Distinct}
use gocacheprog.Local.{Entry, Store, lru_time_micro, least_recent, drop_entry, evict_one}
use gocacheprog.Local.Consistent.{IsCounted, drop_entry-IsCounted}

least_recent-older :
    (best e : String × Entry) (rest : List (String × Entry))
    → ltb (lru_time_micro e.1) (lru_time_micro best.1) ≡ true
    → least_recent best (e ∷ rest) ≡ least_recent e rest
least_recent-older best e rest h = unfold least_recent in rw (least_recent, h)

least_recent-newer :
    (best e : String × Entry) (rest : List (String × Entry))
    → ltb (lru_time_micro e.1) (lru_time_micro best.1) ≡ false
    → least_recent best (e ∷ rest) ≡ least_recent best rest
least_recent-newer best e rest h = unfold least_recent in rw (least_recent, h)

-- Of the entries `best` and `rest`, `r` is one, and none was used before it.
abbrev Found : String × Entry → List (String × Entry) → String × Entry → Type 0
Found best rest r = (r ≡ best) ⊎ (lookup r.0 rest ≡ some r.1)

abbrev Least : String × Entry → List (String × Entry) → String × Entry → Type 0
Least best rest r =
    (lru_time_micro r.1 ≤ lru_time_micro best.1)
    × ((action : String) (ie : Entry)
        → lookup action rest ≡ some ie
        → lru_time_micro r.1 ≤ lru_time_micro ie)

Found-more :
    (e : String × Entry) (rest : List (String × Entry)) (r : String × Entry)
    → lookup e.0 rest ≡ none
    → lookup r.0 rest ≡ some r.1
    → lookup r.0 (e ∷ rest) ≡ some r.1
Found-more e rest r fresh h = ground (arith, ==_iff e.0 r.0)

-- `r` was found after `e` took the place of `best`, or with `best` still in place.
Found-older :
    (best e : String × Entry) (rest : List (String × Entry)) (r : String × Entry)
    → lookup e.0 rest ≡ none
    → Found e rest r
    → Found best (e ∷ rest) r
Found-older best e rest r fresh (inl same) = inr (rw (same, ==_refl e.0))
Found-older best e rest r fresh (inr h) = inr (Found-more e rest r fresh h)

Found-newer :
    (best e : String × Entry) (rest : List (String × Entry)) (r : String × Entry)
    → lookup e.0 rest ≡ none
    → Found best rest r
    → Found best (e ∷ rest) r
Found-newer best e rest r fresh (inl same) = inl same
Found-newer best e rest r fresh (inr h) = inr (Found-more e rest r fresh h)

Least-more :
    (best e : String × Entry) (rest : List (String × Entry)) (r : String × Entry)
    → lru_time_micro r.1 ≤ lru_time_micro best.1
    → Least e rest r
    → Least best (e ∷ rest) r
Least-more best e rest r le (le_e, all) = (
  le,
  λ action ie h. elim (Bool-cases (e.0 == action)) [
    | inl same ↦ ground (arith, same, h)
    | inr apart ↦ all action ie (ground (arith, apart))
  ],
)

record Chosen (best : String × Entry) (rest : List (String × Entry)) (r : String × Entry)
    : Type 0 where
  found : Found best rest r
  least : Least best rest r

least_recent-Chosen :
    (best : String × Entry) (rest : List (String × Entry))
    → Distinct rest
    → Chosen best rest (least_recent best rest)
least_recent-Chosen best [] d =
    unfold least_recent in
    record { found = inl refl; least = (ground arith, λ action ie h. absurd (cc h)) }
least_recent-Chosen best (e ∷ rest) (fresh, d) =
    elim (Bool-cases (ltb (lru_time_micro e.1) (lru_time_micro best.1))) [
      | inl older ↦
          let c = least_recent-Chosen e rest d in
          let r = least_recent e rest in
          rw (least_recent-older best e rest older) (record {
            found = Found-older best e rest r fresh c.found;
            least = Least-more best e rest r (ground (arith, c.least.0, older)) c.least;
          })
      | inr newer ↦
          let c = least_recent-Chosen best rest d in
          let r = least_recent best rest in
          rw (least_recent-newer best e rest newer) (record {
            found = Found-newer best e rest r fresh c.found;
            least =
                Least-more best e rest r c.least.0 (ground (arith, c.least.0, newer), c.least.1);
          })
    ]

-- An entry of the index, one that no other was used before, has gone from the store.
pub record Evicts (s s' : Store) : Type 0 where
  pub action : String
  pub entry : Entry
  pub found : lookup action s.index ≡ some entry
  pub dropped : s' ≡ drop_entry s action entry
  pub first :
      (other : String) (ie : Entry)
      → lookup other s.index ≡ some ie
      → lru_time_micro entry ≤ lru_time_micro ie

-- What evictOneLocked reports: an eviction, or that no entry is left.
abbrev pub EvictResult : Store → Bool → Store → Type 0
EvictResult s true s' = IsCounted s' × Evicts s s'
EvictResult s false s' = (s.index ≡ []) × (s' ≡ s)

evict_one-empty : (s : Store) → s.index ≡ [] → evict_one s ≡ (false, s)
evict_one-empty s h = unfold evict_one in simp (evict_one, h)

evict_one-some :
    (s : Store) (e : String × Entry) (rest : List (String × Entry))
    → s.index ≡ e ∷ rest
    → evict_one s ≡ (true, drop_entry s (least_recent e rest).0 (least_recent e rest).1)
evict_one-some s e rest h = unfold evict_one in simp (evict_one, h)

least_recent-Found :
    (e : String × Entry) (rest : List (String × Entry)) (r : String × Entry)
    → lookup e.0 rest ≡ none
    → Found e rest r
    → lookup r.0 (e ∷ rest) ≡ some r.1
least_recent-Found e rest r fresh (inl same) = rw (same, ==_refl e.0)
least_recent-Found e rest r fresh (inr h) = Found-more e rest r fresh h

-- On a store whose counts agree with its index, evictOne reports an eviction and has dropped
-- exactly one entry, one that no entry was used before, with the counts still in agreement, or
-- reports none, and the index was empty and nothing has changed.
pub evict_one-Evicts : (s : Store) → IsCounted s → EvictResult s (evict_one s).0 (evict_one s).1
evict_one-Evicts s v = elim (List-cases s.index) [
  | inl e ↦ rw (evict_one-empty s e) (e, refl)
  | inr (e, rest, h) ↦
      let (fresh, d) : Distinct (e ∷ rest) = rw h at v.0 in
      let r = least_recent e rest in
      let c = least_recent-Chosen e rest d in
      let listed : lookup r.0 s.index ≡ some r.1 =
        rw h (least_recent-Found e rest r fresh c.found) in
      rw (evict_one-some s e rest h) (
        drop_entry-IsCounted s r.0 r.1 v listed,
        record {
          action = r.0;
          entry = r.1;
          found = listed;
          dropped = refl;
          first = rw h (Least-more e e rest r c.least.0 c.least).1;
        },
      )
]
