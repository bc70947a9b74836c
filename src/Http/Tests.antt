-- ===== src/Http/Tests.antt =====
-- The two stores under one budget, and a session.
use gocacheprog.Prelude.{
  ℕ, ◌-◌, ◌/◌, ◌+◌, ◌≤◌, ◌<◌, ◌≡◌, refl, true, false, none, some, List, [], ◌∷◌, String, arith,
  string_eq, ◌==◌,
}
use gocacheprog.Prelude.Int.{pos, ltb_ℤ}
use gocacheprog.Prelude.Maps.{lookup}
use gocacheprog.Local.Put.{put_commit, count_output}
use gocacheprog.Local.{add_output_ref}
use gocacheprog.Local.Tests.{one, one-IsCounted}
use gocacheprog.Gocache.Tests.{empty, empty-IsStore}
use gocacheprog.Http.Budget.{
  Rearranges, none_left, under, eviction_margin_fraction, total_bytes, AllValid, sum_of, Within,
  enforce_combined_budget,
}
use gocacheprog.Http.Budget.Enforced.{enforce_combined_budget-Within}
use gocacheprog.Http.Stores.{
  AnyStore, protocol, native, both_stores, both_stores-IsBudgetStore, IsValid, size, entries,
}
use gocacheprog.Http.Sessions.{
  SessionHeaders, Sessions, new_session, done_session, mark_session_done, client_sessions_snapshot,
  done_session_retention,
}
use gocacheprog.Http.Retention.{live, client_sessions_snapshot-mark_session_done}

as_it_is : {A : Type 0} → (l : List A) → Rearranges l l
as_it_is [] = none_left
as_it_is (a ∷ l) = under a (as_it_is l)

abbrev stores : List AnyStore
stores = protocol one ∷ native empty ∷ []

stores-AllValid : AllValid IsValid stores
unfolding IsValid
stores-AllValid = (one-IsCounted, (empty-IsStore, tt))

stores-entries : sum_of entries stores < 3
unfolding sum_of entries put_commit count_output add_output_ref
stores-entries = omega arith

abbrev after : List AnyStore
after = enforce_combined_budget both_stores (λ l. l) 3 4 stores

enforce_combined_budget-Within_example :
    AllValid IsValid after
    × Within both_stores 4 after
    × (Within both_stores 4 stores → after ≡ stores)
    × (ltb_ℤ (pos 4) (total_bytes both_stores stores) ≡ true
        → Within both_stores (4 - 4 / eviction_margin_fraction) after)
enforce_combined_budget-Within_example =
    enforce_combined_budget-Within both_stores IsValid size entries both_stores-IsBudgetStore
      (λ l. l) as_it_is 3 4 stores stores-entries stores-AllValid (omega arith)

abbrev headers : SessionHeaders
headers = record {
  session_id = "s";
  client_version = "1";
  commit = "";
  changes = "7";
  build_type = "";
  job_url = "";
}

abbrev sessions : Sessions ℕ
sessions = ("s", new_session 5) ∷ []

client_sessions_snapshot-mark_session_done_example :
    let t = (client_sessions_snapshot 9 (mark_session_done 7 none "s" sessions).0).1 in
    (9 ≤ 7 + done_session_retention → lookup "s" t ≡ some (done_session 7 none (new_session 5)))
    × (7 + done_session_retention < 9 → lookup "s" t ≡ none)
    × ((id : String) → ("s" == id) ≡ false → lookup id t ≡ live 9 (lookup id sessions))
client_sessions_snapshot-mark_session_done_example =
    client_sessions_snapshot-mark_session_done 7 9 none "s" sessions (new_session 5) (refl, tt) refl
      refl
