-- ===== src/Http/Retention.antt =====
-- internal/http/handler.go: which sessions stay.
use gocacheprog.Prelude.{
  ℕ, ◌+◌, ◌≤◌, ◌<◌, ◌≡◌, ◌∙◌, refl, inl, inr, false, Bool-cases, Option, none, some, [], ◌∷◌,
  String, arith, if◌then◌else◌, string_eq, ◌==◌, ==_iff,
}
use gocacheprog.Prelude.Maps.{
  lookup, insert, Distinct, lookup-insert, lookup-insert_self, insert-Distinct,
}
use gocacheprog.Http.Sessions.{
  ClientSession, Sessions, session_expired, drop_expired, done_session, mark_session_done,
  client_sessions_snapshot, done_session_retention,
}

module _ {X : Type 0} where
  -- The session if it has not expired.
  abbrev pub live : ℕ → Option (ClientSession X) → Option (ClientSession X)
  live now none = none
  live now (some cs) = if session_expired cs now then none else some cs

  lookup-drop_expired :
      (now : ℕ) (id : String) (m : Sessions X)
      → Distinct m
      → lookup id (drop_expired now m) ≡ live now (lookup id m)
  unfolding drop_expired
  lookup-drop_expired now id [] d = refl
  lookup-drop_expired now id ((j, cs) ∷ m) (fresh, d) = elim (Bool-cases (j == id)) [
    | inr apart ↦ elim (Bool-cases (session_expired cs now)) [
      | inl gone ↦ rw (gone, apart) (lookup-drop_expired now id m d)
      | inr kept ↦ rw (kept, apart) (lookup-drop_expired now id m d)
    ]
    | inl same ↦
        let e : j ≡ id = (==_iff j id).0 same in
        elim (Bool-cases (session_expired cs now)) [
          | inl gone ↦ rw (gone, same, gone) (lookup-drop_expired now id m d ∙ rw (← e, fresh))
          | inr kept ↦ rw (kept, same, kept)
        ]
  ]

  mark_session_done-found :
      (now : ℕ) (extra : Option X) (sid : String) (m : Sessions X) (cs : ClientSession X)
      → (sid == "") ≡ false
      → lookup sid m ≡ some cs
      → (mark_session_done now extra sid m).0 ≡ insert sid (done_session now extra cs) m
  mark_session_done-found now extra sid m cs named h =
      unfold mark_session_done in simp (mark_session_done, named, h)

  -- A session that is marked done is still there at a later view of the status page up to the
  -- retention of done sessions, with what was added to it, and is gone from then on; what becomes
  -- of the other sessions does not depend on it.
  pub client_sessions_snapshot-mark_session_done :
      (now later : ℕ) (extra : Option X) (sid : String) (m : Sessions X) (cs : ClientSession X)
      → Distinct m
      → (sid == "") ≡ false
      → lookup sid m ≡ some cs
      → let t = (client_sessions_snapshot later (mark_session_done now extra sid m).0).1 in
        (later ≤ now + done_session_retention → lookup sid t ≡ some (done_session now extra cs))
        × (now + done_session_retention < later → lookup sid t ≡ none)
        × ((id : String) → (sid == id) ≡ false → lookup id t ≡ live later (lookup id m))
  unfolding client_sessions_snapshot session_expired
  client_sessions_snapshot-mark_session_done now later extra sid m cs d named h =
      let m' = insert sid (done_session now extra cs) m in
      let d' = insert-Distinct sid (done_session now extra cs) m d in
      rw (mark_session_done-found now extra sid m cs named h) (
        (λ early.
            lookup-drop_expired later sid m' d'
            ∙ rw (lookup-insert_self sid (done_session now extra cs) m) (ground arith)),
        (λ late.
            lookup-drop_expired later sid m' d'
            ∙ rw (lookup-insert_self sid (done_session now extra cs) m) (ground arith)),
        λ id apart.
            lookup-drop_expired later id m' d'
            ∙ rw (lookup-insert sid id (done_session now extra cs) m, apart),
      )
