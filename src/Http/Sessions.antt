-- ===== src/Http/Sessions.antt =====
-- internal/http/handler.go: the sessions that the status page shows. Times and durations are nanoseconds;
-- a duration that Go has as negative is 0, which no test here tells from it. `X` is what a client adds
-- to the end of its session.
use gocacheprog.Prelude.{
  ℕ, ◌+◌, ◌-◌, Bool, true, false, Option, none, some, List, [], ◌∷◌, String, ltb, leb,
  if◌then◌else◌, string_eq, ◌==◌,
}
use gocacheprog.Prelude.Maps.{lookup, insert}

-- clientSession
pub record ClientSession (X : Type 0) : Type 0 where
  pub version : String
  pub changes_id : String
  pub commit : String
  pub build_type : String
  pub job_url : String
  pub preload_bytes : ℕ
  pub preload_time : ℕ
  pub preload_source : String
  pub finalize_bytes : ℕ
  pub finalize_time : ℕ
  pub is_done : Bool
  pub first_seen : ℕ
  pub last_seen : ℕ
  pub done_at : ℕ
  pub extra : Option X

-- the headers of a request that a session keeps
pub record SessionHeaders : Type 0 where
  pub session_id : String
  pub client_version : String
  pub commit : String
  pub changes : String
  pub build_type : String
  pub job_url : String

abbrev pub session_idle_timeout : ℕ
session_idle_timeout = 600000000000

abbrev pub done_session_retention : ℕ
done_session_retention = 86400000000000

abbrev pub session_retention : ℕ
session_retention = session_idle_timeout + done_session_retention

abbrev pub Sessions : Type 0 → Type 0
Sessions X = List (String × ClientSession X)

abbrev pub or_else : String → String → String
or_else v old = if v == "" then old else v

pub data Status : Type 0 where
  idle finished in_progress : Status

pub record SessionView (X : Type 0) : Type 0 where
  pub status : Status
  pub ref : String
  pub session : ClientSession X
  pub session_time : ℕ

module _ {X : Type 0} where
  -- sessionExpired
  unfoldable pub session_expired : ClientSession X → ℕ → Bool
  session_expired cs now =
      if cs.is_done
      then ltb done_session_retention (now - cs.done_at)
      else ltb session_retention (now - cs.last_seen)

  -- the loop over the sessions that deletes the expired ones
  unfoldable pub drop_expired : ℕ → Sessions X → Sessions X
  unfolding session_expired
  drop_expired now [] = []
  drop_expired now ((id, cs) ∷ rest) =
      let kept = drop_expired now rest in if session_expired cs now then kept else (id, cs) ∷ kept

  abbrev pub new_session : ℕ → ClientSession X
  new_session now = record {
    version = "";
    changes_id = "";
    commit = "";
    build_type = "";
    job_url = "";
    preload_bytes = 0;
    preload_time = 0;
    preload_source = "";
    finalize_bytes = 0;
    finalize_time = 0;
    is_done = false;
    first_seen = now;
    last_seen = 0;
    done_at = 0;
    extra = none;
  }

  abbrev pub touched : ℕ → SessionHeaders → ClientSession X → ClientSession X
  touched now h cs = record cs {
    last_seen = now;
    version = or_else h.client_version cs.version;
    commit = or_else h.commit cs.commit;
    changes_id = or_else h.changes cs.changes_id;
    build_type = or_else h.build_type cs.build_type;
    job_url = or_else h.job_url cs.job_url;
  }

  -- the session after the expired ones are gone, and whether it is new
  abbrev pub found_session : ℕ → Option (ClientSession X) → ClientSession X × Bool
  found_session now none = (new_session now, true)
  found_session now (some cs) = (cs, false)

  -- touchSession, with what it appends to sessions.jsonl as "started"
  unfoldable pub touch_session :
      ℕ → SessionHeaders → Sessions X → Sessions X × Option (String × ClientSession X)
  unfolding drop_expired
  touch_session now h sessions =
      if h.session_id == ""
      then (sessions, none)
      else (let kept = drop_expired now sessions in
          let (cs, is_new) = found_session now (lookup h.session_id kept) in
          let cs' = touched now h cs in
          (insert h.session_id cs' kept, if is_new then some (h.session_id, cs') else none))

  abbrev pub change_session : (ClientSession X → ClientSession X) → String → Sessions X → Sessions X
  change_session f sid sessions =
      if sid == ""
      then sessions
      else (elim (lookup sid sessions) [ none ↦ sessions | some cs ↦ insert sid (f cs) sessions ])

  -- recordSessionPreload
  unfoldable pub record_session_preload : ℕ → ℕ → String → String → Sessions X → Sessions X
  record_session_preload wire_bytes dur sources sid sessions =
      change_session
        (λ cs. record cs {
          preload_bytes = cs.preload_bytes + wire_bytes;
          preload_time = cs.preload_time + dur;
          preload_source = or_else sources cs.preload_source;
        })
        sid sessions

  -- recordSessionFinalize
  unfoldable pub record_session_finalize : ℕ → ℕ → String → Sessions X → Sessions X
  record_session_finalize wire_bytes dur sid sessions =
      change_session
        (λ cs. record cs {
          finalize_bytes = cs.finalize_bytes + wire_bytes;
          finalize_time = cs.finalize_time + dur;
        })
        sid sessions

  abbrev pub done_session : ℕ → Option X → ClientSession X → ClientSession X
  done_session now extra cs = record cs { is_done = true; done_at = now; extra = extra }

  -- markSessionDone, with what it appends to sessions.jsonl as "done"
  unfoldable pub mark_session_done :
      ℕ → Option X → String → Sessions X → Sessions X × Option (String × ClientSession X)
  mark_session_done now extra sid sessions =
      if sid == "" then (sessions, none) else (elim (lookup sid sessions) [
        | none ↦ (sessions, none)
        | some cs ↦
            (insert sid (done_session now extra cs) sessions, some (sid, done_session now extra cs))
      ])

  -- sessionRef
  abbrev pub session_ref : ClientSession X → String
  session_ref cs = if cs.changes_id == "" then cs.commit else cs.changes_id

  abbrev pub status_of : ℕ → ClientSession X → Status
  status_of now cs =
      if cs.is_done
      then finished
      else if leb (now - cs.last_seen) session_idle_timeout
      then in_progress
      else idle

  abbrev pub session_view : ℕ → ClientSession X → SessionView X
  session_view now cs = record {
    status = status_of now cs;
    ref = session_ref cs;
    session = cs;
    session_time = (if cs.is_done then cs.done_at else now) - cs.first_seen;
  }

  unfoldable pub views_of : ℕ → Sessions X → List (SessionView X)
  views_of now [] = []
  views_of now ((id, cs) ∷ rest) = session_view now cs ∷ views_of now rest

  -- clientSessionsSnapshot before its sort: what it shows and what it keeps
  unfoldable pub client_sessions_snapshot : ℕ → Sessions X → List (SessionView X) × Sessions X
  unfolding views_of drop_expired
  client_sessions_snapshot now sessions =
      let kept = drop_expired now sessions in (views_of now kept, kept)
