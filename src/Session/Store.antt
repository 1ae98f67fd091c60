-- ===== src/Session/Store.antt =====
-- session.rs: the session store. A method takes the table of sessions and returns it beside its
-- result; the mutex makes each call one step. The compactor is a parameter, as in `with_compactor`.
pub mod Bounds
pub mod Invariant
pub mod Leases
pub mod Revisions
pub mod Commit
pub mod Failures
mod Tests
use git_client.Prelude.{
  ℕ, zero, suc, ◌+◌, ◌-◌, Bool, true, false, ◌&&◌, ◌||◌, not, List, [], ◌∷◌, ◌++◌, Option, none,
  some, Text, text_eq, codes, len, is_empty, trim_start, all, any, length, ltb, leb, ◌==◌,
  if◌then◌else◌, Result, ok, err, ◌>>=◌, ◌>>◌, fail_if, ok_or, Map, lookup, insert,
}
use git_client.Session.{
  user, assistant, SessionMessage, AgentSession, SessionLease, SessionStoreLimits, SessionError,
  invalid_id, invalid_content, already_exists, not_found, capacity, busy, stale_lease, compaction,
  MemoryCompactor, max_u64, saturating_add,
}

pub record SessionRecord : Type 0 where
  pub session : AgentSession
  pub active_run : Option Text

abbrev pub Sessions : Type 0
Sessions = Map SessionRecord

pub is_some : Option Text → Bool
is_some none = false
is_some (some a) = true

-- A byte of an identifier. The bytes of a character beyond ASCII are none.
unfoldable pub is_id_byte : ℕ → Bool
is_id_byte c =
    (leb b'0' c && leb c b'9')
    || (leb b'A' c && leb c b'Z')
    || (leb b'a' c && leb c b'z')
    || c == b'_'
    || c == b'-'
    || c == b'.'

pub validate_id : Text → Result SessionError (Unit {0})
validate_id value =
    if not (is_empty value) && leb (len value) 128 && all is_id_byte value
    then ok tt
    else err invalid_id

-- `value.trim().is_empty()` holds if nothing is left behind the leading white space.
pub validate_content : Text → ℕ → Bool → Result SessionError (Unit {0})
validate_content value max_bytes allow_empty =
    if ltb max_bytes (len value)
      || any (λ c. c == 0) value
      || (not allow_empty && is_empty (trim_start value))
    then err invalid_content
    else ok tt

bytes_from : ℕ → List SessionMessage → ℕ
bytes_from total [] = total
bytes_from total (m ∷ ms) = bytes_from (saturating_add total (len m.content)) ms

pub message_bytes : List SessionMessage → ℕ
unfolding bytes_from
message_bytes messages = bytes_from 0 messages

pub holds_lease : SessionRecord → SessionLease → Bool
holds_lease r lease = elim r.active_run [
  | none ↦ false
  | some run ↦ text_eq run lease.run_id && r.session.revision == lease.base_revision
]

pub ensure_lease : SessionRecord → SessionLease → Result SessionError (Unit {0})
unfolding holds_lease
ensure_lease r lease = if holds_lease r lease then ok tt else err stale_lease

-- `revision.checked_add(1).ok_or(Capacity)`.
pub next_revision : ℕ → Result SessionError ℕ
next_revision revision = if revision == max_u64 then err capacity else ok (revision + 1)

pub present : Option SessionRecord → Bool
present none = false
present (some r) = true

module _ (limits : SessionStoreLimits) where
  -- The condition of the `while` loop of `commit_turn`.
  pub over_limits : List SessionMessage → Bool
  over_limits ms =
      ltb limits.max_recent_messages (length ms) || ltb limits.max_recent_bytes (message_bytes ms)

  module _ (compactor : MemoryCompactor) where
    pub summarize : Option Text → List SessionMessage → Result SessionError Text
    summarize existing messages = do
      summary ← compactor existing messages limits.max_summary_bytes
      fail_if (is_empty summary || ltb limits.max_summary_bytes (len summary)) compaction
      ok summary

    -- The loop itself, on the messages left: it folds the two oldest ones into the summary.
    pub shrink :
        Option Text → List SessionMessage → Result SessionError (Option Text × List SessionMessage)
    shrink existing [] = if over_limits [] then err compaction else ok (existing, [])
    shrink existing (m ∷ []) =
        if over_limits (m ∷ []) then err compaction else ok (existing, m ∷ [])
    shrink existing (m ∷ n ∷ rest) =
        let again = (do
          fail_if (leb (length (m ∷ n ∷ rest)) 2) compaction
          summary ← summarize existing (m ∷ n ∷ [])
          shrink (some summary) rest) in
        if over_limits (m ∷ n ∷ rest) then again else ok (existing, m ∷ n ∷ rest)

    pub next_session : AgentSession → Text → Text → Result SessionError AgentSession
    next_session s asked answered = do
      (summary, kept) ← shrink s.memory_summary (
          s.recent_messages
          ++ record { role = user; content = asked }
            ∷ record { role = assistant; content = answered }
            ∷ [])
      revision ← next_revision s.revision
      ok (record s { memory_summary = summary; recent_messages = kept; revision = revision })

    commit_record : SessionRecord → SessionLease → Text → Text → Result SessionError AgentSession
    commit_record r lease asked answered = do
      ensure_lease r lease
      next_session r.session asked answered

    -- The table is written only if nothing failed.
    store_session :
        Sessions
        → Text
        → Result SessionError AgentSession
        → Sessions × Result SessionError AgentSession
    store_session sessions id (err e) = (sessions, err e)
    store_session sessions id (ok next) =
        (insert id (record { session = next; active_run = none }) sessions, ok next)

    pub commit_turn :
        Sessions → SessionLease → Text → Text → Sessions × Result SessionError AgentSession
    commit_turn sessions lease asked answered = store_session sessions lease.session_id (do
      validate_content asked limits.max_message_bytes false
      validate_content answered limits.max_message_bytes false
      r ← ok_or (lookup lease.session_id sessions) not_found
      commit_record r lease asked answered)

  new_session : Text → Text → AgentSession
  new_session id system = record {
    session_id = id;
    revision = 0;
    system_instruction = system;
    memory_summary = none;
    recent_messages = [];
  }

  -- What `create` checks before it inserts.
  checked : Sessions → Text → Text → Result SessionError (Unit {0})
  checked sessions id system = do
    validate_id id
    validate_content system limits.max_system_bytes true
    fail_if (present (lookup id sessions)) already_exists
    fail_if (leb limits.max_sessions (length sessions)) capacity

  created :
      Sessions
      → Text
      → Text
      → Result SessionError (Unit {0})
      → Sessions × Result SessionError AgentSession
  unfolding new_session
  created sessions id system (err e) = (sessions, err e)
  created sessions id system (ok _) = (
    insert id (record { session = new_session id system; active_run = none }) sessions,
    ok (new_session id system),
  )

  pub create : Sessions → Text → Text → Sessions × Result SessionError AgentSession
  create sessions id system = created sessions id system (checked sessions id system)

pub get : Sessions → Text → Result SessionError AgentSession
get sessions id = do r ← ok_or (lookup id sessions) not_found; ok r.session

cleared : AgentSession → ℕ → AgentSession
cleared s revision = record s { memory_summary = none; recent_messages = []; revision = revision }

-- The memory is cleared in place before the revision is counted up, and stays cleared if that
-- fails.
reset_record : SessionRecord → SessionRecord × Result SessionError AgentSession
unfolding cleared
reset_record r =
    if is_some r.active_run
    then (r, err busy)
    else if r.session.revision == max_u64
    then (record r { session = cleared r.session r.session.revision }, err capacity)
    else (
      record r { session = cleared r.session (r.session.revision + 1) },
      ok (cleared r.session (r.session.revision + 1)),
    )

-- A call on the record of a session, which is written back.
pub on_record {ℓ} :
    {A : Type ℓ}
    → Sessions
    → Text
    → Option SessionRecord
    → (SessionRecord → SessionRecord × Result SessionError A)
    → Sessions × Result SessionError A
on_record sessions id none f = (sessions, err not_found)
on_record sessions id (some r) f = let (r', result) = f r in (insert id r' sessions, result)

pub reset : Sessions → Text → Sessions × Result SessionError AgentSession
reset sessions id = on_record sessions id (lookup id sessions) reset_record

begin_record : Text → Text → SessionRecord → SessionRecord × Result SessionError SessionLease
begin_record id run_id r = if is_some r.active_run then (r, err busy) else (
  record r { active_run = some run_id },
  ok (record {
    session_id = id;
    run_id = run_id;
    base_revision = r.session.revision;
    snapshot = r.session;
  }),
)

after_ids :
    Sessions
    → Text
    → Text
    → Result SessionError (Unit {0})
    → Sessions × Result SessionError SessionLease
after_ids sessions id run_id (err e) = (sessions, err e)
after_ids sessions id run_id (ok _) =
    on_record sessions id (lookup id sessions) (begin_record id run_id)

pub begin_turn : Sessions → Text → Text → Sessions × Result SessionError SessionLease
begin_turn sessions id run_id = after_ids sessions id run_id (validate_id id >> validate_id run_id)

abort_record : SessionLease → SessionRecord → SessionRecord × Result SessionError (Unit {0})
abort_record lease r =
    if holds_lease r lease then (record r { active_run = none }, ok tt) else (r, err stale_lease)

pub abort_turn : Sessions → SessionLease → Sessions × Result SessionError (Unit {0})
abort_turn sessions lease =
    on_record sessions lease.session_id (lookup lease.session_id sessions) (abort_record lease)

-- The calls that write.
pub data Call : Type 0 where
  creates : Text → Text → Call
  resets : Text → Call
  begins : Text → Text → Call
  commits : SessionLease → Text → Text → Call
  aborts : SessionLease → Call

module _ (limits : SessionStoreLimits) (compactor : MemoryCompactor) where
  pub step : Sessions → Call → Sessions
  step sessions (creates id system) = (create limits sessions id system).0
  step sessions (resets id) = (reset sessions id).0
  step sessions (begins id run_id) = (begin_turn sessions id run_id).0
  step sessions (commits lease asked answered) =
      (commit_turn limits compactor sessions lease asked answered).0
  step sessions (aborts lease) = (abort_turn sessions lease).0

  pub run : Sessions → List Call → Sessions
  run sessions [] = sessions
  run sessions (c ∷ cs) = run (step sessions c) cs
