-- ===== src/Session/Store/Commit.antt =====
-- session.rs: with the extractive compactor a turn that is in order is always committed.
use git_client.Prelude.{
  ◌+◌, ◌≤◌, ◌<◌, ◌≡◌, refl, ap, ◌∙◌, inl, inr, true, false, List, [], ◌∷◌, ◌++◌, Option, none, some,
  Text, len, length, length-append, leb, ◌==◌, arith, Bool-cases, ok, err, lookup, insert,
  lookup-insert_self,
}
use git_client.Session.{
  user, assistant, SessionMessage, AgentSession, SessionLease, SessionStoreLimits, SessionError,
  stale_lease, max_u64, rejects_limits,
}
use git_client.Session.Compactor.Extractive.{extractive, extractive_succeeds}
use git_client.Session.Store.{
  Call, run, SessionRecord, Sessions, validate_content, message_bytes, over_limits, summarize,
  shrink, next_session, next_revision, commit_record, store_session, commit_turn, abort_turn,
  ensure_lease, holds_lease,
}
use git_client.Session.Store.Bounds.{Paired}
use git_client.Session.Store.Invariant.{Inv}
use git_client.Session.Store.Leases.{abort_stale, commit-refused}
use git_client.Session.Store.Revisions.{Reaches, run-Reaches}

abbrev pub turn_of : Text → Text → List SessionMessage
turn_of asked answered =
    record { role = user; content = asked } ∷ record { role = assistant; content = answered } ∷ []

module _ (l : SessionStoreLimits) (accepted : rejects_limits l ≡ false) where
  summary_room : 25 < l.max_summary_bytes
  unfolding rejects_limits
  summary_room = ground (arith, accepted)

  content_len :
      (value : Text)
      → validate_content value l.max_message_bytes false ≡ ok tt
      → len value ≤ l.max_message_bytes
  unfolding validate_content
  content_len value h = ground arith

  -- One turn is within the limits whatever it says, so the loop never gives up.
  turn-within :
      (asked answered : Text)
      → validate_content asked l.max_message_bytes false ≡ ok tt
      → validate_content answered l.max_message_bytes false ≡ ok tt
      → over_limits l (turn_of asked answered) ≡ false
  unfolding rejects_limits over_limits message_bytes
  turn-within asked answered h k =
      ground (arith, accepted, content_len asked h, content_len answered k)

  summarize-extractive :
      (existing : Option Text) (m : SessionMessage) (ms : List SessionMessage)
      → (s : Text) × (summarize l extractive existing (m ∷ ms) ≡ ok s)
  unfolding summarize
  summarize-extractive existing m ms =
      let (s, c, e, b, n) = extractive_succeeds existing m ms l.max_summary_bytes summary_room in
      (s, rw e (ground (arith, b, n)))

  -- How the loop ends on a history with a last turn that fits: it keeps that turn.
  Kept : Option Text → List SessionMessage → List SessionMessage → Type 0
  Kept existing front turn =
      (summary : Option Text) × (rest : List SessionMessage) × (shrink l extractive existing
          (front ++ turn)
        ≡ ok (summary, rest ++ turn))

  shrink-keeps :
      (existing : Option Text) (front : List SessionMessage) (m n : SessionMessage)
      → Paired front
      → over_limits l (m ∷ n ∷ []) ≡ false
      → Kept existing front (m ∷ n ∷ [])
  unfolding Kept shrink
  shrink-keeps existing [] m n p o = (existing, [], rw o refl)
  shrink-keeps existing (a ∷ []) m n p o = absurd p
  shrink-keeps existing (a ∷ b ∷ rest) m n p o =
      elim (Bool-cases (over_limits l (a ∷ b ∷ (rest ++ m ∷ n ∷ [])))) [
        | inl over ↦
            let (s, e) = summarize-extractive existing a (b ∷ []) in
            let (summary, kept, h) = shrink-keeps (some s) rest m n p.2 o in
            let more : leb (length (a ∷ b ∷ (rest ++ m ∷ n ∷ []))) 2 ≡ false =
              ground (arith, length-append rest (m ∷ n ∷ [])) in
            (summary, kept, rw (over, more, e) h)
        | inr within ↦ (existing, a ∷ b ∷ rest, rw within refl)
      ]

  next_session-keeps :
      (s : AgentSession) (asked answered : Text)
      → Paired s.recent_messages
      → over_limits l (turn_of asked answered) ≡ false
      → s.revision < max_u64
      → (next : AgentSession) × (front : List SessionMessage) × (next_session l extractive s asked
            answered
          ≡ ok next)
        × (next.revision ≡ s.revision + 1)
        × (next.recent_messages ≡ front ++ turn_of asked answered)
  unfolding next_session next_revision Kept
  next_session-keeps s asked answered p o h =
      let (summary, front, e) = shrink-keeps s.memory_summary s.recent_messages _ _ p o in
      let more : (s.revision == max_u64) ≡ false = ground arith in
      (
        record s {
          memory_summary = summary;
          recent_messages = front ++ turn_of asked answered;
          revision = s.revision + 1;
        },
        front,
        rw (e, more) refl,
        refl,
        refl,
      )

  -- What a committed turn leaves.
  abbrev pub Committed : Sessions → SessionLease → SessionRecord → Text → Text → Type 0
  Committed sessions lease r asked answered =
      (next : AgentSession) × (front : List SessionMessage) × (commit_turn l extractive sessions
          lease asked answered
        ≡ (
          insert lease.session_id (record { session = next; active_run = none }) sessions,
          ok next,
        ))
      × (next.revision ≡ r.session.revision + 1)
      × (next.recent_messages ≡ front ++ turn_of asked answered)
      × ((cs : List Call) (again answered_again : Text)
          → let ended =
              run l extractive (commit_turn l extractive sessions lease asked answered).0 cs in
            (abort_turn ended lease ≡ (ended, err stale_lease))
            × ((e : SessionError) × (commit_turn l extractive ended lease again answered_again
                  ≡ (ended, err e))))

  -- A lease of an earlier revision is not held.
  outdated :
      (r : SessionRecord) (lease : SessionLease)
      → lease.base_revision < r.session.revision
      → holds_lease r lease ≡ false
  unfolding holds_lease
  outdated r lease h = ground arith

  held_base :
      (r : SessionRecord) (lease : SessionLease)
      → holds_lease r lease ≡ true
      → r.session.revision ≡ lease.base_revision
  unfolding holds_lease
  held_base r lease h = ground arith

  -- Whatever is called once the session has a later revision, the lease ends nothing any more.
  stale_ever_after :
      (sessions : Sessions) (lease : SessionLease) (cs : List Call) (again answered_again : Text)
      → Reaches lease.session_id (lease.base_revision + 1) sessions
      → let ended = run l extractive sessions cs in
        (abort_turn ended lease ≡ (ended, err stale_lease))
        × ((e : SessionError) × (commit_turn l extractive ended lease again answered_again
              ≡ (ended, err e)))
  stale_ever_after sessions lease cs again answered_again w =
      let (r, found, later) =
        run-Reaches l extractive sessions cs lease.session_id (lease.base_revision + 1) w in
      let stale = outdated r lease (omega (arith, later)) in
      (
        abort_stale _ lease r found stale,
        commit-refused l extractive _ lease r again answered_again found stale,
      )

  committed :
      (sessions : Sessions) (lease : SessionLease) (r : SessionRecord) (asked answered : Text)
      → validate_content asked l.max_message_bytes false ≡ ok tt
      → validate_content answered l.max_message_bytes false ≡ ok tt
      → lookup lease.session_id sessions ≡ some r
      → commit_turn l extractive sessions lease asked answered
        ≡ store_session l extractive sessions lease.session_id
            (commit_record l extractive r lease asked answered)
  unfolding commit_turn
  committed sessions lease r asked answered h k found = rw (h, k, found) refl

  commit_held :
      (sessions : Sessions) (lease : SessionLease) (r : SessionRecord) (next : AgentSession)
      (asked answered : Text)
      → holds_lease r lease ≡ true
      → next_session l extractive r.session asked answered ≡ ok next
      → store_session l extractive sessions lease.session_id
          (commit_record l extractive r lease asked answered)
        ≡ (insert lease.session_id (record { session = next; active_run = none }) sessions, ok next)
  unfolding store_session commit_record ensure_lease
  commit_held sessions lease r next asked answered holds e = rw (holds, e) refl

  -- With limits that `with_compactor` accepts and the extractive compactor, a turn whose lease is
  -- held and whose two messages are valid is committed, unless the revision is the last `u64`: the
  -- revision counts up by one and the turn is kept word for word at the end of the recent messages.
  -- From then on, after any further calls of the store, the lease is stale for an abort, and a commit
  -- with it is refused whatever its two messages are; both change nothing.
  pub commit_turn-Committed :
      (sessions : Sessions) (lease : SessionLease) (r : SessionRecord) (asked answered : Text)
      → Inv l sessions
      → lookup lease.session_id sessions ≡ some r
      → holds_lease r lease ≡ true
      → r.session.revision < max_u64
      → validate_content asked l.max_message_bytes false ≡ ok tt
      → validate_content answered l.max_message_bytes false ≡ ok tt
      → Committed sessions lease r asked answered
  commit_turn-Committed sessions lease r asked answered v found holds room h k =
      let (next, front, e, counted, kept) =
        next_session-keeps r.session asked answered (v.at_id lease.session_id r found).paired
          (turn-within asked answered h k) room in
      let stored : SessionRecord = record { session = next; active_run = none } in
      let done =
        committed sessions lease r asked answered h k found
        ∙ commit_held sessions lease r next asked answered holds e in
      let here = lookup-insert_self lease.session_id stored sessions in
      let base = held_base r lease holds in
      (
        next,
        front,
        done,
        counted,
        kept,
        λ cs again answered_again.
            stale_ever_after (commit_turn l extractive sessions lease asked answered).0 lease cs
              again answered_again
              (
                stored,
                ap (λ p. lookup lease.session_id p.0) done ∙ here,
                omega (arith, counted, base),
              ),
      )
