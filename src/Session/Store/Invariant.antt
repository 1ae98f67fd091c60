-- ===== src/Session/Store/Invariant.antt =====
-- session.rs: what holds of every stored session, whatever the calls.
use git_client.Prelude.{
  ℕ, ◌+◌, ◌≤◌, ◌<◌, ◌≡◌, refl, subst, inl, inr, false, List, [], ◌∷◌, Option, none, some, Text,
  text_eq, text_eq_iff, len, length, ◌==◌, arith, Bool-cases, Result, ok, err, ok_or, ◌>>◌,
  bind_cases, lookup, insert, lookup-insert, length-insert-some, length-insert-le,
}
use git_client.Session.{
  AgentSession, SessionLease, SessionStoreLimits, SessionError, not_found, MemoryCompactor, max_u64,
}
use git_client.Session.Store.{
  Call, creates, resets, begins, commits, aborts, step, run, SessionRecord, Sessions, validate_id,
  validate_content, message_bytes, commit_record, store_session, commit_turn, create, checked,
  created, new_session, reset, reset_record, on_record, begin_turn, begin_record, after_ids,
  abort_turn, abort_record, ensure_lease, present, cleared, is_some, holds_lease,
}
use git_client.Session.Store.Bounds.{IsWithin, Next, next_session-Next}

-- Every session stored under an identifier is within the limits, and there are not too many.
pub record Inv (l : SessionStoreLimits) (sessions : Sessions) : Type 0 where
  pub at_id :
      (id : Text) (r : SessionRecord) → lookup id sessions ≡ some r → IsWithin l id r.session
  pub room : length sessions ≤ l.max_sessions

module _ (l : SessionStoreLimits) where
  insert-Inv :
      (sessions : Sessions) (id : Text) (r : SessionRecord)
      → Inv l sessions
      → IsWithin l id r.session
      → length (insert id r sessions) ≤ l.max_sessions
      → Inv l (insert id r sessions)
  insert-Inv sessions id r v w room = record {
    at_id = λ j q e. elim (Bool-cases (text_eq id j)) [
      | inl same ↦
          let i : id ≡ j = (text_eq_iff id j).0 same in
          let e' : r ≡ q = ground (arith, lookup-insert id j r sessions) in
          subst (λ k. IsWithin l k q.session) i (subst (λ x. IsWithin l id x.session) e' w)
      | inr other ↦ v.at_id j q (ground (arith, lookup-insert id j r sessions))
    ];
    room = room;
  }

  -- A call on a stored record that keeps it within the limits.
  on_record-Inv {ℓ} :
      {A : Type ℓ} (sessions : Sessions) (id : Text) (o : Option SessionRecord)
      (f : SessionRecord → SessionRecord × Result SessionError A)
      → Inv l sessions
      → lookup id sessions ≡ o
      → ((r : SessionRecord) → IsWithin l id r.session → IsWithin l id (f r).0.session)
      → Inv l (on_record sessions id o f).0
  unfolding on_record
  on_record-Inv sessions id none f v e keeps = v
  on_record-Inv sessions id (some r) f v e keeps =
      insert-Inv sessions id (f r).0 v (keeps r (v.at_id id r e))
        (omega (arith, length-insert-some id (f r).0 r sessions e, v.room))

  checked_ok :
      (sessions : Sessions) (id system : Text)
      → checked l sessions id system ≡ ok tt
      → (validate_id id ≡ ok tt)
        × (len system ≤ l.max_system_bytes)
        × (length sessions < l.max_sessions)
  unfolding checked validate_content present
  checked_ok sessions id system h = ground arith

  message_bytes-nil : message_bytes [] ≡ 0
  unfolding message_bytes
  message_bytes-nil = refl

  created-Inv :
      (sessions : Sessions) (id system : Text) (c : Result SessionError (Unit {0}))
      → checked l sessions id system ≡ c
      → Inv l sessions
      → Inv l (created l sessions id system c).0
  unfolding created
  created-Inv sessions id system (err e) h v = v
  created-Inv sessions id system (ok _) h v =
      let (i, s, r) = checked_ok sessions id system h in
      insert-Inv sessions id _ v
        (record {
          named = refl;
          id_valid = i;
          system = s;
          paired = tt;
          count = omega arith;
          bytes = omega (arith, message_bytes-nil);
          summary = tt;
          revision = omega arith;
        })
        (omega (
          arith,
          length-insert-le id (record { session = new_session l id system; active_run = none })
              sessions,
        ))

  stored-Inv :
      (compactor : MemoryCompactor) (sessions : Sessions) (id : Text) (r : SessionRecord)
      (next : Result SessionError AgentSession)
      → Inv l sessions
      → lookup id sessions ≡ some r
      → Next l compactor id next
      → Inv l (store_session l compactor sessions id next).0
  unfolding store_session
  stored-Inv compactor sessions id r (err e) v h n = v
  stored-Inv compactor sessions id r (ok s) v h n = insert-Inv sessions id _ v n (
      omega (
        arith,
        length-insert-some id (record { session = s; active_run = none }) r sessions h,
        v.room,
      ))

  commit_turn-Inv :
      (compactor : MemoryCompactor) (sessions : Sessions) (lease : SessionLease)
      (asked answered : Text)
      → Inv l sessions
      → Inv l (commit_turn l compactor sessions lease asked answered).0
  unfolding commit_turn commit_record store_session
  commit_turn-Inv compactor sessions lease asked answered v =
      bind_cases Kept (validate_content asked l.max_message_bytes false) _ (λ _. v)
        λ _ _.
          bind_cases Kept (validate_content answered l.max_message_bytes false) _ (λ _. v)
            λ _ _.
              bind_cases Kept (ok_or (lookup lease.session_id sessions) not_found) _ (λ _. v)
                λ r e.
                  bind_cases Kept (ensure_lease r lease) _ (λ _. v)
                    λ _ _.
                      let found : lookup lease.session_id sessions ≡ some r = ground (arith, e) in
                      stored-Inv compactor sessions lease.session_id r _ v found (
                        next_session-Next l compactor lease.session_id r.session asked answered
                          (v.at_id lease.session_id r found))
    where
      Kept : Result SessionError AgentSession → Type 0
      Kept r = Inv l (store_session l compactor sessions lease.session_id r).0

  cleared-IsWithin :
      (id : Text) (s : AgentSession) (v : ℕ)
      → IsWithin l id s
      → v ≤ max_u64
      → IsWithin l id (cleared s v)
  unfolding cleared
  cleared-IsWithin id s v w h = record {
    named = w.named;
    id_valid = w.id_valid;
    system = w.system;
    paired = tt;
    count = omega arith;
    bytes = omega (arith, message_bytes-nil);
    summary = tt;
    revision = h;
  }

  reset_record-IsWithin :
      (id : Text) (r : SessionRecord)
      → IsWithin l id r.session
      → IsWithin l id (reset_record r).0.session
  unfolding reset_record
  reset_record-IsWithin id r w = elim (Bool-cases (is_some r.active_run)) [
    | inl active ↦ rw active w
    | inr idle ↦ elim (Bool-cases (r.session.revision == max_u64)) [
      | inl last ↦ rw (idle, last) (cleared-IsWithin id r.session r.session.revision w w.revision)
      | inr more ↦
          rw (idle, more)
            (cleared-IsWithin id r.session (r.session.revision + 1) w
              (let bound = w.revision in ground arith))
    ]
  ]

  begin_record-IsWithin :
      (id run_id : Text) (r : SessionRecord)
      → IsWithin l id r.session
      → IsWithin l id (begin_record id run_id r).0.session
  unfolding begin_record
  begin_record-IsWithin id run_id r w = elim (Bool-cases (is_some r.active_run)) [
    | inl active ↦ rw active w
    | inr idle ↦ rw idle w
  ]

  abort_record-IsWithin :
      (id : Text) (lease : SessionLease) (r : SessionRecord)
      → IsWithin l id r.session
      → IsWithin l id (abort_record lease r).0.session
  unfolding abort_record
  abort_record-IsWithin id lease r w = elim (Bool-cases (holds_lease r lease)) [
    | inl holds ↦ rw holds w
    | inr stale ↦ rw stale w
  ]

  begin_turn-Inv :
      (sessions : Sessions) (id run_id : Text) (c : Result SessionError (Unit {0}))
      → Inv l sessions
      → Inv l (after_ids sessions id run_id c).0
  unfolding after_ids
  begin_turn-Inv sessions id run_id (err e) v = v
  begin_turn-Inv sessions id run_id (ok _) v =
      on_record-Inv sessions id (lookup id sessions) (begin_record id run_id) v refl
        (begin_record-IsWithin id run_id)

  module _ (compactor : MemoryCompactor) where
    step-Inv :
        (sessions : Sessions) (c : Call) → Inv l sessions → Inv l (step l compactor sessions c)
    unfolding step create reset begin_turn abort_turn
    step-Inv sessions (creates id system) v =
        created-Inv sessions id system (checked l sessions id system) refl v
    step-Inv sessions (resets id) v =
        on_record-Inv sessions id (lookup id sessions) reset_record v refl
          (reset_record-IsWithin id)
    step-Inv sessions (begins id run_id) v =
        begin_turn-Inv sessions id run_id (validate_id id >> validate_id run_id) v
    step-Inv sessions (commits lease asked answered) v =
        commit_turn-Inv compactor sessions lease asked answered v
    step-Inv sessions (aborts lease) v =
        on_record-Inv sessions lease.session_id (lookup lease.session_id sessions)
          (abort_record lease) v refl (abort_record-IsWithin lease.session_id lease)

    run_from-Inv :
        (sessions : Sessions) (cs : List Call)
        → Inv l sessions
        → Inv l (run l compactor sessions cs)
    unfolding run
    run_from-Inv sessions [] v = v
    run_from-Inv sessions (c ∷ cs) v =
        run_from-Inv (step l compactor sessions c) cs (step-Inv sessions c v)

    -- After any calls, failed ones among them, with any compactor at all: there are at most
    -- `max_sessions` sessions, and each has its own valid identifier, complete turns only, no more
    -- messages and bytes of them than allowed, a summary that is absent or not empty and within its
    -- bytes, and a revision that has not wrapped.
    pub run-Inv : (cs : List Call) → Inv l (run l compactor [] cs)
    unfolding lookup
    run-Inv cs = run_from-Inv [] cs (record { at_id = λ id r e. cc; room = omega arith })
