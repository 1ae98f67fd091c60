-- ===== src/Session/Store/Revisions.antt =====
-- session.rs: the revision of a session never goes back, and no call of the store removes one.
use git_client.Prelude.{
  ℕ, ◌+◌, ◌≤◌, ◌≡◌, refl, ◌∙◌, ap, sym, inl, inr, true, false, List, [], ◌∷◌, Option, none, some,
  Text, text_eq, text_eq_iff, arith, Bool-cases, Result, ok, err, ok_or, ◌>>◌, bind_cases, lookup,
  insert, lookup-insert,
}
use git_client.Session.{
  AgentSession, SessionLease, SessionStoreLimits, SessionError, not_found, MemoryCompactor,
}
use git_client.Session.Store.{
  Call, creates, resets, begins, commits, aborts, step, run, SessionRecord, Sessions, validate_id,
  validate_content, commit_record, store_session, commit_turn, create, checked, created, reset,
  reset_record, on_record, begin_turn, begin_record, after_ids, abort_turn, abort_record,
  ensure_lease, present, cleared, shrink, next_session, next_revision,
}

-- The session is stored, with the revision `v` or a later one.
abbrev pub Reaches : Text → ℕ → Sessions → Type 0
Reaches id v sessions =
    (r : SessionRecord) × (lookup id sessions ≡ some r) × (v ≤ r.session.revision)

insert-Reaches :
    (sessions : Sessions) (id other : Text) (v : ℕ) (r' : SessionRecord)
    → (text_eq other id ≡ true → v ≤ r'.session.revision)
    → Reaches id v sessions
    → Reaches id v (insert other r' sessions)
insert-Reaches sessions id other v r' k (r, h, le) = elim (Bool-cases (text_eq other id)) [
  | inl same ↦ (r', ground (arith, lookup-insert other id r' sessions), k same)
  | inr apart ↦ (r, ground (arith, lookup-insert other id r' sessions), le)
]

-- A write of a record that is no older than the one it replaces.
replace-Reaches :
    (sessions : Sessions) (id other : Text) (v : ℕ) (q r' : SessionRecord)
    → lookup other sessions ≡ some q
    → q.session.revision ≤ r'.session.revision
    → Reaches id v sessions
    → Reaches id v (insert other r' sessions)
replace-Reaches sessions id other v q r' found newer (r, h, le) =
    insert-Reaches sessions id other v r'
      (λ same.
        let there : lookup id sessions ≡ some q =
          ap (λ k. lookup k sessions) (sym ((text_eq_iff other id).0 same)) ∙ found in
        let e : r ≡ q = ground (arith, there, h) in
        let same_revision = ap (λ x. x.session.revision) e in
        omega (arith, same_revision, newer, le))
      (r, h, le)

on_record-Reaches {ℓ} :
    {A : Type ℓ} (sessions : Sessions) (id other : Text) (v : ℕ) (o : Option SessionRecord)
    (f : SessionRecord → SessionRecord × Result SessionError A)
    → lookup other sessions ≡ o
    → ((r : SessionRecord) → r.session.revision ≤ (f r).0.session.revision)
    → Reaches id v sessions
    → Reaches id v (on_record sessions other o f).0
unfolding on_record
on_record-Reaches sessions id other v none f h k w = w
on_record-Reaches sessions id other v (some q) f h k w =
    replace-Reaches sessions id other v q (f q).0 h (k q) w

reset_record-le : (r : SessionRecord) → r.session.revision ≤ (reset_record r).0.session.revision
unfolding reset_record cleared
reset_record-le r = ground arith

begin_record-le :
    (id run_id : Text) (r : SessionRecord)
    → r.session.revision ≤ (begin_record id run_id r).0.session.revision
unfolding begin_record
begin_record-le id run_id r = ground arith

abort_record-le :
    (lease : SessionLease) (r : SessionRecord)
    → r.session.revision ≤ (abort_record lease r).0.session.revision
unfolding abort_record
abort_record-le lease r = ground arith

begun-Reaches :
    (sessions : Sessions) (id other run_id : Text) (v : ℕ) (c : Result SessionError (Unit {0}))
    → Reaches id v sessions
    → Reaches id v (after_ids sessions other run_id c).0
unfolding after_ids
begun-Reaches sessions id other run_id v (err e) w = w
begun-Reaches sessions id other run_id v (ok _) w =
    on_record-Reaches sessions id other v (lookup other sessions) (begin_record other run_id) refl
      (begin_record-le other run_id) w

module _ (l : SessionStoreLimits) where
  checked-absent :
      (sessions : Sessions) (id system : Text)
      → checked l sessions id system ≡ ok tt
      → lookup id sessions ≡ none
  unfolding checked present
  checked-absent sessions id system h = ground arith

  created-Reaches :
      (sessions : Sessions) (id other system : Text) (v : ℕ) (c : Result SessionError (Unit {0}))
      → checked l sessions other system ≡ c
      → Reaches id v sessions
      → Reaches id v (created l sessions other system c).0
  unfolding created
  created-Reaches sessions id other system v (err e) h w = w
  created-Reaches sessions id other system v (ok _) h (r, found, le) =
      let absent = checked-absent sessions other system h in
      insert-Reaches sessions id other v _
        (λ same.
          let there = ap (λ k. lookup k sessions) ((text_eq_iff other id).0 same) in absurd (cc))
        (r, found, le)

  module _ (c : MemoryCompactor) where
    -- The next session is one revision on.
    Later : AgentSession → Result SessionError AgentSession → Type 0
    Later s (err e) = Unit
    Later s (ok next) = next.revision ≡ s.revision + 1

    counted : (v v' : ℕ) → next_revision v ≡ ok v' → v' ≡ v + 1
    unfolding next_revision
    counted v v' h = ground arith

    next_session-Later :
        (s : AgentSession) (asked answered : Text) → Later s (next_session l c s asked answered)
    unfolding next_session Later
    next_session-Later s asked answered =
        bind_cases (Later s) (shrink l c s.memory_summary _) _ (λ _. tt)
          λ p e. bind_cases (Later s) (next_revision s.revision) _ (λ _. tt) (counted s.revision)

    stored-Reaches :
        (sessions : Sessions) (id other : Text) (v : ℕ) (q : SessionRecord)
        (next : Result SessionError AgentSession)
        → lookup other sessions ≡ some q
        → Later q.session next
        → Reaches id v sessions
        → Reaches id v (store_session l c sessions other next).0
    unfolding store_session Later
    stored-Reaches sessions id other v q (err e) h k w = w
    stored-Reaches sessions id other v q (ok next) h k w =
        replace-Reaches sessions id other v q _ h (omega (arith, k)) w

    commit_turn-Reaches :
        (sessions : Sessions) (id : Text) (v : ℕ) (lease : SessionLease) (asked answered : Text)
        → Reaches id v sessions
        → Reaches id v (commit_turn l c sessions lease asked answered).0
    unfolding commit_turn commit_record store_session
    commit_turn-Reaches sessions id v lease asked answered w =
        bind_cases Kept (validate_content asked l.max_message_bytes false) _ (λ _. w)
          λ _ _.
            bind_cases Kept (validate_content answered l.max_message_bytes false) _ (λ _. w)
              λ _ _.
                bind_cases Kept (ok_or (lookup lease.session_id sessions) not_found) _ (λ _. w)
                  λ q e.
                    bind_cases Kept (ensure_lease q lease) _ (λ _. w)
                      λ _ _.
                        let found : lookup lease.session_id sessions ≡ some q = ground (arith, e) in
                        stored-Reaches sessions id lease.session_id v q _ found
                          (next_session-Later q.session asked answered) w
      where
        Kept : Result SessionError AgentSession → Type 0
        Kept r = Reaches id v (store_session l c sessions lease.session_id r).0

    step-Reaches :
        (sessions : Sessions) (call : Call) (id : Text) (v : ℕ)
        → Reaches id v sessions
        → Reaches id v (step l c sessions call)
    unfolding step create reset begin_turn abort_turn
    step-Reaches sessions (creates other system) id v w =
        created-Reaches sessions id other system v (checked l sessions other system) refl w
    step-Reaches sessions (resets other) id v w =
        on_record-Reaches sessions id other v (lookup other sessions) reset_record refl
          reset_record-le w
    step-Reaches sessions (begins other run_id) id v w =
        begun-Reaches sessions id other run_id v (validate_id other >> validate_id run_id) w
    step-Reaches sessions (commits lease asked answered) id v w =
        commit_turn-Reaches sessions id v lease asked answered w
    step-Reaches sessions (aborts lease) id v w =
        on_record-Reaches sessions id lease.session_id v (lookup lease.session_id sessions)
          (abort_record lease) refl (abort_record-le lease) w

    pub run-Reaches :
        (sessions : Sessions) (cs : List Call) (id : Text) (v : ℕ)
        → Reaches id v sessions
        → Reaches id v (run l c sessions cs)
    unfolding run
    run-Reaches sessions [] id v w = w
    run-Reaches sessions (call ∷ cs) id v w =
        run-Reaches (step l c sessions call) cs id v (step-Reaches sessions call id v w)
