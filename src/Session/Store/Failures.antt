-- ===== src/Session/Store/Failures.antt =====
-- session.rs: what a call that reports an error leaves of the table.
use git_client.Prelude.{
  ◌+◌, ◌≡◌, sym, refl, ap, ◌∙◌, ◌⊎◌, inl, inr, false, [], Option, none, some, Text, ◌==◌, ==_iff,
  arith, Bool-cases, Result, ok, err, lookup, insert,
}
use git_client.Session.{
  AgentSession, SessionLease, SessionStoreLimits, SessionError, busy, capacity, stale_lease,
  MemoryCompactor, max_u64,
}
use git_client.Session.Store.{
  SessionRecord, Sessions, store_session, commit_turn, create, created, checked, reset,
  reset_record, on_record, begin_turn, abort_turn, abort_record, holds_lease, is_some, cleared,
}
use git_client.Session.Store.Leases.{on_record-err, begin_turn-Begun}

-- If the call failed, the table is as it was.
abbrev pub Unchanged {ℓ} : {A : Type ℓ} → Sessions → Sessions × Result SessionError A → Type ℓ
Unchanged sessions out = (e : SessionError) → out.1 ≡ err e → out.0 ≡ sessions

on_record-some {ℓ} :
    {A : Type ℓ} (sessions : Sessions) (id : Text) (r r' : SessionRecord)
    (f : SessionRecord → SessionRecord × Result SessionError A) (out : Result SessionError A)
    → f r ≡ (r', out)
    → on_record sessions id (some r) f ≡ (insert id r' sessions, out)
unfolding on_record
on_record-some sessions id r r' f out h = ap (λ p. (insert id p.0 sessions, p.1)) h

stored-Unchanged :
    (l : SessionStoreLimits) (c : MemoryCompactor) (sessions : Sessions) (id : Text)
    (next : Result SessionError AgentSession)
    → Unchanged sessions (store_session l c sessions id next)
unfolding store_session
stored-Unchanged l c sessions id (err f) e h = refl
stored-Unchanged l c sessions id (ok next) e h = absurd (cc)

created-Unchanged :
    (l : SessionStoreLimits) (sessions : Sessions) (id system : Text)
    (c : Result SessionError (Unit {0}))
    → Unchanged sessions (created l sessions id system c)
unfolding created
created-Unchanged l sessions id system (err f) e h = refl
created-Unchanged l sessions id system (ok _) e h = absurd (cc)

begun-Unchanged :
    (sessions : Sessions) (id run_id : Text) → Unchanged sessions (begin_turn sessions id run_id)
begun-Unchanged sessions id run_id e h = elim (begin_turn-Begun sessions id run_id) [
  | inl (f, refused) ↦ ap (λ p. p.0) refused
  | inr (r, found, idle, begun) ↦ absurd (let b = ap (λ p. p.1) begun in cc)
]

aborted-Unchanged :
    (sessions : Sessions) (lease : SessionLease) (o : Option SessionRecord)
    → lookup lease.session_id sessions ≡ o
    → Unchanged sessions (on_record sessions lease.session_id o (abort_record lease))
aborted-Unchanged sessions lease none h e k = unfold on_record in refl
aborted-Unchanged sessions lease (some r) h e k = elim (Bool-cases (holds_lease r lease)) [
  | inl holds ↦
      let done =
        on_record-some sessions lease.session_id r (record r { active_run = none })
          (abort_record lease) (ok tt) (unfold abort_record in rw holds refl) in
      absurd (let out = ap (λ p. p.1) done in cc)
  | inr stale ↦
      ap (λ p. p.0)
        (on_record-err sessions lease.session_id r stale_lease (abort_record lease) h
          (unfold abort_record in rw stale refl))
]

-- The record with its memory cleared and its revision kept.
abbrev pub emptied : SessionRecord → SessionRecord
emptied r = record r { session = record r.session { memory_summary = none; recent_messages = [] } }

-- An idle session at the last revision.
abbrev pub IsSpent : Sessions → Text → SessionRecord → Type 0
IsSpent sessions id r =
    (lookup id sessions ≡ some r) × (is_some r.active_run ≡ false) × (r.session.revision ≡ max_u64)

-- How a failed reset ends: nothing changed, or the session is spent and its memory is gone, with
-- everything else as it was.
abbrev pub FailedReset : Sessions → Text → SessionError → Sessions → Type 0
FailedReset sessions id e after =
    ((after ≡ sessions) × ((r : SessionRecord) → ¬ IsSpent sessions id r))
    ⊎ ((e ≡ capacity)
        × (r : SessionRecord) × IsSpent sessions id r
        × (after ≡ insert id (emptied r) sessions))

reset-FailedReset :
    (sessions : Sessions) (id : Text) (e : SessionError) (o : Option SessionRecord)
    → lookup id sessions ≡ o
    → (on_record sessions id o reset_record).1 ≡ err e
    → FailedReset sessions id e (on_record sessions id o reset_record).0
reset-FailedReset sessions id e none h k = inl (unfold on_record in refl, λ r x. let a = x.0 in cc)
reset-FailedReset sessions id e (some r) h k = elim (Bool-cases (is_some r.active_run)) [
  | inl active ↦ inl (
    ap (λ p. p.0)
        (on_record-err sessions id r busy reset_record h (unfold reset_record in rw active refl)),
    λ r' x.
        let same =
          ap (λ o. elim o [ none ↦ false | some q ↦ is_some q.active_run ]) (sym h ∙ x.0) in
        cc,
  )
  | inr idle ↦ elim (Bool-cases (r.session.revision == max_u64)) [
    | inl last ↦
        let done =
          on_record-some sessions id r (emptied r) reset_record (err capacity)
            (unfold reset_record cleared in rw (idle, last) refl) in
        inr (
          let out = ap (λ p. p.1) done in ground arith,
          r,
          (h, idle, (==_iff r.session.revision max_u64).0 last),
          ap (λ p. p.0) done,
        )
    | inr more ↦
        let done =
          on_record-some sessions id r
            (record r { session = cleared r.session (r.session.revision + 1) }) reset_record
            (ok (cleared r.session (r.session.revision + 1)))
            (unfold reset_record in rw (idle, more) refl) in
        absurd (let out = ap (λ p. p.1) done in cc)
  ]
]

reset-spent :
    (sessions : Sessions) (id : Text) (r : SessionRecord)
    → IsSpent sessions id r
    → reset sessions id ≡ (insert id (emptied r) sessions, err capacity)
unfolding reset
reset-spent sessions id r (h, idle, last) =
    let end = (==_iff r.session.revision max_u64).1 last in
    ap (λ o. on_record sessions id o reset_record) h
    ∙ on_record-some sessions id r (emptied r) reset_record (err capacity)
        (unfold reset_record cleared in rw (idle, end) refl)

-- A call that reports an error leaves the table of sessions as it was, but for one: a reset of an
-- idle session whose revision is the last `u64` reports `capacity` and clears the session's memory,
-- and nothing else of the table.
pub failures :
    (l : SessionStoreLimits) (c : MemoryCompactor) (sessions : Sessions)
    → ((id system : Text) → Unchanged sessions (create l sessions id system))
      × ((id run_id : Text) → Unchanged sessions (begin_turn sessions id run_id))
      × ((lease : SessionLease) (asked answered : Text)
          → Unchanged sessions (commit_turn l c sessions lease asked answered))
      × ((lease : SessionLease) → Unchanged sessions (abort_turn sessions lease))
      × ((id : Text) (e : SessionError)
          → (reset sessions id).1 ≡ err e
          → FailedReset sessions id e (reset sessions id).0)
      × ((id : Text) (r : SessionRecord)
          → IsSpent sessions id r
          → reset sessions id ≡ (insert id (emptied r) sessions, err capacity))
unfolding create commit_turn abort_turn reset
failures l c sessions = (
  λ id system. created-Unchanged l sessions id system (checked l sessions id system),
  begun-Unchanged sessions,
  λ lease asked answered. stored-Unchanged l c sessions lease.session_id _,
  λ lease. aborted-Unchanged sessions lease (lookup lease.session_id sessions) refl,
  λ id e. reset-FailedReset sessions id e (lookup id sessions) refl,
  reset-spent sessions,
)
