-- ===== src/Session/Store/Leases.antt =====
-- session.rs: a turn is exclusive from `begin_turn` to its end, its lease is good for one end, and a
-- call that fails leaves the table alone.
use git_client.Prelude.{
  ◌≡◌, refl, sym, ap, subst, ◌∙◌, ◌≢◌, ◌⊎◌, inl, inr, true, false, [], ◌∷◌, Option, none, some,
  Text, text_eq_iff, arith, Bool-cases, Result, ok, err, ◌>>◌, Map, lookup, insert,
  lookup-insert_self,
}
use git_client.Session.{
  SessionStoreLimits, MemoryCompactor, SessionLease, SessionError, busy, stale_lease, not_found,
}
use git_client.Session.Store.{
  SessionRecord, Sessions, validate_id, reset, reset_record, on_record, begin_turn, begin_record,
  after_ids, abort_turn, abort_record, holds_lease, is_some, validate_content, commit_turn,
  commit_record, store_session, ensure_lease,
}

-- A write of what is stored already changes nothing.
insert-lookup {ℓ} :
    {V : Type ℓ} (k : Text) (v : V) (m : Map V) → lookup k m ≡ some v → insert k v m ≡ m
unfolding lookup insert
insert-lookup k v [] h = cc
insert-lookup k v ((j, w) ∷ m) h = ground (arith, text_eq_iff j k, insert-lookup k v m)

abbrev pub lease_on : Text → Text → SessionRecord → SessionLease
lease_on id run_id r = record {
  session_id = id;
  run_id = run_id;
  base_revision = r.session.revision;
  snapshot = r.session;
}

-- How `begin_turn` ends: refused, or the idle session is marked and leased.
abbrev Begun : Sessions → Text → Text → Sessions × Result SessionError SessionLease → Type 0
Begun sessions id run_id out =
    ((e : SessionError) × (out ≡ (sessions, err e)))
    ⊎ ((r : SessionRecord) × (lookup id sessions ≡ some r)
        × (is_some r.active_run ≡ false)
        × (out ≡ (
          insert id (record r { active_run = some run_id }) sessions,
          ok (lease_on id run_id r),
        )))

-- A call on a record that reports an error and returns the record as it was.
pub on_record-err {ℓ} :
    {A : Type ℓ} (sessions : Sessions) (id : Text) (r : SessionRecord) (e : SessionError)
    (f : SessionRecord → SessionRecord × Result SessionError A)
    → lookup id sessions ≡ some r
    → f r ≡ (r, err e)
    → on_record sessions id (some r) f ≡ (sessions, err e)
unfolding on_record
on_record-err sessions id r e f h k =
    ap (λ p. (insert id p.0 sessions, p.1)) k
    ∙ ap (λ (s : Sessions). (s, err e)) (insert-lookup id r sessions h)

begin_record-busy :
    (id run_id : Text) (r : SessionRecord)
    → is_some r.active_run ≡ true
    → begin_record id run_id r ≡ (r, err busy)
unfolding begin_record
begin_record-busy id run_id r h = rw h

on_record-Begun :
    (sessions : Sessions) (id run_id : Text) (o : Option SessionRecord)
    → lookup id sessions ≡ o
    → Begun sessions id run_id (on_record sessions id o (begin_record id run_id))
on_record-Begun sessions id run_id none h = inl (not_found, unfold on_record in refl)
on_record-Begun sessions id run_id (some r) h = elim (Bool-cases (is_some r.active_run)) [
  | inl active ↦
      inl (busy, on_record-err sessions id r busy _ h (begin_record-busy id run_id r active))
  | inr idle ↦ inr (r, h, idle, unfold on_record begin_record in rw idle)
]

after_ids-Begun :
    (sessions : Sessions) (id run_id : Text) (c : Result SessionError (Unit {0}))
    → Begun sessions id run_id (after_ids sessions id run_id c)
unfolding after_ids
after_ids-Begun sessions id run_id (err e) = inl (e, refl)
after_ids-Begun sessions id run_id (ok _) =
    on_record-Begun sessions id run_id (lookup id sessions) refl

pub begin_turn-Begun :
    (sessions : Sessions) (id run_id : Text)
    → Begun sessions id run_id (begin_turn sessions id run_id)
unfolding begin_turn
begin_turn-Begun sessions id run_id =
    after_ids-Begun sessions id run_id (validate_id id >> validate_id run_id)

-- While a run is active, another turn and a reset are refused.
active-refuses :
    (sessions : Sessions) (id : Text) (r : SessionRecord)
    → lookup id sessions ≡ some r
    → is_some r.active_run ≡ true
    → (reset sessions id ≡ (sessions, err busy))
      × ((other : Text)
          → (validate_id id >> validate_id other) ≡ ok tt
          → begin_turn sessions id other ≡ (sessions, err busy))
unfolding reset begin_turn
active-refuses sessions id r h active = (
  ap (λ o. on_record sessions id o reset_record) h
      ∙ on_record-err sessions id r busy reset_record h (unfold reset_record in rw active),
  λ other valid.
      ap (after_ids sessions id other) valid
      ∙ (unfold after_ids in
          ap (λ o. on_record sessions id o (begin_record id other)) h
          ∙ on_record-err sessions id r busy _ h (begin_record-busy id other r active)),
)

pub abort_stale :
    (sessions : Sessions) (lease : SessionLease) (r : SessionRecord)
    → lookup lease.session_id sessions ≡ some r
    → holds_lease r lease ≡ false
    → abort_turn sessions lease ≡ (sessions, err stale_lease)
unfolding abort_turn
abort_stale sessions lease r h stale =
    ap (λ o. on_record sessions lease.session_id o (abort_record lease)) h
    ∙ on_record-err sessions lease.session_id r stale_lease (abort_record lease) h
        (unfold abort_record in rw stale)

abort_held :
    (sessions : Sessions) (lease : SessionLease) (r : SessionRecord)
    → lookup lease.session_id sessions ≡ some r
    → holds_lease r lease ≡ true
    → abort_turn sessions lease
      ≡ (insert lease.session_id (record r { active_run = none }) sessions, ok tt)
unfolding abort_turn
abort_held sessions lease r h holds =
    ap (λ o. on_record sessions lease.session_id o (abort_record lease)) h
    ∙ (unfold on_record abort_record in rw holds)

pub commit_stale :
    (l : SessionStoreLimits) (c : MemoryCompactor) (sessions : Sessions) (lease : SessionLease)
    (r : SessionRecord) (asked answered : Text)
    → lookup lease.session_id sessions ≡ some r
    → holds_lease r lease ≡ false
    → validate_content asked l.max_message_bytes false ≡ ok tt
    → validate_content answered l.max_message_bytes false ≡ ok tt
    → commit_turn l c sessions lease asked answered ≡ (sessions, err stale_lease)
unfolding commit_turn commit_record store_session ensure_lease
commit_stale l c sessions lease r asked answered h stale va vb = rw (va, vb, h, stale) refl

commit_invalid :
    (l : SessionStoreLimits) (c : MemoryCompactor) (sessions : Sessions) (lease : SessionLease)
    (asked answered : Text) (e : SessionError)
    → (validate_content asked l.max_message_bytes false
        >> validate_content answered l.max_message_bytes false)
      ≡ err e
    → commit_turn l c sessions lease asked answered ≡ (sessions, err e)
unfolding commit_turn store_session
commit_invalid l c sessions lease asked answered e h = ground (arith, h)

-- A lease that the session's record does not honour commits nothing, whatever the two texts are.
pub commit-refused :
    (l : SessionStoreLimits) (c : MemoryCompactor) (sessions : Sessions) (lease : SessionLease)
    (r : SessionRecord) (asked answered : Text)
    → lookup lease.session_id sessions ≡ some r
    → holds_lease r lease ≡ false
    → (e : SessionError) × (commit_turn l c sessions lease asked answered ≡ (sessions, err e))
commit-refused l c sessions lease r asked answered h stale =
    go (validate_content asked l.max_message_bytes false) refl
      (validate_content answered l.max_message_bytes false) refl
  where
    go :
        (a : Result SessionError (Unit {0}))
        → validate_content asked l.max_message_bytes false ≡ a
        → (b : Result SessionError (Unit {0}))
        → validate_content answered l.max_message_bytes false ≡ b
        → (e : SessionError) × (commit_turn l c sessions lease asked answered ≡ (sessions, err e))
    go (err e) p b q = (e, commit_invalid l c sessions lease asked answered e (rw p refl))
    go (ok _) p (err e) q = (e, commit_invalid l c sessions lease asked answered e (rw (p, q) refl))
    go (ok _) p (ok _) q =
        (stale_lease, commit_stale l c sessions lease r asked answered h stale p q)

-- The table `now` while the turn that `lease` is for runs, which began in `sessions`.
abbrev pub Running : Sessions → Sessions → Text → SessionLease → Type 0
Running sessions now id lease =
    (reset now id ≡ (now, err busy))
    × ((other : Text)
        → (validate_id id >> validate_id other) ≡ ok tt
        → begin_turn now id other ≡ (now, err busy))
    × ((forged : SessionLease)
        → forged.session_id ≡ id
        → forged.run_id ≢ lease.run_id
        → (abort_turn now forged ≡ (now, err stale_lease))
          × ((l : SessionStoreLimits) (c : MemoryCompactor) (asked answered : Text)
              → (e : SessionError) × (commit_turn l c now forged asked answered ≡ (now, err e))))
    × (lookup id (abort_turn now lease).0 ≡ lookup id sessions)
    × ((abort_turn now lease).1 ≡ ok tt)

idle-record :
    (r : SessionRecord) → is_some r.active_run ≡ false → record r { active_run = none } ≡ r
unfolding is_some
idle-record r h = ground arith

holds_own :
    (id run_id : Text) (r : SessionRecord)
    → holds_lease (record r { active_run = some run_id }) (lease_on id run_id r) ≡ true
unfolding holds_lease
holds_own id run_id r = ground (arith, text_eq_iff run_id run_id)

not_held :
    (run_id : Text) (r : SessionRecord) (lease : SessionLease)
    → lease.run_id ≢ run_id
    → holds_lease (record r { active_run = some run_id }) lease ≡ false
unfolding holds_lease
not_held run_id r lease h = ground (arith, text_eq_iff run_id lease.run_id)

running :
    (sessions now : Sessions) (id run_id : Text) (r : SessionRecord)
    → lookup id sessions ≡ some r
    → is_some r.active_run ≡ false
    → lookup id now ≡ some (record r { active_run = some run_id })
    → Running sessions now id (lease_on id run_id r)
running sessions now id run_id r h idle here =
    let marked : SessionRecord = record r { active_run = some run_id } in
    let (no_reset, no_begin) = active-refuses now id marked here (unfold is_some in refl) in
    let aborted = abort_held now (lease_on id run_id r) marked here (holds_own id run_id r) in
    (
      no_reset,
      no_begin,
      λ forged e other.
          let stale = not_held run_id r forged other in
          let found = ap (λ k. lookup k now) e ∙ here in
          (
            abort_stale now forged marked found stale,
            λ l c asked answered. commit-refused l c now forged marked asked answered found stale,
          ),
      ap (λ p. lookup id p.0) aborted
          ∙ lookup-insert_self id (record r { active_run = none }) now
          ∙ ap some (idle-record r idle)
          ∙ sym h,
      ap (λ p. p.1) aborted,
    )

-- A turn that began excludes others: in the table it left and in every table that has the same
-- record of the session, the session can be neither reset nor, under valid identifiers, begun
-- again, and a lease of another run on it neither aborts nor commits; such calls change nothing.
-- The turn's own lease aborts it, and the session is then as it was before the turn.
pub begin_turn-Running :
    (sessions during now : Sessions) (id run_id : Text) (lease : SessionLease)
    → begin_turn sessions id run_id ≡ (during, ok lease)
    → lookup id now ≡ lookup id during
    → Running sessions now id lease
begin_turn-Running sessions during now id run_id lease h same =
    elim (begin_turn-Begun sessions id run_id) [
      | inl (e, refused) ↦ absurd (cc)
      | inr (r, found, idle, begun) ↦
          let both = sym begun ∙ h in
          let marked : SessionRecord = record r { active_run = some run_id } in
          let there : insert id marked sessions ≡ during = ap (λ p. p.0) both in
          let own : lease_on id run_id r ≡ lease = ground (arith, ap (λ p. p.1) both) in
          let here = same ∙ ap (lookup id) (sym there) ∙ lookup-insert_self id marked sessions in
          subst (Running sessions now id) own (running sessions now id run_id r found idle here)
    ]
