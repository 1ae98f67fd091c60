-- ===== src/Session/Store/Tests.antt =====
-- Tests of session.rs, and the theorems on a concrete store.
use git_client.Prelude.{
  ok_or, ◌>>=◌, ◌≡◌, refl, ap, arith, true, false, List, [], ◌∷◌, none, some, Text, codes, ok, err,
  lookup, insert, trim_start, is_whitespace,
}
use git_client.Session.{
  not_found, user, assistant, SessionMessage, AgentSession, SessionLease, SessionError,
  MemoryCompactor, SessionStoreLimits, default_limits, rejects_limits, capacity, max_u64,
}
use git_client.Session.Compactor.Extractive.{extractive}
use git_client.Session.Store.{
  SessionRecord, Sessions, Call, creates, resets, begins, commits, aborts, step, run, create, get,
  begin_turn, commit_turn, holds_lease, validate_content, reset, abort_turn, after_ids, validate_id,
  is_id_byte, on_record, checked, present, begin_record, is_some, new_session, store_session,
  commit_record, ensure_lease, next_revision, next_session, shrink, summarize, over_limits,
  message_bytes, bytes_from, cleared, reset_record, abort_record,
}
use git_client.Session.Store.Invariant.{Inv, run-Inv}
use git_client.Session.Store.Leases.{Running, begin_turn-Running}
use git_client.Session.Store.Commit.{Committed, commit_turn-Committed}
use git_client.Session.Store.Failures.{Unchanged, emptied, IsSpent, FailedReset, failures}

-- One turn is kept; an older one goes to the summary.
abbrev tight : SessionStoreLimits
tight = record {
  max_sessions = 2;
  max_system_bytes = 64;
  max_message_bytes = 16;
  max_recent_messages = 2;
  max_recent_bytes = 32;
  max_summary_bytes = 64;
}

-- A compactor that says little.
abbrev brief : MemoryCompactor
brief existing messages max_bytes = ok (codes "they spoke")

accepted : rejects_limits tight ≡ false
unfolding rejects_limits
accepted = refl

abbrev initial : Sessions
initial = (create tight [] (codes "s1") (codes "be brief")).0

abbrev begun : Sessions
begun = (begin_turn initial (codes "s1") (codes "r1")).0

abbrev fresh : AgentSession
fresh = record {
  session_id = codes "s1";
  revision = 0;
  system_instruction = codes "be brief";
  memory_summary = none;
  recent_messages = [];
}

abbrev first_lease : SessionLease
first_lease = record {
  session_id = codes "s1";
  run_id = codes "r1";
  base_revision = 0;
  snapshot = fresh;
}

abbrev two_turns : List Call
two_turns =
    creates (codes "s1") (codes "be brief")
    ∷ begins (codes "s1") (codes "r1")
    ∷ commits first_lease (codes "one") (codes "uno")
    ∷ begins (codes "s1") (codes "r2")
    ∷ []

-- The second turn under way, on a session with one turn in its memory.
abbrev later : SessionRecord
later = record {
  session = record {
    session_id = codes "s1";
    revision = 1;
    system_instruction = codes "be brief";
    memory_summary = none;
    recent_messages =
        record { role = user; content = codes "one" }
        ∷ record { role = assistant; content = codes "uno" }
        ∷ [];
  };
  active_run = some (codes "r2");
}

abbrev second_lease : SessionLease
second_lease = record {
  session_id = codes "s1";
  run_id = codes "r2";
  base_revision = 1;
  snapshot = later.session;
}

under_way : run tight brief [] two_turns ≡ (codes "s1", later) ∷ []
unfolding run step create begin_turn commit_turn abort_turn reset after_ids validate_id is_id_byte
    on_record lookup git_client.Session.Store.created checked validate_content present insert
    begin_record is_some new_session trim_start is_whitespace store_session commit_record
    ensure_lease holds_lease next_revision next_session shrink summarize over_limits message_bytes
    bytes_from cleared reset_record abort_record
under_way = refl

held : holds_lease later second_lease ≡ true
unfolding holds_lease
held = refl

Valid : (t : Text) → Type 0
Valid t = validate_content t 16 false ≡ ok tt

Valid-two : (Valid (codes "two")) × (Valid (codes "dos"))
unfolding Valid validate_content trim_start is_whitespace
Valid-two = (refl, refl)

abbrev during : Sessions
during = run tight brief [] two_turns

found : lookup (codes "s1") during ≡ some later
unfolding lookup
found = ap (lookup (codes "s1")) under_way

run-Inv_example : Inv tight during
run-Inv_example = run-Inv tight brief two_turns

began : begin_turn initial (codes "s1") (codes "r1") ≡ (begun, ok first_lease)
unfolding create begin_turn after_ids validate_id is_id_byte on_record lookup
    git_client.Session.Store.created checked validate_content present insert begin_record is_some
    new_session trim_start is_whitespace
began = refl

-- Meanwhile another session is created.
abbrev meanwhile : Sessions
meanwhile = (create tight begun (codes "s2") (codes "be kind")).0

beside : lookup (codes "s1") meanwhile ≡ lookup (codes "s1") begun
unfolding create begin_turn after_ids validate_id is_id_byte on_record lookup
    git_client.Session.Store.created checked validate_content present insert begin_record is_some
    new_session trim_start is_whitespace
beside = refl

begin_turn-Running_example : Running initial meanwhile (codes "s1") first_lease
begin_turn-Running_example =
    begin_turn-Running initial begun meanwhile (codes "s1") (codes "r1") first_lease began beside

commit_turn-Committed_example :
    Committed tight accepted during second_lease later (codes "two") (codes "dos")
unfolding Valid
commit_turn-Committed_example =
    commit_turn-Committed tight accepted during second_lease later (codes "two") (codes "dos")
      (run-Inv tight brief two_turns) found held (omega arith) Valid-two.0 Valid-two.1

-- The second commit folds the first turn into the summary.
folded :
    (commit_turn tight brief during second_lease (codes "two") (codes "dos")).1
    ≡ ok (record {
      session_id = codes "s1";
      revision = 2;
      system_instruction = codes "be brief";
      memory_summary = some (codes "they spoke");
      recent_messages =
          record { role = user; content = codes "two" }
          ∷ record { role = assistant; content = codes "dos" }
          ∷ [];
    })
unfolding run step create begin_turn commit_turn abort_turn reset after_ids validate_id is_id_byte
    on_record lookup git_client.Session.Store.created checked validate_content present insert
    begin_record is_some new_session trim_start is_whitespace store_session commit_record
    ensure_lease holds_lease next_revision next_session shrink summarize over_limits message_bytes
    bytes_from cleared reset_record abort_record
folded = refl

-- The last revision, at which a reset clears the memory and fails.
abbrev spent : Sessions
spent =
    (
      codes "s1",
      record { session = record later.session { revision = max_u64 }; active_run = none },
    )
    ∷ []

failures_example :
    ((id system : Text) → Unchanged spent (create tight spent id system))
    × ((id run_id : Text) → Unchanged spent (begin_turn spent id run_id))
    × ((lease : SessionLease) (asked answered : Text)
        → Unchanged spent (commit_turn tight extractive spent lease asked answered))
    × ((lease : SessionLease) → Unchanged spent (abort_turn spent lease))
    × ((id : Text) (e : SessionError)
        → (reset spent id).1 ≡ err e
        → FailedReset spent id e (reset spent id).0)
    × ((id : Text) (r : SessionRecord)
        → IsSpent spent id r
        → reset spent id ≡ (insert id (emptied r) spent, err capacity))
failures_example = failures tight extractive spent

cleared_and_failed : (reset spent (codes "s1")).1 ≡ err capacity
unfolding reset on_record reset_record cleared is_some lookup insert
cleared_and_failed = refl

read_back : get during (codes "s1") ≡ ok later.session
unfolding get
read_back = ap (λ o. ok_or o not_found >>= λ (r : SessionRecord). ok r.session) found
