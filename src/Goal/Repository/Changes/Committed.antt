-- ===== src/Goal/Repository/Changes/Committed.antt =====
-- goal.rs: what the commit of a goal's result leaves.
use git_client.Prelude.{
  ℕ, ◌+◌, ◌-◌, ◌≡◌, ◌≤◌, ◌<◌, refl, ap, ◌∙◌, true, false, none, some, Text, inl, inr, Bool-cases,
  List, [], ◌∷◌, ◌++◌, All, map, length, drop, length-append, length-drop, drop-append_left, ltb,
  ok, arith, lookup, lookup-insert_self, max_u64,
}
use git_client.Session.{user, assistant, SessionMessage}
use git_client.Goal.Budget.{no_usage}
use git_client.Goal.Model.{
  is_terminal, completed, SteeringMessage, WorkingEvidence, AgentGoal, AgentGoalResult,
  DurableAgentSession, clear_active_working_data, cleared_message, without_content,
  reset_slice_counters,
}
use git_client.Goal.Repository.{GoalPersistence, GoalRepository, Written, saved, snapshot}
use git_client.Goal.Repository.Sessions.{after, on_session-some}
use git_client.Goal.Repository.Changes.{recent, resolved, committed, commit_in, commit_goal_result}

abbrev pub turn : Text → Text → List SessionMessage
turn asked answered =
    record { role = user; content = asked } ∷ record { role = assistant; content = answered } ∷ []

-- The last sixteen messages end with the turn.
recent-turn :
    (ms : List SessionMessage) (asked answered : Text)
    → (front : List SessionMessage) × (recent ms asked answered ≡ front ++ turn asked answered)
      × (length (recent ms asked answered) ≤ 16)
unfolding recent
recent-turn ms asked answered = elim (Bool-cases (ltb 16 (length (ms ++ turn asked answered)))) [
  | inl b ↦ (
    drop (length (ms ++ turn asked answered) - 16) ms,
    rw b (drop-append_left _ ms (turn asked answered) (omega (arith, size))),
    rw b (
        omega (
          arith,
          length-drop (length (ms ++ turn asked answered) - 16) (ms ++ turn asked answered),
        )),
  )
  | inr b ↦ (ms, rw b refl, rw b (ground arith))
]
  where
    size : length (ms ++ turn asked answered) ≡ length ms + 2
    size = length-append ms (turn asked answered)

All-cleared :
    (ms : List SteeringMessage)
    → All (λ m. (m.content ≡ []) × (m.injected ≡ true)) (map cleared_message ms)
unfolding cleared_message
All-cleared [] = tt
All-cleared (m ∷ ms) = ((refl, refl), All-cleared ms)

All-without : (es : List WorkingEvidence) → All (λ e. e.content ≡ none) (map without_content es)
unfolding without_content
All-without [] = tt
All-without (e ∷ es) = (refl, All-without es)

-- The goal `g` ended with `result`: what was spent, the receipts and the counts of the whole run
-- stay; the working data and the counters of the slice are gone.
pub record IsCompleted {V : Type 0} (g : AgentGoal V) (result : AgentGoalResult) (g' : AgentGoal V)
    : Type 0 where
  pub status : g'.status ≡ completed
  pub with_result : g'.result ≡ some result
  pub revision : g'.revision ≡ g.revision + 1
  pub spendings : g'.usage_by_model ≡ g.usage_by_model
  pub receipts : g'.checkpoint.receipts ≡ g.checkpoint.receipts
  pub intents : g'.checkpoint.pending_intents ≡ []
  pub transcript : g'.checkpoint.recent_transcript ≡ []
  pub summary : g'.checkpoint.working_summary ≡ []
  pub actions : g'.checkpoint.next_actions ≡ []
  pub gaps : g'.checkpoint.verifier_gaps ≡ []
  pub slice_usage : g'.checkpoint.slice_usage ≡ no_usage
  pub slice_active_ms : g'.checkpoint.slice_active_ms ≡ 0
  pub slice_bytes : g'.checkpoint.slice_tool_result_bytes ≡ 0
  pub candidate : g'.completion_candidate ≡ none
  pub unpaused : g'.pause_reason ≡ none
  pub unblocked : g'.block_reason ≡ none
  pub steering : All (λ m. (m.content ≡ []) × (m.injected ≡ true)) g'.steering_messages
  pub evidence : All (λ e. e.content ≡ none) g'.checkpoint.evidence

-- The session `s` with its goal `g` ended.
pub record IsCommitted {V : Type 0} (s : DurableAgentSession V) (g : AgentGoal V)
    (result : AgentGoalResult) (next : DurableAgentSession V) : Type 0 where
  pub goal : AgentGoal V
  pub active : next.active_goal ≡ some goal
  pub is_completed : IsCompleted g result goal
  pub revision : next.revision ≡ s.revision + 1
  pub front : List SessionMessage
  pub messages : next.recent_messages ≡ front ++ turn g.objective result.text
  pub bounded : length next.recent_messages ≤ 16

snapshot-after :
    {V D A : Type 0} (r : GoalRepository V D) (id : Text) (w : Written V D A)
    → snapshot (after r id w) id ≡ ok w.session
unfolding snapshot
snapshot-after r id w = rw (lookup-insert_self id w.session r.sessions) refl

module _ {V D : Type 0} (p : GoalPersistence V D) where
  committed-IsCommitted :
      (s : DurableAgentSession V) (g : AgentGoal V) (result : AgentGoalResult) (now : ℕ)
      → IsCommitted s g result (record (committed s g result now) { revision = s.revision + 1 })
  unfolding committed resolved clear_active_working_data reset_slice_counters
  committed-IsCommitted s g result now =
      let (front, e, b) = recent-turn s.recent_messages g.objective result.text in
      record {
        goal = _;
        active = refl;
        is_completed = record {
          status = refl;
          with_result = refl;
          revision = refl;
          spendings = refl;
          receipts = refl;
          intents = refl;
          transcript = refl;
          summary = refl;
          actions = refl;
          gaps = refl;
          slice_usage = refl;
          slice_active_ms = refl;
          slice_bytes = refl;
          candidate = refl;
          unpaused = refl;
          unblocked = refl;
          steering = All-cleared g.steering_messages;
          evidence = All-without g.checkpoint.evidence;
        };
        revision = refl;
        front = front;
        messages = e;
        bounded = b;
      }

  commit_in-ok :
      (result : AgentGoalResult) (now : ℕ) (d : D) (s : DurableAgentSession V) (g : AgentGoal V)
      → s.active_goal ≡ some g
      → is_terminal g.status ≡ false
      → g.revision < max_u64
      → s.revision < max_u64
      → ((x : DurableAgentSession V) → (p.save d x).1 ≡ ok tt)
      → let next = record (committed s g result now) { revision = s.revision + 1 } in
        commit_in p result now d s
        ≡ record { disk = (p.save d next).0; session = next; result = ok next }
  unfolding commit_in saved
  commit_in-ok result now d s g a t h k accepts =
      let next : DurableAgentSession V = record (committed s g result now) {
        revision = s.revision + 1;
      } in
      ground (arith, accepts next)

  -- A goal that has not ended and whose session is loaded is ended by `commit_goal_result`, if the
  -- storage takes the write and neither revision is the last `u64`: the session returned is the one
  -- in the table, its goal is completed with the result, both revisions go up by one, spendings and
  -- receipts stay; pending intents, transcript, summary, next actions, verifier gaps, completion
  -- candidate, reasons of a pause or a block, the counters of the slice and the contents of steering
  -- messages and evidence are cleared; and the last of at most sixteen messages are the goal's turn.
  pub commit_goal_result-IsCommitted :
      (r : GoalRepository V D) (id : Text) (result : AgentGoalResult) (now : ℕ)
      (s : DurableAgentSession V) (g : AgentGoal V)
      → lookup id r.sessions ≡ some s
      → s.active_goal ≡ some g
      → is_terminal g.status ≡ false
      → g.revision < max_u64
      → s.revision < max_u64
      → ((x : DurableAgentSession V) → (p.save r.persistence x).1 ≡ ok tt)
      → (next : DurableAgentSession V) × ((commit_goal_result p r id result now).1 ≡ ok next)
        × (snapshot (commit_goal_result p r id result now).0 id ≡ ok next)
        × IsCommitted s g result next
  unfolding commit_goal_result
  commit_goal_result-IsCommitted r id result now s g l a t h k accepts =
      let q = on_session-some p r id (commit_in p result now) s l in
      let w = commit_in-ok result now r.persistence s g a t h k accepts in
      (
        _,
        ap (λ q. q.1) q ∙ ap (λ w. w.result) w,
        ap (λ q. snapshot q.0 id) q
            ∙ snapshot-after r id (commit_in p result now r.persistence s)
            ∙ ap (λ w. ok w.session) w,
        committed-IsCommitted s g result now,
      )
