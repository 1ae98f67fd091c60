-- ===== src/Goal/Repository/Changes/Tests.antt =====
-- goal.rs: the repository over a storage that is a table, and over one that takes no write.
use git_client.Prelude.{
  ℕ, ◌≡◌, refl, true, false, none, some, Text, codes, text_eq, List, [], ◌∷◌, All, Map, Result, ok,
  err, arith, lookup, insert, trim_start, is_whitespace,
}
use git_client.Goal.{GoalError, revision_conflict, storage_unavailable, validate_content}
use git_client.Goal.Budget.{no_usage, tokens, AgentBudgetAccount}
use git_client.Goal.Model.{
  AgentGoal, AgentGoalResult, DurableAgentSession, completed, prepare_for_restart,
}
use git_client.Goal.Repository.{
  GoalPersistence, GoalRepository, saved, on_session, new_goal, snapshot,
}
use git_client.Goal.Repository.Changes.{
  mutate_goal, mutate_in, mutated, counted, steer, steered, commit_goal_result, restart_in,
  restart_all, prepare_loaded_sessions_for_restart,
}
use git_client.Goal.Repository.Changes.Calls.{
  Call, steers, commits, resets, restarts, mutates_current, call, calls,
}
use git_client.Goal.Repository.Changes.Locking.{mutate_goal-twice}
use git_client.Goal.Repository.Changes.Failures.{IsRestoring, call-Restores}
use git_client.Goal.Repository.Changes.Finality.{goal_of, Spares, calls-goal_of}
use git_client.Goal.Repository.Changes.Committed.{IsCommitted, commit_goal_result-IsCommitted}
use git_client.Goal.Repository.Changes.Restart.{Rests, restart-Rests}

abbrev Disk : Type 0
Disk = Map (DurableAgentSession ℕ)

abbrev without : Text → Disk → Disk
without id [] = []
without id ((j, s) ∷ d) = elim (text_eq j id) [ true ↦ d | false ↦ (j, s) ∷ without id d ]

abbrev storage : GoalPersistence ℕ Disk
storage = record {
  load = λ d id. ok (lookup id d);
  save = λ d s. (insert s.session_id s d, ok tt);
  remove = λ d id. (without id d, ok tt);
}

abbrev broken : GoalPersistence ℕ Disk
broken = record storage { save = λ d s. (d, err storage_unavailable) }

abbrev account : AgentBudgetAccount
account = record {
  model_id = codes "m";
  usage = no_usage;
  price = none;
  limit = tokens 1000;
  spent_micros = 0;
}

abbrev goal : AgentGoal ℕ
goal = new_goal (codes "s") (codes "r") (codes "g") (codes "tidy") (codes "m") account (codes "d") 5

abbrev session : DurableAgentSession ℕ
session = record {
  format_version = 1;
  session_id = codes "s";
  repository_identity = codes "r";
  revision = 1;
  memory_summary = none;
  recent_messages = [];
  active_goal = some goal;
}

abbrev repository : GoalRepository ℕ Disk
repository = record { persistence = []; sessions = (codes "s", session) ∷ [] }

abbrev answer : AgentGoalResult
answer = record { text = codes "done"; committed_at_ms = 6; verifier = none }

-- Renaming the objective, with the goal's revision left alone.
abbrev rename : Text → AgentGoal ℕ → AgentGoal ℕ × Result GoalError ℕ
rename name g = (record g { objective = name }, ok 1)

renamed : (mutate_goal storage repository (codes "s") 0 6 (rename (codes "a"))).1 ≡ ok 1
unfolding mutate_goal on_session mutate_in mutated counted saved new_goal lookup
renamed = refl

mutate_goal-twice_example :
    let r' = (mutate_goal storage repository (codes "s") 0 6 (rename (codes "a"))).0 in
    mutate_goal storage r' (codes "s") 0 7 (rename (codes "b")) ≡ (r', err revision_conflict)
mutate_goal-twice_example =
    mutate_goal-twice storage repository (codes "s") 0 6 7 (rename (codes "a")) (rename (codes "b"))
      1 (λ g. refl) renamed

not_saved :
    (call broken repository (steers (codes "s") 0 (codes "faster") 6)).1 ≡ err storage_unavailable
unfolding call steer validate_content mutate_goal on_session mutate_in mutated steered counted saved
    new_goal trim_start is_whitespace lookup
not_saved = refl

call-Restores_example :
    (call broken repository (steers (codes "s") 0 (codes "faster") 6)).0.sessions
    ≡ repository.sessions
unfolding IsRestoring
call-Restores_example =
    call-Restores broken repository (steers (codes "s") 0 (codes "faster") 6) storage_unavailable tt
      not_saved (λ e. absurd (cc))

commit_goal_result-IsCommitted_example :
    (next : DurableAgentSession ℕ) × ((commit_goal_result storage repository (codes "s") answer 6).1
      ≡ ok next)
    × (snapshot (commit_goal_result storage repository (codes "s") answer 6).0 (codes "s")
        ≡ ok next)
    × IsCommitted session goal answer next
unfolding new_goal lookup
commit_goal_result-IsCommitted_example =
    commit_goal_result-IsCommitted storage repository (codes "s") answer 6 session goal refl refl
      refl (omega arith) (omega arith) (λ x. refl)

abbrev ended : AgentGoal ℕ
ended = record goal { status = completed; result = some answer }

abbrev ended_repository : GoalRepository ℕ Disk
ended_repository = record {
  persistence = [];
  sessions = (codes "s", record session { active_goal = some ended }) ∷ [];
}

abbrev later : List (Call ℕ)
later =
    steers (codes "s") 0 (codes "more") 7
    ∷ resets (codes "t")
    ∷ commits (codes "s") answer 8
    ∷ mutates_current (codes "t") 8 (λ g. (g, ok tt))
    ∷ restarts 9
    ∷ []

calls-goal_of_example :
    goal_of (codes "s") (calls storage ended_repository later).sessions ≡ some ended
unfolding lookup Spares
calls-goal_of_example =
    calls-goal_of storage ended_repository later (codes "s") ended
      (tt, (refl, (tt, (refl, (tt, tt))))) refl refl

restarted : (prepare_loaded_sessions_for_restart storage repository 9).1 ≡ ok tt
unfolding prepare_loaded_sessions_for_restart restart_all restart_in saved prepare_for_restart
    new_goal
restarted = refl

restart-Rests_example :
    All
      (λ q. Rests q.1.active_goal)
      (prepare_loaded_sessions_for_restart storage repository 9).0.sessions
restart-Rests_example = restart-Rests storage repository 9 restarted
