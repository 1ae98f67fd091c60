-- ===== src/Lib.antt =====
-- Strata, a desktop Git client: its operation timeline with undo and redo, its commit graph, and
-- the agent in it: sessions with their memory, long-running goals with their budgets, the planning
-- of what a request to a model contains, and the runtime that executes the agent's tools.
--
-- The program. `crates/app-service` binds a repository to a long-lived `RepoContext`, which holds
-- caches and the timeline of the operations made with the tool (`UndoNav`). A write that moves HEAD
-- is recorded there; undo, redo and a jump move the timeline's cursor by resets of the repository,
-- soft or hard by the kind of the operation. What was done before the tool started is read off the
-- reflog, which `crates/git-core/src/undo.rs` classifies. `crates/agent-session` keeps the
-- conversations of the assistant: sessions with a bounded memory, whose old turns go to a summary,
-- and leases that make a turn exclusive. It also keeps the goals that an agent works on over many
-- turns: each has a budget, a checkpoint and a tracker of its progress, and is written to a storage
-- after every change; and it plans the context of each request, which it compacts until it fits the
-- window of the model. `crates/app-service/src/graph.rs` lays the history out in lanes, row by row,
-- and can go on from where it stopped. `crates/review-agent` repeats calls of a model provider that
-- fail, with growing delays. `crates/agent-runtime` executes the calls of tools that a model asks
-- for: under a policy, within the budgets of a run, and with a journal of what each call is about
-- to do.
--
-- The files.
--   Prelude: numbers, lists, text as lists of code points with their UTF-8 lengths, results, maps.
--   GitError: crates/git-core/src/error.rs, `GitError`.
--   Undo: crates/git-core/src/undo.rs, `UndoKind`, `classify_undoable`, `undoable_op_label`.
--   UndoNav: crates/app-service/src/undo_nav.rs, `UndoNav`, one function for each method under its
--     name (`record` is `record_op`, the private `step` is `step_between`). UndoNav/Line is the
--     abstract line of past and future points, UndoNav/Refinement the step from one to the other.
--   RepoContext: crates/app-service/src/repo_context.rs, the methods that walk the timeline or
--     record to it, with `RepoService::reset` of crates/app-service/src/lib.rs; RepoContext/Cache
--     its caches and RepoContext/State what the undo and redo buttons announce (`undo_state`).
--   ToolRuntime: crates/agent-runtime/src/tool_runtime, the data of policy.rs; ToolRuntime/Policy
--     its rules, ToolRuntime/RunLimits the counters of run_limits.rs, ToolRuntime/Truncation and
--     ToolRuntime/Executor the truncation of results and `ToolExecutor::execute` of executor.rs,
--     with the errors of schema.rs in ToolRuntime/Schema.
--   Session: crates/agent-session/src/session.rs, the data; Session/Compactor the extractive
--     compactor and Session/Store the methods of `SessionStore`, with a child for each kind of
--     property.
--   Goal: crates/agent-session/src/goal.rs, the errors and the checks of identifiers and contents.
--     Goal/Budget is `AgentBudgetAccount` and `ModelRequestBudget`, with `ModelUsage` of
--     crates/agent-runtime/src/lib.rs; Goal/Progress is `ProgressTracker`; Goal/Model and
--     Goal/Verdict are the data of a goal and of a durable session, with the methods on them
--     (`AgentCheckpoint::empty` and `DurableAgentSession::new` are `empty_checkpoint` and
--     `new_session`); Goal/Repository and its child Changes are the methods of `GoalRepository`,
--     and the children of Changes the kinds of property.
--   Context: crates/agent-session/src/context.rs, the transcript of a request and the estimate of
--     its tokens, with `validate_chunk` of rag.rs; Context/Planner is `ContextPlanner::plan`.
--   Retry: crates/review-agent/src/provider_retry.rs, `respond_with_retry_and_events_matching`,
--     with `ProviderError` and `RetryPolicy` of crates/agent-runtime/src/lib.rs.
--   Graph: crates/app-service/src/graph.rs, one function for each part of the body of `layout_into`
--     (`layout_row` is one round of its loop), with the rows of
--     crates/ipc-types/src/contracts/git_error.rs.
--
-- How the state corresponds. A method of `GoalRepository` that works on a session in place returns
-- that session as it leaves it, on its error paths too, and the table holds what it leaves. A
-- method on `&mut self`, or on `&self` behind a mutex, takes the state and returns it beside its
-- result; each call is one step, as the mutex makes it (undo and redo take the lock twice, and the
-- calls of a context are modelled one after another). `Result` is `Result` with the error first; a
-- panic of an index is `Outcome.panic` for the timeline and `none` for a slice of text. `u64` and
-- `usize` are natural numbers, with `saturating_add`, `saturating_mul` and `checked_add` written
-- out at 2 ^ 64 - 1, and likewise for `u8`, `u32` and `u128` where the code uses them; a cast `as
-- u32` is `as_u32`. Timestamps are integers, those of goals natural numbers. A hash map is an
-- association list.
--
-- The Git backend is a parameter, a record of the calls that the code makes over any repository
-- type; its failures and its writes are unconstrained where a theorem does not name them. The
-- compactor of a session store is a parameter likewise. What an execution of a tool reads of the
-- clock, the approver, the journal and the handler, which are traits of the source, is a record
-- (`Surroundings`); a `select!` over the cancellation and a timeout ends in one of three ways. The
-- calls of a model provider, the cancellation and the sleeps between them are such a record in
-- Retry. An execution returns its effects in their order, so a theorem on that order holds whatever
-- those answers are. The check of the arguments against a tool's schema and the redaction of
-- secrets are parameters; instants and durations are in nanoseconds. The storage of the goal
-- repository is a parameter with its three calls, and no law is asked of it but where a theorem
-- says that it takes a write. The planner takes the estimator, the JSON encoder of serde_json and
-- the tests on the score of a chunk, an `f32`, as parameters.
--
-- Bounds. Three loops run on fuel. The search for a character boundary (`next_boundary`) makes as
-- many rounds at most as there are bytes behind its start; the equation for `truncate_utf8_suffix`
-- holds with that fuel for all texts, so it is enough. The loop of `plan` has one round more than
-- there are messages, chunks and transcript items, which is enough, since each round gives up one
-- of them. The retry loop has one round more than the attempts allowed, and each round is an
-- attempt. The loop that drops chunks has as many rounds as chunks. A color is looked for among the
-- eight of the palette. The loop of `commit_turn` is structural: each round takes two messages. A
-- number is printed with as many rounds as the number (`decimal`), since each digit divides it by
-- ten.
--
-- Not modelled: the backends over libgit2 and the git program, the cached reads and the writes that
-- record nothing, the agent loop and its tools, the index of retrieved chunks, the schema check,
-- the review agent and its providers, the Tauri commands and the front end. They are I/O, glue or
-- left for later.
pub mod Context
pub mod GitError
pub mod Goal
pub mod Graph
pub mod Prelude
pub mod RepoContext
pub mod Retry
pub mod Session
pub mod ToolRuntime
pub mod Undo
pub mod UndoNav
