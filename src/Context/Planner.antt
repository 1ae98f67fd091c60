-- ===== src/Context/Planner.antt =====
-- context.rs: `ContextPlanner::plan`. Its loop runs on fuel, `none` when that is used up.
pub mod Termination
pub mod Turn
pub mod Limits
pub mod Planned
mod Tests
use git_client.Prelude.{
  ℕ, zero, suc, ◌+◌, ◌-◌, Bool, true, false, not, List, [], ◌∷◌, ◌++◌, Option, none, some, Text,
  len, length, take, get_elem?, min, max, ltb, leb, ◌==◌, if◌then◌else◌, Result, ok, err, ◌>>=◌,
  ◌>>◌, fail_if, ok_or, saturating_add,
}
use git_client.Session.{SessionMessage, AgentSession}
use git_client.Session.Compactor.Extractive.{extractive}
use git_client.ToolRuntime.{ToolDefinition}
use git_client.Goal.Model.{TranscriptItem}
use git_client.Context.{
  ContextLimits, ContextError, unknown_window, exceeded, invalid_retrieval, PlannedContext,
  ProviderDescriptor, RagChunk, Scores, Json, RequestTokenEstimator, validate_chunk,
  build_transcript, compact_oldest_tool_result,
}

-- The window: that of the provider and the explicit one, zero standing for an unknown one.
pub context_window : ℕ → Option ℕ → Result ContextError ℕ
context_window window none = if window == 0 then err unknown_window else ok window
context_window window (some explicit) =
    if window == 0 then ok explicit else ok (min window explicit)

checked_sub : ℕ → ℕ → Option ℕ
checked_sub a b = if leb b a then some (a - b) else none

-- What is left of the window for the input.
pub input_budget : ContextLimits → ℕ → ℕ → Result ContextError ℕ
unfolding checked_sub
input_budget l window max_output_tokens = do
  remaining ← ok_or (checked_sub window (max max_output_tokens l.reserved_output_tokens)) exceeded
  budget ← ok_or (checked_sub remaining l.safety_margin_tokens) exceeded
  fail_if (budget == 0) exceeded
  ok budget

module _ {S : Type 0} (scores : Scores S) (limits : ContextLimits) where
  -- The bytes of the chunks, each of which is validated.
  retrieval_bytes : ℕ → List (RagChunk S) → Result ContextError ℕ
  retrieval_bytes total [] = ok total
  retrieval_bytes total (c ∷ cs) = do
    validate_chunk scores c limits.max_rag_chunk_bytes
    retrieval_bytes (saturating_add total (len c.content)) cs

  last_bytes : Option (RagChunk S) → ℕ
  last_bytes none = 0
  last_bytes (some c) = len c.content

  -- The loop that drops chunks from the end, on the number of chunks left.
  fitting : ℕ → List (RagChunk S) → ℕ → Result ContextError (List (RagChunk S))
  unfolding last_bytes
  fitting zero chunks bytes =
      if ltb limits.max_rag_bytes bytes then err invalid_retrieval else ok chunks
  fitting (suc n) chunks bytes =
      let fewer = fitting n (take n chunks) (bytes - last_bytes (get_elem? chunks n)) in
      if ltb limits.max_rag_bytes bytes then fewer else ok chunks

  pub admitted : List (RagChunk S) → Result ContextError (List (RagChunk S))
  unfolding retrieval_bytes fitting
  admitted retrieval = do
    let chunks = take limits.max_rag_chunks retrieval
    bytes ← retrieval_bytes 0 chunks
    fitting (length chunks) chunks bytes

-- What the loop of `plan` works on.
pub record Draft (V S : Type 0) : Type 0 where
  pub history : List SessionMessage
  pub memory : Option Text
  pub retrieval : List (RagChunk S)
  pub current : List (TranscriptItem V)
  pub compacted_tool_results : ℕ

to_exceeded : {E : Type 0} → Result E Text → Result ContextError Text
to_exceeded (ok s) = ok s
to_exceeded (err e) = err exceeded

module _ {V S : Type 0} where
  without_chunk : Draft V S → Result ContextError (Draft V S)
  without_chunk d = elim d.retrieval [
    | c ∷ cs ↦ ok (record d { retrieval = take (length cs) (c ∷ cs) })
    | [] ↦ elim (compact_oldest_tool_result d.current) [
      | none ↦ err exceeded
      | some current ↦
          ok (record d { current = current; compacted_tool_results = d.compacted_tool_results + 1 })
    ]
  ]

module _ {V S : Type 0} (limits : ContextLimits) where
  remembered :
      Draft V S → Result ContextError Text → List SessionMessage → Result ContextError (Draft V S)
  remembered d (err e) rest = err e
  remembered d (ok memory) rest = ok (record d { memory = some memory; history = rest })

  shorten_from : Draft V S → List SessionMessage → Result ContextError (Draft V S)
  unfolding remembered to_exceeded without_chunk
  shorten_from d (a ∷ b ∷ rest) =
      remembered d
        (to_exceeded (extractive d.memory (a ∷ b ∷ []) limits.max_compacted_memory_bytes)) rest
  shorten_from d (a ∷ []) = without_chunk d
  shorten_from d [] = without_chunk d

  -- The end of a round of the loop, where the transcript did not fit.
  pub shorten : Draft V S → Result ContextError (Draft V S)
  unfolding shorten_from
  shorten d = shorten_from d d.history

pub draft_transcript :
    {V S : Type 0}
    → Json V
    → AgentSession
    → Draft V S
    → Result ContextError (List (TranscriptItem V))
draft_transcript json session d =
    build_transcript json session d.memory d.history d.retrieval d.current

module _ {V S : Type 0} (json : Json V) (limits : ContextLimits) (session : AgentSession)
    (estimate : List (TranscriptItem V) → ℕ) (budget : ℕ) where
  abbrev pub planned : Draft V S → List (TranscriptItem V) → PlannedContext V
  planned d transcript = record {
    transcript = transcript;
    estimated_input_tokens = estimate transcript;
    retrieval_count = length d.retrieval;
    compacted_tool_results = d.compacted_tool_results;
  }

  pub plan_loop : ℕ → Draft V S → Option (Result ContextError (PlannedContext V))
  unfolding draft_transcript
  plan_loop zero d = none
  plan_loop (suc fuel) d = elim (draft_transcript json session d) [
    | err e ↦ some (err e)
    | ok transcript ↦ elim (leb (estimate transcript) budget) [
      | true ↦ some (ok (planned d transcript))
      | false ↦ elim (shorten limits d) [ err e ↦ some (err e) | ok d' ↦ plan_loop fuel d' ]
    ]
  ]

module _ {V S : Type 0} (json : Json V) (scores : Scores S)
    (estimator : RequestTokenEstimator V) where
  -- What `plan` checks before its loop.
  pub prepared :
      ContextLimits
      → ProviderDescriptor
      → List (RagChunk S)
      → ℕ
      → Result ContextError (ℕ × List (RagChunk S))
  prepared limits provider retrieval max_output_tokens = do
    window ← context_window provider.context_window_tokens limits.explicit_context_tokens
    budget ← input_budget limits window max_output_tokens
    chunks ← admitted scores limits retrieval
    ok (budget, chunks)

  pub first_draft : AgentSession → List (TranscriptItem V) → List (RagChunk S) → Draft V S
  first_draft session current_turn chunks = record {
    history = session.recent_messages;
    memory = session.memory_summary;
    retrieval = chunks;
    current = current_turn;
    compacted_tool_results = 0;
  }

  pub plan :
      ContextLimits
      → ProviderDescriptor
      → AgentSession
      → List (TranscriptItem V)
      → List (RagChunk S)
      → List ToolDefinition
      → Option V
      → ℕ
      → Option (Result ContextError (PlannedContext V))
  unfolding prepared first_draft
  plan limits provider session current_turn retrieval tools schema max_output_tokens =
      elim (prepared limits provider retrieval max_output_tokens) [
        | err e ↦ some (err e)
        | ok (budget, chunks) ↦
            plan_loop json limits session (λ t. estimator provider t tools schema) budget
              (suc (length session.recent_messages + length chunks + length current_turn))
              (first_draft session current_turn chunks)
      ]
