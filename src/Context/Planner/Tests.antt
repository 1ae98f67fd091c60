-- ===== src/Context/Planner/Tests.antt =====
-- context.rs: a plan that has to give up what was retrieved.
use git_client.Prelude.{
  ℕ, ◌*◌, ◌≡◌, refl, true, false, List, [], ◌∷◌, none, some, codes, length, Result, ok,
}
use git_client.Session.{AgentSession}
use git_client.Session.Store.{is_id_byte}
use git_client.Goal.Model.{TranscriptItem, system, user_text}
use git_client.Context.{
  ContextLimits, ContextError, PlannedContext, ProviderDescriptor, RagChunk, Scores, Json,
  RequestTokenEstimator, validate_chunk, build_transcript, retrieval_items, memory_items, systems,
  others, message_item,
}
use git_client.Context.Planner.{
  context_window, checked_sub, input_budget, retrieval_bytes, fitting, last_bytes, admitted,
  without_chunk, shorten_from, shorten, draft_transcript, plan_loop, prepared, first_draft, plan,
}
use git_client.Context.Planner.Termination.{plan-some}
use git_client.Context.Planner.Planned.{IsPlanned, plan-IsPlanned}

abbrev json : Json ℕ
json = record {
  of_calls = λ c. some (codes "[]");
  of_tools = λ t. some (codes "[]");
  of_value = λ v. some (codes "0");
  of_chunks = λ c. some (codes "[{}]");
}

abbrev scores : Scores ℕ
scores = record { is_finite = λ s. true; is_negative = λ s. false }

abbrev ten_each : RequestTokenEstimator ℕ
ten_each provider transcript tools schema = length transcript * 10

abbrev limits : ContextLimits
limits = record {
  explicit_context_tokens = some 60;
  safety_margin_tokens = 10;
  reserved_output_tokens = 20;
  max_compacted_memory_bytes = 64;
  max_rag_chunks = 2;
  max_rag_chunk_bytes = 100;
  max_rag_bytes = 100;
}

abbrev provider : ProviderDescriptor
provider = record { provider_id = codes "p"; model_id = codes "m"; context_window_tokens = 50 }

abbrev session : AgentSession
session = record {
  session_id = codes "s";
  revision = 0;
  system_instruction = codes "help";
  memory_summary = none;
  recent_messages = [];
}

abbrev chunk : RagChunk ℕ
chunk = record { id = codes "c"; source = codes "file"; content = codes "text"; score = 1 }

abbrev question : List (TranscriptItem ℕ)
question = user_text (codes "why?") ∷ []

abbrev answer_plan : PlannedContext ℕ
answer_plan = record {
  transcript = system (codes "help") ∷ user_text (codes "why?") ∷ [];
  estimated_input_tokens = 20;
  retrieval_count = 0;
  compacted_tool_results = 0;
}

retrieval_given_up :
    plan json scores ten_each limits provider session question
      (chunk ∷ chunk ∷ chunk ∷ [])
      []
      none
      5
    ≡ some (ok answer_plan)
unfolding plan prepared context_window input_budget checked_sub admitted retrieval_bytes fitting
    last_bytes first_draft plan_loop draft_transcript shorten shorten_from without_chunk
    validate_chunk build_transcript retrieval_items memory_items systems others message_item
    is_id_byte
retrieval_given_up = refl

plan-some_example :
    (r : Result ContextError (PlannedContext ℕ)) × (plan json scores ten_each limits provider
        session question
        (chunk ∷ [])
        []
        none
        5
      ≡ some r)
plan-some_example =
    plan-some json scores ten_each limits provider session question (chunk ∷ []) [] none 5

plan-IsPlanned_example :
    IsPlanned limits provider session question 5 (λ t. ten_each provider t [] none) answer_plan
plan-IsPlanned_example =
    plan-IsPlanned json scores ten_each limits provider session question
      (chunk ∷ chunk ∷ chunk ∷ []) [] none 5 answer_plan retrieval_given_up
