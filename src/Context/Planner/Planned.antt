-- ===== src/Context/Planner/Planned.antt =====
-- context.rs: what a plan keeps to.
use git_client.Prelude.{
  ℕ, zero, suc, ◌+◌, ◌-◌, ◌≤◌, ◌≡◌, ap, inl, inr, List, ◌∷◌, ◌++◌, map, Option, some, length, take,
  length-take, get_elem?, max, ltb, ok, Bool-cases, Result-cases, arith,
}
use git_client.Session.{AgentSession}
use git_client.ToolRuntime.{ToolDefinition}
use git_client.Goal.Model.{TranscriptItem, system}
use git_client.Context.{
  ContextLimits, PlannedContext, ProviderDescriptor, RagChunk, Scores, Json, RequestTokenEstimator,
  others, systems, build_transcript, retrieval_items, memory_items, message_item,
}
use git_client.Context.Planner.{
  Draft, context_window, checked_sub, input_budget, retrieval_bytes, fitting, last_bytes, admitted,
  draft_transcript, prepared, first_draft, plan,
}
use git_client.Context.Planner.Turn.{Keeps}
use git_client.Context.Planner.Limits.{plan_loop-IsMade}

-- What a plan keeps to.
pub record IsPlanned {V : Type 0} (limits : ContextLimits) (provider : ProviderDescriptor)
    (session : AgentSession) (current_turn : List (TranscriptItem V)) (max_output_tokens : ℕ)
    (estimate : List (TranscriptItem V) → ℕ) (c : PlannedContext V) : Type 0 where
  pub estimated : c.estimated_input_tokens ≡ estimate c.transcript
  pub window : ℕ
  pub known :
      context_window provider.context_window_tokens limits.explicit_context_tokens ≡ ok window
  pub room :
      c.estimated_input_tokens
        + max max_output_tokens limits.reserved_output_tokens
        + limits.safety_margin_tokens
      ≤ window
  pub chunks : c.retrieval_count ≤ limits.max_rag_chunks
  pub kept : List (TranscriptItem V)
  pub keeps : Keeps current_turn kept
  pub front : List (TranscriptItem V)
  pub shape : c.transcript ≡ system session.system_instruction ∷ (front ++ others kept)

input_budget-le :
    (l : ContextLimits) (window max_output_tokens budget : ℕ)
    → input_budget l window max_output_tokens ≡ ok budget
    → budget + max max_output_tokens l.reserved_output_tokens + l.safety_margin_tokens ≤ window
unfolding input_budget checked_sub
input_budget-le l window max_output_tokens budget h = ground arith

build_transcript-shape :
    {V S : Type 0} (json : Json V) (session : AgentSession) (d : Draft V S)
    (t : List (TranscriptItem V))
    → draft_transcript json session d ≡ ok t
    → (front : List (TranscriptItem V)) × (t
        ≡ system session.system_instruction ∷ (front ++ others d.current))
unfolding draft_transcript build_transcript
build_transcript-shape {V} json session d t h =
    elim (Result-cases (retrieval_items json d.retrieval)) [
      | inl (e, r) ↦ absurd (ground arith)
      | inr (retrieved, r) ↦ (
        memory_items d.memory ++ retrieved ++ systems d.current ++ map message_item d.history,
        ground arith,
      )
    ]

module _ {S : Type 0} (scores : Scores S) (limits : ContextLimits) where
  fitting-length :
      (n : ℕ) (chunks : List (RagChunk S)) (bytes : ℕ) (out : List (RagChunk S))
      → fitting scores limits n chunks bytes ≡ ok out
      → length out ≤ length chunks
  unfolding fitting
  fitting-length zero chunks bytes out h = ground arith
  fitting-length (suc n) chunks bytes out h = elim (Bool-cases (ltb limits.max_rag_bytes bytes)) [
    | inl o ↦ omega (
      arith,
      length-take n chunks,
      fitting-length n (take n chunks) (bytes - last_bytes scores limits (get_elem? chunks n)) out
          (ground arith),
    )
    | inr o ↦ ground arith
  ]

  admitted-length :
      (retrieval out : List (RagChunk S))
      → admitted scores limits retrieval ≡ ok out
      → length out ≤ limits.max_rag_chunks
  unfolding admitted
  admitted-length retrieval out h =
      elim (Result-cases (retrieval_bytes scores limits 0 (take limits.max_rag_chunks retrieval))) [
        | inl (e, b) ↦ absurd (ground arith)
        | inr (bytes, b) ↦ omega (
          arith,
          length-take limits.max_rag_chunks retrieval,
          fitting-length (length (take limits.max_rag_chunks retrieval))
              (take limits.max_rag_chunks retrieval) bytes out (ground arith),
        )
      ]

module _ {V S : Type 0} (json : Json V) (scores : Scores S)
    (estimator : RequestTokenEstimator V) where
  prepared-ok :
      (limits : ContextLimits) (provider : ProviderDescriptor) (retrieval : List (RagChunk S))
      (max_output_tokens budget : ℕ) (chunks : List (RagChunk S))
      → prepared json scores estimator limits provider retrieval max_output_tokens
        ≡ ok (budget, chunks)
      → (window : ℕ) × (context_window provider.context_window_tokens limits.explicit_context_tokens
          ≡ ok window)
        × (input_budget limits window max_output_tokens ≡ ok budget)
        × (admitted scores limits retrieval ≡ ok chunks)
  unfolding prepared
  prepared-ok limits provider retrieval max_output_tokens budget chunks h =
      elim (Result-cases
        (context_window provider.context_window_tokens limits.explicit_context_tokens)) [
          | inl (e, w) ↦ absurd (ground arith)
          | inr (window, w) ↦ (window, w, ground arith, ground arith)
        ]

  -- A plan fits: its estimate, together with the output tokens reserved and the safety margin, is
  -- within the context window, and it has no more chunks than allowed. And it is true to the turn:
  -- it starts with the session's system instruction and ends with the other items of the current
  -- turn, in their order and as they were, but for the contents of tool results, of which a shorter
  -- marker may have taken the place.
  pub plan-IsPlanned :
      (limits : ContextLimits) (provider : ProviderDescriptor) (session : AgentSession)
      (current_turn : List (TranscriptItem V)) (retrieval : List (RagChunk S))
      (tools : List ToolDefinition) (schema : Option V) (max_output_tokens : ℕ)
      (c : PlannedContext V)
      → plan json scores estimator limits provider session current_turn retrieval tools schema
          max_output_tokens
        ≡ some (ok c)
      → IsPlanned limits provider session current_turn max_output_tokens
          (λ t. estimator provider t tools schema)
          c
  unfolding plan first_draft
  plan-IsPlanned limits provider session current_turn retrieval tools schema max_output_tokens c h =
      elim (Result-cases
        (prepared json scores estimator limits provider retrieval max_output_tokens)) [
          | inl (e, q) ↦ absurd (ground arith)
          | inr ((budget, chunks), q) ↦
              let (window, w, b, a) =
                prepared-ok limits provider retrieval max_output_tokens budget chunks q in
              let m =
                plan_loop-IsMade json limits session (λ t. estimator provider t tools schema) budget
                  (suc (length session.recent_messages + length chunks + length current_turn))
                  (first_draft json scores estimator session current_turn chunks) c
                  (ground arith) in
              let (front, s) =
                build_transcript-shape json session m.final c.transcript m.transcript in
              let e = ap (λ c. c.estimated_input_tokens) m.made in
              let n = ap (λ c. c.retrieval_count) m.made in
              record {
                estimated = e;
                window = window;
                known = w;
                room =
                    omega
                      (arith, e, m.fits, input_budget-le limits window max_output_tokens budget b);
                chunks =
                    omega (
                      arith,
                      n,
                      m.shorter.chunks,
                      admitted-length scores limits retrieval chunks a,
                    );
                kept = m.final.current;
                keeps = m.shorter.turn;
                front = front;
                shape = s;
              }
        ]
