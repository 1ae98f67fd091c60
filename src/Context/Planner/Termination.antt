-- ===== src/Context/Planner/Termination.antt =====
-- context.rs: the loop of `plan` ends.
use git_client.Prelude.{
  ℕ, zero, suc, ◌+◌, ◌≤◌, ◌<◌, ◌≡◌, refl, inl, inr, Bool, false, not, ◌&&◌, List, [], ◌∷◌, Option,
  none, some, Text, len, starts_with, length, length-take, ltb, leb, if◌then◌else◌, Result, ok, err,
  Bool-cases, Result-cases, Option-cases, arith,
}
use git_client.Session.{SessionMessage, AgentSession}
use git_client.ToolRuntime.{ToolDefinition}
use git_client.Goal.Model.{
  TranscriptItem, system, user_text, assistant_text, assistant_tool_calls, tool_result,
}
use git_client.Context.{
  ContextLimits, ContextError, PlannedContext, ProviderDescriptor, RagChunk, Scores, Json,
  RequestTokenEstimator, compacted_prefix, compacted_marker, compact_oldest_tool_result,
}
use git_client.Context.Planner.{
  Draft, remembered, without_chunk, shorten_from, shorten, draft_transcript, planned, plan_loop,
  prepared, first_draft, plan,
}

is_open : Text → Bool
is_open content =
    not (starts_with compacted_prefix content) && ltb (len (compacted_marker content)) (len content)

-- The tool results that can still be compacted.
module _ {V : Type 0} where
  open_results : List (TranscriptItem V) → ℕ
  open_results [] = 0
  open_results (tool_result name call_id content counts ∷ items) =
      let rest = open_results items in if is_open content then suc rest else rest
  open_results (item ∷ items) = open_results items

  open_results-le : (items : List (TranscriptItem V)) → open_results items ≤ length items
  unfolding open_results
  open_results-le [] = omega arith
  open_results-le (tool_result name call_id content counts ∷ items) =
      ground (arith, open_results-le items)
  open_results-le (system text ∷ items) = omega (arith, open_results-le items)
  open_results-le (user_text text ∷ items) = omega (arith, open_results-le items)
  open_results-le (assistant_text text ∷ items) = omega (arith, open_results-le items)
  open_results-le (assistant_tool_calls calls ∷ items) = omega (arith, open_results-le items)

marker_closed : (content : Text) → is_open (compacted_marker content) ≡ false
unfolding is_open compacted_marker
marker_closed content = refl

-- What comes before does not count.
behind :
    {V : Type 0} (o : Option (List (TranscriptItem V)))
    (f : List (TranscriptItem V) → List (TranscriptItem V)) (n : ℕ)
    (items' : List (TranscriptItem V))
    → ((xs : List (TranscriptItem V)) → open_results (f xs) ≡ open_results xs)
    → ((xs : List (TranscriptItem V)) → o ≡ some xs → open_results xs < n)
    → (elim o as (λ _. Option (List (TranscriptItem V))) [
      | none ↦ none
      | some rest ↦ some (f rest)
    ])
      ≡ some items'
    → open_results items' < n
behind none f n items' same lt h = absurd (cc)
behind (some xs) f n items' same lt h = ground (arith, same xs, lt xs refl)

compact_oldest-lt :
    {V : Type 0} (items items' : List (TranscriptItem V))
    → compact_oldest_tool_result items ≡ some items'
    → open_results items' < open_results items
unfolding compact_oldest_tool_result open_results is_open
compact_oldest-lt [] items' h = absurd (cc)
compact_oldest-lt (tool_result name call_id content counts ∷ items) items' h =
    elim (Bool-cases (starts_with compacted_prefix content)) [
      | inl p ↦ rw p (
          behind (compact_oldest_tool_result items) (◌∷◌ (tool_result name call_id content counts))
            (open_results items) items' (λ xs. rw p refl) (compact_oldest-lt items) (cc))
      | inr p ↦ elim (Bool-cases (ltb (len (compacted_marker content)) (len content))) [
        | inl s ↦ rw (p, s) (omega (arith, marked (cc)))
        | inr s ↦
            rw (p, s)
              (behind (compact_oldest_tool_result items)
                (◌∷◌ (tool_result name call_id content counts)) (open_results items) items'
                (λ xs. rw (p, s) refl) (compact_oldest-lt items) (cc))
      ]
    ]
  where
    marked :
        some (tool_result name call_id (compacted_marker content) counts ∷ items) ≡ some items'
        → open_results items' ≤ open_results items
    marked e = ground (arith, e)
compact_oldest-lt (system text ∷ items) items' h =
    behind (compact_oldest_tool_result items) (◌∷◌ (system text)) (open_results items) items'
      (λ xs. refl) (compact_oldest-lt items) h
compact_oldest-lt (user_text text ∷ items) items' h =
    behind (compact_oldest_tool_result items) (◌∷◌ (user_text text)) (open_results items) items'
      (λ xs. refl) (compact_oldest-lt items) h
compact_oldest-lt (assistant_text text ∷ items) items' h =
    behind (compact_oldest_tool_result items) (◌∷◌ (assistant_text text)) (open_results items)
      items' (λ xs. refl) (compact_oldest-lt items) h
compact_oldest-lt (assistant_tool_calls calls ∷ items) items' h =
    behind (compact_oldest_tool_result items) (◌∷◌ (assistant_tool_calls calls))
      (open_results items) items' (λ xs. refl) (compact_oldest-lt items) h

module _ {V S : Type 0} where
  -- What the loop can still give up.
  abbrev measure : Draft V S → ℕ
  measure d = length d.history + length d.retrieval + open_results d.current

  without_chunk-measure : (d d' : Draft V S) → without_chunk d ≡ ok d' → measure d' < measure d
  unfolding without_chunk
  without_chunk-measure d d' h = go d.retrieval refl
    where
      go : (cs : List (RagChunk S)) → d.retrieval ≡ cs → measure d' < measure d
      go (c ∷ cs) e = ground (arith, length-take (length cs) (c ∷ cs))
      go [] e = elim (Option-cases (compact_oldest_tool_result d.current)) [
        | inl n ↦ absurd (ground arith)
        | inr (xs, c) ↦ ground (arith, compact_oldest-lt d.current xs c)
      ]

  module _ (limits : ContextLimits) where
    shorten_from-measure :
        (d d' : Draft V S) (h : List SessionMessage)
        → d.history ≡ h
        → shorten_from limits d h ≡ ok d'
        → measure d' < measure d
    unfolding shorten_from remembered
    shorten_from-measure d d' (a ∷ b ∷ rest) e h = ground arith
    shorten_from-measure d d' (a ∷ []) e h = without_chunk-measure d d' h
    shorten_from-measure d d' [] e h = without_chunk-measure d d' h

    shorten-measure : (d d' : Draft V S) → shorten limits d ≡ ok d' → measure d' < measure d
    unfolding shorten
    shorten-measure d d' h = shorten_from-measure d d' d.history refl h

module _ {V S : Type 0} (json : Json V) (limits : ContextLimits) (session : AgentSession)
    (estimate : List (TranscriptItem V) → ℕ) (budget : ℕ) where
  plan_loop-some :
      (fuel : ℕ) (d : Draft V S)
      → measure d < fuel
      → (r : Result ContextError (PlannedContext V)) × (plan_loop json limits session estimate
            budget fuel d
          ≡ some r)
  unfolding plan_loop
  plan_loop-some zero d h = elim h [ ]
  plan_loop-some (suc fuel) d h = elim (Result-cases (draft_transcript json session d)) [
    | inl (e, t) ↦ (err e, ground (arith, t))
    | inr (transcript, t) ↦ elim (Bool-cases (leb (estimate transcript) budget)) [
      | inl b ↦
          (ok (planned json limits session estimate budget d transcript), ground (arith, t, b))
      | inr b ↦ elim (Result-cases (shorten limits d)) [
        | inl (e, s) ↦ (err e, ground (arith, t, b, s))
        | inr (d', s) ↦
            let (r, p) = plan_loop-some fuel d' (omega (arith, shorten-measure limits d d' s, h)) in
            (r, ground (arith, t, b, s, p))
      ]
    ]
  ]

module _ {V S : Type 0} (json : Json V) (scores : Scores S)
    (estimator : RequestTokenEstimator V) where
  -- The planner returns, a plan or an error, whatever its inputs, the estimator and the encoder: the
  -- fuel of its loop, one more than the messages, the chunks and the items together, is enough.
  pub plan-some :
      (limits : ContextLimits) (provider : ProviderDescriptor) (session : AgentSession)
      (current_turn : List (TranscriptItem V)) (retrieval : List (RagChunk S))
      (tools : List ToolDefinition) (schema : Option V) (max_output_tokens : ℕ)
      → (r : Result ContextError (PlannedContext V)) × (plan json scores estimator limits provider
            session current_turn retrieval tools schema max_output_tokens
          ≡ some r)
  unfolding plan first_draft
  plan-some limits provider session current_turn retrieval tools schema max_output_tokens =
      elim (Result-cases
        (prepared json scores estimator limits provider retrieval max_output_tokens)) [
          | inl (e, p) ↦ (err e, ground (arith, p))
          | inr ((budget, chunks), p) ↦
              let (r, q) =
                plan_loop-some json limits session (λ t. estimator provider t tools schema) budget
                  (suc (length session.recent_messages + length chunks + length current_turn))
                  (first_draft json scores estimator session current_turn chunks)
                  (omega (arith, open_results-le current_turn)) in
              (r, ground (arith, p, q))
        ]
