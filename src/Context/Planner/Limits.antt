-- ===== src/Context/Planner/Limits.antt =====
-- context.rs: what a planned context keeps to.
use git_client.Prelude.{
  ℕ, zero, suc, ◌≤◌, ◌≡◌, refl, sym, ap, subst, ◌∙◌, inl, inr, List, [], ◌∷◌, some, length,
  length-take, leb, ok, Bool-cases, Result-cases, Option-cases, arith,
}
use git_client.Session.{SessionMessage, AgentSession}
use git_client.Goal.Model.{TranscriptItem}
use git_client.Context.{ContextLimits, PlannedContext, RagChunk, Json, compact_oldest_tool_result}
use git_client.Context.Planner.{
  Draft, remembered, without_chunk, shorten_from, shorten, draft_transcript, planned, plan_loop,
}
use git_client.Context.Planner.Turn.{Keeps, Keeps_refl, Keeps_trans, compact_oldest-Keeps}

module _ {V S : Type 0} where
  -- A round of the loop keeps the items of the turn and adds no chunk.
  pub record IsShorter (d d' : Draft V S) : Type 0 where
    pub turn : Keeps d.current d'.current
    pub chunks : length d'.retrieval ≤ length d.retrieval

  without_chunk-IsShorter : (d d' : Draft V S) → without_chunk d ≡ ok d' → IsShorter d d'
  unfolding without_chunk
  without_chunk-IsShorter d d' h = go d.retrieval refl
    where
      go : (cs : List (RagChunk S)) → d.retrieval ≡ cs → IsShorter d d'
      go (c ∷ cs) e = record {
        turn = subst (Keeps d.current) (ground arith) (Keeps_refl d.current);
        chunks = ground (arith, length-take (length cs) (c ∷ cs));
      }
      go [] e = elim (Option-cases (compact_oldest_tool_result d.current)) [
        | inl n ↦ absurd (ground arith)
        | inr (xs, c) ↦ record {
          turn = subst (Keeps d.current) (ground arith) (compact_oldest-Keeps d.current xs c);
          chunks = ground arith;
        }
      ]

  shorten_from-IsShorter :
      (limits : ContextLimits) (d d' : Draft V S) (h : List SessionMessage)
      → shorten_from limits d h ≡ ok d'
      → IsShorter d d'
  unfolding shorten_from remembered
  shorten_from-IsShorter limits d d' (a ∷ b ∷ rest) h = record {
    turn = subst (Keeps d.current) (ground arith) (Keeps_refl d.current);
    chunks = ground arith;
  }
  shorten_from-IsShorter limits d d' (a ∷ []) h = without_chunk-IsShorter d d' h
  shorten_from-IsShorter limits d d' [] h = without_chunk-IsShorter d d' h

  shorten-IsShorter :
      (limits : ContextLimits) (d d' : Draft V S) → shorten limits d ≡ ok d' → IsShorter d d'
  unfolding shorten
  shorten-IsShorter limits d d' h = shorten_from-IsShorter limits d d' d.history h

module _ {V S : Type 0} (json : Json V) (limits : ContextLimits) (session : AgentSession)
    (estimate : List (TranscriptItem V) → ℕ) (budget : ℕ) where
  -- The draft that the plan `c` was made of.
  pub record IsMade (d : Draft V S) (c : PlannedContext V) : Type 0 where
    pub final : Draft V S
    pub shorter : IsShorter d final
    pub transcript : draft_transcript json session final ≡ ok c.transcript
    pub made : c ≡ planned json limits session estimate budget final c.transcript
    pub fits : estimate c.transcript ≤ budget

  pub plan_loop-IsMade :
      (fuel : ℕ) (d : Draft V S) (c : PlannedContext V)
      → plan_loop json limits session estimate budget fuel d ≡ some (ok c)
      → IsMade d c
  unfolding plan_loop
  plan_loop-IsMade zero d c h = absurd (cc)
  plan_loop-IsMade (suc fuel) d c h = elim (Result-cases (draft_transcript json session d)) [
    | inl (e, t) ↦ absurd (ground arith)
    | inr (transcript, t) ↦ elim (Bool-cases (leb (estimate transcript) budget)) [
      | inl b ↦
          let p : c ≡ planned json limits session estimate budget d transcript = ground arith in
          let q : c.transcript ≡ transcript = ap (λ c. c.transcript) p in
          record {
            final = d;
            shorter = record { turn = Keeps_refl d.current; chunks = omega arith };
            transcript = t ∙ ap ok (sym q);
            made = p ∙ ap (planned json limits session estimate budget d) (sym q);
            fits = rw q (ground arith);
          }
      | inr b ↦ elim (Result-cases (shorten limits d)) [
        | inl (e, s) ↦ absurd (ground arith)
        | inr (d', s) ↦
            let m = plan_loop-IsMade fuel d' c (ground arith) in
            let i = shorten-IsShorter limits d d' s in
            record {
              final = m.final;
              shorter = record {
                turn = Keeps_trans d.current d'.current m.final.current i.turn m.shorter.turn;
                chunks = omega (arith, i.chunks, m.shorter.chunks);
              };
              transcript = m.transcript;
              made = m.made;
              fits = m.fits;
            }
      ]
    ]
  ]
