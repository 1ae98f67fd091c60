-- ===== src/Session/Store/Bounds.antt =====
-- session.rs: a turn that is committed leaves the session within the limits.
use git_client.Prelude.{
  ℕ, ◌≤◌, ◌≡◌, refl, subst, inl, inr, false, List, [], ◌∷◌, ◌++◌, Option, none, some, Text, len,
  is_empty, length, leb, arith, Bool-cases, Result, ok, err, fail_if, bind_cases,
}
use git_client.Session.{
  user, assistant, SessionMessage, AgentSession, SessionStoreLimits, SessionError, compaction,
  MemoryCompactor, max_u64,
}
use git_client.Session.Store.{
  validate_id, message_bytes, over_limits, summarize, shrink, next_session, next_revision,
}

-- Complete turns: a message of the user and one of the assistant, in this order.
abbrev pub Paired : List SessionMessage → Type 0
Paired [] = Unit
Paired (m ∷ []) = ⊥
Paired (m ∷ n ∷ rest) = (m.role ≡ user) × (n.role ≡ assistant) × Paired rest

abbrev pub FitsSummary : SessionStoreLimits → Option Text → Type 0
FitsSummary l none = Unit
FitsSummary l (some s) = (is_empty s ≡ false) × (len s ≤ l.max_summary_bytes)

pub record IsWithin (l : SessionStoreLimits) (id : Text) (s : AgentSession) : Type 0 where
  pub named : s.session_id ≡ id
  pub id_valid : validate_id id ≡ ok tt
  pub system : len s.system_instruction ≤ l.max_system_bytes
  pub paired : Paired s.recent_messages
  pub count : length s.recent_messages ≤ l.max_recent_messages
  pub bytes : message_bytes s.recent_messages ≤ l.max_recent_bytes
  pub summary : FitsSummary l s.memory_summary
  pub revision : s.revision ≤ max_u64

module _ (l : SessionStoreLimits) where
  pub within_limits :
      (ms : List SessionMessage)
      → over_limits l ms ≡ false
      → (length ms ≤ l.max_recent_messages) × (message_bytes ms ≤ l.max_recent_bytes)
  unfolding over_limits
  within_limits ms h = ground arith

  pub Paired-append :
      (ms : List SessionMessage) (m n : SessionMessage)
      → Paired ms
      → m.role ≡ user
      → n.role ≡ assistant
      → Paired (ms ++ m ∷ n ∷ [])
  Paired-append [] m n p hm hn = (hm, hn, tt)
  Paired-append (a ∷ []) m n p hm hn = absurd p
  Paired-append (a ∷ b ∷ rest) m n p hm hn = (p.0, p.1, Paired-append rest m n p.2 hm hn)

  module _ (compactor : MemoryCompactor) where
    FitsSummary-summarize :
        (existing : Option Text) (ms : List SessionMessage) (s : Text)
        → summarize l compactor existing ms ≡ ok s
        → FitsSummary l (some s)
    unfolding summarize
    FitsSummary-summarize existing ms s h = ground arith

    abbrev pub Shrunk : Result SessionError (Option Text × List SessionMessage) → Type 0
    Shrunk (err e) = Unit {0}
    Shrunk (ok (summary, kept)) = FitsSummary l summary × Paired kept × (over_limits l kept ≡ false)

    pub shrink-Shrunk :
        (existing : Option Text) (ms : List SessionMessage)
        → FitsSummary l existing
        → Paired ms
        → Shrunk (shrink l compactor existing ms)
    unfolding shrink
    shrink-Shrunk existing [] f p = elim (Bool-cases (over_limits l [])) [
      | inl o ↦ rw o tt
      | inr o ↦ rw o (f, tt, o)
    ]
    shrink-Shrunk existing (m ∷ []) f p = absurd p
    shrink-Shrunk existing (m ∷ n ∷ rest) f p = elim (Bool-cases (over_limits l (m ∷ n ∷ rest))) [
      | inl o ↦ rw o (
          bind_cases Shrunk (fail_if (leb (length (m ∷ n ∷ rest)) 2) compaction) _ (λ _. tt)
            (λ _ _.
              bind_cases Shrunk (summarize l compactor existing (m ∷ n ∷ []))
                (λ s. shrink l compactor (some s) rest) (λ _. tt)
                (λ s e.
                  shrink-Shrunk (some s) rest (FitsSummary-summarize existing (m ∷ n ∷ []) s e)
                    p.2)))
      | inr o ↦ rw o (f, p, o)
    ]

    abbrev pub Next : Text → Result SessionError AgentSession → Type 0
    Next id (err e) = Unit {0}
    Next id (ok s) = IsWithin l id s

    next_revision-le : (v v' : ℕ) → v ≤ max_u64 → next_revision v ≡ ok v' → v' ≤ max_u64
    unfolding next_revision
    next_revision-le v v' h e = ground arith

    pub next_session-Next :
        (id : Text) (s : AgentSession) (asked answered : Text)
        → IsWithin l id s
        → Next id (next_session l compactor s asked answered)
    unfolding next_session
    next_session-Next id s asked answered w =
        bind_cases (Next id) (shrink l compactor s.memory_summary turn) _ (λ _. tt)
          λ p e.
            let (f, q, o) = subst Shrunk e shrunk in
            let (c, b) = within_limits p.1 o in
            bind_cases (Next id) (next_revision s.revision) _ (λ _. tt)
              λ v r. record {
                named = w.named;
                id_valid = w.id_valid;
                system = w.system;
                paired = q;
                count = c;
                bytes = b;
                summary = f;
                revision = next_revision-le s.revision v w.revision r;
              }
      where
        turn : List SessionMessage
        turn =
            s.recent_messages
            ++ record { role = user; content = asked }
              ∷ record { role = assistant; content = answered }
              ∷ []

        shrunk : Shrunk (shrink l compactor s.memory_summary turn)
        shrunk =
            shrink-Shrunk s.memory_summary turn w.summary
              (Paired-append s.recent_messages _ _ w.paired refl refl)
