-- ===== src/Goal/Repository/Sessions.antt =====
-- goal.rs: a method on a session, by what it does to that session.
use git_client.Prelude.{
  ◌≡◌, refl, ap, none, some, Text, inl, inr, Option-cases, ok, err, lookup, insert, insert-lookup,
}
use native.Mathlib.Omega.{arith}
use git_client.Goal.{GoalError, session_not_loaded}
use git_client.Goal.Model.{DurableAgentSession}
use git_client.Goal.Repository.{GoalPersistence, GoalRepository, Written, on_session}

module _ {V D : Type 0} where
  -- The repository behind a method.
  abbrev pub after : {A : Type 0} → GoalRepository V D → Text → Written V D A → GoalRepository V D
  after r id w = record { persistence = w.disk; sessions = insert id w.session r.sessions }

module _ {V D A : Type 0} (p : GoalPersistence V D) (r : GoalRepository V D) (id : Text)
    (f : D → DurableAgentSession V → Written V D A) where
  pub on_session-some :
      (s : DurableAgentSession V)
      → lookup id r.sessions ≡ some s
      → on_session p r id f ≡ (after r id (f r.persistence s), (f r.persistence s).result)
  unfolding on_session
  on_session-some s h = rw (h, on_session) refl

  pub on_session-none :
      lookup id r.sessions ≡ none → on_session p r id f ≡ (r, err session_not_loaded)
  unfolding on_session
  on_session-none h = rw (h, on_session) refl

  -- A method that only reports an error.
  pub on_session-refused :
      (s : DurableAgentSession V) (e : GoalError)
      → lookup id r.sessions ≡ some s
      → f r.persistence s ≡ record { disk = r.persistence; session = s; result = err e }
      → on_session p r id f ≡ (r, err e)
  on_session-refused s e h k = rw (on_session-some s h, k, insert-lookup id s r.sessions h) refl

  -- A method that succeeds had a session to work on.
  pub on_session-ok :
      (a : A)
      → (on_session p r id f).1 ≡ ok a
      → (s : DurableAgentSession V) × (lookup id r.sessions ≡ some s)
        × ((f r.persistence s).result ≡ ok a)
        × ((on_session p r id f).0 ≡ after r id (f r.persistence s))
  on_session-ok a h = elim (Option-cases (lookup id r.sessions)) [
    | inl e ↦ absurd (ground (arith, on_session-none e))
    | inr (s, e) ↦ let k = on_session-some s e in (s, e, ground (arith, k, h), ap (λ q. q.0) k)
  ]
