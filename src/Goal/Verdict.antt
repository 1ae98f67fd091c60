-- ===== src/Goal/Verdict.antt =====
-- goal.rs: what a verifier says of a completion candidate.
use git_client.Prelude.{List, Text}

pub data VerificationDecision : Type 0 where
  accepted continue blocked : VerificationDecision

pub record VerificationResult : Type 0 where
  pub decision : VerificationDecision
  pub gaps : List Text
  pub evidence_ids : List Text
