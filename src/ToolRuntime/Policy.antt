-- ===== src/ToolRuntime/Policy.antt =====
-- tool_runtime/policy.rs: which calls of tools the rules permit.
pub mod Decisions
mod Tests
use git_client.Prelude.{
  Bool, true, false, ◌&&◌, List, [], ◌∷◌, Option, none, some, Text, text_eq, starts_with,
  if◌then◌else◌,
}
use git_client.ToolRuntime.{
  ToolRisk, read_only, write, destructive, external, PermissionDecision, allow, deny, ask,
}

pub data ToolMatcher : Type 0 where
  exact prefix : Text → ToolMatcher

pub record PermissionRule : Type 0 where
  pub matcher : ToolMatcher
  pub risk : Option ToolRisk
  pub decision : PermissionDecision

abbrev pub PermissionPolicy : Type 0
PermissionPolicy = List PermissionRule

same_risk : ToolRisk → ToolRisk → Bool
same_risk read_only read_only = true
same_risk write write = true
same_risk destructive destructive = true
same_risk external external = true
same_risk _ _ = false

matches_name : ToolMatcher → Text → Bool
matches_name (exact expected) name = text_eq expected name
matches_name (prefix p) name = starts_with p name

matches_risk : Option ToolRisk → ToolRisk → Bool
unfolding same_risk
matches_risk none risk = true
matches_risk (some expected) risk = same_risk expected risk

-- The closure of `find`.
pub rule_matches : PermissionRule → Text → ToolRisk → Bool
unfolding matches_name matches_risk
rule_matches rule name risk = matches_risk rule.risk risk && matches_name rule.matcher name

pub evaluate : PermissionPolicy → Text → ToolRisk → PermissionDecision
unfolding rule_matches
evaluate [] name risk = deny
evaluate (rule ∷ rules) name risk =
    if rule_matches rule name risk then rule.decision else evaluate rules name risk

pub restrict_decision : PermissionDecision → Option PermissionDecision → PermissionDecision
restrict_decision deny run = deny
restrict_decision ask none = ask
restrict_decision ask (some deny) = deny
restrict_decision ask (some ask) = ask
restrict_decision ask (some allow) = ask
restrict_decision allow none = allow
restrict_decision allow (some deny) = deny
restrict_decision allow (some ask) = ask
restrict_decision allow (some allow) = allow

-- The decision of the executor: the application's policy, restricted by that of the run.
pub decide : PermissionPolicy → Option PermissionPolicy → Text → ToolRisk → PermissionDecision
decide app none name risk = restrict_decision (evaluate app name risk) none
decide app (some run) name risk =
    restrict_decision (evaluate app name risk) (some (evaluate run name risk))
