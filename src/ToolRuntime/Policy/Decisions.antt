-- ===== src/ToolRuntime/Policy/Decisions.antt =====
-- policy.rs: a call is permitted by a first rule of each policy, and a run's policy only restricts.
use git_client.Prelude.{
  ℕ, ◌≤◌, ◌≡◌, refl, sym, ap, subst, ◌∙◌, ◌⊎◌, inl, inr, true, false, List, [], ◌∷◌, ◌++◌, Option,
  none, some, Text, min, arith, Bool-cases, All,
}
use git_client.ToolRuntime.{ToolRisk, PermissionDecision, allow, deny, ask}
use git_client.ToolRuntime.Policy.{
  PermissionRule, PermissionPolicy, rule_matches, evaluate, restrict_decision, decide,
}

-- How much a decision permits.
abbrev pub leniency : PermissionDecision → ℕ
leniency deny = 0
leniency ask = 1
leniency allow = 2

-- A rule gives the decision, and no rule before it applies.
abbrev pub FirstRule : PermissionPolicy → Text → ToolRisk → PermissionDecision → Type 0
FirstRule rules name risk d =
    (before : List PermissionRule) × (rule : PermissionRule) × (behind : List PermissionRule)
    × (rules ≡ before ++ rule ∷ behind)
    × All (λ r. rule_matches r name risk ≡ false) before
    × (rule_matches rule name risk ≡ true)
    × (rule.decision ≡ d)

evaluate-skip :
    (rule : PermissionRule) (rules : PermissionPolicy) (name : Text) (risk : ToolRisk)
    → rule_matches rule name risk ≡ false
    → evaluate (rule ∷ rules) name risk ≡ evaluate rules name risk
unfolding evaluate
evaluate-skip rule rules name risk h = rw h refl

evaluate-FirstRule :
    (rules : PermissionPolicy) (name : Text) (risk : ToolRisk)
    → ((evaluate rules name risk ≡ deny) × All (λ r. rule_matches r name risk ≡ false) rules)
      ⊎ FirstRule rules name risk (evaluate rules name risk)
unfolding evaluate
evaluate-FirstRule [] name risk = inl (refl, tt)
evaluate-FirstRule (rule ∷ rules) name risk = elim (Bool-cases (rule_matches rule name risk)) [
  | inl applies ↦ inr ([], rule, rules, refl, tt, applies, rw applies refl)
  | inr other ↦
      let skip = evaluate-skip rule rules name risk other in
      elim (evaluate-FirstRule rules name risk) [
        | inl (d, all) ↦ inl (skip ∙ d, (other, all))
        | inr (before, r, behind, e, all, applies, d) ↦
            inr (rule ∷ before, r, behind, ap (◌∷◌ rule) e, (other, all), applies, d ∙ sym skip)
      ]
]

-- Allowed or asked for, the decision is that of a first rule.
evaluate-permits :
    (rules : PermissionPolicy) (name : Text) (risk : ToolRisk) (d : PermissionDecision)
    → evaluate rules name risk ≡ d
    → 1 ≤ leniency d
    → FirstRule rules name risk d
evaluate-permits rules name risk d e h = elim (evaluate-FirstRule rules name risk) [
  | inl (denied, all) ↦
      absurd (let z : leniency d ≡ 0 = ap leniency (sym e ∙ denied) in omega (arith, z))
  | inr rule ↦ subst (FirstRule rules name risk) e rule
]

restrict_decision-none : (d : PermissionDecision) → leniency (restrict_decision d none) ≡ leniency d
unfolding restrict_decision
restrict_decision-none allow = refl
restrict_decision-none deny = refl
restrict_decision-none ask = refl

restrict_decision-min :
    (d r : PermissionDecision)
    → leniency (restrict_decision d (some r)) ≡ min (leniency d) (leniency r)
unfolding restrict_decision
restrict_decision-min allow allow = refl
restrict_decision-min allow deny = refl
restrict_decision-min allow ask = refl
restrict_decision-min deny allow = refl
restrict_decision-min deny deny = refl
restrict_decision-min deny ask = refl
restrict_decision-min ask allow = refl
restrict_decision-min ask deny = refl
restrict_decision-min ask ask = refl

min-both : (a b : ℕ) → (min a b ≤ a) × (min a b ≤ b)
min-both a b = ground arith

-- What the run's policy, if there is one, says of a call that ends with the decision `d`.
abbrev pub RunPermits : Option PermissionPolicy → Text → ToolRisk → PermissionDecision → Type 0
RunPermits none name risk d = Unit
RunPermits (some rules) name risk d =
    (r : PermissionDecision) × FirstRule rules name risk r × (leniency d ≤ leniency r)

-- A call is allowed or asked for only by a first rule of the application that is as lenient, and, if
-- the run has a policy, by a first rule of that one as well: what no rule names is denied, and a
-- run's policy never permits more.
pub decide-permits :
    (app : PermissionPolicy) (run : Option PermissionPolicy) (name : Text) (risk : ToolRisk)
    → 1 ≤ leniency (decide app run name risk)
    → ((a : PermissionDecision) × FirstRule app name risk a
        × (leniency (decide app run name risk) ≤ leniency a))
      × RunPermits run name risk (decide app run name risk)
unfolding decide
decide-permits app none name risk h =
    let d = evaluate app name risk in
    let same = restrict_decision-none d in
    ((d, evaluate-permits app name risk d refl (omega (arith, same)), omega (arith, same)), tt)
decide-permits app (some run) name risk h =
    let d = evaluate app name risk in
    let r = evaluate run name risk in
    let both = restrict_decision-min d r in
    let (ld, lr) = min-both (leniency d) (leniency r) in
    (
      (d, evaluate-permits app name risk d refl (omega (arith, both, ld)), omega (arith, both, ld)),
      (r, evaluate-permits run name risk r refl (omega (arith, both, lr)), omega (arith, both, lr)),
    )
