-- ===== src/ToolRuntime/Policy/Tests.antt =====
-- Tests of policy.rs, and its theorem on a concrete policy.
use git_client.Prelude.{◌≡◌, refl, ap, ◌≤◌, [], ◌∷◌, none, some, codes, arith}
use git_client.ToolRuntime.{read_only, write, PermissionDecision, allow, deny, ask}
use git_client.ToolRuntime.Policy.{
  PermissionPolicy, exact, prefix, evaluate, rule_matches, matches_name, matches_risk, same_risk,
  restrict_decision, decide,
}
use git_client.ToolRuntime.Policy.Decisions.{FirstRule, RunPermits, leniency, decide-permits}

abbrev app : PermissionPolicy
app =
    record { matcher = exact (codes "fs.write"); risk = some write; decision = ask }
    ∷ record { matcher = prefix (codes "fs."); risk = none; decision = allow }
    ∷ []

decisions :
    (evaluate app (codes "fs.write") write ≡ ask)
    × (evaluate app (codes "fs.write") read_only ≡ allow)
    × (evaluate app (codes "web.get") read_only ≡ deny)
unfolding evaluate rule_matches matches_name matches_risk same_risk
decisions = (refl, refl, refl)

asks : decide app (some app) (codes "fs.write") write ≡ ask
unfolding decide evaluate restrict_decision rule_matches matches_name matches_risk same_risk
asks = refl

decide-permits_example :
    ((a : PermissionDecision) × FirstRule app (codes "fs.write") write a
      × (leniency (decide app (some app) (codes "fs.write") write) ≤ leniency a))
    × RunPermits
        (some app)
        (codes "fs.write")
        write
        (decide app (some app) (codes "fs.write") write)
decide-permits_example =
    decide-permits app (some app) (codes "fs.write") write (omega (arith, ap leniency asks))
