-- ===== src/Goal/Budget/Accounts.antt =====
-- goal.rs: an account in use, from its opening through charges and raised limits.
use git_client.Prelude.{
  ℕ, ◌≤◌, ◌≡◌, refl, sym, ap, subst, ◌∙◌, true, Option, none, some, Text, arith, ok,
}
use git_client.Goal.Budget.{
  ModelUsage, no_usage, ModelBudgetLimit, cost_micros, tokens, PriceSnapshot, ModelRequestBudget,
  adjusted_input, allows, AgentBudgetAccount, BudgetCharge, new_account, add_tool_calls, add_output,
  add_cached, checked_add_assign, spent_numerator, calculate_spent_micros, raises, extend,
  record_usage, request_budget_with_input_safety,
}
use git_client.Goal.Budget.Spending.{
  FitsCounters, FitsLimit, IsFair, IsSound, Covers, more, record_usage-IsSound,
}

-- The accounts that the code opens, charges for requests it allowed, and extends.
pub data Reached (safety : ℕ) : AgentBudgetAccount → Type 0 where
  opened :
      (model_id : Text) (price : Option PriceSnapshot) (limit : ModelBudgetLimit)
      (a : AgentBudgetAccount)
      → FitsLimit limit
      → IsFair price
      → new_account model_id price limit ≡ ok a
      → Reached safety a
  charged :
      (a a' : AgentBudgetAccount) (b : ModelRequestBudget) (estimated max_output : ℕ)
      (u : ModelUsage) (c : BudgetCharge)
      → Reached safety a
      → request_budget_with_input_safety a safety ≡ ok b
      → allows b estimated max_output ≡ true
      → u.input_tokens ≤ adjusted_input estimated safety
      → u.output_tokens ≤ max_output
      → record_usage a u ≡ (a', ok c)
      → Reached safety a'
  extended :
      (a a' : AgentBudgetAccount) (next : ModelBudgetLimit)
      → Reached safety a
      → FitsLimit next
      → extend a next ≡ (a', ok tt)
      → Reached safety a'

-- A sum that was taken is one that its words hold.
checked_add_assign-fits :
    (s u : ModelUsage)
    → s.cached_input_tokens ≤ s.input_tokens
    → (checked_add_assign s u).1 ≡ ok tt
    → FitsCounters (more s u)
unfolding checked_add_assign add_cached add_output add_tool_calls
checked_add_assign-fits s u h k = record {
  input = ground arith;
  cached = omega (arith, h);
  output = ground arith;
  calls = ground arith;
}

record_usage-added :
    (a a' : AgentBudgetAccount) (u : ModelUsage) (c : BudgetCharge)
    → record_usage a u ≡ (a', ok c)
    → (checked_add_assign a.usage u).1 ≡ ok tt
unfolding record_usage
record_usage-added a a' u c h = ground arith

raised :
    (limit next : ModelBudgetLimit) (spent : ℕ) (u : ModelUsage)
    → raises limit next ≡ true
    → Covers limit spent u
    → Covers next spent u
unfolding raises
raised (cost_micros c l) (cost_micros d n) spent u h k = ground arith
raised (tokens l) (tokens n) spent u h k = ground arith
raised (cost_micros c l) (tokens n) spent u h k = cc
raised (tokens l) (cost_micros d n) spent u h k = cc

free : (price : Option PriceSnapshot) → calculate_spent_micros price no_usage ≡ ok 0
unfolding calculate_spent_micros spent_numerator
free none = refl
free (some p) = ground arith

covered_at_first : (limit : ModelBudgetLimit) → Covers limit 0 no_usage
covered_at_first (cost_micros c l) = omega arith
covered_at_first (tokens l) = omega arith

fresh : Text → Option PriceSnapshot → ModelBudgetLimit → AgentBudgetAccount
fresh model_id price limit = record {
  model_id = model_id;
  usage = no_usage;
  price = price;
  limit = limit;
  spent_micros = 0;
}

new_account-fresh :
    (model_id : Text) (price : Option PriceSnapshot) (limit : ModelBudgetLimit)
    (a : AgentBudgetAccount)
    → new_account model_id price limit ≡ ok a
    → a ≡ fresh model_id price limit
unfolding new_account fresh
new_account-fresh model_id price limit a h = ground arith

extend-raises :
    (a a' : AgentBudgetAccount) (next : ModelBudgetLimit)
    → extend a next ≡ (a', ok tt)
    → (raises a.limit next ≡ true) × (a' ≡ record a { limit = next })
unfolding extend
extend-raises a a' next h = ground arith

-- An account opened with a limit in `u64` and a price at which a cached token costs no more than
-- another, charged without an error and only for requests that its budget allowed and whose usage
-- stayed within their estimates, and raised at times, is sound: it has spent no more than its limit, the spent sum is
-- that of its usage, and the counters fit their words.
pub Reached-IsSound : {safety : ℕ} {a : AgentBudgetAccount} → Reached safety a → IsSound a
unfolding fresh
Reached-IsSound (opened model_id price limit a lf fair h) =
    subst IsSound (sym (new_account-fresh model_id price limit a h)) (record {
      fits = record {
        input = omega arith;
        cached = omega arith;
        output = omega arith;
        calls = omega arith;
      };
      limit_fits = lf;
      fair = fair;
      charged = free price;
      covered = covered_at_first limit;
    })
Reached-IsSound (charged a a' b estimated max_output u c r g al hi ho h) =
    let before = Reached-IsSound r in
    let fits =
      checked_add_assign-fits a.usage u before.fits.cached (record_usage-added a a' u c h) in
    let (d, e, s) = record_usage-IsSound a u fits _ estimated max_output b before g al hi ho in
    subst IsSound (ap (λ p. p.0) (sym e ∙ h)) s
Reached-IsSound (extended a a' next r lf h) =
    let s = Reached-IsSound r in
    let (up, e) = extend-raises a a' next h in
    subst IsSound (sym e) (record {
      fits = s.fits;
      limit_fits = lf;
      fair = s.fair;
      charged = s.charged;
      covered = raised a.limit next a.spent_micros a.usage up s.covered;
    })
