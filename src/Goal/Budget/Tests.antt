-- ===== src/Goal/Budget/Tests.antt =====
-- goal.rs: an account in use.
use git_client.Prelude.{◌≡◌, refl, true, some, codes, arith, ok, false}
use git_client.Session.Store.{is_id_byte}
use git_client.Goal.{validate_id}
use git_client.Goal.Budget.{
  ModelUsage, no_usage, PriceSnapshot, cost_micros, ModelRequestBudget, cost, allows,
  AgentBudgetAccount, BudgetCharge, validate_budget, new_account, record_usage, checked_add_assign,
  add_cached, add_output, add_tool_calls, calculate_spent_micros, spent_numerator,
  request_budget_with_input_safety, budget_of, is_exceeded, is_over, charge,
}
use git_client.Goal.Budget.Spending.{IsSound, charged_for, record_usage-IsSound}
use git_client.Goal.Budget.Accounts.{Reached, opened, charged, Reached-IsSound}

abbrev price : PriceSnapshot
price = record {
  currency = codes "USD";
  input_cache_hit_per_million_micros = 100;
  input_cache_miss_per_million_micros = 1000;
  output_per_million_micros = 2000;
  source_url = codes "https://example.test/pricing";
  source_version = codes "v1";
  checked_at = codes "2026-08-07";
}

abbrev account : AgentBudgetAccount
account = record {
  model_id = codes "m";
  usage = no_usage;
  price = some price;
  limit = cost_micros (codes "USD") 40;
  spent_micros = 0;
}

abbrev budget : ModelRequestBudget
budget = cost 40 1000 2000 130

abbrev used : ModelUsage
used = record {
  input_tokens = 12000;
  cached_input_tokens = 2000;
  output_tokens = 4000;
  tool_calls = 1;
}

opened_account : Reached 130 account
unfolding new_account is_id_byte validate_id validate_budget
opened_account =
    opened (codes "m") (some price) (cost_micros (codes "USD") 40) account (omega arith)
      (omega arith) refl

granted : request_budget_with_input_safety account 130 ≡ ok budget
unfolding request_budget_with_input_safety budget_of
granted = refl

allowed : allows budget 10000 5000 ≡ true
unfolding allows
allowed = refl

record_usage-IsSound_example :
    (c : BudgetCharge) × (record_usage account used
      ≡ (charged_for account used c.spent_micros, ok c))
    × IsSound (charged_for account used c.spent_micros)
record_usage-IsSound_example =
    record_usage-IsSound account used
      (record {
        input = omega arith;
        cached = omega arith;
        output = omega arith;
        calls = omega arith;
      })
      130 10000 5000 budget (Reached-IsSound opened_account) granted allowed (omega arith)
      (omega arith)

charged_19 :
    record_usage account used
    ≡ (charged_for account used 19, ok (record { spent_micros = 19; exceeded = false }))
unfolding record_usage checked_add_assign add_cached add_output add_tool_calls charge is_exceeded
    is_over calculate_spent_micros spent_numerator
charged_19 = refl

Reached-IsSound_example : IsSound (charged_for account used 19)
Reached-IsSound_example = Reached-IsSound (
    charged account (charged_for account used 19) budget 10000 5000 used _ opened_account granted
      allowed (omega arith) (omega arith) charged_19)
