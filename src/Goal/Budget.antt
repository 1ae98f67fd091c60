-- ===== src/Goal/Budget.antt =====
-- goal.rs: what a goal may spend on a model, and what it has spent. `ModelUsage` is of
-- crates/agent-runtime/src/lib.rs.
pub mod Spending
pub mod Accounts
mod Tests
use git_client.Prelude.{
  ℕ, ◌+◌, ◌-◌, ◌*◌, ◌/◌, ◌^◌, ◌≤◌, Bool, true, false, not, ◌&&◌, Option, none, some, Text, codes,
  text_eq, min, ltb, leb, ◌==◌, if◌then◌else◌, Result, ok, err, ◌>>=◌, ◌>>◌, fail_if, ok_or,
  max_u64, saturating_add,
}
use git_client.Goal.{GoalError, invalid_budget, capacity, validate_id}

pub record ModelUsage : Type 0 where
  pub input_tokens : ℕ
  pub cached_input_tokens : ℕ
  pub output_tokens : ℕ
  pub tool_calls : ℕ

abbrev pub no_usage : ModelUsage
no_usage = record { input_tokens = 0; cached_input_tokens = 0; output_tokens = 0; tool_calls = 0 }

abbrev pub max_u32 : ℕ
max_u32 = 2 ^ 32 - 1

abbrev pub max_u128 : ℕ
max_u128 = 2 ^ 128 - 1

-- `checked_add` on a word that holds numbers up to `bound`.
abbrev pub checked_add : ℕ → ℕ → ℕ → Option ℕ
checked_add bound a b = if leb (a + b) bound then some (a + b) else none

-- `div_ceil` by a positive number.
abbrev pub div_ceil : ℕ → ℕ → ℕ
div_ceil a d = (a + (d - 1)) / d

-- `checked_add_assign` adds field by field, so the fields before the one that overflows are added;
-- an overflow is the name of its field.
add_tool_calls : ModelUsage → ModelUsage → ModelUsage × Result Text (Unit {0})
add_tool_calls s u = elim (checked_add max_u32 s.tool_calls u.tool_calls) [
  | none ↦ (s, err (codes "tool_calls"))
  | some n ↦ (record s { tool_calls = n }, ok tt)
]

add_output : ModelUsage → ModelUsage → ModelUsage × Result Text (Unit {0})
unfolding add_tool_calls
add_output s u = elim (checked_add max_u64 s.output_tokens u.output_tokens) [
  | none ↦ (s, err (codes "output_tokens"))
  | some n ↦ add_tool_calls (record s { output_tokens = n }) u
]

add_cached : ModelUsage → ModelUsage → ModelUsage × Result Text (Unit {0})
unfolding add_output
add_cached s u =
    elim (checked_add max_u64 s.cached_input_tokens (min u.cached_input_tokens u.input_tokens)) [
      | none ↦ (s, err (codes "cached_input_tokens"))
      | some n ↦ add_output (record s { cached_input_tokens = n }) u
    ]

pub checked_add_assign : ModelUsage → ModelUsage → ModelUsage × Result Text (Unit {0})
unfolding add_cached
checked_add_assign s u = elim (checked_add max_u64 s.input_tokens u.input_tokens) [
  | none ↦ (s, err (codes "input_tokens"))
  | some n ↦ add_cached (record s { input_tokens = n }) u
]

pub record PriceSnapshot : Type 0 where
  pub currency : Text
  pub input_cache_hit_per_million_micros : ℕ
  pub input_cache_miss_per_million_micros : ℕ
  pub output_per_million_micros : ℕ
  pub source_url : Text
  pub source_version : Text
  pub checked_at : Text

pub data ModelBudgetLimit : Type 0 where
  cost_micros : (currency : Text) (limit_micros : ℕ) → ModelBudgetLimit
  tokens : (limit_tokens : ℕ) → ModelBudgetLimit

pub data ModelRequestBudget : Type 0 where
  cost :
      (remaining_micros input_cache_miss_per_million_micros output_per_million_micros : ℕ)
      (input_safety_percent : ℕ)
      → ModelRequestBudget
  token : (remaining_tokens input_safety_percent : ℕ) → ModelRequestBudget

-- Saturating arithmetic on `u128`.
abbrev pub wide_add : ℕ → ℕ → ℕ
wide_add a b = min (a + b) max_u128

abbrev pub wide_mul : ℕ → ℕ → ℕ
wide_mul a b = min (a * b) max_u128

abbrev pub adjusted_input : ℕ → ℕ → ℕ
adjusted_input estimated safety_percent = div_ceil (wide_mul estimated safety_percent) 100

pub allows : ModelRequestBudget → ℕ → ℕ → Bool
allows (cost remaining miss output safety) estimated max_output =
    leb
      (div_ceil
        (wide_add (wide_mul (adjusted_input estimated safety) miss) (wide_mul max_output output))
        1000000)
      remaining
allows (token remaining safety) estimated max_output =
    leb (wide_add (adjusted_input estimated safety) max_output) remaining

pub record AgentBudgetAccount : Type 0 where
  pub model_id : Text
  pub usage : ModelUsage
  pub price : Option PriceSnapshot
  pub limit : ModelBudgetLimit
  pub spent_micros : ℕ

pub record BudgetCharge : Type 0 where
  pub spent_micros : ℕ
  pub exceeded : Bool

validate_budget : Option PriceSnapshot → ModelBudgetLimit → Result GoalError (Unit {0})
validate_budget (some p) (cost_micros currency limit) =
    if ltb 0 limit && text_eq p.currency currency then ok tt else err invalid_budget
validate_budget none (tokens limit) = if ltb 0 limit then ok tt else err invalid_budget
validate_budget none (cost_micros currency limit) = err invalid_budget
validate_budget (some p) (tokens limit) = err invalid_budget

-- `AgentBudgetAccount::new`.
pub new_account :
    Text → Option PriceSnapshot → ModelBudgetLimit → Result GoalError AgentBudgetAccount
unfolding validate_budget
new_account model_id price limit = do
  validate_id model_id
  validate_budget price limit
  ok (record {
    model_id = model_id;
    usage = no_usage;
    price = price;
    limit = limit;
    spent_micros = 0;
  })

-- The sum of `calculate_spent_micros`, as `u128` checks it: the products fit, the sums may not.
spent_numerator : ModelUsage → PriceSnapshot → Option ℕ
spent_numerator u p =
    let cached = min u.cached_input_tokens u.input_tokens in
    let misses = u.input_tokens - cached in
    elim (checked_add max_u128 (cached * p.input_cache_hit_per_million_micros)
      (misses * p.input_cache_miss_per_million_micros)) [
        | none ↦ none
        | some n ↦ checked_add max_u128 n (u.output_tokens * p.output_per_million_micros)
      ]

pub calculate_spent_micros : Option PriceSnapshot → ModelUsage → Result GoalError ℕ
unfolding spent_numerator
calculate_spent_micros none u = ok 0
calculate_spent_micros (some p) u = do
  numerator ← ok_or (spent_numerator u p) capacity
  fail_if (ltb max_u64 (div_ceil numerator 1000000)) capacity
  ok (div_ceil numerator 1000000)

is_over : ModelBudgetLimit → ℕ → ModelUsage → Bool
is_over (cost_micros currency limit) spent u = leb limit spent
is_over (tokens limit) spent u = leb limit (saturating_add u.input_tokens u.output_tokens)

pub is_exceeded : AgentBudgetAccount → Bool
unfolding is_over
is_exceeded a = is_over a.limit a.spent_micros a.usage

charge :
    AgentBudgetAccount → Result GoalError ℕ → AgentBudgetAccount × Result GoalError BudgetCharge
unfolding is_exceeded
charge a (err e) = (a, err e)
charge a (ok spent) =
    let a' = record a { spent_micros = spent } in
    (a', ok (record { spent_micros = spent; exceeded = is_exceeded a' }))

pub record_usage :
    AgentBudgetAccount → ModelUsage → AgentBudgetAccount × Result GoalError BudgetCharge
unfolding charge calculate_spent_micros
record_usage a u =
    let (usage, added) = checked_add_assign a.usage u in
    elim added [
      | err field ↦ (record a { usage = usage }, err capacity)
      | ok _ ↦ charge (record a { usage = usage }) (calculate_spent_micros a.price usage)
    ]

raises : ModelBudgetLimit → ModelBudgetLimit → Bool
raises (cost_micros currency limit) (cost_micros next_currency next_limit) =
    text_eq currency next_currency && ltb limit next_limit
raises (tokens limit) (tokens next_limit) = ltb limit next_limit
raises (cost_micros currency limit) (tokens next_limit) = false
raises (tokens limit) (cost_micros next_currency next_limit) = false

pub extend :
    AgentBudgetAccount → ModelBudgetLimit → AgentBudgetAccount × Result GoalError (Unit {0})
unfolding raises
extend a next =
    if raises a.limit next then (record a { limit = next }, ok tt) else (a, err invalid_budget)

pub budget_of :
    AgentBudgetAccount
    → ModelBudgetLimit
    → Option PriceSnapshot
    → ℕ
    → Result GoalError ModelRequestBudget
budget_of a (cost_micros currency limit) (some p) safety = ok (
    cost (limit - a.spent_micros) p.input_cache_miss_per_million_micros p.output_per_million_micros
      safety)
budget_of a (tokens limit) none safety =
    ok (token (limit - saturating_add a.usage.input_tokens a.usage.output_tokens) safety)
budget_of a (cost_micros currency limit) none safety = err invalid_budget
budget_of a (tokens limit) (some p) safety = err invalid_budget

pub request_budget_with_input_safety : AgentBudgetAccount → ℕ → Result GoalError ModelRequestBudget
unfolding budget_of
request_budget_with_input_safety a safety = do
  fail_if (not (leb 100 safety && leb safety 1000)) invalid_budget
  budget_of a a.limit a.price safety

pub request_budget : AgentBudgetAccount → Result GoalError ModelRequestBudget
unfolding request_budget_with_input_safety
request_budget a = request_budget_with_input_safety a 130
