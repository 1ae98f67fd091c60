-- ===== src/Goal/Budget/Spending.antt =====
-- goal.rs: a request that the budget allows does not overspend it.
use git_client.Prelude.{
  ℕ, ◌+◌, ◌-◌, ◌*◌, ◌≤◌, ◌≡◌, refl, ap, true, Option, none, some, min, leb, arith, ok, max_u64,
  saturating_add,
}
use native.Mathlib.Nat.{mul-le-mul_right, mul-le-mul_left}
use git_client.Goal.Budget.{
  ModelUsage, max_u32, max_u128, div_ceil, add_tool_calls, add_output, add_cached,
  checked_add_assign, PriceSnapshot, ModelBudgetLimit, cost_micros, tokens, ModelRequestBudget,
  cost, token, wide_add, adjusted_input, allows, AgentBudgetAccount, BudgetCharge, spent_numerator,
  calculate_spent_micros, is_exceeded, charge, record_usage, budget_of,
  request_budget_with_input_safety,
}

whole : (i c : ℕ) → c ≤ i → c + (i - c) ≡ i
whole i c h = omega arith

-- Splitting off a part of the input that was cached lowers its price.
cached_share : (i c hit miss : ℕ) → c ≤ i → hit ≤ miss → c * hit + (i - c) * miss ≤ i * miss
cached_share i c hit miss h k = omega (arith, mul-le-mul_left c k, ap (λ x. x * miss) (whole i c h))

growth :
    (c m o c' i o' hit miss out : ℕ)
    → c' ≤ i
    → hit ≤ miss
    → (c + c') * hit + (m + (i - c')) * miss + (o + o') * out
      ≤ c * hit + m * miss + o * out + i * miss + o' * out
growth c m o c' i o' hit miss out h k = omega (arith, cached_share i c' hit miss h k)

-- The usage of a further request.
abbrev pub more : ModelUsage → ModelUsage → ModelUsage
more s u = record {
  input_tokens = s.input_tokens + u.input_tokens;
  cached_input_tokens = s.cached_input_tokens + min u.cached_input_tokens u.input_tokens;
  output_tokens = s.output_tokens + u.output_tokens;
  tool_calls = s.tool_calls + u.tool_calls;
}

pub record FitsCounters (s : ModelUsage) : Type 0 where
  pub input : s.input_tokens ≤ max_u64
  pub cached : s.cached_input_tokens ≤ s.input_tokens
  pub output : s.output_tokens ≤ max_u64
  pub calls : s.tool_calls ≤ max_u32

checked_add_assign-more :
    (s u : ModelUsage) → FitsCounters (more s u) → checked_add_assign s u ≡ (more s u, ok tt)
unfolding checked_add_assign add_cached add_output add_tool_calls
checked_add_assign-more s u f = ground (arith, f.input, f.cached, f.output, f.calls)

-- What a usage costs, in millionths of a micro-unit.
abbrev pub numerator : ModelUsage → PriceSnapshot → ℕ
numerator u p =
    u.cached_input_tokens * p.input_cache_hit_per_million_micros
    + (u.input_tokens - u.cached_input_tokens) * p.input_cache_miss_per_million_micros
    + u.output_tokens * p.output_per_million_micros

calculate-some :
    (p : PriceSnapshot) (u : ModelUsage)
    → u.cached_input_tokens ≤ u.input_tokens
    → numerator u p ≤ 1000000 * max_u64
    → calculate_spent_micros (some p) u ≡ ok (div_ceil (numerator u p) 1000000)
unfolding calculate_spent_micros spent_numerator
calculate-some p u h k = ground arith

calculate-numerator :
    (p : PriceSnapshot) (u : ModelUsage) (spent : ℕ)
    → u.cached_input_tokens ≤ u.input_tokens
    → calculate_spent_micros (some p) u ≡ ok spent
    → spent ≡ div_ceil (numerator u p) 1000000
unfolding calculate_spent_micros spent_numerator
calculate-numerator p u spent h k = ground arith

allows_cost :
    (remaining miss out safety estimated max_output i o : ℕ)
    → remaining ≤ max_u64
    → allows (cost remaining miss out safety) estimated max_output ≡ true
    → i ≤ adjusted_input estimated safety
    → o ≤ max_output
    → i * miss + o * out ≤ 1000000 * remaining
unfolding allows
allows_cost remaining miss out safety estimated max_output i o r h hi ho =
    priced _ _ _ _ _ _ _ hi ho (sums _ _ _ r h)
  where
    sums :
        (x y r : ℕ)
        → r ≤ max_u64
        → leb (div_ceil (wide_add (min x max_u128) (min y max_u128)) 1000000) r ≡ true
        → x + y ≤ 1000000 * r
    sums x y r h k = ground arith

    priced :
        (i j o m miss out n : ℕ) → i ≤ j → o ≤ m → j * miss + m * out ≤ n → i * miss + o * out ≤ n
    priced i j o m miss out n h k l = omega (arith, mul-le-mul_right miss h, mul-le-mul_right out k)

abbrev pub Covers : ModelBudgetLimit → ℕ → ModelUsage → Type 0
Covers (cost_micros currency limit) spent u = spent ≤ limit
Covers (tokens limit) spent u = u.input_tokens + u.output_tokens ≤ limit

abbrev pub FitsLimit : ModelBudgetLimit → Type 0
FitsLimit (cost_micros currency limit) = limit ≤ max_u64
FitsLimit (tokens limit) = limit ≤ max_u64

abbrev pub IsFair : Option PriceSnapshot → Type 0
IsFair none = Unit
IsFair (some p) = p.input_cache_hit_per_million_micros ≤ p.input_cache_miss_per_million_micros

pub record IsSound (a : AgentBudgetAccount) : Type 0 where
  pub fits : FitsCounters a.usage
  pub limit_fits : FitsLimit a.limit
  pub fair : IsFair a.price
  pub charged : calculate_spent_micros a.price a.usage ≡ ok a.spent_micros
  pub covered : Covers a.limit a.spent_micros a.usage

-- An account that was charged for `u`.
abbrev pub charged_for : AgentBudgetAccount → ModelUsage → ℕ → AgentBudgetAccount
charged_for a u spent = record a { usage = more a.usage u; spent_micros = spent }

module _ (a : AgentBudgetAccount) (u : ModelUsage) (fits : FitsCounters (more a.usage u)) where
  record_usage-ok :
      (spent : ℕ)
      → calculate_spent_micros a.price (more a.usage u) ≡ ok spent
      → record_usage a u ≡ (
        charged_for a u spent,
        ok (record { spent_micros = spent; exceeded = is_exceeded (charged_for a u spent) }),
      )
  unfolding record_usage charge
  record_usage-ok spent h = ground (arith, checked_add_assign-more a.usage u fits, h)

  cost_step :
      (p : PriceSnapshot) (limit : ℕ)
      → FitsCounters a.usage
      → IsFair (some p)
      → limit ≤ max_u64
      → calculate_spent_micros (some p) a.usage ≡ ok a.spent_micros
      → a.spent_micros ≤ limit
      → u.input_tokens * p.input_cache_miss_per_million_micros
          + u.output_tokens * p.output_per_million_micros
        ≤ 1000000 * (limit - a.spent_micros)
      → (spent : ℕ) × (calculate_spent_micros (some p) (more a.usage u) ≡ ok spent)
        × (spent ≤ limit)
  cost_step p limit f fair lf charged covered h =
      let n = bound in
      (_, calculate-some p (more a.usage u) fits.cached (omega (arith, n, lf)), omega (arith, n))
    where
      misses :
          a.usage.input_tokens
            + u.input_tokens
            - (a.usage.cached_input_tokens + min u.cached_input_tokens u.input_tokens)
          ≡ a.usage.input_tokens
            - a.usage.cached_input_tokens
            + (u.input_tokens - min u.cached_input_tokens u.input_tokens)
      misses = omega (arith, f.cached)

      bound : numerator (more a.usage u) p ≤ 1000000 * limit
      bound = rw misses (
          omega (
            arith,
            growth a.usage.cached_input_tokens (a.usage.input_tokens - a.usage.cached_input_tokens)
                a.usage.output_tokens (min u.cached_input_tokens u.input_tokens) u.input_tokens
                u.output_tokens p.input_cache_hit_per_million_micros
                p.input_cache_miss_per_million_micros p.output_per_million_micros (omega arith)
                fair,
            calculate-numerator p a.usage a.spent_micros f.cached charged,
            h,
            covered,
          ))

  tokens_step :
      (limit i o safety estimated max_output : ℕ)
      → limit ≤ max_u64
      → i + o ≤ limit
      → allows (token (limit - saturating_add i o) safety) estimated max_output ≡ true
      → u.input_tokens ≤ adjusted_input estimated safety
      → u.output_tokens ≤ max_output
      → i + u.input_tokens + (o + u.output_tokens) ≤ limit
  unfolding allows
  tokens_step limit i o safety estimated max_output lf covered h hi ho = ground arith

  Charged : ModelBudgetLimit → Option PriceSnapshot → Type 0
  Charged limit price =
      (spent : ℕ) × (calculate_spent_micros price (more a.usage u) ≡ ok spent)
      × Covers limit spent (more a.usage u)

  budget_of-Charged :
      (limit : ModelBudgetLimit) (price : Option PriceSnapshot) (safety estimated max_output : ℕ)
      (b : ModelRequestBudget)
      → FitsCounters a.usage
      → FitsLimit limit
      → IsFair price
      → calculate_spent_micros price a.usage ≡ ok a.spent_micros
      → Covers limit a.spent_micros a.usage
      → budget_of a limit price safety ≡ ok b
      → allows b estimated max_output ≡ true
      → u.input_tokens ≤ adjusted_input estimated safety
      → u.output_tokens ≤ max_output
      → Charged limit price
  unfolding Charged budget_of calculate_spent_micros allows
  budget_of-Charged (cost_micros currency limit) (some p) safety estimated max_output b f lf fair
        charged covered e al hi ho =
      cost_step p limit f fair lf charged covered (
        allows_cost (limit - a.spent_micros) p.input_cache_miss_per_million_micros
          p.output_per_million_micros safety estimated max_output u.input_tokens u.output_tokens
          (omega (arith, lf)) (cc) hi ho)
  budget_of-Charged (tokens limit) none safety estimated max_output b f lf fair charged covered e al
        hi ho =
      (
        0,
        refl,
        tokens_step limit a.usage.input_tokens a.usage.output_tokens safety _ _ (omega (arith, lf))
            covered (cc) hi ho,
      )
  budget_of-Charged (tokens limit) (some p) safety estimated max_output b f lf fair charged covered
        e al hi ho =
      cc
  budget_of-Charged (cost_micros currency limit) none safety estimated max_output b f lf fair
        charged covered e al hi ho =
      cc

  granted :
      (safety : ℕ) (b : ModelRequestBudget)
      → request_budget_with_input_safety a safety ≡ ok b
      → budget_of a a.limit a.price safety ≡ ok b
  unfolding request_budget_with_input_safety
  granted safety b e = ground arith

  -- A request that the budget of a sound account allows, and whose usage stays within the estimate
  -- and the counters' words, is charged without an error, and the account it leaves is sound: it has
  -- spent no more than its limit, and the spent sum is that of its usage.
  pub record_usage-IsSound :
      (safety estimated max_output : ℕ) (b : ModelRequestBudget)
      → IsSound a
      → request_budget_with_input_safety a safety ≡ ok b
      → allows b estimated max_output ≡ true
      → u.input_tokens ≤ adjusted_input estimated safety
      → u.output_tokens ≤ max_output
      → (c : BudgetCharge) × (record_usage a u ≡ (charged_for a u c.spent_micros, ok c))
        × IsSound (charged_for a u c.spent_micros)
  unfolding Charged
  record_usage-IsSound safety estimated max_output b s e al hi ho =
      let (spent, h, c) =
        budget_of-Charged a.limit a.price safety estimated max_output b s.fits s.limit_fits s.fair
          s.charged s.covered (granted safety b e) al hi ho in
      (
        _,
        record_usage-ok spent h,
        record { fits = fits; limit_fits = s.limit_fits; fair = s.fair; charged = h; covered = c },
      )
