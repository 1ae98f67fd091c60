-- ===== src/Retry.antt =====
-- crates/review-agent/src/provider_retry.rs: the retries of a call of a model provider, with
-- `ProviderError` and `RetryPolicy` of crates/agent-runtime/src/lib.rs. The provider, the
-- cancellation and the sleep are parameters, by the number of the attempt. The loop runs on fuel.
pub mod Bounds
mod Tests
use git_client.Prelude.{
  ℕ, zero, suc, ◌+◌, ◌-◌, ◌*◌, ◌/◌, ◌%◌, ◌^◌, Bool, true, false, not, ◌&&◌, ◌||◌, List, [], ◌∷◌,
  ◌++◌, Option, none, some, Text, codes, utf8, min, ltb, ◌==◌, if◌then◌else◌, Result, ok, err,
  max_u64, saturating_add, saturating_mul,
}
use git_client.ToolRuntime.RunLimits.{decimal, hash_from}
use git_client.Goal.Budget.{max_u32}

pub data ProviderError : Type 0 where
  credential_missing auth_failed quota_exceeded invalid_request rate_limited : ProviderError
  network : Text → ProviderError
  stream_interrupted output_truncated : ProviderError
  invalid_response : Text → ProviderError

abbrev pub is_safe_to_automatically_retry : ProviderError → Bool
is_safe_to_automatically_retry rate_limited = true
is_safe_to_automatically_retry (network e) = true
is_safe_to_automatically_retry _ = false

pub record RetryPolicy : Type 0 where
  pub max_attempts : ℕ
  pub base_delay_ms : ℕ
  pub max_delay_ms : ℕ
  pub jitter_percent : ℕ

abbrev pub default_policy : RetryPolicy
default_policy = record {
  max_attempts = 3;
  base_delay_ms = 200;
  max_delay_ms = 2000;
  jitter_percent = 20;
}

-- The delay before its jitter, and how far that reaches.
pub plain_delay : RetryPolicy → ℕ → ℕ
plain_delay p failed_attempt =
    min (saturating_mul p.base_delay_ms (2 ^ min (failed_attempt - 1) 16)) p.max_delay_ms

pub spread : RetryPolicy → ℕ → ℕ
unfolding plain_delay
spread p failed_attempt =
    saturating_mul (plain_delay p failed_attempt) (min p.jitter_percent 100) / 100

-- In milliseconds.
pub delay_after : RetryPolicy → ℕ → Text → ℕ
unfolding plain_delay spread
delay_after p failed_attempt jitter_key =
    let delay = plain_delay p failed_attempt in
    let width = spread p failed_attempt in
    let hash =
      hash_from 0xcbf29ce484222325 (utf8 (jitter_key ++ codes ":" ++ decimal failed_attempt)) in
    if min p.jitter_percent 100 == 0 || delay == 0
    then delay
    else saturating_add (delay - width) (hash % saturating_add (saturating_mul width 2) 1)

pub data ProviderCallError : Type 0 where
  cancelled : ProviderCallError
  provider : ProviderError → ProviderCallError

-- What the attempts meet: the checks of the cancellation, the answer of the provider, or none where
-- the cancellation comes first, and whether it comes during the sleep.
pub record Surroundings (R : Type 0) : Type 0 where
  pub cancelled_before : ℕ → Bool
  pub answer : ℕ → Option (Result ProviderError R)
  pub cancelled_after : ℕ → Bool
  pub cancelled_asleep : ℕ → Bool

-- The events emitted, the calls of the provider and the sleeps.
pub data Effect : Type 0 where
  attempt_started : Effect
  called : (attempt : ℕ) → Effect
  attempt_failed : ProviderError → (will_retry : Bool) → Effect
  slept : (delay_ms : ℕ) → Effect

-- What a loop leaves: the counter `attempts`, the effects in their order and its result.
pub record Ended (R : Type 0) : Type 0 where
  pub attempts : ℕ
  pub effects : List Effect
  pub result : Option (Result ProviderCallError R)

abbrev pub after : {R : Type 0} → List Effect → Ended R → Ended R
after effects e = record e { effects = effects ++ e.effects }

abbrev pub ended : {R : Type 0} → ℕ → List Effect → Result ProviderCallError R → Ended R
ended attempts effects result = record {
  attempts = attempts;
  effects = effects;
  result = some result;
}

module _ {R : Type 0} (policy : RetryPolicy) (s : Surroundings R) (run_id : Text)
    (recoverable_invalid : ProviderError → Bool) where
  -- Whether an attempt that failed is repeated.
  pub retries : ℕ → Bool → ProviderError → Bool
  retries attempt invalid_retry_used e =
      ltb attempt policy.max_attempts
      && (is_safe_to_automatically_retry e || (not invalid_retry_used && recoverable_invalid e))

  begun : ℕ → List Effect
  begun attempt = attempt_started ∷ called attempt ∷ []

  -- The rounds of the loop from the end on; `rest` is what the next round leaves, by whether the
  -- one retry of an invalid response is used up.
  awoken : (Bool → Ended R) → ℕ → Bool → ℕ → ProviderError → Bool → Ended R
  unfolding begun
  awoken rest attempt used attempts e true =
      ended attempts (begun attempt ++ attempt_failed e true ∷ []) (err cancelled)
  awoken rest attempt used attempts e false =
      after
        (begun attempt ++ attempt_failed e true ∷ slept (delay_after policy attempt run_id) ∷ [])
        (rest (used || not (is_safe_to_automatically_retry e)))

  failed : (Bool → Ended R) → ℕ → Bool → ℕ → ProviderError → Bool → Ended R
  unfolding awoken
  failed rest attempt used attempts e false =
      ended attempts (begun attempt ++ attempt_failed e false ∷ []) (err (provider e))
  failed rest attempt used attempts e true =
      awoken rest attempt used attempts e (s.cancelled_asleep attempt)

  answered : (Bool → Ended R) → ℕ → Bool → ℕ → Option (Result ProviderError R) → Ended R
  unfolding failed retries
  answered rest attempt used attempts none = ended attempts (begun attempt) (err cancelled)
  answered rest attempt used attempts (some (ok response)) =
      ended attempts (begun attempt)
        (if s.cancelled_after attempt then err cancelled else ok response)
  answered rest attempt used attempts (some (err e)) =
      failed rest attempt used attempts e (retries attempt used e)

  attempted : (Bool → Ended R) → ℕ → Bool → ℕ → Bool → Ended R
  unfolding answered
  attempted rest attempt used attempts true = ended attempts [] (err cancelled)
  attempted rest attempt used attempts false =
      answered rest attempt used (min (attempts + 1) max_u32) (s.answer attempt)

  pub respond : ℕ → ℕ → Bool → ℕ → Ended R
  unfolding attempted
  respond zero attempt used attempts = record { attempts = attempts; effects = []; result = none }
  respond (suc fuel) attempt used attempts =
      attempted (λ used'. respond fuel (attempt + 1) used' (min (attempts + 1) max_u32)) attempt
        used attempts (s.cancelled_before attempt)

  -- `respond_with_retry_and_events_matching`: the fuel is one more than the attempts allowed.
  pub respond_with_retry : ℕ → Ended R
  unfolding respond
  respond_with_retry attempts = respond (suc policy.max_attempts) 1 false attempts
