-- ===== src/Retry/Bounds.antt =====
-- provider_retry.rs: how often and for what a call is repeated, and how long that waits.
use git_client.Prelude.{
  ◌*◌, ◌/◌, ap, ◌∙◌, ℕ, zero, suc, ◌+◌, ◌-◌, ◌%◌, ◌^◌, ◌≤◌, ◌<◌, ◌≡◌, refl, Bool, true, false, not,
  ◌||◌, List, [], ◌∷◌, ◌++◌, Option, none, some, Text, codes, utf8, min, ◌==◌, if◌then◌else◌,
  Result, ok, err, Bool-cases, inl, inr, saturating_add, saturating_mul, arith,
}
use native.Mathlib.Numerals.{unary_clauses}
use native.Mathlib.Nat.{mod-lt, mul-le-mul_left}
use git_client.ToolRuntime.RunLimits.{decimal, hash_from}
use git_client.Goal.Budget.{max_u32}
use git_client.Retry.{
  ProviderError, is_safe_to_automatically_retry, RetryPolicy, plain_delay, spread, delay_after,
  Surroundings, Effect, called, attempt_failed, ProviderCallError, cancelled, provider, begun,
  awoken, failed, answered, attempted, Ended, retries, respond, respond_with_retry,
}

jittered :
    (d w n m : ℕ)
    → w ≤ d
    → d ≤ 2 ^ 32
    → m ≡ saturating_add (saturating_mul w 2) 1
    → (d - w ≤ saturating_add (d - w) (n % m)) × (saturating_add (d - w) (n % m) ≤ d + w)
jittered d w n m h k e =
    let r = mod-lt n {m = m} (omega (arith, e)) in (omega (arith, k), omega (arith, r, e, h, k))

-- The delay of the first attempt, doubled `n` times up to the longest delay.
unfoldable pub doubled : RetryPolicy → ℕ → ℕ
doubled p zero = min p.base_delay_ms p.max_delay_ms
doubled p (suc n) = min (2 * doubled p n) p.max_delay_ms

twice : (b n : ℕ) → b * (n * 2) ≡ 2 * (b * n)
twice b n = omega arith

doubled-power :
    (p : RetryPolicy) (n : ℕ) → doubled p n ≡ min (p.base_delay_ms * 2 ^ n) p.max_delay_ms
unfolding doubled
doubled-power p zero = omega arith
doubled-power p (suc n) =
    let e : p.base_delay_ms * 2 ^ suc n ≡ 2 * (p.base_delay_ms * 2 ^ n) =
      simp unary_clauses (twice p.base_delay_ms (2 ^ n)) in
    omega (arith, e, doubled-power p n)

plain_delay-doubled :
    (p : RetryPolicy) (n : ℕ)
    → p.max_delay_ms ≤ 2 ^ 32
    → plain_delay p n ≡ doubled p (min (n - 1) 16)
unfolding plain_delay
plain_delay-doubled p n h = omega (arith, h, doubled-power p (min (n - 1) 16))

doubled-le : (p : RetryPolicy) (n : ℕ) → doubled p n ≤ p.max_delay_ms
unfolding doubled
doubled-le p zero = omega arith
doubled-le p (suc n) = omega arith

-- How far the jitter reaches.
abbrev pub share : RetryPolicy → ℕ → ℕ
share p delay = delay * min p.jitter_percent 100 / 100

share-le : (p : RetryPolicy) (d : ℕ) → share p d ≤ d
share-le p d =
    let h : min p.jitter_percent 100 ≤ 100 = omega arith in omega (arith, mul-le-mul_left d h)

spread-share :
    (p : RetryPolicy) (n : ℕ) → plain_delay p n ≤ 2 ^ 32 → spread p n ≡ share p (plain_delay p n)
unfolding spread
spread-share p n k =
    let h : min p.jitter_percent 100 ≤ 100 = omega arith in
    omega (arith, k, mul-le-mul_left (plain_delay p n) h)

near-plain :
    (p : RetryPolicy) (n : ℕ) (jitter_key : Text)
    → plain_delay p n ≤ 2 ^ 32
    → spread p n ≤ plain_delay p n
    → (plain_delay p n - spread p n ≤ delay_after p n jitter_key)
      × (delay_after p n jitter_key ≤ plain_delay p n + spread p n)
unfolding delay_after
near-plain p n jitter_key h k =
    let j =
      jittered (plain_delay p n) (spread p n)
        (hash_from 0xcbf29ce484222325 (utf8 (jitter_key ++ codes ":" ++ decimal n)))
        (saturating_add (saturating_mul (spread p n) 2) 1) k h refl in
    elim (Bool-cases (min p.jitter_percent 100 == 0 || plain_delay p n == 0)) [
      | inl b ↦ (rw b (omega arith), rw b (omega arith))
      | inr b ↦ (rw b j.0, rw b j.1)
    ]

abbrev pub Near : RetryPolicy → ℕ → ℕ → Type 0
Near p plain delay =
    (plain - share p plain ≤ delay) × (delay ≤ plain + share p plain) × (plain ≤ p.max_delay_ms)

-- With a longest delay of at most 2 ^ 32 milliseconds: the delay behind a failed attempt is the
-- base delay, doubled for each attempt after the first, sixteen times at most, and capped by the
-- longest delay, up to a jitter in either direction, which is the policy's percentage of it, a
-- hundred at most.
pub delay_after-bounds :
    (p : RetryPolicy) (failed_attempt : ℕ) (jitter_key : Text)
    → p.max_delay_ms ≤ 2 ^ 32
    → Near p (doubled p (min (failed_attempt - 1) 16)) (delay_after p failed_attempt jitter_key)
delay_after-bounds p n jitter_key h =
    let plain = plain_delay-doubled p n h in
    let longest = doubled-le p (min (n - 1) 16) in
    let small : plain_delay p n ≤ 2 ^ 32 = omega (arith, plain, longest, h) in
    let wide = spread-share p n small in
    let fits : spread p n ≤ plain_delay p n = omega (arith, wide, share-le p (plain_delay p n)) in
    let (low, high) = near-plain p n jitter_key small fits in
    let e = wide ∙ ap (share p) plain in
    (omega (arith, low, e, plain), omega (arith, high, e, plain), longest)

pub calls_of : List Effect → ℕ
calls_of [] = 0
calls_of (called n ∷ es) = suc (calls_of es)
calls_of (_ ∷ es) = calls_of es

-- The failures that are retried although that is not safe.
pub unsafe_retries : List Effect → ℕ
unsafe_retries [] = 0
unsafe_retries (attempt_failed e true ∷ es) =
    let rest = unsafe_retries es in if is_safe_to_automatically_retry e then rest else suc rest
unsafe_retries (_ ∷ es) = unsafe_retries es

-- A call within its attempts, at most one of which repeats what is not safe to repeat.
pub record IsBounded {R : Type 0} (policy : RetryPolicy) (attempt : ℕ) (used : Bool) (attempts : ℕ)
    (e : Ended R) : Type 0 where
  pub returned : Result ProviderCallError R
  pub returns : e.result ≡ some returned
  pub calls : calls_of e.effects ≤ suc (policy.max_attempts - attempt)
  pub unsafe : unsafe_retries e.effects ≤ (if used then 0 else 1)
  pub counter : e.attempts ≤ attempts + calls_of e.effects

module _ {R : Type 0} (policy : RetryPolicy) (s : Surroundings R) (run_id : Text)
    (recoverable_invalid : ProviderError → Bool) where
  awoken-IsBounded :
      (rest : Bool → Ended R) (attempt : ℕ) (used : Bool) (attempts : ℕ) (e : ProviderError)
      (asleep : Bool)
      → attempt < policy.max_attempts
      → (is_safe_to_automatically_retry e || not used) ≡ true
      → ((used' : Bool)
          → IsBounded policy (attempt + 1) used' (min (attempts + 1) max_u32) (rest used'))
      → IsBounded policy attempt used attempts (
          awoken policy s run_id recoverable_invalid rest attempt used
            (min (attempts + 1) max_u32)
            e
            asleep)
  unfolding awoken begun calls_of unsafe_retries
  awoken-IsBounded rest attempt used attempts e true h k b = record {
    returned = err cancelled;
    returns = refl;
    calls = omega arith;
    unsafe = ground arith;
    counter = omega arith;
  }
  awoken-IsBounded rest attempt used attempts e false h k b =
      let n = b (used || not (is_safe_to_automatically_retry e)) in
      record {
        returned = n.returned;
        returns = n.returns;
        calls = omega (arith, n.calls, h);
        unsafe = ground (arith, n.unsafe, k);
        counter = omega (arith, n.counter);
      }

  module _ (rest : Bool → Ended R) (attempt : ℕ) (used : Bool) (attempts : ℕ)
      (b : attempt < policy.max_attempts
        → (used' : Bool)
        → IsBounded policy (attempt + 1) used' (min (attempts + 1) max_u32) (rest used')) where
    failed-IsBounded :
        (e : ProviderError) (again : Bool)
        → retries policy s run_id recoverable_invalid attempt used e ≡ again
        → IsBounded policy attempt used attempts (
            failed policy s run_id recoverable_invalid rest attempt used
              (min (attempts + 1) max_u32)
              e
              again)
    unfolding failed begun calls_of unsafe_retries retries
    failed-IsBounded e false h = record {
      returned = err (provider e);
      returns = refl;
      calls = omega arith;
      unsafe = omega arith;
      counter = omega arith;
    }
    failed-IsBounded e true h =
        let l : attempt < policy.max_attempts = ground arith in
        awoken-IsBounded rest attempt used attempts e (s.cancelled_asleep attempt) l (ground arith)
          (b l)

    answered-IsBounded :
        (answer : Option (Result ProviderError R))
        → IsBounded policy attempt used attempts (
            answered policy s run_id recoverable_invalid rest attempt used
              (min (attempts + 1) max_u32)
              answer)
    unfolding answered begun calls_of unsafe_retries
    answered-IsBounded none = record {
      returned = err cancelled;
      returns = refl;
      calls = omega arith;
      unsafe = omega arith;
      counter = omega arith;
    }
    answered-IsBounded (some (ok response)) = record {
      returned = if s.cancelled_after attempt then err cancelled else ok response;
      returns = refl;
      calls = omega arith;
      unsafe = omega arith;
      counter = omega arith;
    }
    answered-IsBounded (some (err e)) =
        failed-IsBounded e (retries policy s run_id recoverable_invalid attempt used e) refl

    attempted-IsBounded :
        (stopped : Bool)
        → IsBounded policy attempt used attempts
            (attempted policy s run_id recoverable_invalid rest attempt used attempts stopped)
    unfolding attempted calls_of unsafe_retries
    attempted-IsBounded true = record {
      returned = err cancelled;
      returns = refl;
      calls = omega arith;
      unsafe = omega arith;
      counter = omega arith;
    }
    attempted-IsBounded false = answered-IsBounded (s.answer attempt)

  respond-IsBounded :
      (fuel attempt : ℕ) (used : Bool) (attempts : ℕ)
      → policy.max_attempts < attempt + fuel
      → 0 < fuel
      → IsBounded policy attempt used attempts
          (respond policy s run_id recoverable_invalid fuel attempt used attempts)
  unfolding respond
  respond-IsBounded zero attempt used attempts h k = elim k [ ]
  respond-IsBounded (suc fuel) attempt used attempts h k =
      attempted-IsBounded
        (λ used'.
          respond policy s run_id recoverable_invalid fuel (attempt + 1) used'
            (min (attempts + 1) max_u32))
        attempt used attempts
        (λ l used'.
          respond-IsBounded fuel (attempt + 1) used' (min (attempts + 1) max_u32) (omega (arith, h))
            (omega (arith, h, l)))
        (s.cancelled_before attempt)

  -- Whatever the provider answers and whenever the call is cancelled, it returns a response or an
  -- error. The provider is called at most `max_attempts` times, or once if that is zero; at most one
  -- failure is retried that is neither a rate limit nor a network error; and the counter of attempts
  -- goes up by no more than the calls made.
  pub respond_with_retry-IsBounded :
      (attempts : ℕ)
      → IsBounded policy 1 false attempts
          (respond_with_retry policy s run_id recoverable_invalid attempts)
  unfolding respond_with_retry
  respond_with_retry-IsBounded attempts =
      respond-IsBounded (suc policy.max_attempts) 1 false attempts (omega arith) (omega arith)
