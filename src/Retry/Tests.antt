-- ===== src/Retry/Tests.antt =====
-- provider_retry.rs: a call that succeeds at the third attempt.
use git_client.Prelude.{ℕ, ◌≡◌, refl, true, false, some, codes, ok, err, arith, ◌==◌}
use git_client.Retry.{
  rate_limited, default_policy, Surroundings, delay_after, respond_with_retry, respond, retries,
  begun, awoken, failed, answered, attempted,
}
use git_client.Retry.Bounds.{
  IsBounded, respond_with_retry-IsBounded, Near, doubled, delay_after-bounds,
}

abbrev third_time : Surroundings ℕ
third_time = record {
  cancelled_before = λ n. false;
  answer = λ n. elim (n == 3) [ true ↦ some (ok 7) | false ↦ some (err rate_limited) ];
  cancelled_after = λ n. false;
  cancelled_asleep = λ n. false;
}

third_time_ok :
    (respond_with_retry default_policy third_time (codes "run") (λ e. false) 0).result ≡ some (ok 7)
unfolding respond_with_retry respond retries begun awoken failed answered attempted
third_time_ok = refl

respond_with_retry-IsBounded_example :
    IsBounded default_policy 1 false 0
      (respond_with_retry default_policy third_time (codes "run") (λ e. false) 0)
respond_with_retry-IsBounded_example =
    respond_with_retry-IsBounded default_policy third_time (codes "run") (λ e. false) 0

delay_after-bounds_example :
    Near default_policy (doubled default_policy 1) (delay_after default_policy 2 (codes "run"))
delay_after-bounds_example = delay_after-bounds default_policy 2 (codes "run") (omega arith)

-- The second failure waits about 400 milliseconds.
doubled_once : doubled default_policy 1 ≡ 400
unfolding doubled
doubled_once = refl
