-- ===== src/ToolRuntime/RunLimits/Tests.antt =====
-- Tests of run_limits.rs.
use git_client.Prelude.{◌≡◌, refl, codes, encode_utf8, utf8}
use git_client.ToolRuntime.RunLimits.{
  default_limits, default_counters, remaining_result_bytes, hex_digit, hex_digits, hash_from,
  stable_hash, decimal_from, decimal,
}

printed :
    (decimal 0 ≡ codes "0")
    × (decimal 120 ≡ codes "120")
    × (stable_hash (codes "") ≡ codes "cbf29ce484222325")
    × (stable_hash (codes "a") ≡ codes "af63bd4c8601b7be")
    × (remaining_result_bytes default_limits default_counters ≡ 300000)
unfolding decimal decimal_from stable_hash hash_from hex_digits hex_digit encode_utf8 utf8
    remaining_result_bytes
printed = (refl, refl, refl, refl, refl)
