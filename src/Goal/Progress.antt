-- ===== src/Goal/Progress.antt =====
-- goal.rs: `ProgressTracker`, which stops a goal that makes no progress.
use git_client.Prelude.{
  ℕ, suc, ◌+◌, ◌-◌, ◌≡◌, refl, ap, ◌∙◌, Bool, true, false, not, ◌&&◌, List, [], ◌∷◌, Option, none,
  some, Text, text_eq, text_eq_iff, min, leb, ◌==◌, Bool-cases, inl, inr, if◌then◌else◌, arith,
}

pub record ProgressTracker : Type 0 where
  pub last_digest : Option Text
  pub consecutive_no_progress : ℕ
  pub recovery_attempted : Bool

pub data ProgressAction : Type 0 where
  continue recovery_slice block : ProgressAction

abbrev pub no_progress_yet : ProgressTracker
no_progress_yet = record {
  last_digest = none;
  consecutive_no_progress = 0;
  recovery_attempted = false;
}

is_last : Option Text → Text → Bool
is_last none digest = false
is_last (some last) digest = text_eq last digest

-- The count is a `u8`, which saturates.
abbrev saturating_suc : ℕ → ℕ
saturating_suc n = min (n + 1) 255

repeated : ProgressTracker → ProgressTracker × ProgressAction
repeated t =
    if not t.recovery_attempted && leb 4 t.consecutive_no_progress
    then (record t { recovery_attempted = true; consecutive_no_progress = 0 }, recovery_slice)
    else if t.recovery_attempted && leb 2 t.consecutive_no_progress
    then (t, block)
    else (t, continue)

pub observe : ProgressTracker → Text → ProgressTracker × ProgressAction
unfolding is_last repeated
observe t digest =
    if not (is_last t.last_digest digest)
    then (
      record { last_digest = some digest; consecutive_no_progress = 0; recovery_attempted = false },
      continue,
    )
    else repeated (record t { consecutive_no_progress = saturating_suc t.consecutive_no_progress })

-- The tracker after a history of observations, the latest one first.
pub tracked : List Text → ProgressTracker
tracked [] = no_progress_yet
tracked (digest ∷ earlier) = (observe (tracked earlier) digest).0

-- How many of the latest observations are `digest`.
pub run_length : Text → List Text → ℕ
run_length digest [] = 0
run_length digest (d ∷ earlier) = if text_eq d digest then suc (run_length digest earlier) else 0

-- What a digest that was seen `n` times in a row leads to when it is seen again.
pub action_after : ℕ → ProgressAction
action_after n = if n == 4 then recovery_slice else if leb 6 n then block else continue

-- The tracker when `n` observations of a digest precede the latest one.
stalled : Text → ℕ → ProgressTracker
stalled digest n = record {
  last_digest = some digest;
  consecutive_no_progress = if leb n 3 then n else min (n - 4) 255;
  recovery_attempted = leb 4 n;
}

observe-stalled_same :
    (d : Text) (n : ℕ) → observe (stalled d n) d ≡ (stalled d (suc n), action_after (suc n))
unfolding observe is_last repeated stalled action_after
observe-stalled_same d n = ground (arith, text_eq_iff d d)

observe-stalled_other :
    (e d : Text) (n : ℕ)
    → text_eq e d ≡ false
    → observe (stalled e n) d ≡ (stalled d 0, action_after 0)
unfolding observe is_last stalled action_after
observe-stalled_other e d n h = rw h refl

observe-stalled :
    (e d : Text) (earlier : List Text)
    → observe (stalled e (run_length e earlier)) d
      ≡ (stalled d (run_length d (e ∷ earlier)), action_after (run_length d (e ∷ earlier)))
unfolding run_length
observe-stalled e d earlier = elim (Bool-cases (text_eq e d)) [
  | inl h ↦ rw (h, (text_eq_iff e d).0 h) (observe-stalled_same d (run_length d earlier))
  | inr h ↦ rw h (observe-stalled_other e d (run_length e earlier) h)
]

observe-first : (d : Text) → observe no_progress_yet d ≡ (stalled d 0, action_after 0)
unfolding observe is_last stalled action_after
observe-first d = refl

tracked-stalled :
    (d : Text) (earlier : List Text) → tracked (d ∷ earlier) ≡ stalled d (run_length d earlier)
unfolding tracked run_length
tracked-stalled d [] = ap (λ p. p.0) (observe-first d)
tracked-stalled d (e ∷ earlier) =
    ap (λ t. (observe t d).0) (tracked-stalled e earlier)
    ∙ ap (λ p. p.0) (observe-stalled e d earlier)

-- Whatever was observed before, `observe` answers by the number of times in a row that the same
-- digest was seen just before: it goes on at the first ones, tries a recovery when that number is
-- four, goes on once more, and blocks from six on.
pub observe-action_after :
    (history : List Text) (d : Text)
    → (observe (tracked history) d).1 ≡ action_after (run_length d history)
unfolding tracked run_length
observe-action_after [] d = ap (λ p. p.1) (observe-first d)
observe-action_after (e ∷ earlier) d =
    ap (λ t. (observe t d).1) (tracked-stalled e earlier)
    ∙ ap (λ p. p.1) (observe-stalled e d earlier)
