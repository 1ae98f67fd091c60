-- ===== src/Goal/Tests.antt =====
-- goal.rs: the progress tracker on a goal that stands still.
use git_client.Prelude.{◌≡◌, List, [], ◌∷◌, Text, codes}
use git_client.Goal.Progress.{observe, tracked, run_length, action_after, observe-action_after}

abbrev six_times : List Text
six_times = codes "d" ∷ codes "d" ∷ codes "d" ∷ codes "d" ∷ codes "d" ∷ codes "d" ∷ codes "c" ∷ []

observe-action_after_example :
    (observe (tracked six_times) (codes "d")).1 ≡ action_after (run_length (codes "d") six_times)
observe-action_after_example = observe-action_after six_times (codes "d")
