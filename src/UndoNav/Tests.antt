-- ===== src/UndoNav/Tests.antt =====
-- Tests of undo_nav.rs, and the theorems at concrete timelines.
use git_client.Prelude.{◌≡◌, refl, inr, true, List, [], ◌∷◌, none, some, value, pos, codes, map}
use git_client.Undo.{uncommit, restore}
use git_client.UndoNav.{
  UndoNav, NavStep, Call, records, undoes, record_op, commit_undo, commit_redo, point_at, can_undo,
  can_redo, is_aligned, items, step, run, default,
}
use git_client.UndoNav.Valid.{IsValid, run-IsValid}
use git_client.UndoNav.Line.{view, blank}
use git_client.UndoNav.Refinement.{view-run, run_line}
use git_client.UndoNav.Navigation.{offers, undo_offer, redo_offer, record-undo, undo-redo}

abbrev three_ops : List Call
three_ops =
    records (some (codes "base")) (codes "A") (codes "提交") uncommit (pos 100)
    ∷ records (some (codes "A")) (codes "B") (codes "cherry-pick") restore (pos 200)
    ∷ records (some (codes "B")) (codes "C") (codes "重置(reset)") restore (pos 300)
    ∷ []

abbrev walked : UndoNav
walked = run default three_ops

walked_offers :
    (can_undo walked
      ≡ value (some (record { label = codes "重置(reset)"; target_oid = codes "B"; kind = restore })))
    × (point_at walked 1
        ≡ value
            (some (record { label = codes "重置(reset)"; target_oid = codes "A"; kind = restore })))
    × (point_at walked 9 ≡ value none)
    × (can_redo walked ≡ value none)
    × (map (λ i. i.timestamp) (items walked) ≡ pos 100 ∷ pos 100 ∷ pos 200 ∷ pos 300 ∷ [])
unfolding run step record_op can_undo can_redo point_at items
walked_offers = (refl, refl, refl, refl, refl)

-- A new operation after an undo drops the redo branch.
branch_dropped :
    can_redo (
      run default (
        records (some (codes "base")) (codes "A") (codes "提交") uncommit (pos 0)
        ∷ records (some (codes "A")) (codes "B") (codes "提交") uncommit (pos 0)
        ∷ undoes
        ∷ records (some (codes "A")) (codes "C") (codes "提交") uncommit (pos 0)
        ∷ []))
    ≡ value none
unfolding run step record_op commit_undo can_redo
branch_dropped = refl

run-IsValid_example : IsValid (run default (three_ops))
run-IsValid_example = run-IsValid default three_ops (inr (refl, refl))

view-run_example : view walked ≡ run_line blank three_ops
view-run_example = view-run three_ops

offers_example :
    (can_undo walked ≡ value (undo_offer (view walked)))
    × (can_redo walked ≡ value (redo_offer (view walked)))
offers_example = offers walked (run-IsValid default three_ops (inr (refl, refl)))

record-undo_example :
    let nav' = record_op walked (some (codes "X")) (codes "Y") (codes "提交") uncommit (pos 400) in
    (can_undo nav'
      ≡ value (some (record { label = codes "提交"; target_oid = codes "X"; kind = uncommit })))
    × (can_redo nav' ≡ value none)
    × (is_aligned nav' (codes "Y") ≡ true)
record-undo_example =
    record-undo walked (codes "X") (codes "Y") (codes "提交") uncommit (pos 400)
      (run-IsValid default three_ops (inr (refl, refl))) refl

abbrev reset_step : NavStep
reset_step = record { label = codes "重置(reset)"; target_oid = codes "B"; kind = restore }

undo-redo_example :
    (commit_redo (commit_undo walked) ≡ walked)
    × (can_redo (commit_undo walked)
        ≡ value
            (some (record { label = codes "重置(reset)"; target_oid = codes "C"; kind = restore })))
    × (is_aligned (commit_undo walked) (codes "B") ≡ true)
unfolding run step record_op can_undo is_aligned
undo-redo_example =
    undo-redo walked reset_step (codes "C") (run-IsValid default three_ops (inr (refl, refl))) refl
      refl
