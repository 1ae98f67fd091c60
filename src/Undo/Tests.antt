-- ===== src/Undo/Tests.antt =====
-- Tests of undo.rs, and the theorems at concrete messages.
use git_client.Prelude.{◌≡◌, refl, none, some, [], ◌∷◌, ◌++◌, codes, is_whitespace, trim_start}
use git_client.Undo.{restore, classify_undoable, undoable_op_label, first_token}
use git_client.Undo.Classify.{kind_of, classify-keyword}

undoable_ops :
    (undoable_op_label (codes "commit (initial): 第一次提交") ≡ some (codes "提交"))
    × (undoable_op_label (codes "commit (amend): 改了信息") ≡ some (codes "修改提交(amend)"))
    × (undoable_op_label (codes "merge feature: Merge made by the 'ort' strategy.")
        ≡ some (codes "合并"))
    × (undoable_op_label (codes "checkout: moving from main to dev") ≡ none)
    × (undoable_op_label [] ≡ none)
unfolding undoable_op_label first_token is_whitespace trim_start
undoable_ops = (refl, refl, refl, refl, refl)

classify-keyword_example :
    kind_of (classify_undoable ((32 ∷ []) ++ (codes "rebase" ++ 32 ∷ codes "(finish)")))
    ≡ some restore
unfolding is_whitespace
classify-keyword_example =
    classify-keyword (32 ∷ []) (codes "rebase") 32 (codes "(finish)") (refl, tt)
      (refl, (refl, (refl, (refl, (refl, (refl, (refl, tt))))))) refl
