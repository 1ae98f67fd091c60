-- ===== src/RepoContext/Cache/Tests.antt =====
-- Tests of the caches of repo_context.rs.
use git_client.Prelude.{ℕ, ◌≡◌, refl, true, false, [], ◌∷◌, none, some}
use git_client.RepoContext.Cache.{RepoCache, invalidate, after_write}

abbrev full : RepoCache ℕ
full = record {
  commit_files = 1 ∷ [];
  commit_diff = 2 ∷ [];
  status = some 3;
  working_diff = 4 ∷ [];
  graph = 5 ∷ [];
  log = 6 ∷ [];
  refs = some 7;
  branches = some 8;
  current_branch = some 9;
  ahead_behind = some 10;
  compare_files = 11 ∷ [];
  compare_diff = 12 ∷ [];
  file_history = 13 ∷ [];
  line_history = 14 ∷ [];
  pickaxe = 15 ∷ [];
  blame = 16 ∷ [];
}

-- A change of the worktree clears the status and keeps the history, which a change of the references
-- clears; the files of a commit stay.
cleared :
    ((after_write full true false).status ≡ none)
    × ((after_write full true false).log ≡ 6 ∷ [])
    × ((after_write full false true).log ≡ [])
    × ((after_write full true true).commit_files ≡ 1 ∷ [])
unfolding after_write invalidate
cleared = (refl, refl, refl, refl)
