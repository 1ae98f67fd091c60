-- ===== src/GitError.antt =====
-- crates/git-core/src/error.rs: the domain errors.
use git_client.Prelude.{ℕ, Text}

pub data GitError : Type 0 where
  repo_not_found : Text → GitError
  no_head : GitError
  cancelled : GitError
  nothing_to_commit : GitError
  nothing_to_stash : GitError
  empty_commit_message : GitError
  empty_signature : GitError
  branch_not_found : Text → GitError
  branch_already_exists : Text → GitError
  invalid_branch_name : GitError
  cannot_delete_current_branch : GitError
  tag_already_exists : Text → GitError
  checkout_conflict : GitError
  git_cli_not_found : GitError
  auth_failed : GitError
  network_error : GitError
  no_remote : GitError
  remote_already_exists : Text → GitError
  remote_not_found : Text → GitError
  invalid_remote_name : GitError
  destination_not_empty : Text → GitError
  invalid_url : GitError
  no_upstream : GitError
  push_rejected : GitError
  merge_conflict : ℕ → GitError
  nothing_to_undo : GitError
  nothing_to_redo : GitError
  uncommitted_changes : ℕ → GitError
  file_too_large : ℕ → GitError
  binary_file : GitError
  unsupported : GitError
  backend : Text → GitError
