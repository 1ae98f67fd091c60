-- ===== src/RepoContext/Cache.antt =====
-- crates/app-service/src/repo_context.rs: the caches of a context and what each kind of change
-- clears. Every cached value is of one type `V`; a least-recently-used cache is the list of what it
-- holds.
mod Tests
use git_client.Prelude.{Bool, List, [], Option, none, if◌then◌else◌}

pub data ChangeKind : Type 0 where
  working_tree index git_ref : ChangeKind

pub record RepoCache (V : Type 0) : Type 0 where
  pub commit_files : List V
  pub commit_diff : List V
  pub status : Option V
  pub working_diff : List V
  pub graph : List V
  pub log : List V
  pub refs : Option V
  pub branches : Option V
  pub current_branch : Option V
  pub ahead_behind : Option V
  pub compare_files : List V
  pub compare_diff : List V
  pub file_history : List V
  pub line_history : List V
  pub pickaxe : List V
  pub blame : List V

module _ {V : Type 0} where
  invalidate : RepoCache V → ChangeKind → RepoCache V
  invalidate c working_tree = record c { status = none; working_diff = []; blame = [] }
  invalidate c index = record c { status = none; working_diff = []; blame = [] }
  invalidate c git_ref = record c {
    graph = [];
    log = [];
    refs = none;
    branches = none;
    current_branch = none;
    ahead_behind = none;
    compare_files = [];
    compare_diff = [];
    file_history = [];
    line_history = [];
    pickaxe = [];
    blame = [];
  }

  pub after_write : RepoCache V → Bool → Bool → RepoCache V
  unfolding invalidate
  after_write c worktree refs =
      let c' : RepoCache V = if worktree then invalidate c working_tree else c in
      if refs then invalidate c' git_ref else c'
