-- ===== src/Client/Github/Commits.antt =====
-- Commits on GitHub, and the statuses of a commit.
use froggit_go.Base.{ℕ, String, Option, List, [], ◌∷◌, Result, ok, deref, ◌>>=◌ as ◌>>>◌}
use froggit_go.Calls.{◌>>=◌, ◌>>◌, pure}
use froggit_go.Client.Types.{CommitStatus, CommitStatusInfo, CommitInfo}
use froggit_go.Client.Status.{get_github_commit_state, commit_status_as_string_to_status}
use froggit_go.Client.Params.{Order}
use froggit_go.Client.Shared.{validated, latest_commit}
use froggit_go.Client.Github.Api.{
  list_commits, get_commit, create_status, get_combined_status, Status, Commit, Server, Rest,
}
use froggit_go.Client.Github.RateLimit.{Attempt, request, reading, reading_with, limited, ask}

abbrev pub map_github_commit_to_commit_info : Commit → CommitInfo
map_github_commit_to_commit_info c = record {
  hash = c.sha;
  author_name = c.author_name;
  committer_name = c.committer_name;
  url = c.url;
  timestamp = c.committer_date;
  message = c.message;
  parent_hashes = c.parents;
  author_email = c.author_email;
}

commit_infos : List Commit → List CommitInfo
commit_infos [] = []
commit_infos (c ∷ cs) = map_github_commit_to_commit_info c ∷ commit_infos cs

abbrev pub number_of_commits_to_fetch : ℕ
number_of_commits_to_fetch = 50

module _ (order : Order) (s : Server) where
  unfoldable pub execute_get_commits : String → String → String → Attempt (Option (List CommitInfo))
  unfolding request reading_with commit_infos
  execute_get_commits owner repository branch =
      reading
        (request s.commits (list_commits owner repository branch 1 number_of_commits_to_fetch))
        (λ commits. ok (commit_infos commits))

  unfoldable pub get_commits : String → String → String → Rest (List CommitInfo)
  unfolding validated limited execute_get_commits
  get_commits owner repository branch = do
    validated order (("owner", owner) ∷ ("repository", repository) ∷ ("branch", branch) ∷ [])
    limited s (execute_get_commits owner repository branch)

  unfoldable pub get_latest_commit : String → String → String → Rest CommitInfo
  unfolding get_commits
  get_latest_commit owner repository branch = do
    commits ← get_commits owner repository branch
    pure (latest_commit commits)

  unfoldable pub get_commit_by_sha : String → String → String → Rest CommitInfo
  unfolding validated ask
  get_commit_by_sha owner repository sha = do
    validated order (("owner", owner) ∷ ("repository", repository) ∷ ("sha", sha) ∷ [])
    commit ← ask s s.commit (get_commit owner repository sha)
    pure (map_github_commit_to_commit_info commit)

-- The state is a pointer that is read without a check.
status_info : Status → Result CommitStatusInfo
unfolding commit_status_as_string_to_status
status_info t = deref t.state >>> λ state. ok (record {
  state = commit_status_as_string_to_status state;
  description = t.description;
  details_url = t.target_url;
  creator = t.creator_name;
  last_updated_at = t.updated_at;
  created_at = t.created_at;
})

status_infos : List Status → Result (List CommitStatusInfo)
unfolding status_info
status_infos [] = ok []
status_infos (t ∷ ts) = status_info t >>> λ i. status_infos ts >>> λ is. ok (i ∷ is)

module _ (s : Server) where
  unfoldable pub set_commit_status :
      CommitStatus → String → String → String → String → String → String → Rest (Unit {0})
  unfolding get_github_commit_state ask
  set_commit_status status owner repository ref title description details_url = ask s s.done (
      create_status owner repository ref (record {
        context = title;
        target_url = details_url;
        state = get_github_commit_state status;
        description = description;
      }))

  unfoldable pub execute_get_commit_statuses :
      String → String → String → Attempt (Option (List CommitStatusInfo))
  unfolding request reading_with status_infos
  execute_get_commit_statuses owner repository ref =
      reading (request s.statuses (get_combined_status owner repository ref)) status_infos

  unfoldable pub get_commit_statuses : String → String → String → Rest (List CommitStatusInfo)
  unfolding limited execute_get_commit_statuses
  get_commit_statuses owner repository ref =
      limited s (execute_get_commit_statuses owner repository ref)
