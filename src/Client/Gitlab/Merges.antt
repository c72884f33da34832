-- ===== src/Client/Gitlab/Merges.antt =====
-- Merge requests on GitLab and their labels.
use froggit_go.Base.{
  ℕ, ℤ, String, ◌<>◌, Bool, false, not, Option, none, some, List, [], ◌∷◌, Result, ok, err, errorf,
  if◌then◌else◌,
}
use froggit_go.Base.Decimal.{decimal_int}
use froggit_go.Calls.{◌>>=◌, ◌>>◌, pure, lift, send}
use froggit_go.Vcs.{PullRequestState, open_state, closed_state, other_state}
use froggit_go.Vcs.Values.{int_comparable}
use froggit_go.Vcs.Responses.{check_response_status_with_body}
use froggit_go.Client.Types.{PullRequestInfo}
use froggit_go.Client.Params.{Order}
use froggit_go.Client.Gitlab.Api.{
  create_merge_request, update_merge_request, list_merge_requests, get_merge_request,
  get_project_by_id, remove_label, MergeRequest, Server, Rest,
}
use froggit_go.Client.Gitlab.Repos.{get_project_id}
use froggit_go.Client.Shared.{validated}

-- `mapGitLabPullRequestState`; `none` is nil.
unfoldable pub map_gitlab_pull_request_state : PullRequestState → Option String
map_gitlab_pull_request_state open_state = some "reopen"
map_gitlab_pull_request_state closed_state = some "close"
map_gitlab_pull_request_state (other_state t) = none

abbrev pub pull_request_comment_size_limit : ℕ
pull_request_comment_size_limit = 1000000

abbrev pub pull_request_details_size_limit : ℕ
pull_request_details_size_limit = 1048576

module _ (s : Server) where
  unfoldable pub create_pull_request :
      String → String → String → String → String → String → Rest (Unit {0})
  create_pull_request owner repository source_branch target_branch title description = send s.done (
      create_merge_request (get_project_id owner repository) title description source_branch
        target_branch)

  unfoldable pub update_pull_request :
      String → String → String → String → String → ℤ → PullRequestState → Rest (Unit {0})
  unfolding map_gitlab_pull_request_state
  update_pull_request owner repository title body target_branch_name pr_id state = send s.done (
      update_merge_request (get_project_id owner repository) pr_id (record {
        title = title;
        description = body;
        target_branch = target_branch_name;
        state_event = map_gitlab_pull_request_state state;
      }))

  owner_name : ℤ → Option String → Result String
  unfolding decimal_int
  owner_name project_id none = err (
      errorf
        ("could not fetch the name of the project owner. Project ID: " <> decimal_int project_id))
  owner_name project_id (some name) = ok name

  unfoldable pub get_project_owner_by_id : ℤ → Rest String
  unfolding check_response_status_with_body owner_name
  get_project_owner_by_id project_id = do
    reply ← send s.project_owner (get_project_by_id project_id)
    lift (check_response_status_with_body s.texts reply.1 (200 ∷ []))
    lift (owner_name project_id reply.0)

  -- The owner of the source branch is asked for only if it is in another project.
  source_owner : MergeRequest → String → Rest String
  unfolding get_project_owner_by_id
  source_owner m owner =
      if not (int_comparable.equal m.source_project_id m.target_project_id)
      then get_project_owner_by_id m.source_project_id
      else pure owner

  unfoldable pub map_merge_request : MergeRequest → Bool → String → String → Rest PullRequestInfo
  unfolding source_owner
  map_merge_request m with_body owner repository = do
    source ← source_owner m owner
    pure (record {
      id = m.iid;
      body = if with_body then m.description else "";
      url = m.web_url;
      source = record { name = m.source_branch; repository = repository; owner = source };
      target = record { name = m.target_branch; repository = repository; owner = owner };
    })

  -- The first error ends the list. The results before it are returned beside the error, where the
  -- model has the error alone.
  map_merge_requests : List MergeRequest → String → String → Bool → Rest (List PullRequestInfo)
  unfolding map_merge_request
  map_merge_requests [] owner repository with_body = pure []
  map_merge_requests (m ∷ ms) owner repository with_body = do
    info ← map_merge_request m with_body owner repository
    infos ← map_merge_requests ms owner repository with_body
    pure (info ∷ infos)

  unfoldable pub get_open_pull_requests : String → String → Bool → Rest (List PullRequestInfo)
  unfolding map_merge_requests
  get_open_pull_requests owner repository with_body = do
    merge_requests ← send s.merge_requests (list_merge_requests (get_project_id owner repository))
    map_merge_requests merge_requests owner repository with_body

  unfoldable pub get_pull_request_by_id : String → String → ℤ → Rest PullRequestInfo
  unfolding check_response_status_with_body map_merge_request
  get_pull_request_by_id owner repository id = do
    reply ← send s.merge_request (get_merge_request (get_project_id owner repository) id)
    lift (check_response_status_with_body s.texts reply.1 (200 ∷ []))
    map_merge_request reply.0 false owner repository

module _ (order : Order) (s : Server) where
  unfoldable pub list_pull_request_labels : String → String → ℤ → Rest (List String)
  unfolding validated
  list_pull_request_labels owner repository id = do
    validated order (("owner", owner) ∷ ("repository", repository) ∷ [])
    reply ← send s.merge_request (get_merge_request (get_project_id owner repository) id)
    pure reply.0.labels

  unfoldable pub unlabel_pull_request : String → String → String → ℤ → Rest (Unit {0})
  unfolding validated
  unlabel_pull_request owner repository label id = do
    validated order (("owner", owner) ∷ ("repository", repository) ∷ [])
    send s.done (remove_label (get_project_id owner repository) id label)
