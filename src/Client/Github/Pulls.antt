-- ===== src/Client/Github/Pulls.antt =====
-- Pull requests on GitHub.
pub mod Labelled
use froggit_go.Base.{
  ℕ, ℤ, pos, String, ◌<>◌, Bool, true, false, Option, none, some, List, [], ◌∷◌, Result, ok, err,
  panic, Error, errorf, join_errors, deref, ◌==◌, if◌then◌else◌, ◌>>=◌ as ◌>>>◌,
}
use froggit_go.Base.Text.{split}
use froggit_go.Calls.{◌>>=◌, ◌>>◌, pure, lift}
use froggit_go.Vcs.{PullRequestState}
use froggit_go.Vcs.Names.{map_pull_request_state}
use froggit_go.Vcs.Values.{default_if_not_nil, string_zero, int_zero}
use froggit_go.Vcs.Responses.{check_response_status_with_body}
use froggit_go.Client.Types.{PullRequestInfo, BranchInfo}
use froggit_go.Client.Github.Api.{
  Call, create_pull_request, edit_pull_request, list_pull_requests, get_pull_request, BranchRepo,
  PullRequestBranch, PullRequest, Server, Rest,
}
use froggit_go.Client.Github.RateLimit.{request, limited_with_response, ask}

-- `extractBranchFromLabel`: the text behind the first colon, up to the next one.
unfoldable pub extract_branch_from_label : String → Result String
unfolding split
extract_branch_from_label label = elim (split ":" label) [
  | owner ∷ branch ∷ rest ↦ ok branch
  | _ ↦ err (errorf ("bad label format " <> label))
]

-- Both names, or the errors of both.
both : Result String → Result String → Result (String × String)
unfolding join_errors
both (ok source) (ok target) = ok (source, target)
both (err d) (ok target) = err d
both (ok source) (err e) = err e
both (err d) (err e) = elim (join_errors (some d) (some e)) [ some j ↦ err j | none ↦ ok ("", "") ]
both (panic m) r = panic m
both l (panic m) = panic m

-- The names of the branches are read only if neither branch is nil.
branch_names : PullRequest → Result (String × String)
unfolding both extract_branch_from_label
branch_names p = elim p.head [
  | none ↦ ok ("", "")
  | some head ↦ elim p.base [
    | none ↦ ok ("", "")
    | some base ↦
        both (extract_branch_from_label (default_if_not_nil head.label))
          (extract_branch_from_label (default_if_not_nil base.label))
  ]
]

-- The repository of a branch and its owner: `side` is `source` or `target`.
unfoldable pub branch_repo : String → PullRequestBranch → Result (String × String)
branch_repo side b = elim b.repo [
  | none ↦ err (
      errorf (
        "the "
        <> (side <> " repository information is missing when fetching the pull request details")))
  | some r ↦ elim r.owner [
    | none ↦ err (
        errorf (
          "the "
          <> (side <> " repository owner name is missing when fetching the pull request details")))
    | some login ↦ ok (default_if_not_nil r.name, default_if_not_nil login)
  ]
]

-- `mapGitHubPullRequestToPullRequestInfo`. Behind the check for nil, the pull request and its
-- branches are read again without one.
unfoldable pub map_github_pull_request_to_pull_request_info :
    Option PullRequest → Bool → Result PullRequestInfo
unfolding branch_names branch_repo
map_github_pull_request_to_pull_request_info none with_body = panic "nil pointer dereference"
map_github_pull_request_to_pull_request_info (some p) with_body =
    branch_names p >>> λ (source_branch, target_branch). deref p.head >>> λ head.
    branch_repo "source" head >>> λ (source_repo, source_owner). deref p.base >>> λ base.
    branch_repo "target" base >>> λ (target_repo, target_owner). ok (record {
      id = default_if_not_nil p.number;
      url = default_if_not_nil p.html_url;
      body = if with_body then default_if_not_nil p.body else "";
      source = record { name = source_branch; repository = source_repo; owner = source_owner };
      target = record { name = target_branch; repository = target_repo; owner = target_owner };
    })

unfoldable pub map_pull_requests : Bool → List (Option PullRequest) → Result (List PullRequestInfo)
unfolding map_github_pull_request_to_pull_request_info
map_pull_requests with_body [] = ok []
map_pull_requests with_body (p ∷ ps) =
    map_github_pull_request_to_pull_request_info p with_body >>> λ i.
    map_pull_requests with_body ps >>> λ is. ok (i ∷ is)

module _ (s : Server) where
  unfoldable pub create_pull_request_in :
      String → String → String → String → String → String → Rest (Unit {0})
  unfolding ask
  create_pull_request_in owner repository source_branch target_branch title description =
      ask s s.done (
        create_pull_request owner repository (record {
          title = title;
          body = description;
          head = owner <> (":" <> source_branch);
          base = target_branch;
        }))

  -- An empty name of the target branch leaves the branch as it is.
  unfoldable pub update_pull_request :
      String → String → String → String → String → ℤ → PullRequestState → Rest (Unit {0})
  unfolding map_pull_request_state ask
  update_pull_request owner repository title body target_branch_name id state = ask s s.done (
      edit_pull_request owner repository id (record {
        title = title;
        body = body;
        state = map_pull_request_state state;
        base = if target_branch_name == "" then none else some target_branch_name;
      }))

  get_open_pull_requests : String → String → Bool → Rest (List PullRequestInfo)
  unfolding ask map_pull_requests
  get_open_pull_requests owner repository with_body = do
    pull_requests ← ask s s.pull_requests (list_pull_requests owner repository "open")
    lift (map_pull_requests with_body pull_requests)

  unfoldable pub list_open_pull_requests_with_body : String → String → Rest (List PullRequestInfo)
  unfolding get_open_pull_requests
  list_open_pull_requests_with_body owner repository = get_open_pull_requests owner repository true

  unfoldable pub list_open_pull_requests : String → String → Rest (List PullRequestInfo)
  unfolding get_open_pull_requests
  list_open_pull_requests owner repository = get_open_pull_requests owner repository false

  unfoldable pub get_pull_request_by_id : String → String → ℤ → Rest PullRequestInfo
  unfolding limited_with_response request check_response_status_with_body
      map_github_pull_request_to_pull_request_info
  get_pull_request_by_id owner repository id = do
    (pull_request, response) ←
        limited_with_response s (request s.pull_request (get_pull_request owner repository id))
    r ← lift (deref response)
    lift (check_response_status_with_body s.texts r.http (200 ∷ []))
    lift (map_github_pull_request_to_pull_request_info pull_request false)
