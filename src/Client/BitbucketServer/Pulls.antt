-- ===== src/Client/BitbucketServer/Pulls.antt =====
-- Pull requests on Bitbucket Server.
use froggit_go.Base.{
  ℕ, ℤ, pos, String, ◌<>◌, Bool, true, false, Option, none, some, List, [], ◌∷◌, ◌++◌, Result, ok,
  err, panic, errorf, deref, if◌then◌else◌, ◌>>=◌ as ◌>>>◌,
}
use froggit_go.Calls.{◌>>=◌, ◌>>◌, pure, lift, send}
use froggit_go.Vcs.{PullRequestState}
use froggit_go.Vcs.Names.{add_branch_prefix, map_pull_request_state}
use froggit_go.Vcs.Responses.{check_response_status_with_body}
use froggit_go.Client.Types.{PullRequestInfo}
use froggit_go.Client.BitbucketServer.Api.{
  create_pull_request, get_pull_request, update_pull_request, get_pull_requests_page, PullRequest,
  PullRequestReply, Server, Rest,
}
use froggit_go.Client.BitbucketServer.Paging.{page_loop}

-- `getSourceRepositoryOwner`
unfoldable pub get_source_repository_owner : PullRequest → Result String
get_source_repository_owner p = elim p.from_project_key [
  | none ↦ err (
      errorf (
        "failed to get source repository owner, project is nil. (PR - "
        <> (p.from_display_id <> (", repository - " <> (p.from_slug <> ")")))))
  | some key ↦ ok key
]

-- `Links.Self[0].Href`
first_link : List String → Result String
first_link [] = panic "index out of range [0] with length 0"
first_link (href ∷ rest) = ok href

-- The repository of the source is that of the target.
unfoldable pub map_bitbucket_server_pull_request_to_pull_request_info :
    PullRequest → Bool → String → Result PullRequestInfo
unfolding get_source_repository_owner first_link
map_bitbucket_server_pull_request_to_pull_request_info p with_body owner =
    get_source_repository_owner p >>> λ source_owner. first_link p.self_links >>> λ url.
    ok (record {
      id = p.id;
      source = record { name = p.from_display_id; repository = p.to_slug; owner = source_owner };
      target = record { name = p.to_display_id; repository = p.to_slug; owner = owner };
      body = if with_body then p.description else "";
      url = url;
    })

-- The open pull requests of a page, behind those before it.
unfoldable pub add_open :
    Bool → String → List PullRequestInfo → List PullRequest → Result (List PullRequestInfo)
unfolding map_bitbucket_server_pull_request_to_pull_request_info
add_open with_body owner results [] = ok results
add_open with_body owner results (p ∷ ps) =
    let skipped = add_open with_body owner results ps in
    if p.is_open
    then (map_bitbucket_server_pull_request_to_pull_request_info p with_body owner >>> λ i.
        add_open with_body owner (results ++ (i ∷ [])) ps)
    else skipped

-- What is decoded from a reply that may be nil.
decoded : Option PullRequestReply → Result PullRequest
decoded none = panic "nil pointer dereference"
decoded (some r) = r.pull_request

module _ (s : Server) where
  unfoldable pub create_pull_request_in :
      String → String → String → String → String → String → Rest (Unit {0})
  unfolding add_branch_prefix
  create_pull_request_in owner repository source_branch target_branch title description =
      send s.done (
        create_pull_request owner repository (record {
          title = title;
          description = description;
          from_ref = add_branch_prefix source_branch;
          to_ref = add_branch_prefix target_branch;
          repository = repository;
          project = owner;
        }))

  -- The version is asked for first; the target branch is not used. A state without a name is nil,
  -- and is read without a check.
  unfoldable pub update_pull_request_in :
      String → String → String → String → ℤ → PullRequestState → Rest (Unit {0})
  unfolding map_pull_request_state
  update_pull_request_in owner repository title body id state = do
    reply ← send s.pull_request (get_pull_request owner repository id)
    r ← lift (deref reply)
    state_text ← lift (deref (map_pull_request_state state))
    send s.done (
        update_pull_request owner repository id
          (record { version = r.version; state = state_text; title = title; description = body }))

  get_open_pull_requests : ℕ → String → String → Bool → Rest (List PullRequestInfo)
  unfolding page_loop add_open
  get_open_pull_requests fuel owner repository with_body = do
    (results, page) ←
        page_loop s.pull_requests (get_pull_requests_page owner repository)
          (add_open with_body owner) fuel (pos 0) []
    pure results

  unfoldable pub list_open_pull_requests_with_body :
      ℕ → String → String → Rest (List PullRequestInfo)
  unfolding get_open_pull_requests
  list_open_pull_requests_with_body fuel owner repository =
      get_open_pull_requests fuel owner repository true

  unfoldable pub list_open_pull_requests : ℕ → String → String → Rest (List PullRequestInfo)
  unfolding get_open_pull_requests
  list_open_pull_requests fuel owner repository = get_open_pull_requests fuel owner repository false

  -- A reply that is nil is not checked.
  checked : Option PullRequestReply → Result (Unit {0})
  unfolding check_response_status_with_body
  checked none = ok tt
  checked (some r) = check_response_status_with_body s.texts r.response (200 ∷ [])

  unfoldable pub get_pull_request_by_id : String → String → ℤ → Rest PullRequestInfo
  unfolding checked decoded map_bitbucket_server_pull_request_to_pull_request_info
  get_pull_request_by_id owner repository id = do
    reply ← send s.pull_request (get_pull_request owner repository id)
    lift (checked reply)
    p ← lift (decoded reply)
    lift (map_bitbucket_server_pull_request_to_pull_request_info p false owner)
