-- ===== src/Client/BitbucketCloud/Repos.antt =====
-- Repositories, branches, commits and keys on Bitbucket Cloud.
use froggit_go.Base.{
  String, ◌<>◌, Option, none, some, List, [], ◌∷◌, Result, ok, err, Error, errorf, join_errors, leb,
  ◌==◌, if◌then◌else◌,
}
use froggit_go.Calls.{◌>>=◌, ◌>>◌, pure, lift, send}
use froggit_go.Client.Types.{
  Permission, RepositoryVisibility, public, private, CommitInfo, CloneInfo, RepositoryInfo,
}
use froggit_go.Client.Status.{lowers_to}
use froggit_go.Client.Params.{Order}
use froggit_go.Client.Shared.{validated, append_to, no_commit}
use froggit_go.Client.Bitbucket
use froggit_go.Client.Bitbucket.{unsupported}
use froggit_go.Client.BitbucketCloud.Api.{
  profile, list_workspaces, list_for_account, list_branches, post_key, get_repository, get_commits,
  get_commit, KeyReply, CommitDetails, Repository, Server, Rest,
}

-- The repositories of a workspace.
append_repositories :
    String → List String → List (String × List String) → List (String × List String)
unfolding append_to
append_repositories workspace [] results = results
append_repositories workspace (slug ∷ slugs) results =
    append_repositories workspace slugs (append_to workspace slug results)

module _ (s : Server) where
  unfoldable pub test_connection : Rest (Unit {0})
  test_connection = send s.done profile

  workspace_loop : List String → List (String × List String) → Rest (List (String × List String))
  unfolding append_repositories
  workspace_loop [] results = pure results
  workspace_loop (workspace ∷ workspaces) results = do
    repositories ← send s.repositories (list_for_account workspace)
    workspace_loop workspaces (append_repositories workspace repositories results)

  unfoldable pub list_repositories : Rest (List (String × List String))
  unfolding workspace_loop
  list_repositories = do
    workspaces ← send s.workspaces list_workspaces
    workspace_loop workspaces []

  unfoldable pub list_branches_of : String → String → Rest (List String)
  list_branches_of owner repository = send s.branches (list_branches owner repository)

  -- The text of the status is taken for a format. The errors of the two calls that are deferred join.
  key_result : KeyReply → Result (Unit {0})
  unfolding join_errors
  key_result r =
      let closing = join_errors r.discard_error r.close_error in
      let found : Option Error =
        if leb 300 r.status_code then some (errorf (s.format r.status)) else none in
      elim (join_errors found closing) [ none ↦ ok tt | some e ↦ err e ]

-- The committer is not provided, nor is the author's address.
unfoldable pub map_bitbucket_cloud_commit_to_commit_info : CommitDetails → CommitInfo
map_bitbucket_cloud_commit_to_commit_info c = record {
  hash = c.hash;
  author_name = c.display_name;
  committer_name = "";
  url = c.self_href;
  timestamp = c.date.unix;
  message = c.message;
  parent_hashes = c.parents;
  author_email = "";
}

latest : List CommitDetails → CommitInfo
unfolding map_bitbucket_cloud_commit_to_commit_info
latest [] = no_commit
latest (c ∷ cs) = map_bitbucket_cloud_commit_to_commit_info c

-- The last link of a name counts, in letters of any case.
clone_info : List (String × String) → CloneInfo → CloneInfo
unfolding lowers_to
clone_info [] i = i
clone_info ((name, href) ∷ links) i = clone_info links (
    if lowers_to name "https"
    then record i { http = href }
    else if lowers_to name "ssh"
    then record i { ssh = href }
    else i)

abbrev pub get_bitbucket_cloud_repository_visibility : Repository → RepositoryVisibility
get_bitbucket_cloud_repository_visibility r = if r.is_private then private else public

-- `bitbucket.DEFAULT_BITBUCKET_API_BASE_URL` is `default_base_url`, and `api_endpoint` is the address
-- in the client.
module _ (order : Order) (s : Server) where
  unfoldable pub add_ssh_key_to_repository :
      String → String → String → String → String → String → Permission → Rest (Unit {0})
  unfolding validated key_result
  add_ssh_key_to_repository default_base_url api_endpoint owner repository key_name public_key
        permission =
      do
        validated order (
            ("owner", owner)
            ∷ ("repository", repository)
            ∷ ("key name", key_name)
            ∷ ("public key", public_key)
            ∷ [])
        let endpoint = if api_endpoint == "" then default_base_url else api_endpoint
        let url =
            endpoint <> ("/repositories/" <> (owner <> ("/" <> (repository <> "/deploy-keys"))))
        lift (s.new_request url)
        r ← send s.key_reply (post_key url public_key key_name)
        lift (key_result s r)

  -- A page has one commit.
  unfoldable pub get_latest_commit : String → String → String → Rest CommitInfo
  unfolding validated latest
  get_latest_commit owner repository branch = do
    validated order (("owner", owner) ∷ ("repository", repository) ∷ ("branch", branch) ∷ [])
    reply ← send s.commits (get_commits owner repository branch 1)
    commits ← lift reply
    pure (latest commits)

  unfoldable pub get_repository_info : String → String → Rest RepositoryInfo
  unfolding validated clone_info
  get_repository_info owner repository = do
    validated order (("owner", owner) ∷ ("repository", repository) ∷ [])
    repo ← send s.repository (get_repository owner repository)
    links ← lift repo.clone
    pure (record {
      clone_info = clone_info links (record { http = ""; ssh = "" });
      repository_visibility = get_bitbucket_cloud_repository_visibility repo;
    })

  unfoldable pub get_commit_by_sha : String → String → String → Rest CommitInfo
  unfolding validated map_bitbucket_cloud_commit_to_commit_info
  get_commit_by_sha owner repository sha = do
    validated order (("owner", owner) ∷ ("repository", repository) ∷ ("sha", sha) ∷ [])
    reply ← send s.commit (get_commit owner repository sha)
    commit ← lift reply
    pure (map_bitbucket_cloud_commit_to_commit_info commit)

unfoldable pub get_commits_of : Rest (List CommitInfo)
unfolding unsupported
get_commits_of = unsupported Bitbucket.get_commits
