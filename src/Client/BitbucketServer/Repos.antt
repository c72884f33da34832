-- ===== src/Client/BitbucketServer/Repos.antt =====
-- Repositories, branches, commits and keys on Bitbucket Server.
pub mod Listed
pub mod Endpoint
use froggit_go.Base.{
  ℕ, ℤ, pos, String, ◌<>◌, Bool, true, false, Option, none, some, List, [], ◌∷◌, ◌++◌, Result, ok,
  err, panic, Error, errorf, join_errors, leb, ◌==◌, if◌then◌else◌,
}
use froggit_go.Base.Text.{has_suffix, trim_suffix}
use froggit_go.Calls.{◌>>=◌, ◌>>◌, pure, lift, send}
use froggit_go.Client.Types.{
  Permission, read, read_write, RepositoryVisibility, public, private, CommitInfo, CloneInfo,
  RepositoryInfo,
}
use froggit_go.Client.Params.{Order}
use froggit_go.Client.Shared.{validated, append_to, latest_commit}
use froggit_go.Client.BitbucketServer.Api.{
  Call, get_users, get_projects, get_repositories, get_branches, post_key, get_commits, get_commit,
  get_repository, KeyReply, Page, Commit, RepositoryHolder, Server, Rest,
}
use froggit_go.Client.BitbucketServer.Paging.{page_loop}

-- The address that `buildBitbucketClient` leaves in the client.
unfoldable pub build_bitbucket_client : String → String
unfolding has_suffix
build_bitbucket_client api_endpoint =
    if has_suffix api_endpoint "/rest" then api_endpoint else api_endpoint <> "/rest"

abbrev pub append_items : List String → List String → Result (List String)
append_items results items = ok (results ++ items)

-- `results[project] = append(results[project], repo.Slug)` for the repositories of a page.
unfoldable pub append_repositories :
    String → List (String × List String) → List String → List (String × List String)
unfolding append_to
append_repositories project results [] = results
append_repositories project results (slug ∷ slugs) =
    append_repositories project (append_to project slug results) slugs

module _ (s : Server) where
  unfoldable pub test_connection : Rest (Unit {0})
  test_connection = send s.done get_users

  -- The projects, and behind them that of the user, whose key is upper case.
  unfoldable pub list_projects : ℕ → Rest (List String)
  unfolding page_loop
  list_projects fuel = do
    (projects, page) ← page_loop s.projects get_projects append_items fuel (pos 0) []
    lift (
        if page.username == ""
        then err (errorf "X-Ausername header is missing")
        else ok (projects ++ (("~" <> s.to_upper page.username) ∷ [])))

  -- The loop over the projects. Each has its own loop over pages.
  unfoldable pub project_repositories :
      ℕ → List String → List (String × List String) → Rest (List (String × List String))
  unfolding page_loop append_repositories
  project_repositories fuel [] results = pure results
  project_repositories fuel (project ∷ projects) results = do
    (results, page) ←
        page_loop s.repositories (get_repositories project)
          (λ r slugs. ok (append_repositories project r slugs)) fuel (pos 0) results
    project_repositories fuel projects results

  unfoldable pub list_repositories : ℕ → Rest (List (String × List String))
  unfolding list_projects project_repositories
  list_repositories fuel = do projects ← list_projects fuel; project_repositories fuel projects []

  unfoldable pub list_branches : ℕ → String → String → Rest (List String)
  unfolding page_loop
  list_branches fuel owner repository = do
    (results, page) ←
        page_loop s.branches (get_branches owner repository) append_items fuel (pos 0) []
    pure results

  -- The errors of the two calls that are deferred join the one that is there.
  key_result : KeyReply → Result (Unit {0})
  unfolding join_errors
  key_result r =
      let closing = join_errors r.discard_error r.close_error in
      let found : Option Error =
        if leb 300 r.status_code
        then elim r.body [
          | ok body ↦ some (errorf ("status: " <> (r.status <> (", body: " <> body))))
          | err e ↦ some e
          | panic m ↦ none
        ]
        else none in
      elim (join_errors found closing) [ none ↦ ok tt | some e ↦ err e ]

abbrev pub permission_name : Permission → String
permission_name read = "REPO_READ"
permission_name read_write = "REPO_WRITE"

-- The commit, with its address: `api_endpoint` is that of the client, with `/rest` behind it.
unfoldable pub map_bitbucket_server_commit_to_commit_info :
    String → String → String → Commit → CommitInfo
unfolding trim_suffix
map_bitbucket_server_commit_to_commit_info api_endpoint owner repo c = record {
  hash = c.id;
  author_name = c.author_name;
  committer_name = c.committer_name;
  url =
      trim_suffix api_endpoint "/rest"
      <> ("/projects/" <> (owner <> ("/repos/" <> (repo <> ("/commits/" <> c.id)))));
  timestamp = c.committer_timestamp;
  message = c.message;
  parent_hashes = c.parents;
  author_email = c.author_email;
}

commit_infos : String → String → String → List Commit → List CommitInfo
unfolding map_bitbucket_server_commit_to_commit_info
commit_infos api_endpoint owner repo [] = []
commit_infos api_endpoint owner repo (c ∷ cs) =
    map_bitbucket_server_commit_to_commit_info api_endpoint owner repo c
    ∷ commit_infos api_endpoint owner repo cs

abbrev pub number_of_commits_to_fetch : ℕ
number_of_commits_to_fetch = 50

-- The last link of a name counts.
clone_info : List (String × String) → CloneInfo → CloneInfo
clone_info [] i = i
clone_info ((name, href) ∷ links) i = clone_info links (
    if name == "http"
    then record i { http = href }
    else if name == "ssh"
    then record i { ssh = href }
    else i)

abbrev pub get_bitbucket_server_repository_visibility : Bool → RepositoryVisibility
get_bitbucket_server_repository_visibility true = public
get_bitbucket_server_repository_visibility false = private

-- `api_endpoint` is the address in the client before the operation.
module _ (order : Order) (api_endpoint : String) (s : Server) where
  -- The key is posted to the address in the client as it stands.
  unfoldable pub add_ssh_key_to_repository :
      String → String → String → String → Permission → Rest (Unit {0})
  unfolding validated key_result
  add_ssh_key_to_repository owner repository key_name public_key permission = do
    validated order (
        ("owner", owner)
        ∷ ("repository", repository)
        ∷ ("key name", key_name)
        ∷ ("public key", public_key)
        ∷ [])
    let url =
        api_endpoint <> ("/keys/1.0/projects/" <> (owner <> ("/repos/" <> (repository <> "/ssh"))))
    lift (s.new_request url)
    r ← send s.key_reply (post_key url public_key key_name (permission_name permission))
    lift (key_result s r)

  unfoldable pub get_commits_of : String → String → String → Rest (List CommitInfo)
  unfolding validated commit_infos build_bitbucket_client
  get_commits_of owner repository branch = do
    validated order (("owner", owner) ∷ ("repository", repository) ∷ ("branch", branch) ∷ [])
    reply ← send s.commits (get_commits owner repository number_of_commits_to_fetch branch)
    commits ← lift reply
    pure (commit_infos (build_bitbucket_client api_endpoint) owner repository commits)

  unfoldable pub get_latest_commit : String → String → String → Rest CommitInfo
  unfolding get_commits_of
  get_latest_commit owner repository branch = do
    commits ← get_commits_of owner repository branch
    pure (latest_commit commits)

  unfoldable pub get_commit_by_sha : String → String → String → Rest CommitInfo
  unfolding validated map_bitbucket_server_commit_to_commit_info build_bitbucket_client
  get_commit_by_sha owner repository sha = do
    validated order (("owner", owner) ∷ ("repository", repository) ∷ ("sha", sha) ∷ [])
    reply ← send s.commit (get_commit owner repository sha)
    commit ← lift reply
    pure (
        map_bitbucket_server_commit_to_commit_info (build_bitbucket_client api_endpoint) owner
          repository commit)

  unfoldable pub get_repository_info : String → String → Rest RepositoryInfo
  unfolding validated clone_info
  get_repository_info owner repository = do
    validated order (("owner", owner) ∷ ("repository", repository) ∷ [])
    reply ← send s.repository (get_repository owner repository)
    holder ← lift reply
    pure (record {
      clone_info = clone_info holder.clone (record { http = ""; ssh = "" });
      repository_visibility = get_bitbucket_server_repository_visibility holder.public;
    })
