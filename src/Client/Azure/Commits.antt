-- ===== src/Client/Azure/Commits.antt =====
-- Repositories, branches, commits and commit statuses on Azure Repos.
use froggit_go.Base.{
  ℤ, pos, negsuc, String, ◌<>◌, Bool, true, false, Option, none, some, List, [], ◌∷◌, Result, ok,
  err, panic, errorf, error_text, deref, ◌>>=◌ as ◌>>>◌,
}
use froggit_go.Calls.{◌>>=◌, ◌>>◌, pure, lift, send}
use froggit_go.Webhook.Http.{Time}
use froggit_go.Vcs.Values.{default_if_not_nil, string_zero}
use froggit_go.Client.Types.{
  CommitInfo, CommitStatus, CommitStatusInfo, RepositoryInfo, RepositoryVisibility, public, private,
  extract_time_with_fallback,
}
use froggit_go.Client.Status.{commit_status_as_string_to_status, map_status_to_string}
use froggit_go.Client.Azure.Api.{
  get_repositories, get_branches, get_commits, get_repository, create_commit_status, get_statuses,
  Signature, Commit, Repository, Status, Server, Rest, Client, build_azure_repos_client,
}

-- The names behind pointers.
names_of : List (Option String) → Result (List String)
names_of [] = ok []
names_of (n ∷ ns) = deref n >>> λ name. names_of ns >>> λ rest. ok (name ∷ rest)

-- `repositories[project]`: there is an entry if there is a repository.
by_project : String → List String → List (String × List String)
by_project project [] = []
by_project project (n ∷ ns) = (project, n ∷ ns) ∷ []

abbrev name_of : Option Signature → String
name_of none = ""
name_of (some g) = default_if_not_nil g.name

abbrev email_of : Option Signature → String
email_of none = ""
email_of (some g) = default_if_not_nil g.email

-- Of the zero `time.Time`, in seconds from the epoch.
abbrev zero_seconds : ℤ
zero_seconds = negsuc 62135596799

abbrev seconds_of : Option Time → ℤ
seconds_of none = zero_seconds
seconds_of (some t) = t.unix

-- A commit without a committer has the timestamp 0.
abbrev timestamp_of : Option Signature → ℤ
timestamp_of none = pos 0
timestamp_of (some g) = seconds_of g.date

abbrev hashes_of : Option (List String) → List String
hashes_of none = []
hashes_of (some hs) = hs

-- `mapAzureReposCommitsToCommitInfo`
unfoldable pub map_azure_repos_commits_to_commit_info : Commit → CommitInfo
map_azure_repos_commits_to_commit_info c = record {
  hash = default_if_not_nil c.commit_id;
  author_name = name_of c.author;
  committer_name = name_of c.committer;
  url = default_if_not_nil c.url;
  timestamp = timestamp_of c.committer;
  message = default_if_not_nil c.comment;
  parent_hashes = hashes_of c.parents;
  author_email = email_of c.author;
}

commit_infos : List Commit → List CommitInfo
unfolding map_azure_repos_commits_to_commit_info
commit_infos [] = []
commit_infos (c ∷ cs) = map_azure_repos_commits_to_commit_info c ∷ commit_infos cs

retrieved : String → String → Option (List Commit) → Result (List CommitInfo)
unfolding commit_infos
retrieved repository branch none =
    err (errorf ("could not retrieve commits for <" <> (repository <> ("/" <> (branch <> ">")))))
retrieved repository branch (some cs) = ok (commit_infos cs)

-- The first commit, and the zero value if there is none.
latest : List CommitInfo → CommitInfo
latest [] = record {
  hash = "";
  author_name = "";
  committer_name = "";
  url = "";
  timestamp = pos 0;
  message = "";
  parent_hashes = [];
  author_email = "";
}
latest (c ∷ cs) = c

status_info : Status → Result CommitStatusInfo
unfolding commit_status_as_string_to_status
status_info t = deref t.state >>> λ state. deref t.description >>> λ description.
    deref t.target_url >>> λ url. deref t.created_by_display_name >>> λ creator. ok (record {
      state = commit_status_as_string_to_status state;
      description = description;
      details_url = url;
      creator = creator;
      last_updated_at = extract_time_with_fallback t.updated_date;
      created_at = extract_time_with_fallback t.creation_date;
    })

status_infos : List Status → Result (List CommitStatusInfo)
unfolding status_info
status_infos [] = ok []
status_infos (t ∷ ts) = status_info t >>> λ i. status_infos ts >>> λ rest. ok (i ∷ rest)

module _ (s : Server) (c : Client) where
  unfoldable pub list_repositories : Rest (List (String × List String))
  unfolding build_azure_repos_client names_of by_project
  list_repositories = do
    build_azure_repos_client s c
    names ← send s.names (get_repositories c.project)
    repositories ← lift (names_of names)
    pure (by_project c.project repositories)

  unfoldable pub list_branches : String → Rest (List String)
  unfolding build_azure_repos_client names_of
  list_branches repository = do
    build_azure_repos_client s c
    names ← send s.names (get_branches c.project repository)
    lift (names_of names)

  unfoldable pub get_commits_of : String → String → Rest (List CommitInfo)
  unfolding build_azure_repos_client retrieved
  get_commits_of repository branch = do
    build_azure_repos_client s c
    commits ← send s.commits (get_commits c.project repository branch)
    lift (retrieved repository branch commits)

  unfoldable pub get_latest_commit : String → String → Rest CommitInfo
  unfolding get_commits_of latest
  get_latest_commit repository branch = do
    commits ← get_commits_of repository branch
    pure (latest commits)

  abbrev place : String → String → String
  place owner repository = "<" <> (owner <> ("/" <> (c.project <> ("/" <> (repository <> ">")))))

  -- A visibility other than public is private.
  abbrev visibility : Bool → RepositoryVisibility
  visibility true = public
  visibility false = private

  repository_info : String → String → Option Repository → Result RepositoryInfo
  repository_info owner repository none = err (
      errorf (
        "failed to retreive "
        <> (place owner repository <> " repository info, received empty response")))
  repository_info owner repository (some r) = elim r.project [
    | none ↦ err (
        errorf (
          "failed to retreive "
          <> (place owner repository <> " repository info, received empty project info")))
    | some is_public ↦ deref is_public >>> λ b. deref r.remote_url >>> λ http.
        deref r.ssh_url >>> λ ssh. ok (record {
          clone_info = record { http = http; ssh = ssh };
          repository_visibility = visibility b;
        })
  ]

  -- The error of the request is put behind the names of the repository.
  described : String → String → Result (Option Repository) → Result RepositoryInfo
  unfolding repository_info error_text
  described owner repository (ok r) = repository_info owner repository r
  described owner repository (err e) = err (
      errorf (
        "an error occured while retrieving "
        <> (place owner repository <> (" repository info:\n" <> error_text e))))
  described owner repository (panic m) = panic m

  unfoldable pub get_repository_info : String → String → Rest RepositoryInfo
  unfolding build_azure_repos_client described
  get_repository_info owner repository = do
    build_azure_repos_client s c
    (λ log. (
      described owner repository (s.repository log (get_repository c.project repository)),
      get_repository c.project repository ∷ log,
    ))

  unfoldable pub set_commit_status :
      CommitStatus → String → String → String → String → String → String → Rest (Unit {0})
  unfolding build_azure_repos_client map_status_to_string
  set_commit_status status owner repository ref title description details_url =
      build_azure_repos_client s c
      >> send s.done (
          create_commit_status c.project repository ref (map_status_to_string status) owner title
            description details_url)

  unfoldable pub get_commit_statuses : String → String → Rest (List CommitStatusInfo)
  unfolding build_azure_repos_client status_infos
  get_commit_statuses repository ref = do
    build_azure_repos_client s c
    statuses ← send s.statuses (get_statuses c.project repository ref)
    lift (status_infos statuses)
