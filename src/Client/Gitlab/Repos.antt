-- ===== src/Client/Gitlab/Repos.antt =====
-- Repositories, branches, commits, keys and labels on GitLab.
pub mod Pages
use froggit_go.Base.{
  ℕ, zero, suc, ◌+◌, ℤ, pos, negsuc, String, ◌<>◌, Bool, true, false, ◌&&◌, not, Option, none, some,
  List, [], ◌∷◌, ◌++◌, Result, ok, err, panic, Error, errorf, leb, deref, ◌==◌, ◌>>=◌ as ◌>>>◌,
  if◌then◌else◌,
}
use froggit_go.Base.Text.{trim_prefix}
use froggit_go.Calls.{◌>>=◌, ◌>>◌, pure, lift, send}
use froggit_go.Client.Types.{
  Permission, read, read_write, RepositoryVisibility, public, internal, private, CommitInfo,
  RepositoryInfo, LabelInfo,
}
use froggit_go.Client.Params.{Order}
use froggit_go.Client.Shared.{validated, append_to}
use froggit_go.Client.Gitlab.Api.{
  Call, list_projects, list_branches, add_deploy_key, list_commits, get_project, get_commit,
  create_label, list_labels, Project, ProjectPage, ProjectInfo, Commit, Visibility,
  public_visibility, internal_visibility, other_visibility, Server, Rest,
}

-- `getProjectID`
abbrev pub get_project_id : String → String → String
get_project_id owner project = owner <> ("/" <> project)

-- The projects of a page, by their owners. The namespace is a pointer.
unfoldable pub group :
    List Project → List (String × List String) → Result (List (String × List String))
unfolding append_to
group [] results = ok results
group (p ∷ ps) results =
    deref p.namespace_path >>> λ owner. group ps (append_to owner p.path results)

-- `pageID >= response.TotalPages`
unfoldable pub is_last : ℕ → ℤ → Bool
is_last page (pos total) = leb total page
is_last page (negsuc n) = true

module _ (s : Server) where
  -- The loop over the pages, with so many rounds of fuel.
  unfoldable pub project_loop :
      ℕ → ℕ → List (String × List String) → Rest (List (String × List String))
  unfolding group is_last
  project_loop zero page results = lift (panic "out of fuel")
  project_loop (suc fuel) page results = do
    p ← send s.projects (list_projects (some page))
    results ← lift (group p.projects results)
    (if is_last page p.total_pages then pure results else project_loop fuel (suc page) results)

  unfoldable pub list_repositories : ℕ → Rest (List (String × List String))
  unfolding project_loop
  list_repositories fuel = project_loop fuel 1 []

  unfoldable pub test_connection : Rest (Unit {0})
  test_connection = send s.projects (list_projects none) >> pure tt

  unfoldable pub list_branches_of : String → String → Rest (List String)
  list_branches_of owner repository =
      send s.branches (list_branches (get_project_id owner repository))

abbrev get_gitlab_project_visibility : Visibility → RepositoryVisibility
get_gitlab_project_visibility public_visibility = public
get_gitlab_project_visibility internal_visibility = internal
get_gitlab_project_visibility other_visibility = private

-- `commit.CommittedDate` is a pointer.
map_gitlab_commit_to_commit_info : Commit → Result CommitInfo
map_gitlab_commit_to_commit_info c = deref c.committed_date >>> λ date. ok (record {
  hash = c.id;
  author_name = c.author_name;
  committer_name = c.committer_name;
  url = c.web_url;
  timestamp = date.unix;
  message = c.message;
  parent_hashes = c.parent_ids;
  author_email = c.author_email;
})

unfoldable pub map_commits : List Commit → Result (List CommitInfo)
unfolding map_gitlab_commit_to_commit_info
map_commits [] = ok []
map_commits (c ∷ cs) =
    map_gitlab_commit_to_commit_info c >>> λ i. map_commits cs >>> λ is. ok (i ∷ is)

-- The first label of the name. A colour comes with a `#` in front.
unfoldable pub find_label : String → List LabelInfo → Option LabelInfo
unfolding trim_prefix
find_label name [] = none
find_label name (l ∷ ls) =
    let rest = find_label name ls in
    if l.name == name then some (record l { color = trim_prefix l.color "#" }) else rest

abbrev pub number_of_commits_to_fetch : ℕ
number_of_commits_to_fetch = 50

module _ (order : Order) (s : Server) where
  unfoldable pub add_ssh_key_to_repository :
      String → String → String → String → Permission → Rest (Unit {0})
  unfolding validated
  add_ssh_key_to_repository owner repository key_name public_key permission = do
    validated order (
        ("owner", owner)
        ∷ ("repository", repository)
        ∷ ("key name", key_name)
        ∷ ("public key", public_key)
        ∷ [])
    send s.done (
        add_deploy_key (get_project_id owner repository) key_name public_key
          (elim permission [ read ↦ false | read_write ↦ true ]))

  unfoldable pub get_commits : String → String → String → Rest (List CommitInfo)
  unfolding validated map_commits
  get_commits owner repository branch = do
    validated order (("owner", owner) ∷ ("repository", repository) ∷ ("branch", branch) ∷ [])
    commits ←
        send s.commits
          (list_commits (get_project_id owner repository) branch 1 number_of_commits_to_fetch)
    lift (map_commits commits)

  -- The first of the commits.
  latest : String → String → String → List CommitInfo → Result CommitInfo
  latest owner repository branch [] = err (
      errorf (
        "no commits were returned for <"
        <> (owner <> ("/" <> (repository <> ("/" <> (branch <> ">")))))))
  latest owner repository branch (c ∷ cs) = ok c

  unfoldable pub get_latest_commit : String → String → String → Rest CommitInfo
  unfolding get_commits latest
  get_latest_commit owner repository branch = do
    commits ← get_commits owner repository branch
    lift (latest owner repository branch commits)

  unfoldable pub get_repository_info : String → String → Rest RepositoryInfo
  unfolding validated
  get_repository_info owner repository = do
    validated order (("owner", owner) ∷ ("repository", repository) ∷ [])
    project ← send s.project (get_project (get_project_id owner repository))
    pure (record {
      clone_info = record { http = project.http_url_to_repo; ssh = project.ssh_url_to_repo };
      repository_visibility = get_gitlab_project_visibility project.visibility;
    })

  unfoldable pub get_commit_by_sha : String → String → String → Rest CommitInfo
  unfolding validated map_gitlab_commit_to_commit_info
  get_commit_by_sha owner repository sha = do
    validated order (("owner", owner) ∷ ("repository", repository) ∷ ("sha", sha) ∷ [])
    commit ← send s.commit (get_commit (get_project_id owner repository) sha)
    lift (map_gitlab_commit_to_commit_info commit)

  unfoldable pub create_label_in : String → String → LabelInfo → Rest (Unit {0})
  unfolding validated
  create_label_in owner repository label_info = do
    validated order
        (("owner", owner) ∷ ("repository", repository) ∷ ("LabelInfo.name", label_info.name) ∷ [])
    send s.done (create_label (get_project_id owner repository) label_info)

  unfoldable pub get_label : String → String → String → Rest (Option LabelInfo)
  unfolding validated find_label
  get_label owner repository name = do
    validated order (("owner", owner) ∷ ("repository", repository) ∷ ("name", name) ∷ [])
    labels ← send s.labels (list_labels (get_project_id owner repository))
    pure (find_label name labels)
