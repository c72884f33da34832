-- ===== src/Client/Azure/Pulls.antt =====
-- Pull requests on Azure Repos and the threads of their comments.
use froggit_go.Base.{
  ℤ, pos, String, ◌<>◌, Bool, false, not, Option, none, some, List, [], ◌∷◌, Result, ok, err,
  errorf, deref, if◌then◌else◌, ◌>>=◌ as ◌>>>◌,
}
use froggit_go.Base.Decimal.{decimal_int}
use froggit_go.Base.Text.{split_parts, trim_prefix, contains_text}
use froggit_go.Calls.{◌>>=◌, ◌>>◌, pure, lift, send}
use froggit_go.Vcs.{PullRequestState, open_state, closed_state, other_state}
use froggit_go.Vcs.Values.{
  get_nil_if_zero_val, default_if_not_nil, string_zero, int_zero, string_comparable, int_comparable,
}
use froggit_go.Vcs.Names.{add_branch_prefix, get_pull_request_file_path}
use froggit_go.Client.Types.{PullRequestInfo, PullRequestComment, CommentInfo}
use froggit_go.Client.Azure.Api.{
  create_pull_request, update_pull_request, create_thread, get_threads, delete_comment,
  get_pull_requests, get_pull_request, ThreadArgs, Thread, Comment, PullRequest, Server, Rest,
  Client, build_azure_repos_client,
}

abbrev pub default_azure_base_url : String
default_azure_base_url = "https://dev.azure.com/"

-- `azureMapPullRequestState`; `none` is nil.
unfoldable pub azure_map_pull_request_state : PullRequestState → Option String
azure_map_pull_request_state open_state = some "active"
azure_map_pull_request_state closed_state = some "abandoned"
azure_map_pull_request_state (other_state t) = none

-- `getThreadArgs`
unfoldable pub get_thread_args : PullRequestComment → ThreadArgs
unfolding get_pull_request_file_path
get_thread_args c = record {
  file_path = get_pull_request_file_path c.new_file_path;
  content = c.content;
  left_file_start = (c.original_start_line, c.original_start_column);
  left_file_end = (c.original_end_line, c.original_end_column);
  right_file_start = (c.new_start_line, c.new_start_column);
  right_file_end = (c.new_end_line, c.new_end_column);
}

-- A comment with its content alone.
abbrev bare_comment : String → PullRequestComment
bare_comment content = record {
  content = content;
  original_file_path = "";
  original_start_line = pos 0;
  original_end_line = pos 0;
  original_start_column = pos 0;
  original_end_column = pos 0;
  new_file_path = "";
  new_start_line = pos 0;
  new_end_line = pos 0;
  new_start_column = pos 0;
  new_end_column = pos 0;
}

abbrev is_set : Option Bool → Bool
is_set none = false
is_set (some b) = b

-- The comments of a thread that are not deleted, one below the other.
aggregate : List Comment → Result String
unfolding decimal_int
aggregate [] = ok ""
aggregate (c ∷ cs) =
    let rest = aggregate cs in
    if is_set c.is_deleted
    then rest
    else deref c.author_display_name >>> λ author. deref c.id >>> λ id.
        deref c.content >>> λ content. rest >>> λ others. ok (
          "Author: "
          <> (author
              <> (", Id: " <> (decimal_int id <> (", Content:" <> (content <> ("\n" <> others)))))))

unfoldable pub thread_infos : List Thread → Result (List CommentInfo)
unfolding aggregate
thread_infos [] = ok []
thread_infos (t ∷ ts) =
    let rest = thread_infos ts in
    if is_set t.is_deleted
    then rest
    else deref t.comments >>> λ comments. aggregate comments >>> λ content. deref t.id >>> λ id.
        deref t.published_date >>> λ date. rest >>> λ others. ok (
          record { id = id; thread_id = ""; content = content; created = date; version = pos 0 }
          ∷ others)

-- The URL's first part behind the address of Azure.
owner_in : String → String
unfolding contains_text split_parts trim_prefix
owner_in url =
    if not (contains_text url default_azure_base_url)
    then ""
    else (split_parts "/" (trim_prefix url default_azure_base_url)).first

-- `extractOwnerFromForkedRepoUrl`: a nil pointer on the way to the URL gives the empty text.
unfoldable pub extract_owner_from_forked_repo_url : Option (Option String) → String
unfolding owner_in
extract_owner_from_forked_repo_url none = ""
extract_owner_from_forked_repo_url (some none) = ""
extract_owner_from_forked_repo_url (some (some url)) = owner_in url

abbrev source_owner : String → Option (Option (Option String)) → String
source_owner owner none = owner
source_owner owner (some fork) = extract_owner_from_forked_repo_url fork

-- `parsePullRequestDetails`; `short` is `plumbing.ReferenceName.Short`.
unfoldable pub parse_pull_request_details :
    (String → String) → PullRequest → String → String → Bool → Result PullRequestInfo
unfolding extract_owner_from_forked_repo_url
parse_pull_request_details short p owner repository with_body =
    deref p.source_ref_name >>> λ source. deref p.target_ref_name >>> λ target. deref p.id >>> λ id.
    ok (record {
      id = id;
      body = if with_body then default_if_not_nil p.description else "";
      url = default_if_not_nil p.url;
      source = record {
        name = short source;
        repository = repository;
        owner = source_owner owner p.fork_source;
      };
      target = record { name = short target; repository = repository; owner = owner };
    })

pull_request_infos :
    (String → String) → List PullRequest → String → String → Bool → Result (List PullRequestInfo)
unfolding parse_pull_request_details
pull_request_infos short [] owner repository with_body = ok []
pull_request_infos short (p ∷ ps) owner repository with_body =
    parse_pull_request_details short p owner repository with_body >>> λ i.
    pull_request_infos short ps owner repository with_body >>> λ is. ok (i ∷ is)

module _ (s : Server) (c : Client) where
  unfoldable pub create_pull_request_in :
      String → String → String → String → String → Rest (Unit {0})
  unfolding build_azure_repos_client add_branch_prefix
  create_pull_request_in repository source_branch target_branch title description =
      build_azure_repos_client s c
      >> send s.done (
          create_pull_request c.project repository (add_branch_prefix source_branch)
            (add_branch_prefix target_branch) title description)

  unfoldable pub update_pull_request_in :
      String → String → String → String → ℤ → PullRequestState → Rest (Unit {0})
  unfolding build_azure_repos_client add_branch_prefix azure_map_pull_request_state
      get_nil_if_zero_val
  update_pull_request_in repository title body target_branch_name pr_id state =
      build_azure_repos_client s c
      >> send s.done (
          update_pull_request (record {
            description = get_nil_if_zero_val body;
            status = azure_map_pull_request_state state;
            target_ref_name = get_nil_if_zero_val (add_branch_prefix target_branch_name);
            title = get_nil_if_zero_val title;
            repository_id = get_nil_if_zero_val repository;
            pull_request_id = get_nil_if_zero_val pr_id;
            project = get_nil_if_zero_val c.project;
          }))

  add_comment : String → ℤ → PullRequestComment → Rest (Unit {0})
  unfolding build_azure_repos_client get_thread_args
  add_comment repository id comment =
      build_azure_repos_client s c
      >> send s.done (create_thread c.project repository id (get_thread_args comment))

  unfoldable pub add_pull_request_comment : String → String → ℤ → Rest (Unit {0})
  unfolding add_comment
  add_pull_request_comment repository content id = add_comment repository id (bare_comment content)

  add_comments : String → ℤ → List PullRequestComment → Rest (Unit {0})
  unfolding add_comment
  add_comments repository id [] = pure tt
  add_comments repository id (m ∷ ms) = add_comment repository id m >> add_comments repository id ms

  unfoldable pub add_pull_request_review_comments :
      String → ℤ → List PullRequestComment → Rest (Unit {0})
  unfolding add_comments
  add_pull_request_review_comments repository id [] =
      lift (err (errorf "could not add a pull request review comment, no comments were provided"))
  add_pull_request_review_comments repository id (m ∷ ms) = add_comments repository id (m ∷ ms)

  unfoldable pub list_pull_request_comments : String → ℤ → Rest (List CommentInfo)
  unfolding build_azure_repos_client thread_infos
  list_pull_request_comments repository id = do
    build_azure_repos_client s c
    threads ← send s.threads (get_threads c.project repository id)
    lift (thread_infos threads)

  -- The identifier is that of the thread, whose first comment is deleted.
  unfoldable pub delete_pull_request_comment : String → ℤ → ℤ → Rest (Unit {0})
  unfolding build_azure_repos_client
  delete_pull_request_comment repository id comment_id =
      build_azure_repos_client s c
      >> send s.done (delete_comment c.project repository id comment_id (pos 1))

  unfoldable pub delete_pull_request_review_comments :
      String → ℤ → List CommentInfo → Rest (Unit {0})
  unfolding delete_pull_request_comment
  delete_pull_request_review_comments repository id [] = pure tt
  delete_pull_request_review_comments repository id (m ∷ ms) =
      delete_pull_request_comment repository id m.id
      >> delete_pull_request_review_comments repository id ms

  unfoldable pub get_open_pull_requests :
      (String → String) → String → String → Bool → Rest (List PullRequestInfo)
  unfolding build_azure_repos_client pull_request_infos
  get_open_pull_requests short owner repository with_body = do
    build_azure_repos_client s c
    pull_requests ← send s.pull_requests (get_pull_requests c.project repository)
    lift (pull_request_infos short pull_requests owner repository with_body)

  unfoldable pub get_pull_request_by_id :
      (String → String) → String → String → ℤ → Rest PullRequestInfo
  unfolding build_azure_repos_client parse_pull_request_details
  get_pull_request_by_id short owner repository id = do
    build_azure_repos_client s c
    p ← send s.pull_request (get_pull_request c.project id)
    lift (parse_pull_request_details short p owner repository false)
