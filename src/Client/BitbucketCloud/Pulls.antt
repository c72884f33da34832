-- ===== src/Client/BitbucketCloud/Pulls.antt =====
-- Pull requests and their comments on Bitbucket Cloud.
use froggit_go.Base.{ℤ, pos, String, ◌<>◌, Bool, true, false, List, [], ◌∷◌, deref, if◌then◌else◌}
use froggit_go.Base.Decimal.{decimal_int}
use froggit_go.Base.Text.{split}
use froggit_go.Calls.{◌>>=◌, ◌>>◌, pure, lift, send}
use froggit_go.Vcs.{PullRequestState}
use froggit_go.Vcs.Names.{map_pull_request_state}
use froggit_go.Client.Types.{PullRequestInfo, CommentInfo, PullRequestComment}
use froggit_go.Client.Params.{Order}
use froggit_go.Client.Shared.{validated}
use froggit_go.Client.Bitbucket.{
  unsupported, list_review_comments, add_review_comments, delete_comment,
}
use froggit_go.Client.BitbucketCloud.Api.{
  create_pull_request, update_pull_request, list_pull_requests, get_pull_request, get_comments,
  add_comment, PullRequestsDetails, CommentDetails, Server, Rest,
}

-- The workspace and the repository of a full name, both empty if there is no slash.
unfoldable pub split_bitbucket_cloud_repo_name : String → String × String
unfolding split
split_bitbucket_cloud_repo_name name = elim (split "/" name) [
  | workspace ∷ repository ∷ rest ↦ (workspace, repository)
  | _ ↦ ("", "")
]

-- In a list, the full name stands for the repository, and there is no owner.
abbrev pub listed_info : Bool → PullRequestsDetails → PullRequestInfo
listed_info with_body p = record {
  id = p.id;
  body = if with_body then p.body else "";
  url = "";
  source = record { name = p.source.name; repository = p.source.repository; owner = "" };
  target = record { name = p.target.name; repository = p.target.repository; owner = "" };
}

map_bitbucket_cloud_pull_request_to_pull_request_info :
    List PullRequestsDetails → Bool → List PullRequestInfo
map_bitbucket_cloud_pull_request_to_pull_request_info [] with_body = []
map_bitbucket_cloud_pull_request_to_pull_request_info (p ∷ ps) with_body =
    listed_info with_body p ∷ map_bitbucket_cloud_pull_request_to_pull_request_info ps with_body

unfoldable pub pull_request_info : PullRequestsDetails → PullRequestInfo
unfolding split_bitbucket_cloud_repo_name
pull_request_info p =
    let (source_owner, source_repository) = split_bitbucket_cloud_repo_name p.source.repository in
    let (target_owner, target_repository) = split_bitbucket_cloud_repo_name p.target.repository in
    record {
      id = p.id;
      body = "";
      url = "";
      source = record {
        name = p.source.name;
        repository = source_repository;
        owner = source_owner;
      };
      target = record {
        name = p.target.name;
        repository = target_repository;
        owner = target_owner;
      };
    }

map_bitbucket_cloud_comment_to_comment_info : List CommentDetails → List CommentInfo
map_bitbucket_cloud_comment_to_comment_info [] = []
map_bitbucket_cloud_comment_to_comment_info (c ∷ cs) =
    record { id = c.id; thread_id = ""; content = c.raw; created = c.created; version = pos 0 }
    ∷ map_bitbucket_cloud_comment_to_comment_info cs

module _ (s : Server) where
  unfoldable pub create_pull_request_in :
      String → String → String → String → String → String → Rest (Unit {0})
  create_pull_request_in owner repository source_branch target_branch title description =
      send s.done (
        create_pull_request (record {
          owner = owner;
          source_repository = owner <> ("/" <> repository);
          repo_slug = repository;
          source_branch = source_branch;
          destination_branch = target_branch;
          title = title;
          description = description;
          id = "";
          states = [];
        }))

  -- A state without a name is nil, and is read without a check.
  unfoldable pub update_pull_request_in :
      String → String → String → String → String → ℤ → PullRequestState → Rest (Unit {0})
  unfolding map_pull_request_state decimal_int
  update_pull_request_in owner repository title body target_branch_name id state = do
    state_text ← lift (deref (map_pull_request_state state))
    send s.done (
        update_pull_request (record {
          owner = owner;
          source_repository = owner <> ("/" <> repository);
          repo_slug = repository;
          source_branch = "";
          destination_branch = target_branch_name;
          title = title;
          description = body;
          id = decimal_int id;
          states = state_text ∷ [];
        }))

module _ (order : Order) (s : Server) where
  get_open_pull_requests : String → String → Bool → Rest (List PullRequestInfo)
  unfolding validated map_bitbucket_cloud_pull_request_to_pull_request_info
  get_open_pull_requests owner repository with_body = do
    validated order (("owner", owner) ∷ ("repository", repository) ∷ [])
    reply ← send s.pull_requests (list_pull_requests owner repository ("OPEN" ∷ []))
    pull_requests ← lift reply
    pure (map_bitbucket_cloud_pull_request_to_pull_request_info pull_requests with_body)

  unfoldable pub list_open_pull_requests_with_body : String → String → Rest (List PullRequestInfo)
  unfolding get_open_pull_requests
  list_open_pull_requests_with_body owner repository = get_open_pull_requests owner repository true

  unfoldable pub list_open_pull_requests : String → String → Rest (List PullRequestInfo)
  unfolding get_open_pull_requests
  list_open_pull_requests owner repository = get_open_pull_requests owner repository false

  unfoldable pub get_pull_request_by_id : String → String → ℤ → Rest PullRequestInfo
  unfolding validated decimal_int pull_request_info
  get_pull_request_by_id owner repository id = do
    validated order (("owner", owner) ∷ ("repository", repository) ∷ [])
    reply ← send s.pull_request (get_pull_request owner repository (decimal_int id))
    details ← lift reply
    pure (pull_request_info details)

  unfoldable pub add_pull_request_comment : String → String → String → ℤ → Rest (Unit {0})
  unfolding validated decimal_int
  add_pull_request_comment owner repository content id = do
    validated order (("owner", owner) ∷ ("repository", repository) ∷ ("content", content) ∷ [])
    send s.done (add_comment owner repository (decimal_int id) content)

  unfoldable pub list_pull_request_comments : String → String → ℤ → Rest (List CommentInfo)
  unfolding validated decimal_int map_bitbucket_cloud_comment_to_comment_info
  list_pull_request_comments owner repository id = do
    validated order (("owner", owner) ∷ ("repository", repository) ∷ [])
    reply ← send s.comments (get_comments owner repository (decimal_int id))
    comments ← lift reply
    pure (map_bitbucket_cloud_comment_to_comment_info comments)

unfoldable pub add_pull_request_review_comments : List PullRequestComment → Rest (Unit {0})
unfolding unsupported
add_pull_request_review_comments comments = unsupported add_review_comments

unfoldable pub list_pull_request_review_comments : Rest (List CommentInfo)
unfolding unsupported
list_pull_request_review_comments = unsupported list_review_comments

unfoldable pub delete_pull_request_review_comments : List CommentInfo → Rest (Unit {0})
unfolding unsupported
delete_pull_request_review_comments comments = unsupported delete_comment

unfoldable pub delete_pull_request_comment : ℤ → Rest (Unit {0})
unfolding unsupported
delete_pull_request_comment comment_id = unsupported delete_comment
