-- ===== src/Client/BitbucketCloud/Guards.antt =====
-- What the client of Bitbucket Cloud does when the owner or the repository is blank.
use froggit_go.Base.{ℕ, ℤ, String, ◌≡◌, ◌⊎◌, true}
use froggit_go.Client.Types.{Permission}
use froggit_go.Client.Params.{Order, IsOrder, is_blank}
use froggit_go.Client.Sorting.{SetApi}
use froggit_go.Client.Shared.Guards.{IsRefused, validated-IsRefused}
use froggit_go.Client.BitbucketCloud.Api.{Server}
use froggit_go.Client.BitbucketCloud.Repos.{
  add_ssh_key_to_repository, get_latest_commit, get_commit_by_sha, get_repository_info,
}
use froggit_go.Client.BitbucketCloud.Pulls.{
  list_open_pull_requests, list_open_pull_requests_with_body, get_pull_request_by_id,
  add_pull_request_comment, list_pull_request_comments,
}
use froggit_go.Client.BitbucketCloud.Files.{get_modified_files}

-- With a blank owner or a blank repository, the operations of Bitbucket Cloud that validate them, on
-- keys, commits, pull requests, comments and modified files, give an error and send no request.
pub cloud_blank_owner_or_repository-IsRefused :
    (order : Order) (is_order : IsOrder order) (owner repository : String)
    (blank : (is_blank owner ≡ true) ⊎ (is_blank repository ≡ true)) (s : Server) (x : SetApi)
    (url e t u : String) (id : ℤ) (fuel : ℕ) (permission : Permission)
    → IsRefused (add_ssh_key_to_repository order s url e owner repository t u permission)
      × IsRefused (get_latest_commit order s owner repository t)
      × IsRefused (get_commit_by_sha order s owner repository t)
      × IsRefused (get_repository_info order s owner repository)
      × IsRefused (list_open_pull_requests order s owner repository)
      × IsRefused (list_open_pull_requests_with_body order s owner repository)
      × IsRefused (get_pull_request_by_id order s owner repository id)
      × IsRefused (add_pull_request_comment order s owner repository t id)
      × IsRefused (list_pull_request_comments order s owner repository id)
      × IsRefused (get_modified_files x order s fuel owner repository t u)
unfolding add_ssh_key_to_repository get_latest_commit get_commit_by_sha get_repository_info
    list_open_pull_requests list_open_pull_requests_with_body get_pull_request_by_id
    add_pull_request_comment list_pull_request_comments get_modified_files
cloud_blank_owner_or_repository-IsRefused order is_order owner repository blank s x url e t u id
      fuel permission =
    (
      validated-IsRefused order is_order owner repository blank _ _,
      validated-IsRefused order is_order owner repository blank _ _,
      validated-IsRefused order is_order owner repository blank _ _,
      validated-IsRefused order is_order owner repository blank _ _,
      validated-IsRefused order is_order owner repository blank _ _,
      validated-IsRefused order is_order owner repository blank _ _,
      validated-IsRefused order is_order owner repository blank _ _,
      validated-IsRefused order is_order owner repository blank _ _,
      validated-IsRefused order is_order owner repository blank _ _,
      validated-IsRefused order is_order owner repository blank _ _,
    )
