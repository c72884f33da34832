-- ===== src/Client/BitbucketServer/Guards.antt =====
-- What the client of Bitbucket Server does when the owner or the repository is blank.
use froggit_go.Base.{ℤ, String, ◌≡◌, ◌⊎◌, true}
use froggit_go.Client.Types.{Permission, PullRequestComment}
use froggit_go.Client.Params.{Order, IsOrder, is_blank}
use froggit_go.Client.Sorting.{SetApi}
use froggit_go.Client.Shared.Guards.{IsRefused, validated-IsRefused}
use froggit_go.Client.BitbucketServer.Api.{Server}
use froggit_go.Client.BitbucketServer.Repos.{
  add_ssh_key_to_repository, get_commits_of, get_commit_by_sha, get_repository_info,
}
use froggit_go.Client.BitbucketServer.Reviews.{add_comment, add_pull_request_comment}
use froggit_go.Client.BitbucketServer.Files.{get_modified_files}

-- With a blank owner or a blank repository, the operations of Bitbucket Server that validate them, on
-- keys, commits, comments and modified files, give an error and send no request.
pub server_blank_owner_or_repository-IsRefused :
    (order : Order) (is_order : IsOrder order) (owner repository : String)
    (blank : (is_blank owner ≡ true) ⊎ (is_blank repository ≡ true)) (s : Server) (x : SetApi)
    (e t u : String) (id : ℤ) (permission : Permission) (comment : PullRequestComment)
    → IsRefused (add_ssh_key_to_repository order e s owner repository t u permission)
      × IsRefused (get_commits_of order e s owner repository t)
      × IsRefused (get_commit_by_sha order e s owner repository t)
      × IsRefused (get_repository_info order e s owner repository)
      × IsRefused (add_comment order s owner repository id comment)
      × IsRefused (add_pull_request_comment order s owner repository t id)
      × IsRefused (get_modified_files x order s owner repository t u)
unfolding add_ssh_key_to_repository get_commits_of get_commit_by_sha get_repository_info add_comment
    add_pull_request_comment get_modified_files
server_blank_owner_or_repository-IsRefused order is_order owner repository blank s x e t u id
      permission comment =
    (
      validated-IsRefused order is_order owner repository blank _ _,
      validated-IsRefused order is_order owner repository blank _ _,
      validated-IsRefused order is_order owner repository blank _ _,
      validated-IsRefused order is_order owner repository blank _ _,
      validated-IsRefused order is_order owner repository blank _ _,
      validated-IsRefused order is_order owner repository blank _ _,
      validated-IsRefused order is_order owner repository blank _ _,
    )
