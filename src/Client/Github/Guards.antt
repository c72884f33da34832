-- ===== src/Client/Github/Guards.antt =====
-- What the client of GitHub does when the owner or the repository is blank.
use froggit_go.Base.{ℕ, ℤ, String, ◌≡◌, ◌⊎◌, true, List, ◌∷◌}
use froggit_go.Client.Types.{Permission, LabelInfo, CommentInfo, PullRequestComment}
use froggit_go.Client.Params.{Order, IsOrder, is_blank}
use froggit_go.Client.Sorting.{SetApi}
use froggit_go.Client.Shared.Guards.{IsRefused, validated-IsRefused}
use froggit_go.Client.Github.Api.{Server}
use froggit_go.Client.Github.Repos.{add_ssh_key_to_repository, get_repository_info}
use froggit_go.Client.Github.Commits.{get_commits, get_commit_by_sha}
use froggit_go.Client.Github.Labels.{
  create_label, get_label, list_pull_request_labels, unlabel_pull_request,
}
use froggit_go.Client.Github.Reviews.{
  add_pull_request_comment, add_pull_request_review_comments, list_pull_request_review_comments,
  list_pull_request_comments, delete_pull_request_review_comments, delete_pull_request_comment,
}
use froggit_go.Client.Github.Files.{get_modified_files}
use froggit_go.Client.Github.Scanning.{get_repository_environment_info}

-- With a blank owner or a blank repository, the operations of GitHub that validate them, on keys,
-- commits, labels, comments, environments and modified files, give an error and send no request;
-- the deletion of review comments does so if there is a comment to delete.
pub github_blank_owner_or_repository-IsRefused :
    (order : Order) (is_order : IsOrder order) (owner repository : String)
    (blank : (is_blank owner ≡ true) ⊎ (is_blank repository ≡ true)) (s : Server) (x : SetApi)
    (t u : String) (id comment_id : ℤ) (fuel : ℕ) (permission : Permission) (label : LabelInfo)
    (comments : List PullRequestComment) (info : CommentInfo) (infos : List CommentInfo)
    → IsRefused (add_ssh_key_to_repository order s owner repository t u permission)
      × IsRefused (get_commits order s owner repository t)
      × IsRefused (get_repository_info order s owner repository)
      × IsRefused (get_commit_by_sha order s owner repository t)
      × IsRefused (create_label order s owner repository label)
      × IsRefused (get_label order s owner repository t)
      × IsRefused (list_pull_request_labels order s owner repository id fuel)
      × IsRefused (unlabel_pull_request order s owner repository t id)
      × IsRefused (add_pull_request_comment order s owner repository t id)
      × IsRefused (add_pull_request_review_comments order s owner repository id comments)
      × IsRefused (list_pull_request_review_comments order s owner repository id)
      × IsRefused (list_pull_request_comments order s owner repository id)
      × IsRefused (delete_pull_request_review_comments order s owner repository (info ∷ infos))
      × IsRefused (delete_pull_request_comment order s owner repository comment_id)
      × IsRefused (get_repository_environment_info s order owner repository t)
      × IsRefused (get_modified_files x order s owner repository t u)
unfolding add_ssh_key_to_repository get_commits get_repository_info get_commit_by_sha create_label
    get_label list_pull_request_labels unlabel_pull_request add_pull_request_comment
    add_pull_request_review_comments list_pull_request_review_comments list_pull_request_comments
    delete_pull_request_review_comments delete_pull_request_comment get_repository_environment_info
    get_modified_files
github_blank_owner_or_repository-IsRefused order is_order owner repository blank s x t u id
      comment_id fuel permission label comments info infos =
    (
      validated-IsRefused order is_order owner repository blank _ _,
      validated-IsRefused order is_order owner repository blank _ _,
      validated-IsRefused order is_order owner repository blank _ _,
      validated-IsRefused order is_order owner repository blank _ _,
      validated-IsRefused order is_order owner repository blank _ _,
      validated-IsRefused order is_order owner repository blank _ _,
      validated-IsRefused order is_order owner repository blank _ _,
      validated-IsRefused order is_order owner repository blank _ _,
      validated-IsRefused order is_order owner repository blank _ _,
      validated-IsRefused order is_order owner repository blank _ _,
      validated-IsRefused order is_order owner repository blank _ _,
      validated-IsRefused order is_order owner repository blank _ _,
      validated-IsRefused order is_order owner repository blank _ _,
      validated-IsRefused order is_order owner repository blank _ _,
      validated-IsRefused order is_order owner repository blank _ _,
      validated-IsRefused order is_order owner repository blank _ _,
    )
