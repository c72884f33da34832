-- ===== src/Client/Gitlab/Guards.antt =====
-- What the client of GitLab does when the owner or the repository is blank.
use froggit_go.Base.{ℤ, String, ◌≡◌, ◌⊎◌, true, List}
use froggit_go.Client.Types.{Permission, LabelInfo, CommentInfo, PullRequestComment}
use froggit_go.Client.Params.{Order, IsOrder, is_blank}
use froggit_go.Client.Sorting.{SetApi}
use froggit_go.Client.Gitlab.Api.{Server}
use froggit_go.Client.Gitlab.Repos.{
  add_ssh_key_to_repository, get_commits, get_repository_info, get_commit_by_sha, create_label_in,
  get_label,
}
use froggit_go.Client.Shared.Guards.{IsRefused, validated-IsRefused}
use froggit_go.Client.Gitlab.Merges.{list_pull_request_labels, unlabel_pull_request}
use froggit_go.Client.Gitlab.Reviews.{
  add_pull_request_comment, add_pull_request_review_comments, list_pull_request_review_comments,
  list_pull_request_comments, delete_pull_request_review_comments, delete_pull_request_comment,
}
use froggit_go.Client.Gitlab.Files.{get_modified_files}

-- With a blank owner or a blank repository, the operations on keys, commits, labels, comments and
-- modified files give an error and send no request.
pub blank_owner_or_repository-IsRefused :
    (order : Order) (is_order : IsOrder order) (owner repository : String)
    (blank : (is_blank owner ≡ true) ⊎ (is_blank repository ≡ true)) (s : Server) (x : SetApi)
    (t u : String) (id comment_id : ℤ) (permission : Permission) (label : LabelInfo)
    (comments : List PullRequestComment) (infos : List CommentInfo)
    → IsRefused (add_ssh_key_to_repository order s owner repository t u permission)
      × IsRefused (get_commits order s owner repository t)
      × IsRefused (get_repository_info order s owner repository)
      × IsRefused (get_commit_by_sha order s owner repository t)
      × IsRefused (create_label_in order s owner repository label)
      × IsRefused (get_label order s owner repository t)
      × IsRefused (list_pull_request_labels order s owner repository id)
      × IsRefused (unlabel_pull_request order s owner repository t id)
      × IsRefused (add_pull_request_comment order s owner repository t id)
      × IsRefused (add_pull_request_review_comments order s owner repository id comments)
      × IsRefused (list_pull_request_review_comments order s owner repository id)
      × IsRefused (list_pull_request_comments order s owner repository id)
      × IsRefused (delete_pull_request_review_comments order s owner repository id infos)
      × IsRefused (delete_pull_request_comment order s owner repository id comment_id)
      × IsRefused (get_modified_files x order s owner repository t u)
unfolding add_ssh_key_to_repository get_commits get_repository_info get_commit_by_sha
    create_label_in get_label list_pull_request_labels unlabel_pull_request add_pull_request_comment
    add_pull_request_review_comments list_pull_request_review_comments list_pull_request_comments
    delete_pull_request_review_comments delete_pull_request_comment get_modified_files
blank_owner_or_repository-IsRefused order is_order owner repository blank s x t u id comment_id
      permission label comments infos =
    (
      validated-IsRefused order is_order owner repository blank _ _,
      validated-IsRefused order is_order owner repository blank _ _,
      validated-IsRefused order is_order owner repository blank _ _,
      validated-IsRefused order is_order owner repository blank _ _,
      validated-IsRefused order is_order owner repository blank _ _,
      validated-IsRefused order is_order owner repository blank _ _,
      validated-IsRefused order is_order owner repository blank _ _,
      validated-IsRefused order is_order owner repository blank _ _,
      validated-IsRefused order is_order owner repository blank _ _,
      validated-IsRefused order is_order owner repository blank _ _,
      validated-IsRefused order is_order owner repository blank _ _,
      validated-IsRefused order is_order owner repository blank _ _,
      validated-IsRefused order is_order owner repository blank _ _,
      validated-IsRefused order is_order owner repository blank _ _,
      validated-IsRefused order is_order owner repository blank _ _,
    )
