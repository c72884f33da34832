-- ===== src/Client/Gitlab/Api.antt =====
-- The requests that the client of GitLab sends, and what it reads in the replies of go-gitlab. The
-- server's answer to a request may depend on all requests before it.
use froggit_go.Base.{ℕ, ℤ, String, Bool, Option, List, Result, Error}
use froggit_go.Calls.{Calls}
use froggit_go.Webhook.Http.{Time}
use froggit_go.Vcs.Responses.{Response, Texts}
use froggit_go.Client.Types.{LabelInfo}

-- `gitlab.ProjectHook`, by the fields that are set.
pub record ProjectHook : Type 0 where
  pub url : String
  pub merge_requests_events : Bool
  pub push_events : Bool
  pub push_events_branch_filter : String
  pub tag_push_events : Bool

-- `gitlab.PositionOptions` of the position type `text`.
pub record Position : Type 0 where
  pub start_sha : String
  pub head_sha : String
  pub base_sha : String
  pub new_line : ℤ
  pub new_path : String
  pub old_line : Option ℤ
  pub old_path : Option String

pub record MergeUpdate : Type 0 where
  pub title : String
  pub description : String
  pub target_branch : String
  pub state_event : Option String

pub data Call : Type 0 where
  list_projects : Option ℕ → Call
  list_branches get_project list_merge_requests list_labels : String → Call
  add_deploy_key : String → String → String → Bool → Call
  add_project_hook : String → String → ProjectHook → Call
  edit_project_hook : String → ℤ → String → ProjectHook → Call
  delete_project_hook get_merge_request diff_versions list_diffs list_discussions list_notes :
      String → ℤ → Call
  set_commit_status : String → String → String → String → String → String → Call
  get_commit_statuses get_commit : String → String → Call
  create_merge_request : String → String → String → String → String → Call
  update_merge_request : String → ℤ → MergeUpdate → Call
  remove_label : String → ℤ → String → Call
  create_note : String → ℤ → String → Call
  create_discussion : String → ℤ → String → Position → Call
  delete_discussion_note : String → ℤ → String → ℤ → Call
  delete_note : String → ℤ → ℤ → Call
  list_commits : String → String → ℕ → ℕ → Call
  get_project_by_id : ℤ → Call
  create_label : String → LabelInfo → Call
  get_file compare : String → String → String → Call

-- A pointer that is read without a check is an `Option`.
pub record Project : Type 0 where
  pub namespace_path : Option String
  pub path : String

pub record ProjectPage : Type 0 where
  pub projects : List Project
  pub total_pages : ℤ

-- `Visibility` of a project.
pub data Visibility : Type 0 where
  public_visibility internal_visibility other_visibility : Visibility

pub record ProjectInfo : Type 0 where
  pub visibility : Visibility
  pub http_url_to_repo : String
  pub ssh_url_to_repo : String

pub record Status : Type 0 where
  pub status : String
  pub description : String
  pub target_url : String
  pub author_name : String
  pub finished_at : Option Time
  pub created_at : Option Time

pub record MergeRequest : Type 0 where
  pub iid : ℤ
  pub description : String
  pub web_url : String
  pub source_project_id : ℤ
  pub target_project_id : ℤ
  pub source_branch : String
  pub target_branch : String
  pub labels : List String

pub record DiffVersion : Type 0 where
  pub start_commit_sha : String
  pub head_commit_sha : String
  pub base_commit_sha : String

pub record Diff : Type 0 where
  pub new_path : String
  pub old_path : String
  pub new_file : Bool

pub record Note : Type 0 where
  pub id : ℤ
  pub body : String
  pub created_at : Option Time

pub record Discussion : Type 0 where
  pub id : String
  pub notes : List Note

pub record Commit : Type 0 where
  pub id : String
  pub author_name : String
  pub author_email : String
  pub committer_name : String
  pub web_url : String
  pub committed_date : Option Time
  pub message : String
  pub parent_ids : List String

-- The three results of `GetFile`: the encoded content, the status code of the response if there is
-- one, and the error.
pub record FileReply : Type 0 where
  pub content : Option String
  pub status_code : Option ℕ
  pub error : Option Error

abbrev pub Answer : Type 0 → Type 0
Answer A = List Call → Call → Result A

-- Beside the error, the replies of `GetMergeRequest` and `GetProject` have the response.
pub record Server : Type 0 where
  pub texts : Texts
  pub done : Answer (Unit {0})
  pub projects : Answer ProjectPage
  pub branches : Answer (List String)
  pub hook_id : Answer ℤ
  pub statuses : Answer (List Status)
  pub merge_requests : Answer (List MergeRequest)
  pub merge_request : Answer (MergeRequest × Option Response)
  pub versions : Answer (List DiffVersion)
  pub diffs : Answer (List Diff)
  pub compared : Answer (List Diff)
  pub discussions : Answer (List Discussion)
  pub notes : Answer (List Note)
  pub commits : Answer (List Commit)
  pub commit : Answer Commit
  pub project : Answer ProjectInfo
  pub project_owner : Answer (Option String × Option Response)
  pub labels : Answer (List LabelInfo)
  pub file : List Call → Call → FileReply

abbrev pub Rest : Type 0 → Type 0
Rest A = Calls Call A
