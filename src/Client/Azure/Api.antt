-- ===== src/Client/Azure/Api.antt =====
-- The requests that the client of Azure Repos sends, and what it reads in the replies of the package
-- azure-devops. A pointer is an `Option`.
use froggit_go.Base.{ℕ, ℤ, String, Bool, Option, List, Result, err, errorf, if◌then◌else◌}
use froggit_go.Calls.{Calls, lift, send}
use froggit_go.Webhook.Http.{Time}

-- `git.CreateThreadArgs`: a position is a line and an offset.
pub record ThreadArgs : Type 0 where
  pub file_path : String
  pub content : String
  pub left_file_start : ℤ × ℤ
  pub left_file_end : ℤ × ℤ
  pub right_file_start : ℤ × ℤ
  pub right_file_end : ℤ × ℤ

pub record PullUpdate : Type 0 where
  pub description : Option String
  pub status : Option String
  pub target_ref_name : Option String
  pub title : Option String
  pub repository_id : Option String
  pub pull_request_id : Option ℤ
  pub project : Option String

-- The first two texts are the project and the repository.
pub data Call : Type 0 where
  new_client : Call
  get_repositories : String → Call
  get_branches get_pull_requests get_repository : String → String → Call
  create_pull_request : String → String → String → String → String → String → Call
  update_pull_request : PullUpdate → Call
  create_thread : String → String → ℤ → ThreadArgs → Call
  get_threads : String → String → ℤ → Call
  delete_comment : String → String → ℤ → ℤ → ℤ → Call
  get_pull_request : String → ℤ → Call
  get_commits get_statuses : String → String → String → Call
  create_commit_status :
      String → String → String → String → String → String → String → String → Call
  get_item_content : String → String → String → String → Call
  get_commit_diffs : String → String → String → String → ℕ → ℕ → Call

pub record Comment : Type 0 where
  pub is_deleted : Option Bool
  pub author_display_name : Option String
  pub id : Option ℤ
  pub content : Option String

pub record Thread : Type 0 where
  pub id : Option ℤ
  pub is_deleted : Option Bool
  pub published_date : Option Time
  pub comments : Option (List Comment)

-- `ForkSource` has a repository, and that a URL.
pub record PullRequest : Type 0 where
  pub id : Option ℤ
  pub url : Option String
  pub description : Option String
  pub source_ref_name : Option String
  pub target_ref_name : Option String
  pub fork_source : Option (Option (Option String))

pub record Signature : Type 0 where
  pub name : Option String
  pub email : Option String
  pub date : Option Time

pub record Commit : Type 0 where
  pub commit_id : Option String
  pub author : Option Signature
  pub committer : Option Signature
  pub url : Option String
  pub comment : Option String
  pub parents : Option (List String)

pub record Status : Type 0 where
  pub state : Option String
  pub description : Option String
  pub target_url : Option String
  pub created_by_display_name : Option String
  pub updated_date : Option Time
  pub creation_date : Option Time

-- `project_is_public` is what the project's visibility says.
pub record Repository : Type 0 where
  pub project : Option (Option Bool)
  pub remote_url : Option String
  pub ssh_url : Option String

pub record Item : Type 0 where
  pub git_object_type : Option String
  pub path : Option String

abbrev pub Answer : Type 0 → Type 0
Answer A = List Call → Call → Result A

-- `remapped` stands for the two calls of `RemapFields` that read the item of a change. The content
-- of an item is read after the request for it.
pub record Server : Type 1 where
  pub Change : Type 0
  pub done : Answer (Unit {0})
  pub names : Answer (List (Option String))
  pub threads : Answer (List Thread)
  pub pull_requests : Answer (List PullRequest)
  pub pull_request : Answer PullRequest
  pub commits : Answer (Option (List Commit))
  pub repository : Answer (Option Repository)
  pub statuses : Answer (List Status)
  pub content : Answer (Result String)
  pub diffs : Answer (Option (List Change))
  pub remapped : Change → Result Item

abbrev pub Rest : Type 0 → Type 0
Rest A = Calls Call A

-- `AzureReposClient`: its project, and whether it has the details of the connection.
pub record Client : Type 0 where
  pub project : String
  pub has_connection : Bool

unfoldable pub build_azure_repos_client : Server → Client → Rest (Unit {0})
build_azure_repos_client s c =
    if c.has_connection
    then send s.done new_client
    else lift (err (errorf "connection details wasn't initialized"))
