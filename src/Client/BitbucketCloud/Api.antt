-- ===== src/Client/BitbucketCloud/Api.antt =====
-- The requests that the client of Bitbucket Cloud sends, and what it reads in the replies of
-- go-bitbucket. The server's answer to a request may depend on all requests before it.
use froggit_go.Base.{ℕ, ℤ, String, Bool, Option, List, Result, Error}
use froggit_go.Calls.{Calls}
use froggit_go.Webhook.Http.{Time}
use froggit_go.Client.Bitbucket.{BitbucketCommitInfo}

-- `WebhooksOptions` of a webhook that is active.
pub record Hook : Type 0 where
  pub url : String
  pub events : List String

-- `PullRequestsOptions` of a pull request that is created or updated. A field that is not set is
-- empty.
pub record PullRequestOptions : Type 0 where
  pub owner : String
  pub source_repository : String
  pub repo_slug : String
  pub source_branch : String
  pub destination_branch : String
  pub title : String
  pub description : String
  pub id : String
  pub states : List String

pub data Call : Type 0 where
  profile list_workspaces : Call
  list_for_account : String → Call
  list_branches get_repository : String → String → Call
  post_key : String → String → String → Call
  create_webhook : String → String → Hook → Call
  update_webhook : String → String → String → Hook → Call
  delete_webhook : String → String → String → Call
  create_commit_status : String → String → String → String → String → String → String → Call
  get_commit_statuses get_commit : String → String → String → Call
  create_pull_request update_pull_request : PullRequestOptions → Call
  list_pull_requests : String → String → List String → Call
  get_pull_request get_comments : String → String → String → Call
  add_comment : String → String → String → String → Call
  get_commits : String → String → String → ℕ → Call
  diff_stat : String → String → String → ℕ → Call

pub record Branch : Type 0 where
  pub name : String
  pub repository : String

-- `pullRequestsDetails`
pub record PullRequestsDetails : Type 0 where
  pub id : ℤ
  pub body : String
  pub source : Branch
  pub target : Branch

-- `commentDetails`, by the fields that are read.
pub record CommentDetails : Type 0 where
  pub id : ℤ
  pub raw : String
  pub created : Time

-- `commitDetails`
pub record CommitDetails : Type 0 where
  pub hash : String
  pub date : Time
  pub message : String
  pub display_name : String
  pub self_href : String
  pub parents : List String

-- A repository: what its links are decoded to, by their names.
pub record Repository : Type 0 where
  pub clone : Result (List (String × String))
  pub is_private : Bool

-- The paths of a difference, each if it is there and a text.
pub record DiffStat : Type 0 where
  pub new_path : Option String
  pub old_path : Option String

pub record DiffPage : Type 0 where
  pub next : String
  pub diff_stats : List DiffStat

-- The reply to a key: `discard_error` is the error of `DiscardResponseBody`.
pub record KeyReply : Type 0 where
  pub status : String
  pub status_code : ℕ
  pub discard_error : Option Error
  pub close_error : Option Error

abbrev pub Answer : Type 0 → Type 0
Answer A = List Call → Call → Result A

-- A reply that is decoded has two results: that of the request, and what the values are decoded to.
pub record Server : Type 0 where
  -- The text of `fmt.Errorf` for a format without arguments.
  pub format : String → String
  -- `http.NewRequestWithContext`, which may refuse the address.
  pub new_request : String → Result (Unit {0})
  pub done : Answer (Unit {0})
  pub key_reply : Answer KeyReply
  pub workspaces : Answer (List String)
  pub repositories : Answer (List String)
  pub branches : Answer (List String)
  pub webhook_uuid : Answer (Result String)
  pub statuses : Answer (Result (List BitbucketCommitInfo))
  pub pull_requests : Answer (Result (List PullRequestsDetails))
  pub pull_request : Answer (Result PullRequestsDetails)
  pub comments : Answer (Result (List CommentDetails))
  pub commits : Answer (Result (List CommitDetails))
  pub commit : Answer (Result CommitDetails)
  pub repository : Answer Repository
  pub diffs : Answer DiffPage

abbrev pub Rest : Type 0 → Type 0
Rest A = Calls Call A
