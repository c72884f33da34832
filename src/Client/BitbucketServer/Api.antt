-- ===== src/Client/BitbucketServer/Api.antt =====
-- The requests that the client of Bitbucket Server sends, and what it reads in the replies of
-- go-bitbucket-v1. The server's answer to a request may depend on all requests before it.
use froggit_go.Base.{ℕ, ℤ, String, Bool, Option, List, Result, Error}
use froggit_go.Calls.{Calls}
use froggit_go.Vcs.Responses.{Response, Texts}
use froggit_go.Client.Bitbucket.{BitbucketCommitInfo}

-- The configuration of a webhook.
pub record Hook : Type 0 where
  pub url : String
  pub secret : String
  pub events : List String

pub record NewPullRequest : Type 0 where
  pub title : String
  pub description : String
  pub from_ref : String
  pub to_ref : String
  pub repository : String
  pub project : String

pub record PullRequestEdit : Type 0 where
  pub version : String
  pub state : String
  pub title : String
  pub description : String

-- `Anchor`, of which the line type and the file type are always the same.
pub record Anchor : Type 0 where
  pub line : ℤ
  pub line_type : String
  pub file_type : String
  pub path : String
  pub src_path : String

-- A listing has the number at which its page starts.
pub data Call : Type 0 where
  get_users : Call
  get_projects : ℤ → Call
  get_repositories : String → ℤ → Call
  get_branches get_pull_requests_page : String → String → ℤ → Call
  get_activities : String → String → ℤ → ℤ → Call
  post_key : String → String → String → String → Call
  create_webhook : String → String → Hook → Call
  update_webhook : String → String → ℤ → Hook → Call
  delete_webhook : String → String → ℤ → Call
  set_commit_status : String → String → String → String → String → Call
  get_commit_status : String → Call
  create_pull_request : String → String → NewPullRequest → Call
  get_pull_request : String → String → ℤ → Call
  update_pull_request : String → String → ℤ → PullRequestEdit → Call
  create_pull_request_comment : String → String → ℤ → String → Option Anchor → Call
  delete_comment : String → String → ℤ → ℤ → ℤ → Call
  get_commits : String → String → ℕ → String → Call
  get_commit : String → String → String → Call
  get_repository : String → String → Call
  get_content : String → String → String → String → Call
  stream_diff : String → String → String → String → Call

-- A page: what its reply is decoded to, what `HasNextPage` says of it, and the header `X-Ausername`.
pub record Page (A : Type 0) : Type 0 where
  pub items : Result (List A)
  pub has_next_page : Bool
  pub next_page_start : ℤ
  pub username : String

-- A pull request, with the key of the source project if there is one, and the links to it.
pub record PullRequest : Type 0 where
  pub id : ℤ
  pub description : String
  pub is_open : Bool
  pub from_display_id : String
  pub from_slug : String
  pub from_project_key : Option String
  pub to_display_id : String
  pub to_slug : String
  pub self_links : List String

pub record Activity : Type 0 where
  pub action : String
  pub comment_action : String
  pub comment_id : ℤ
  pub created_date : ℤ
  pub text : String
  pub version : ℤ

pub record Commit : Type 0 where
  pub id : String
  pub author_name : String
  pub author_email : String
  pub committer_name : String
  pub committer_timestamp : ℤ
  pub message : String
  pub parents : List String

-- The clone links by their names, and whether the repository is public.
pub record RepositoryHolder : Type 0 where
  pub clone : List (String × String)
  pub public : Bool

pub record DiffPaths : Type 0 where
  pub source : String
  pub destination : String

-- A pull request as it is asked for: the text of its version, the response, and what the reply is
-- decoded to. The reply is a pointer.
pub record PullRequestReply : Type 0 where
  pub version : String
  pub response : Option Response
  pub pull_request : Result PullRequest

-- The reply to a key: `discard_error` is the error of `DiscardResponseBody`.
pub record KeyReply : Type 0 where
  pub status : String
  pub status_code : ℕ
  pub body : Result String
  pub discard_error : Option Error
  pub close_error : Option Error

-- The results of `GetContent_11`: the content if there is a reply, the status code if it has a
-- response, and the error.
pub record ContentReply : Type 0 where
  pub payload : Option String
  pub status_code : Option ℕ
  pub error : Option Error

abbrev pub Answer : Type 0 → Type 0
Answer A = List Call → Call → Result A

-- A reply that is decoded has two results: that of the request, and what the values are decoded to.
pub record Server : Type 0 where
  pub texts : Texts
  -- `err == io.EOF`
  pub is_eof : Error → Bool
  -- `strings.ToUpper`
  pub to_upper : String → String
  -- `http.NewRequestWithContext`, which may refuse the address.
  pub new_request : String → Result (Unit {0})
  pub done : Answer (Unit {0})
  pub key_reply : Answer KeyReply
  pub projects : Answer (Page String)
  pub repositories : Answer (Page String)
  pub branches : Answer (Page String)
  pub pull_requests : Answer (Page PullRequest)
  pub activities : Answer (Page Activity)
  pub webhook_id : Answer (Result ℤ)
  pub statuses : Answer (Result (List BitbucketCommitInfo))
  pub pull_request : Answer (Option PullRequestReply)
  pub commits : Answer (Result (List Commit))
  pub commit : Answer (Result Commit)
  pub repository : Answer (Result RepositoryHolder)
  pub diffs : Answer (Result (List DiffPaths))
  pub content : List Call → Call → ContentReply

abbrev pub Rest : Type 0 → Type 0
Rest A = Calls Call A
