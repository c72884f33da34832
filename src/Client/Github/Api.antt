-- ===== src/Client/Github/Api.antt =====
-- The requests that the client of GitHub sends, and what it reads in the replies of go-github. The
-- server's answer to a request may depend on all requests before it.
use froggit_go.Base.{ℕ, ℤ, String, Bool, Option, List, Result, Error}
use froggit_go.Calls.{Calls}
use froggit_go.Webhook.Http.{Time}
use froggit_go.Vcs.Responses.{Response, Texts}
use froggit_go.Client.Types.{LabelInfo, When}

-- `github.Response`: it embeds a pointer to the response of `net/http`.
pub record GithubResponse : Type 0 where
  pub http : Option Response
  pub last_page : ℤ

-- `github.Hook`, with its configuration.
pub record Hook : Type 0 where
  pub events : List String
  pub url : String
  pub content_type : String
  pub secret : String

-- `github.RepoStatus`
pub record RepoStatus : Type 0 where
  pub context : String
  pub target_url : String
  pub state : String
  pub description : String

-- `github.NewPullRequest`
pub record NewPullRequest : Type 0 where
  pub title : String
  pub body : String
  pub head : String
  pub base : String

-- `github.PullRequest` of an update, and of a reply.
pub record PullRequestEdit : Type 0 where
  pub title : String
  pub body : String
  pub state : Option String
  pub base : Option String

-- `github.PullRequestComment` of a request.
pub record NewReviewComment : Type 0 where
  pub commit_id : String
  pub body : String
  pub start_line : Option ℤ
  pub line : ℤ
  pub path : String

pub data Call : Type 0 where
  zen : Call
  create_key : String → String → String → String → Bool → Call
  list_page : ℕ → Call
  list_branches get_repository : String → String → Call
  create_hook : String → String → Hook → Call
  edit_hook : String → String → ℤ → Hook → Call
  delete_hook : String → String → ℤ → Call
  create_status : String → String → String → RepoStatus → Call
  get_combined_status get_commit get_label_named get_environment : String → String → String → Call
  create_pull_request : String → String → NewPullRequest → Call
  edit_pull_request : String → String → ℤ → PullRequestEdit → Call
  list_pull_requests : String → String → String → Call
  get_pull_request list_pull_request_commits list_review_comments list_issue_comments :
      String → String → ℤ → Call
  create_issue_comment : String → String → ℤ → String → Call
  create_review_comment : String → String → ℤ → NewReviewComment → Call
  delete_review_comment delete_issue_comment : String → String → ℤ → Call
  list_commits : String → String → String → ℕ → ℕ → Call
  create_label_as : String → String → LabelInfo → Call
  list_labels_by_issue : String → String → ℤ → ℕ → Call
  remove_label_for_issue : String → String → ℤ → String → Call
  upload_sarif : String → String → String → String → String → Call
  download_contents : String → String → String → String → Call
  compare_commits : String → String → String → String → ℕ → Call

-- A pointer that is read without a check is an `Option`.
pub record Repository : Type 0 where
  pub owner_login : Option String
  pub name : Option String

pub record RepositoryDetails : Type 0 where
  pub visibility : Option String
  pub clone_url : String
  pub ssh_url : String

-- The getters of go-github give a zero value for nil.
pub record Status : Type 0 where
  pub state : Option String
  pub description : String
  pub target_url : String
  pub creator_name : String
  pub created_at : When
  pub updated_at : When

pub record Commit : Type 0 where
  pub sha : String
  pub url : String
  pub message : String
  pub author_name : String
  pub author_email : String
  pub committer_name : String
  pub committer_date : ℤ
  pub parents : List String

-- The repository of a branch, with its owner's `Login` if there is an owner.
pub record BranchRepo : Type 0 where
  pub name : Option String
  pub owner : Option (Option String)

pub record PullRequestBranch : Type 0 where
  pub label : Option String
  pub repo : Option BranchRepo

pub record PullRequest : Type 0 where
  pub number : Option ℤ
  pub html_url : Option String
  pub body : Option String
  pub head : Option PullRequestBranch
  pub base : Option PullRequestBranch

pub record Comment : Type 0 where
  pub id : ℤ
  pub body : String
  pub created_at : Time

pub record Label : Type 0 where
  pub name : Option String
  pub description : Option String
  pub color : Option String

pub record CommitFile : Type 0 where
  pub filename : Option String
  pub previous_filename : Option String

-- The reviewers of a rule are values without a type.
pub record Environment (Reviewer : Type 0) : Type 0 where
  pub name : String
  pub url : String
  pub rules : List (List Reviewer)

-- A reply's response beside its value or error.
abbrev pub Answer : Type 0 → Type 0
Answer A = List Call → Call → Option GithubResponse × Result A

-- The results of `UploadSarif`: the `ID` behind the pointer, the response and the error.
pub record SarifReply : Type 0 where
  pub sarif_id : Option (Option String)
  pub response : Option GithubResponse
  pub error : Option Error

-- A body: the bytes that reading it gives, and the errors of reading and of closing it.
pub record Body : Type 0 where
  pub content : String
  pub read_error : Option Error
  pub close_error : Option Error

-- The results of `DownloadContents`.
pub record BodyReply : Type 0 where
  pub body : Option Body
  pub response : Option GithubResponse
  pub error : Option Error

pub record Server : Type 1 where
  pub texts : Texts
  -- `errors.Is(err, context.Canceled)`
  pub is_canceled : Error → Bool
  -- The error is an `AbuseRateLimitError` or a `RateLimitError` of go-github.
  pub is_abuse_type : Error → Bool
  -- `errors.As` to an `AcceptedError`, with its bytes.
  pub accepted_raw : Error → Option String
  -- `json.Unmarshal` to a map of texts, of which the value at `id` is read.
  pub unmarshal_id : String → Result String
  -- `base64.EncodeGzip`
  pub encode_gzip : String → Result String
  pub Reviewer : Type 0
  -- `mapstructure.Decode` to a struct with the field `login`; the text is what the struct had.
  pub decode_login : Reviewer → String → Result String
  pub done : Answer (Unit {0})
  pub repositories : Answer (List Repository)
  pub branches : Answer (List (Option String))
  pub hook : Answer (Option ℤ)
  pub statuses : Answer (List Status)
  pub pull_requests : Answer (List (Option PullRequest))
  pub pull_request : Answer (Option PullRequest)
  pub pull_request_commits : Answer (List String)
  pub comments : Answer (List Comment)
  pub commits : Answer (List Commit)
  pub commit : Answer Commit
  pub repository : Answer RepositoryDetails
  pub label : Answer Label
  pub labels : Answer (List (Option String))
  pub environment : Answer (Environment Reviewer)
  pub compared : Answer (List CommitFile)
  pub upload : List Call → Call → SarifReply
  pub download : List Call → Call → BodyReply

abbrev pub Rest : Type 0 → Type 0
Rest A = Calls Call A
