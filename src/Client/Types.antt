-- ===== src/Client/Types.antt =====
-- The data that the clients take and give (vcsclient/vcsclient.go). A `time.Time` is as in the
-- webhook parsers; `pos 0` seconds stand for the zero time only where the code says so.
use froggit_go.Base.{ℕ, ℤ, String, Error, List, Option, none, some}
use froggit_go.Webhook.Http.{Time}

-- `CommitStatus` is an `int`; `other_status` stands for every value without a name.
pub data CommitStatus : Type 0 where
  pass fail error in_progress other_status : CommitStatus

pub data Permission : Type 0 where
  read read_write : Permission

pub data RepositoryVisibility : Type 0 where
  public internal private : RepositoryVisibility

-- `zero_time` is `time.Time{}`, given for a pointer that is nil.
pub data When : Type 0 where
  zero_time : When
  at_time : Time → When

pub record CommitStatusInfo : Type 0 where
  pub state : CommitStatus
  pub description : String
  pub details_url : String
  pub creator : String
  pub created_at : When
  pub last_updated_at : When

pub record CommitInfo : Type 0 where
  pub hash : String
  pub author_name : String
  pub committer_name : String
  pub url : String
  pub timestamp : ℤ
  pub message : String
  pub parent_hashes : List String
  pub author_email : String

pub record CommentInfo : Type 0 where
  pub id : ℤ
  pub thread_id : String
  pub content : String
  pub created : Time
  pub version : ℤ

pub record BranchInfo : Type 0 where
  pub name : String
  pub repository : String
  pub owner : String

pub record PullRequestInfo : Type 0 where
  pub id : ℤ
  pub body : String
  pub url : String
  pub source : BranchInfo
  pub target : BranchInfo

-- A `PullRequestComment` by the fields that a client reads: those of its diff and its content.
pub record PullRequestComment : Type 0 where
  pub content : String
  pub original_file_path : String
  pub original_start_line : ℤ
  pub original_end_line : ℤ
  pub original_start_column : ℤ
  pub original_end_column : ℤ
  pub new_file_path : String
  pub new_start_line : ℤ
  pub new_end_line : ℤ
  pub new_start_column : ℤ
  pub new_end_column : ℤ

pub record CloneInfo : Type 0 where
  pub http : String
  pub ssh : String

pub record RepositoryInfo : Type 0 where
  pub clone_info : CloneInfo
  pub repository_visibility : RepositoryVisibility

pub record LabelInfo : Type 0 where
  pub name : String
  pub description : String
  pub color : String

-- The three results of `DownloadFileFromRepo`: the content, the status code and the error.
pub record Download : Type 0 where
  pub content : Option String
  pub status_code : ℕ
  pub error : Option Error

-- `extractTimeWithFallback`. A time's seconds from the epoch do not depend on its zone.
abbrev pub extract_time_with_fallback : Option Time → When
extract_time_with_fallback none = zero_time
extract_time_with_fallback (some t) = at_time t

pub record RepositoryEnvironmentInfo : Type 0 where
  pub name : String
  pub url : String
  pub reviewers : List String
