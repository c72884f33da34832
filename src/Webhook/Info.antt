-- ===== src/Webhook/Info.antt =====
-- The result of a parsed webhook (vcsutils/webhookparser/webhookparser.go).
use froggit_go.Base.{String, ℤ, pos, Bool, false, ◌&&◌, not, Option, none, if◌then◌else◌}
use froggit_go.Vcs.{WebhookEvent, no_event}

abbrev pub git_nil_hash : String
git_nil_hash = "0000000000000000000000000000000000000000"

pub record RepoDetails : Type 0 where
  pub name : String
  pub owner : String

pub record User : Type 0 where
  pub login : String
  pub display_name : String
  pub email : String
  pub avatar_url : String

pub record Commit : Type 0 where
  pub hash : String
  pub message : String
  pub url : String

-- The zero value of the text type is `no_status`.
pub data BranchStatus : Type 0 where
  created updated deleted no_status : BranchStatus

-- The three-way `switch` on whether the branch was there before and is there after.
unfoldable pub branch_status : Bool → Bool → BranchStatus
branch_status existed_before exists_after =
    if exists_after && not existed_before
    then created
    else if not exists_after && existed_before
    then deleted
    else updated

pub record PullRequest : Type 0 where
  pub id : ℤ
  pub title : String
  pub compare_url : String
  pub timestamp : ℤ
  pub author : User
  pub triggered_by : User
  pub skip_decryption : Bool
  pub target_repository : RepoDetails
  pub target_branch : String
  pub target_hash : String
  pub source_repository : RepoDetails
  pub source_branch : String
  pub source_hash : String

pub record Tag : Type 0 where
  pub name : String
  pub hash : String
  pub target_hash : String
  pub message : String
  pub repository : RepoDetails
  pub author : User

pub record WebhookInfo : Type 0 where
  pub target_repository_details : RepoDetails
  pub target_branch : String
  pub pull_request_id : ℤ
  pub source_repository_details : RepoDetails
  pub source_branch : String
  pub timestamp : ℤ
  pub event : WebhookEvent
  pub commit : Commit
  pub before_commit : Commit
  pub branch_status : BranchStatus
  pub triggered_by : User
  pub committer : User
  pub author : User
  pub compare_url : String
  pub pull_request : Option PullRequest
  pub tag : Option Tag

-- The zero values, from which a composite literal starts.
abbrev pub no_repo : RepoDetails
no_repo = record { name = ""; owner = "" }

abbrev pub no_user : User
no_user = record { login = ""; display_name = ""; email = ""; avatar_url = "" }

abbrev pub no_commit : Commit
no_commit = record { hash = ""; message = ""; url = "" }

abbrev pub no_tag : Tag
no_tag = record {
  name = "";
  hash = "";
  target_hash = "";
  message = "";
  repository = no_repo;
  author = no_user;
}

abbrev pub no_pull_request : PullRequest
no_pull_request = record {
  id = pos 0;
  title = "";
  compare_url = "";
  timestamp = pos 0;
  author = no_user;
  triggered_by = no_user;
  skip_decryption = false;
  target_repository = no_repo;
  target_branch = "";
  target_hash = "";
  source_repository = no_repo;
  source_branch = "";
  source_hash = "";
}

abbrev pub no_info : WebhookInfo
no_info = record {
  target_repository_details = no_repo;
  target_branch = "";
  pull_request_id = pos 0;
  source_repository_details = no_repo;
  source_branch = "";
  timestamp = pos 0;
  event = no_event;
  commit = no_commit;
  before_commit = no_commit;
  branch_status = no_status;
  triggered_by = no_user;
  committer = no_user;
  author = no_user;
  compare_url = "";
  pull_request = none;
  tag = none;
}
