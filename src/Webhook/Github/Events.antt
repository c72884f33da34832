-- ===== src/Webhook/Github/Events.antt =====
-- The events of the package go-github: the record of what the accessors and the fields that
-- vcsutils/webhookparser/github.go reads give. The package's functions are the parameter `Api`.
use froggit_go.Base.{String, ℤ, Bool, Option, none, Result}
use froggit_go.Vcs.Values.{Zero}
use froggit_go.Webhook.Http.{Request, Time}

-- `*github.User` and `*github.CommitAuthor`, by the fields that are read.
pub record Account : Type 0 where
  pub login : Option String
  pub name : Option String
  pub email : Option String

pub record PushRepository : Type 0 where
  pub name : Option String
  pub owner : Option Account

pub record HeadCommit : Type 0 where
  pub message : Option String
  pub url : Option String
  pub committer : Option Account
  pub author : Option Account

pub record PushEvent : Type 0 where
  pub ref : String
  pub created : Bool
  pub deleted : Bool
  pub before : String
  pub after : String
  pub repo : Option PushRepository
  pub pusher : Option Account
  pub head_commit : Option HeadCommit
  pub head_commit_timestamp : Time

-- What the nil-safe accessors of a user, a repository, a branch and a pull request give.
pub record UserView : Type 0 where
  pub login : String
  pub name : String
  pub email : String
  pub avatar_url : String

pub record RepoView : Type 0 where
  pub name : String
  pub owner : UserView

pub record BranchView : Type 0 where
  pub ref : String
  pub sha : String
  pub repo : RepoView

pub record PullRequestView : Type 0 where
  pub number : ℤ
  pub title : String
  pub html_url : String
  pub updated_at : Time
  pub user : UserView
  pub base : BranchView
  pub head : BranchView
  pub merged : Bool

pub record PullRequestEvent : Type 0 where
  pub action : String
  pub pull_request : PullRequestView
  pub sender : UserView

pub data Event : Type 0 where
  push_event : PushEvent → Event
  pull_request_event : PullRequestEvent → Event
  other_event : Event

pub record Api : Type 0 where
  pub sha256_signature_header : String
  pub validate_payload : Request → String → Result String
  pub web_hook_type : Request → String
  pub parse_web_hook : String → String → Result Event

instance abbrev pub account_zero : Zero Account
account_zero = record { value = record { login = none; name = none; email = none } }

instance abbrev pub push_repository_zero : Zero PushRepository
push_repository_zero = record { value = record { name = none; owner = none } }

instance abbrev pub head_commit_zero : Zero HeadCommit
head_commit_zero = record {
  value = record { message = none; url = none; committer = none; author = none };
}
