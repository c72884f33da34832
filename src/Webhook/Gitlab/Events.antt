-- ===== src/Webhook/Gitlab/Events.antt =====
-- The events of the package go-gitlab, by the fields that vcsutils/webhookparser/gitlab.go reads.
-- A pointer is an `Option`. The package's functions are the parameter `Api`.
use froggit_go.Base.{String, ℤ, Option, none, List, Result}
use froggit_go.Vcs.Values.{Zero}
use froggit_go.Webhook.Http.{Request, Time}

pub record PushCommit : Type 0 where
  pub message : String
  pub url : String
  pub timestamp : Option Time
  pub author_name : String
  pub author_email : String

pub record PushEvent : Type 0 where
  pub before : String
  pub after : String
  pub ref : String
  pub user_username : String
  pub user_email : String
  pub user_name : String
  pub user_avatar : String
  pub project_path : String
  pub commits : List (Option PushCommit)

pub record TagEvent : Type 0 where
  pub before : String
  pub after : String
  pub ref : String
  pub checkout_sha : String
  pub message : String
  pub user_username : String
  pub user_email : String
  pub user_name : String
  pub user_avatar : String
  pub project_path : String

pub record Repository : Type 0 where
  pub path_with_namespace : String

pub record EventUser : Type 0 where
  pub username : String
  pub name : String
  pub email : String
  pub avatar_url : String

pub record MergeEvent : Type 0 where
  pub user : Option EventUser
  pub action : String
  pub iid : ℤ
  pub title : String
  pub url : String
  pub updated_at : String
  pub source : Option Repository
  pub target : Option Repository
  pub source_branch : String
  pub target_branch : String
  pub last_commit_id : String
  pub last_commit_author_email : String

pub data Event : Type 0 where
  push_event : PushEvent → Event
  merge_event : MergeEvent → Event
  tag_event : TagEvent → Event
  other_event : Event

pub record Api : Type 0 where
  pub webhook_event_type : Request → String
  pub parse_webhook : String → String → Result Event

instance abbrev pub push_commit_zero : Zero PushCommit
push_commit_zero = record {
  value = record { message = ""; url = ""; timestamp = none; author_name = ""; author_email = "" };
}
