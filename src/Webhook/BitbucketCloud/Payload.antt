-- ===== src/Webhook/BitbucketCloud/Payload.antt =====
-- The payload of a Bitbucket Cloud webhook (vcsutils/webhookparser/bitbucketcloud.go). The nested
-- anonymous structs of the source are flattened into fields of the struct around them.
use froggit_go.Base.{String, ℤ, List}
use froggit_go.Webhook.Http.{Time}

pub record Commit : Type 0 where
  pub date : Time
  pub hash : String
  pub message : String
  pub author_raw : String
  pub author_nickname : String
  pub html_ref : String
  pub parents : List String

pub record ResourceChange : Type 0 where
  pub name : String
  pub target : Commit
  pub type : String
  pub message : String

pub record Change : Type 0 where
  pub new : ResourceChange
  pub old : ResourceChange

pub record PrRepository : Type 0 where
  pub full_name : String
  pub branch_name : String
  pub commit_hash : String

pub record PullRequest : Type 0 where
  pub id : ℤ
  pub source : PrRepository
  pub destination : PrRepository
  pub updated_on : Time
  pub title : String
  pub author_nickname : String
  pub author_display_name : String
  pub author_avatar : String
  pub html_href : String

pub record Hook : Type 0 where
  pub changes : List Change
  pub pull_request : PullRequest
  pub full_name : String
  pub actor_nickname : String
