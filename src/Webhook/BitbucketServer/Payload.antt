-- ===== src/Webhook/BitbucketServer/Payload.antt =====
-- The payload of a Bitbucket Server webhook (vcsutils/webhookparser/bitbucketserver.go). The types
-- of the package go-bitbucket-v1 are given by the fields that are read; a pointer is an `Option`.
use froggit_go.Base.{String, ℤ, Option, List}

-- `bitbucketv1.Repository`: the slug, and the key of the project.
pub record Repository : Type 0 where
  pub slug : String
  pub project_key : Option String

-- `bitbucketv1.Links`: the references of `Self`.
pub record Links : Type 0 where
  pub self : List String

pub record Ref : Type 0 where
  pub id : String
  pub latest_commit : String
  pub repository : Repository

pub record Account : Type 0 where
  pub name : String
  pub slug : String
  pub display_name : String
  pub email_address : String
  pub links : Links

pub record PullRequest : Type 0 where
  pub id : ℤ
  pub title : String
  pub updated_date : ℤ
  pub links : Links
  pub author : Option Account
  pub from_ref : Ref
  pub to_ref : Ref

pub record Changes : Type 0 where
  pub ref_display_id : String
  pub ref_type : String
  pub ref_id : String
  pub to_hash : String
  pub from_hash : String
  pub type : String

pub record Actor : Type 0 where
  pub name : String
  pub email_address : String
  pub display_name : String
  pub links : Links

pub record Hook : Type 0 where
  pub event_key : String
  pub date : String
  pub repository : Repository
  pub pull_request : PullRequest
  pub changes : List Changes
  pub actor : Actor
