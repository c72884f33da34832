-- ===== src/Vcs.antt =====
-- Package vcsutils, the constants (vcsutils/consts.go).
pub mod Values
pub mod Responses
pub mod Names
pub mod Removal
use froggit_go.Base.{String}

-- `VcsProvider` is an `int`; `other_provider` stands for every value that names no provider.
pub data VcsProvider : Type 0 where
  github gitlab bitbucket_server bitbucket_cloud azure_repos other_provider : VcsProvider

-- `VcsProvider.String`
unfoldable pub provider_name : VcsProvider → String
provider_name github = "GitHub"
provider_name gitlab = "GitLab"
provider_name bitbucket_server = "Bitbucket Server"
provider_name bitbucket_cloud = "Bitbucket Cloud"
provider_name azure_repos = "Azure Repos"
provider_name other_provider = ""

-- `WebhookEvent` is a text type with these constants; `no_event` is its zero value, the empty text.
pub data WebhookEvent : Type 0 where
  pr_rejected pr_edited pr_merged pr_opened push tag_pushed tag_removed no_event : WebhookEvent

abbrev pub branch_prefix : String
branch_prefix = "refs/heads/"

abbrev pub tag_prefix : String
tag_prefix = "refs/tags/"

-- `PullRequestState` is a text type with two constants.
pub data PullRequestState : Type 0 where
  open_state closed_state : PullRequestState
  other_state : String → PullRequestState
