-- ===== src/Tests/Pushes.antt =====
-- Pushes of branches and tags at the parsers, and the paths of projects.
use froggit_go.Base.{◌≡◌, refl, true, false, none, [], ok, panic, pos}
use froggit_go.Vcs.{push}
use froggit_go.Base.Text.{Lacks}
use froggit_go.Webhook.Info
use froggit_go.Webhook.Refs.{IsStatus, Gives}
use froggit_go.Webhook.Github
use froggit_go.Webhook.Github.Pushes.{github_branch_push}
use froggit_go.Webhook.Gitlab
use froggit_go.Webhook.Gitlab.{parse_repo_details}
use froggit_go.Webhook.Gitlab.Pushes.{
  gitlab_branch_push, gitlab_tag_push, parse_repo_details_lem, parse_repo_details-subgroup,
  parse_repo_details-panics,
}
use froggit_go.Webhook.BitbucketServer
use froggit_go.Webhook.BitbucketServer.Pushes.{server_branch_push}
use froggit_go.Tests.Webhook.{noon, gitlab_push, server_hook, server_change, parse_time}

acme : Lacks "/" "acme"
acme = (refl, (refl, (refl, (refl, tt))))

app : Lacks "/" "app"
app = (refl, (refl, (refl, tt)))

web : Lacks "/" "web"
web = (refl, (refl, (refl, tt)))

abbrev github_push : Github.Events.PushEvent
github_push = record {
  ref = "refs/heads/main";
  created = true;
  deleted = false;
  before = Info.git_nil_hash;
  after = "9f";
  repo = none;
  pusher = none;
  head_commit = none;
  head_commit_timestamp = noon;
}

github_branch_push_example :
    Gives
      (λ i.
        (i.event ≡ push)
        × (i.target_branch ≡ "main")
        × (i.before_commit.hash ≡ Info.git_nil_hash)
        × (i.commit.hash ≡ "9f")
        × IsStatus Info.git_nil_hash "9f" i.branch_status)
      (ok (Github.dispatch "https://github.com/" (Github.Events.push_event github_push)))
github_branch_push_example = github_branch_push "https://github.com/" "main" github_push refl

gitlab_branch_push_example :
    Gives
      (λ i.
        (i.event ≡ push)
        × (i.target_repository_details ≡ record { name = "app"; owner = "acme" })
        × (i.target_branch ≡ "main")
        × (i.before_commit.hash ≡ Info.git_nil_hash)
        × (i.commit.hash ≡ "9f")
        × IsStatus Info.git_nil_hash "9f" i.branch_status)
      (Gitlab.dispatch parse_time (Gitlab.Events.push_event gitlab_push))
gitlab_branch_push_example =
    gitlab_branch_push parse_time "acme" "app" "main" gitlab_push acme app refl refl timed
  where
    timed : Gitlab.Pushes.FirstIsTimed gitlab_push.commits
    timed h = cc

abbrev gitlab_tag : Gitlab.Events.TagEvent
gitlab_tag = record {
  before = "9f";
  after = Info.git_nil_hash;
  ref = "refs/tags/v1";
  checkout_sha = "";
  message = "";
  user_username = "ann";
  user_email = "ann@acme.io";
  user_name = "Ann";
  user_avatar = "";
  project_path = "acme/app";
}

parse_repo_details_lem_example :
    parse_repo_details "acme/app" ≡ ok (record { name = "app"; owner = "acme" })
parse_repo_details_lem_example = parse_repo_details_lem "acme" "app" acme app

parse_repo_details-panics_example :
    parse_repo_details "app" ≡ panic "index out of range [1] with length 1"
parse_repo_details-panics_example = parse_repo_details-panics "app" app

server_branch_push_example :
    Gives
      (λ i.
        (i.event ≡ push)
        × (i.target_repository_details ≡ record { name = "app"; owner = "ACME" })
        × (i.target_branch ≡ "main")
        × (i.timestamp ≡ pos 1700000000)
        × (i.before_commit.hash ≡ Info.git_nil_hash)
        × (i.commit.hash ≡ "9f")
        × IsStatus Info.git_nil_hash "9f" i.branch_status)
      (BitbucketServer.dispatch parse_time "https://git.acme.io" "repo:refs_changed" server_hook)
server_branch_push_example =
    server_branch_push parse_time "https://git.acme.io" "main" "ACME" noon server_hook server_change
      [] refl refl refl refl refl
