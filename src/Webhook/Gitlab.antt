-- ===== src/Webhook/Gitlab.antt =====
-- GitLab webhooks (vcsutils/webhookparser/gitlab.go).
pub mod Events
pub mod Shapes
pub mod Auth
pub mod Pushes
use froggit_go.Base.{
  String, ℤ, pos, true, Bool, ◌||◌, not, Option, none, some, List, [], ◌∷◌, Result, ok, err, panic,
  errorf, ◌>>=◌, deref, if◌then◌else◌, ◌==◌,
}
use froggit_go.Base.Text.{trim_prefix, split_parts}
use froggit_go.Vcs.{
  WebhookEvent, pr_rejected, pr_edited, pr_merged, pr_opened, push, tag_pushed, tag_removed,
  tag_prefix,
}
use froggit_go.Vcs.Values.{default_if_not_nil}
use froggit_go.Webhook.Info.{
  RepoDetails, User, BranchStatus, WebhookInfo, PullRequest, no_user, no_commit, no_tag,
  no_pull_request, no_info, git_nil_hash,
}
use froggit_go.Webhook.Info
use froggit_go.Webhook.Gitlab.Events.{
  PushCommit, PushEvent, TagEvent, MergeEvent, EventUser, Event, push_event, merge_event, tag_event,
  other_event, Api, push_commit_zero,
}
use froggit_go.Webhook.Http.{Request, Time, header_get, read_body}
use froggit_go.Webhook.Parser.{Parser}

-- The payload is read only when the token has been accepted.
unfoldable pub validate_payload : Request → String → Result String
unfolding header_get read_body
validate_payload request token =
    let actual = header_get request.headers "X-GitLab-Token" in
    if not (token == "") || not (actual == "")
    then (if actual == token then read_body request else err (errorf "token mismatch"))
    else read_body request

unfoldable pub branch_status : PushEvent → BranchStatus
unfolding Info.branch_status
branch_status e =
    Info.branch_status (not (e.before == git_nil_hash)) (not (e.after == git_nil_hash))

-- The first two parts of the path; a path with no `/` has no second one, and `split[1]` panics.
unfoldable pub parse_repo_details : String → Result RepoDetails
unfolding split_parts
parse_repo_details path =
    let p = split_parts "/" path in
    elim p.others [
      | [] ↦ panic "index out of range [1] with length 1"
      | name ∷ _ ↦ ok (record { name = name; owner = p.first })
    ]

last_or : Option PushCommit → List (Option PushCommit) → Option PushCommit
last_or c [] = c
last_or c (d ∷ r) = last_or d r

unfoldable pub get_last_commit : PushEvent → Option PushCommit
unfolding last_or
get_last_commit e = last_or none e.commits

-- The timestamp of the first commit of the list, through two pointers.
local_timestamp : List (Option PushCommit) → Result ℤ
local_timestamp [] = ok (pos 0)
local_timestamp (c ∷ _) = do commit ← deref c; time ← deref commit.timestamp; ok time.unix

unfoldable pub parse_push_event : PushEvent → Result WebhookInfo
unfolding local_timestamp get_last_commit parse_repo_details branch_status trim_prefix
parse_push_event e = do
  timestamp ← local_timestamp e.commits
  let last_commit = default_if_not_nil (get_last_commit e)
  repo ← parse_repo_details e.project_path
  ok (record no_info {
    target_repository_details = repo;
    target_branch = trim_prefix e.ref "refs/heads/";
    timestamp = timestamp;
    event = push;
    commit = record { hash = e.after; message = last_commit.message; url = last_commit.url };
    before_commit = record no_commit { hash = e.before };
    branch_status = branch_status e;
    triggered_by = record {
      login = e.user_username;
      email = e.user_email;
      display_name = e.user_name;
      avatar_url = e.user_avatar;
    };
    committer = record no_user {
      display_name = last_commit.author_name;
      email = last_commit.author_email;
    };
    author = record no_user {
      display_name = last_commit.author_name;
      email = last_commit.author_email;
    };
  })

-- The `switch` on the action; `none` is the action that is not supported.
unfoldable pub pr_event : String → Option WebhookEvent
pr_event action =
    if action == "open" || action == "reopen"
    then some pr_opened
    else if action == "update"
    then some pr_edited
    else if action == "merge"
    then some pr_merged
    else if action == "close"
    then some pr_rejected
    else none

abbrev pub pr_info :
    MergeEvent → WebhookEvent → Time → RepoDetails → RepoDetails → EventUser → WebhookInfo
pr_info e event time source target user = record no_info {
  pull_request_id = e.iid;
  source_repository_details = source;
  source_branch = e.source_branch;
  target_repository_details = target;
  target_branch = e.target_branch;
  timestamp = time.unix;
  event = event;
  pull_request = some (record no_pull_request {
    id = e.iid;
    title = e.title;
    compare_url = e.url;
    timestamp = time.unix;
    author = record {
      login = user.username;
      display_name = user.name;
      email = user.email;
      avatar_url = user.avatar_url;
    };
    triggered_by = record no_user { login = user.username; email = e.last_commit_author_email };
    skip_decryption = true;
    target_repository = target;
    target_branch = e.target_branch;
    target_hash = "";
    source_repository = source;
    source_branch = e.source_branch;
    source_hash = e.last_commit_id;
  });
}

unfoldable pub parse_tag_events : TagEvent → Result WebhookInfo
unfolding trim_prefix parse_repo_details
parse_tag_events e = do
  repo ← parse_repo_details e.project_path
  let tag : Info.Tag = record no_tag {
    name = trim_prefix e.ref tag_prefix;
    message = e.message;
    repository = repo;
    author = record {
      login = e.user_username;
      display_name = e.user_name;
      email = e.user_email;
      avatar_url = e.user_avatar;
    };
  }
  if not (e.checkout_sha == "")
      then ok (record no_info {
        event = tag_pushed;
        tag = some (record tag { hash = e.after; target_hash = e.checkout_sha });
      })
      else ok (record no_info { event = tag_removed; tag = some (record tag { hash = e.before }) })

-- `parse_time layout text` is `time.Parse`.
module _ (parse_time : String → String → Result Time) where
  pr_fields : MergeEvent → WebhookEvent → Result (Option WebhookInfo)
  unfolding parse_repo_details
  pr_fields e event = do
    time ← parse_time "2006-01-02 15:04:05 MST" e.updated_at
    source_repo ← deref e.source
    source ← parse_repo_details source_repo.path_with_namespace
    target_repo ← deref e.target
    target ← parse_repo_details target_repo.path_with_namespace
    user ← deref e.user
    ok (some (pr_info e event time source target user))

  unfoldable pub parse_pr_events : MergeEvent → Result (Option WebhookInfo)
  unfolding pr_event pr_fields
  parse_pr_events e = elim (pr_event e.action) [ none ↦ ok none | some event ↦ pr_fields e event ]

  unfoldable pub dispatch : Event → Result (Option WebhookInfo)
  unfolding parse_push_event parse_pr_events parse_tag_events
  dispatch (push_event e) = do info ← parse_push_event e; ok (some info)
  dispatch (merge_event e) = parse_pr_events e
  dispatch (tag_event e) = do info ← parse_tag_events e; ok (some info)
  dispatch other_event = ok none

module _ (api : Api) (parse_time : String → String → Result Time) where
  unfoldable pub parse_incoming_webhook : Request → String → Result (Option WebhookInfo)
  unfolding dispatch
  parse_incoming_webhook request payload = do
    event ← api.parse_webhook (api.webhook_event_type request) payload
    dispatch parse_time event

  unfoldable pub new_parser : Parser
  unfolding validate_payload parse_incoming_webhook
  new_parser = record {
    validate_payload = validate_payload;
    parse_incoming_webhook = parse_incoming_webhook;
  }
