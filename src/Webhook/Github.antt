-- ===== src/Webhook/Github.antt =====
-- GitHub webhooks (vcsutils/webhookparser/github.go).
pub mod Events
pub mod Shapes
pub mod Auth
pub mod Pushes
use froggit_go.Base.{
  String, ◌<>◌, Bool, ◌&&◌, not, Option, none, some, Result, ok, err, errorf, ◌>>=◌, if◌then◌else◌,
  ◌==◌, ◌||◌,
}
use froggit_go.Base.Text.{has_prefix, trim_prefix, replace_first}
use froggit_go.Vcs.{
  WebhookEvent, pr_rejected, pr_edited, pr_merged, pr_opened, push, tag_pushed, tag_removed,
}
use froggit_go.Vcs.Values.{default_if_not_nil, string_zero, pointer_zero}
use froggit_go.Webhook.Info.{
  RepoDetails, User, BranchStatus, WebhookInfo, no_user, no_commit, no_tag, no_pull_request,
  no_info, git_nil_hash,
}
use froggit_go.Webhook.Info
use froggit_go.Webhook.Github.Events.{
  Account, PushEvent, BranchView, PullRequestEvent, Event, push_event, pull_request_event,
  other_event, Api, account_zero, push_repository_zero, head_commit_zero,
}
use froggit_go.Webhook.Http.{Request, header_get}
use froggit_go.Webhook.Parser.{Parser}

-- `newGitHubWebhookParser`: the endpoint that the parser keeps.
unfoldable pub new_endpoint : String → String
unfolding replace_first
new_endpoint endpoint =
    if endpoint == "" then "https://github.com" else replace_first endpoint "://api." "://"

-- `user` and `commitAuthor`, which read the same three fields.
user : Option Account → User
user none = no_user
user (some u) = record {
  login = default_if_not_nil u.login;
  display_name = default_if_not_nil u.name;
  email = default_if_not_nil u.email;
  avatar_url = "";
}

commit_author : Option Account → User
commit_author none = no_user
commit_author (some u) = record {
  login = default_if_not_nil u.login;
  display_name = default_if_not_nil u.name;
  email = default_if_not_nil u.email;
  avatar_url = "";
}

unfoldable pub branch_status : PushEvent → BranchStatus
unfolding Info.branch_status
branch_status e =
    Info.branch_status (not (e.before == git_nil_hash)) (not (e.after == git_nil_hash))

unfoldable pub is_tag_event : PushEvent → Bool
unfolding has_prefix
is_tag_event e = has_prefix e.ref "refs/tags/"

unfoldable pub trim_ref_prefix : String → String
unfolding trim_prefix
trim_ref_prefix ref = trim_prefix ref "refs/heads/"

abbrev repo_details : PushEvent → RepoDetails
repo_details e = record {
  name = default_if_not_nil (default_if_not_nil e.repo).name;
  owner = default_if_not_nil (default_if_not_nil (default_if_not_nil e.repo).owner).login;
}

unfoldable pub parse_tag_event : PushEvent → WebhookInfo
unfolding user trim_prefix
parse_tag_event e =
    let tag : Info.Tag = record no_tag {
      name = trim_prefix e.ref "refs/tags/";
      repository = repo_details e;
      author = user e.pusher;
    } in
    let info : WebhookInfo = record no_info { tag = some tag } in
    if e.created
    then record info { event = tag_pushed; tag = some (record tag { hash = e.after }) }
    else if e.deleted
    then record info { event = tag_removed; tag = some (record tag { hash = e.before }) }
    else info

unfoldable pub parse_change_event : String → PushEvent → WebhookInfo
unfolding user commit_author branch_status trim_ref_prefix
parse_change_event endpoint e =
    let repo = repo_details e in
    let compare_url : String =
      if endpoint == ""
      then ""
      else endpoint
        <> ("/"
            <> (repo.owner
                <> ("/" <> (repo.name <> ("/compare/" <> (e.before <> ("..." <> e.after))))))) in
    record no_info {
      target_repository_details = repo;
      target_branch = trim_ref_prefix e.ref;
      timestamp = e.head_commit_timestamp.unix;
      event = push;
      commit = record {
        hash = e.after;
        message = default_if_not_nil (default_if_not_nil e.head_commit).message;
        url = default_if_not_nil (default_if_not_nil e.head_commit).url;
      };
      before_commit = record no_commit { hash = e.before };
      branch_status = branch_status e;
      triggered_by = user e.pusher;
      committer = commit_author (default_if_not_nil e.head_commit).committer;
      author = commit_author (default_if_not_nil e.head_commit).author;
      compare_url = compare_url;
    }

unfoldable pub resolve_closed_event_type : PullRequestEvent → WebhookEvent
resolve_closed_event_type e = if e.pull_request.merged then pr_merged else pr_rejected

-- The `switch` on the action; `none` is the action that is not supported.
unfoldable pub pr_event : PullRequestEvent → Option WebhookEvent
unfolding resolve_closed_event_type
pr_event e =
    if e.action == "opened" || e.action == "reopened"
    then some pr_opened
    else if e.action == "synchronize" || e.action == "edited"
    then some pr_edited
    else if e.action == "closed"
    then some (resolve_closed_event_type e)
    else none

abbrev view_details : BranchView → RepoDetails
view_details b = record { name = b.repo.name; owner = b.repo.owner.login }

unfoldable pub pr_info : PullRequestEvent → WebhookEvent → WebhookInfo
pr_info e event =
    let p = e.pull_request in
    record no_info {
      pull_request_id = p.number;
      target_repository_details = view_details p.base;
      target_branch = p.base.ref;
      source_repository_details = view_details p.head;
      source_branch = p.head.ref;
      timestamp = p.updated_at.unix;
      event = event;
      pull_request = some (record no_pull_request {
        id = p.number;
        title = p.title;
        compare_url = p.html_url <> "/files";
        timestamp = p.updated_at.unix;
        author = record {
          login = p.user.login;
          display_name = p.user.name;
          email = p.user.email;
          avatar_url = p.user.avatar_url;
        };
        triggered_by = record no_user { login = e.sender.login; avatar_url = e.sender.avatar_url };
        target_repository = view_details p.base;
        target_branch = p.base.ref;
        target_hash = p.base.sha;
        source_repository = view_details p.head;
        source_branch = p.head.ref;
        source_hash = p.head.sha;
      });
    }

unfoldable pub parse_pr_events : PullRequestEvent → Option WebhookInfo
unfolding pr_event pr_info
parse_pr_events e = elim (pr_event e) [ none ↦ none | some event ↦ some (pr_info e event) ]

unfoldable pub dispatch : String → Event → Option WebhookInfo
unfolding is_tag_event parse_tag_event parse_change_event parse_pr_events
dispatch endpoint (push_event e) =
    if is_tag_event e then some (parse_tag_event e) else some (parse_change_event endpoint e)
dispatch endpoint (pull_request_event e) = parse_pr_events e
dispatch endpoint other_event = none

module _ (api : Api) where
  unfoldable pub validate_payload : Request → String → Result String
  unfolding header_get
  validate_payload request token =
      if not (token == "") && header_get request.headers api.sha256_signature_header == ""
      then err (errorf (api.sha256_signature_header <> " header is missing"))
      else api.validate_payload request token

  unfoldable pub parse_incoming_webhook : String → Request → String → Result (Option WebhookInfo)
  unfolding dispatch
  parse_incoming_webhook endpoint request payload = do
    event ← api.parse_web_hook (api.web_hook_type request) payload
    ok (dispatch endpoint event)

  unfoldable pub new_parser : String → Parser
  unfolding validate_payload parse_incoming_webhook new_endpoint
  new_parser endpoint = record {
    validate_payload = validate_payload;
    parse_incoming_webhook = parse_incoming_webhook (new_endpoint endpoint);
  }
