-- ===== src/Webhook/BitbucketServer.antt =====
-- Bitbucket Server webhooks (vcsutils/webhookparser/bitbucketserver.go).
mod Payload
pub mod Shapes
pub mod Auth
pub mod Pushes
pub use Payload.{Repository, Links, Ref, Account, PullRequest, Changes, Actor, Hook}
use froggit_go.Base.{
  String, ◌<>◌, true, ◌||◌, not, Option, none, some, List, [], ◌∷◌, Result, ok, err, panic, errorf,
  ◌>>=◌, deref, if◌then◌else◌, ◌==◌,
}
use froggit_go.Base.Text.{trim_prefix}
use froggit_go.Vcs.{
  WebhookEvent, pr_rejected, pr_edited, pr_merged, pr_opened, push, tag_pushed, tag_removed,
}
use froggit_go.Webhook.Info.{
  RepoDetails, BranchStatus, WebhookInfo, no_user, no_commit, no_tag, no_pull_request, no_info,
  git_nil_hash,
}
use froggit_go.Webhook.Info
use froggit_go.Webhook.Http.{Request, Time, header_get, read_body}
use froggit_go.Webhook.Parser.{Parser}

-- `sign payload token` is `calculatePayloadSignature`: HMAC-SHA256 in hexadecimal.
module _ (sign : String → String → String) where
  unfoldable pub validate_payload : Request → String → Result String
  unfolding header_get read_body
  validate_payload request token = do
    payload ← read_body request
    let expected = header_get request.headers "X-Hub-Signature"
    if not (token == "") || not (expected == "")
        then (if not (expected == ("sha256=" <> sign payload token))
            then err (errorf "payload signature mismatch")
            else ok payload)
        else ok payload

unfoldable pub branch_status : String → String → BranchStatus
unfolding Info.branch_status
branch_status to from = Info.branch_status (not (from == git_nil_hash)) (not (to == git_nil_hash))

unfoldable pub get_repository_details : Repository → Result RepoDetails
get_repository_details r = do key ← deref r.project_key; ok (record { name = r.slug; owner = key })

unfoldable pub get_first_href_from_links : Links → String
get_first_href_from_links l = elim l.self [ [] ↦ "" | href ∷ _ ↦ href ]

-- `Changes[0]`
first_change : List Changes → Result Changes
first_change [] = panic "index out of range [0] with length 0"
first_change (c ∷ _) = ok c

commit_url : String → RepoDetails → String → String
commit_url endpoint repo hash =
    if endpoint == ""
    then ""
    else endpoint
      <> ("/projects/" <> (repo.owner <> ("/repos/" <> (repo.name <> ("/commits/" <> hash)))))

unfoldable pub parse_tag_event : Hook → Changes → Result (Option WebhookInfo)
unfolding get_repository_details get_first_href_from_links
parse_tag_event hook change = do
  repo ← get_repository_details hook.repository
  let tag : Info.Tag = record no_tag {
    name = change.ref_display_id;
    repository = repo;
    author = record {
      login = hook.actor.name;
      display_name = hook.actor.display_name;
      avatar_url = get_first_href_from_links hook.actor.links;
      email = hook.actor.email_address;
    };
  }
  if change.type == "ADD"
      then ok (
          some (record no_info {
            event = tag_pushed;
            tag = some (record tag { hash = change.to_hash });
          }))
      else if change.type == "DELETE"
      then ok (
          some (record no_info {
            event = tag_removed;
            tag = some (record tag { hash = change.from_hash });
          }))
      else ok none

-- `parse_time layout text` is `time.Parse`, `endpoint` the URL of the server.
module _ (parse_time : String → String → Result Time) (endpoint : String) where
  unfoldable pub parse_push_event : Hook → Result WebhookInfo
  unfolding get_repository_details first_change commit_url branch_status trim_prefix
  parse_push_event hook = do
    time ← parse_time "2006-01-02T15:04:05-0700" hook.date
    repo ← get_repository_details hook.repository
    change ← first_change hook.changes
    ok (record no_info {
      target_repository_details = repo;
      target_branch = trim_prefix change.ref_id "refs/heads/";
      timestamp = time.unix;
      event = push;
      commit = record no_commit {
        hash = change.to_hash;
        url = commit_url endpoint repo change.to_hash;
      };
      before_commit = record no_commit { hash = change.from_hash };
      branch_status = branch_status change.to_hash change.from_hash;
      triggered_by = record no_user {
        login = hook.actor.name;
        display_name = hook.actor.display_name;
      };
      committer = record no_user {
        email = hook.actor.email_address;
        display_name = hook.actor.display_name;
      };
      author = record no_user {
        email = hook.actor.email_address;
        display_name = hook.actor.display_name;
      };
    })

  -- The loop over the changes: the first branch or tag decides.
  ref_change_loop : Hook → List Changes → Result (Option WebhookInfo)
  unfolding parse_push_event parse_tag_event
  ref_change_loop hook [] = ok none
  ref_change_loop hook (c ∷ rest) =
      let others = ref_change_loop hook rest in
      if c.ref_type == "BRANCH"
      then (do info ← parse_push_event hook; ok (some info))
      else if c.ref_type == "TAG"
      then parse_tag_event hook c
      else others

  unfoldable pub parse_ref_change : Hook → Result (Option WebhookInfo)
  unfolding ref_change_loop
  parse_ref_change hook = ref_change_loop hook hook.changes

  unfoldable pub parse_pr_events : Hook → WebhookEvent → Result (Option WebhookInfo)
  unfolding get_repository_details get_first_href_from_links trim_prefix
  parse_pr_events hook event = do
    time ← parse_time "2006-01-02T15:04:05-0700" hook.date
    let p = hook.pull_request
    target ← get_repository_details p.to_ref.repository
    source ← get_repository_details p.from_ref.repository
    author ← deref p.author
    ok (
        some (record no_info {
          pull_request_id = p.id;
          target_repository_details = target;
          target_branch = trim_prefix p.to_ref.id "refs/heads/";
          source_repository_details = source;
          source_branch = trim_prefix p.from_ref.id "refs/heads/";
          timestamp = time.unix;
          event = event;
          pull_request = some (record no_pull_request {
            id = p.id;
            title = p.title;
            compare_url = get_first_href_from_links p.links <> "/diff";
            timestamp = p.updated_date;
            author = record {
              login = author.slug;
              display_name = author.display_name;
              email = author.email_address;
              avatar_url = get_first_href_from_links author.links;
            };
            triggered_by = record no_user { login = author.name };
            skip_decryption = true;
            target_repository = target;
            target_branch = trim_prefix p.to_ref.id "refs/heads/";
            target_hash = p.to_ref.latest_commit;
            source_repository = source;
            source_branch = trim_prefix p.from_ref.id "refs/heads/";
            source_hash = p.from_ref.latest_commit;
          });
        }))

  -- The `switch` on the event header.
  unfoldable pub dispatch : String → Hook → Result (Option WebhookInfo)
  unfolding parse_ref_change parse_pr_events
  dispatch event hook =
      if event == "repo:refs_changed"
      then parse_ref_change hook
      else if event == "pr:opened"
      then parse_pr_events hook pr_opened
      else if event == "pr:from_ref_updated"
      then parse_pr_events hook pr_edited
      else if event == "pr:merged"
      then parse_pr_events hook pr_merged
      else if event == "pr:declined" || event == "pr:deleted"
      then parse_pr_events hook pr_rejected
      else ok none

-- `unmarshal` is `json.Unmarshal` at the type of the payload.
module _ (sign : String → String → String) (parse_time : String → String → Result Time)
    (unmarshal : String → Result Hook) (endpoint : String) where
  unfoldable pub parse_incoming_webhook : Request → String → Result (Option WebhookInfo)
  unfolding dispatch header_get
  parse_incoming_webhook request payload = do
    hook ← unmarshal payload
    dispatch parse_time endpoint (header_get request.headers "X-Event-Key") hook

  unfoldable pub new_parser : Parser
  unfolding validate_payload parse_incoming_webhook
  new_parser = record {
    validate_payload = validate_payload sign;
    parse_incoming_webhook = parse_incoming_webhook;
  }
