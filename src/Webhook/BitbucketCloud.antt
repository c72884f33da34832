-- ===== src/Webhook/BitbucketCloud.antt =====
-- Bitbucket Cloud webhooks (vcsutils/webhookparser/bitbucketcloud.go).
mod Payload
pub mod Shapes
pub mod Auth
pub use Payload.{Commit, ResourceChange, Change, PrRepository, PullRequest, Hook}
use froggit_go.Base.{
  ℕ, String, ◌<>◌, true, ◌||◌, not, Option, none, some, List, [], ◌∷◌, Result, ok, err, panic,
  errorf, ◌>>=◌, if◌then◌else◌, ◌==◌,
}
use froggit_go.Base.Text.{split_parts}
use froggit_go.Vcs.{
  WebhookEvent, pr_rejected, pr_edited, pr_merged, pr_opened, push, tag_pushed, tag_removed,
}
use froggit_go.Webhook.Info.{
  RepoDetails, BranchStatus, WebhookInfo, no_user, no_commit, no_tag, no_pull_request, no_info,
}
use froggit_go.Webhook.Info
use froggit_go.Webhook.Http.{Request, Time, header_get, query_values, read_body}
use froggit_go.Webhook.Parser.{Parser}

-- `keys[0]` is read whenever a token is expected, also when the query has no `token`.
check_keys : List String → String → Result String → Result String
check_keys [] token body =
    if not (token == "") then panic "index out of range [0] with length 0" else body
check_keys (key ∷ _) token body = if not (key == token) then err (errorf "token mismatch") else body

unfoldable pub validate_payload : Request → String → Result String
unfolding check_keys query_values read_body
validate_payload request token =
    check_keys (query_values request.query "token") token (read_body request)

unfoldable pub parse_repo_full_name : String → Result RepoDetails
unfolding split_parts
parse_repo_full_name full_name =
    let p = split_parts "/" full_name in
    elim p.others [
      | [] ↦ panic "index out of range [1] with length 1"
      | name ∷ _ ↦ ok (record { name = name; owner = p.first })
    ]

-- `compareURL`; the link names the new commit first.
unfoldable pub compare_url : Hook → Commit → String → String
compare_url hook last before =
    if last.hash == "" || before == ""
    then ""
    else "https://bitbucket.org/"
      <> (hook.full_name <> ("/branches/compare/" <> (last.hash <> (".." <> (before <> "#diff")))))

unfoldable pub branch_name : Change → String
branch_name c = if c.new.name == "" then c.old.name else c.new.name

unfoldable pub branch_status : Change → BranchStatus
unfolding Info.branch_status
branch_status c = Info.branch_status (not (c.old.name == "")) (not (c.new.name == ""))

unfoldable pub parent_of_last_commit : Commit → String
parent_of_last_commit c = elim c.parents [ [] ↦ "" | hash ∷ _ ↦ hash ]

login : Hook → Commit → String
login hook last =
    if not (last.author_nickname == "") then last.author_nickname else hook.actor_nickname

unfoldable pub parse_tag_event : Hook → Change → Result WebhookInfo
unfolding parse_repo_full_name
parse_tag_event hook change =
    if not (change.new.name == "")
    then (do
      repo ← parse_repo_full_name hook.full_name
      ok (record no_info {
        event = tag_pushed;
        tag = some (record no_tag {
          name = change.new.name;
          target_hash = change.new.target.hash;
          message = change.new.message;
          repository = repo;
        });
      }))
    else (do
      repo ← parse_repo_full_name hook.full_name
      ok (record no_info {
        event = tag_removed;
        tag = some (record no_tag {
          name = change.old.name;
          target_hash = change.old.target.hash;
          message = change.old.message;
          repository = repo;
        });
      }))

unfoldable pub parse_pr_events : Hook → WebhookEvent → Result (Option WebhookInfo)
unfolding parse_repo_full_name
parse_pr_events hook event = do
  let p = hook.pull_request
  target ← parse_repo_full_name p.destination.full_name
  source ← parse_repo_full_name p.source.full_name
  ok (
      some (record no_info {
        pull_request_id = p.id;
        target_repository_details = target;
        target_branch = p.destination.branch_name;
        source_repository_details = source;
        source_branch = p.source.branch_name;
        timestamp = p.updated_on.unix;
        event = event;
        pull_request = some (record no_pull_request {
          id = p.id;
          title = p.title;
          compare_url = p.html_href;
          timestamp = p.updated_on.unix;
          author = record no_user {
            login = p.author_nickname;
            display_name = p.author_display_name;
            avatar_url = p.author_avatar;
          };
          triggered_by = record no_user { login = hook.actor_nickname };
          skip_decryption = true;
          target_repository = target;
          target_branch = p.destination.branch_name;
          target_hash = p.destination.commit_hash;
          source_repository = source;
          source_branch = p.source.branch_name;
          source_hash = p.source.commit_hash;
        });
      }))

-- `parse_address` is `mail.ParseAddress`: the address of a text in RFC 5322 format, and `none` if
-- it gives an error or nil.
module _ (parse_address : String → Option String) where
  unfoldable pub email : Commit → String
  email last = elim (parse_address last.author_raw) [
    | none ↦ last.author_raw
    | some address ↦ address
  ]

  unfoldable pub parse_branch_change_event : Hook → Change → Result WebhookInfo
  unfolding parse_repo_full_name branch_name branch_status parent_of_last_commit login compare_url
      email
  parse_branch_change_event hook change = do
    let last = change.new.target
    let before = parent_of_last_commit last
    repo ← parse_repo_full_name hook.full_name
    ok (record no_info {
      target_repository_details = repo;
      target_branch = branch_name change;
      timestamp = last.date.unix;
      event = push;
      commit = record { hash = last.hash; message = last.message; url = last.html_ref };
      before_commit = record no_commit { hash = before };
      branch_status = branch_status change;
      triggered_by = record no_user { login = hook.actor_nickname };
      committer = record no_user { login = login hook last };
      author = record no_user { login = login hook last; email = email last };
      compare_url = compare_url hook last before;
    })

  -- The loop over the changes: the first one that touches a branch or a tag decides.
  push_loop : Hook → List Change → Result (Option WebhookInfo)
  unfolding parse_branch_change_event parse_tag_event
  push_loop hook [] = ok none
  push_loop hook (c ∷ rest) =
      let others = push_loop hook rest in
      if c.new.type == "branch" || c.old.type == "branch"
      then (do info ← parse_branch_change_event hook c; ok (some info))
      else if c.new.type == "tag" || c.old.type == "tag"
      then (do info ← parse_tag_event hook c; ok (some info))
      else others

  unfoldable pub parse_push_event : Hook → Result (Option WebhookInfo)
  unfolding push_loop
  parse_push_event hook = push_loop hook hook.changes

  -- The `switch` on the event header.
  unfoldable pub dispatch : String → Hook → Result (Option WebhookInfo)
  unfolding parse_push_event parse_pr_events
  dispatch event hook =
      if event == "repo:push"
      then parse_push_event hook
      else if event == "pullrequest:created"
      then parse_pr_events hook pr_opened
      else if event == "pullrequest:updated"
      then parse_pr_events hook pr_edited
      else if event == "pullrequest:fulfilled"
      then parse_pr_events hook pr_merged
      else if event == "pullrequest:rejected"
      then parse_pr_events hook pr_rejected
      else ok none

-- `unmarshal` is `json.Unmarshal` at the type of the payload.
module _ (parse_address : String → Option String) (unmarshal : String → Result Hook) where
  unfoldable pub parse_incoming_webhook : Request → String → Result (Option WebhookInfo)
  unfolding dispatch header_get
  parse_incoming_webhook request payload = do
    hook ← unmarshal payload
    dispatch parse_address (header_get request.headers "X-Event-Key") hook

  unfoldable pub new_parser : Parser
  unfolding validate_payload parse_incoming_webhook
  new_parser = record {
    validate_payload = validate_payload;
    parse_incoming_webhook = parse_incoming_webhook;
  }
