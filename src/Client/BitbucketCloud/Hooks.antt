-- ===== src/Client/BitbucketCloud/Hooks.antt =====
-- Webhooks and commit statuses on Bitbucket Cloud.
use Prim.Native.Char.{Char}
use froggit_go.Base.{String, ◌<>◌, List, [], ◌∷◌, Result, if◌then◌else◌, ◌==◌}
use froggit_go.Base.Text.{char_eq}
use froggit_go.Calls.{◌>>=◌, pure, lift, send}
use froggit_go.Webhook.Http.{Time}
use froggit_go.Vcs.{
  WebhookEvent, pr_opened, pr_edited, pr_rejected, pr_merged, push, tag_pushed, tag_removed,
  no_event, bitbucket_cloud,
}
use froggit_go.Client.Types.{CommitStatus, CommitStatusInfo}
use froggit_go.Client.Status.{get_bitbucket_commit_state}
use froggit_go.Client.Sorting.{SetApi}
use froggit_go.Client.Bitbucket.{bitbucket_parse_commit_statuses}
use froggit_go.Client.BitbucketCloud.Api.{
  create_webhook, update_webhook, delete_webhook, create_commit_status, get_commit_statuses, Hook,
  Server, Rest,
}

-- `strings.TrimLeft(s, c)` and `strings.TrimRight(s, c)` of one character.
trim_left : Char → String → String
trim_left c String.[] = ""
trim_left c (String.◌∷◌ d s) =
    let rest = trim_left c s in if char_eq d c then rest else String.◌∷◌ d s

trim_right : Char → String → String
trim_right c String.[] = ""
trim_right c (String.◌∷◌ d s) =
    let rest = trim_right c s in
    if rest == "" then (if char_eq d c then "" else String.◌∷◌ d "") else String.◌∷◌ d rest

-- `getBitbucketCloudWebhookID`, given the identifier that is decoded.
unfoldable pub get_bitbucket_cloud_webhook_id : String → String
unfolding trim_left trim_right
get_bitbucket_cloud_webhook_id uuid = trim_right "}" (trim_left "{" uuid)

module _ (x : SetApi) where
  add_event : x.Set → WebhookEvent → x.Set
  add_event events pr_opened = x.add events "pullrequest:created"
  add_event events pr_edited = x.add events "pullrequest:updated"
  add_event events pr_rejected = x.add events "pullrequest:rejected"
  add_event events pr_merged = x.add events "pullrequest:fulfilled"
  add_event events push = x.add events "repo:push"
  add_event events tag_pushed = x.add events "repo:push"
  add_event events tag_removed = x.add events "repo:push"
  add_event events no_event = events

  add_events : x.Set → List WebhookEvent → x.Set
  unfolding add_event
  add_events events [] = events
  add_events events (e ∷ es) = add_events (add_event events e) es

  unfoldable pub get_bitbucket_cloud_webhook_events : List WebhookEvent → List String
  unfolding add_events
  get_bitbucket_cloud_webhook_events webhook_events = x.to_slice (add_events x.make webhook_events)

  -- `query_escape` is `url.QueryEscape`. The token stands in the address.
  unfoldable pub hook_of : (String → String) → String → String → List WebhookEvent → Hook
  unfolding get_bitbucket_cloud_webhook_events
  hook_of query_escape token payload_url webhook_events = record {
    url = payload_url <> ("?token=" <> query_escape token);
    events = get_bitbucket_cloud_webhook_events webhook_events;
  }

module _ (x : SetApi) (query_escape : String → String) (s : Server) where
  -- The token is what `CreateToken` gives. The identifier comes back without its braces.
  unfoldable pub create_webhook_on :
      String → String → String → String → List WebhookEvent → Rest (String × String)
  unfolding hook_of get_bitbucket_cloud_webhook_id
  create_webhook_on token owner repository payload_url webhook_events = do
    reply ←
        send s.webhook_uuid (
          create_webhook owner repository (hook_of x query_escape token payload_url webhook_events))
    uuid ← lift reply
    pure (get_bitbucket_cloud_webhook_id uuid, token)

  unfoldable pub update_webhook_on :
      String → String → String → String → String → List WebhookEvent → Rest (Unit {0})
  unfolding hook_of
  update_webhook_on owner repository payload_url token webhook_id webhook_events = send s.done (
      update_webhook owner repository webhook_id
        (hook_of x query_escape token payload_url webhook_events))

module _ (s : Server) where
  unfoldable pub delete_webhook_on : String → String → String → Rest (Unit {0})
  delete_webhook_on owner repository webhook_id =
      send s.done (delete_webhook owner repository webhook_id)

  unfoldable pub set_commit_status :
      CommitStatus → String → String → String → String → String → String → Rest (Unit {0})
  unfolding get_bitbucket_commit_state
  set_commit_status status owner repository ref title description details_url = send s.done (
      create_commit_status owner repository ref (get_bitbucket_commit_state status) title
        description details_url)

  unfoldable pub get_commit_statuses_of :
      (String → Result Time) → String → String → String → Rest (List CommitStatusInfo)
  unfolding bitbucket_parse_commit_statuses
  get_commit_statuses_of parse_time owner repository ref = do
    reply ← send s.statuses (get_commit_statuses owner repository ref)
    statuses ← lift reply
    lift (bitbucket_parse_commit_statuses parse_time bitbucket_cloud statuses)
