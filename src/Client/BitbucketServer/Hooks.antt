-- ===== src/Client/BitbucketServer/Hooks.antt =====
-- Webhooks and commit statuses on Bitbucket Server.
use froggit_go.Base.{ℤ, String, List, [], ◌∷◌, ◌++◌, Result}
use froggit_go.Base.Decimal.{decimal_int}
use froggit_go.Calls.{◌>>=◌, pure, lift, send}
use froggit_go.Webhook.Http.{Time}
use froggit_go.Vcs.{
  WebhookEvent, pr_opened, pr_edited, pr_rejected, pr_merged, push, tag_pushed, tag_removed,
  no_event, bitbucket_server,
}
use froggit_go.Client.Types.{CommitStatus, CommitStatusInfo}
use froggit_go.Client.Status.{get_bitbucket_commit_state}
use froggit_go.Client.Bitbucket.{bitbucket_parse_commit_statuses}
use froggit_go.Client.BitbucketServer.Api.{
  create_webhook, update_webhook, delete_webhook, set_commit_status, get_commit_status, Hook,
  Server, Rest,
}

-- The names for an event.
event_names : WebhookEvent → List String
event_names pr_opened = "pr:opened" ∷ []
event_names pr_edited = "pr:from_ref_updated" ∷ []
event_names pr_merged = "pr:merged" ∷ []
event_names pr_rejected = "pr:declined" ∷ "pr:deleted" ∷ []
event_names push = "repo:refs_changed" ∷ []
event_names tag_pushed = "repo:refs_changed" ∷ []
event_names tag_removed = "repo:refs_changed" ∷ []
event_names no_event = []

unfoldable pub get_bitbucket_server_webhook_events : List WebhookEvent → List String
unfolding event_names
get_bitbucket_server_webhook_events [] = []
get_bitbucket_server_webhook_events (e ∷ es) =
    event_names e ++ get_bitbucket_server_webhook_events es

unfoldable pub create_bitbucket_server_hook : String → String → List WebhookEvent → Hook
unfolding get_bitbucket_server_webhook_events
create_bitbucket_server_hook token payload_url events = record {
  url = payload_url;
  secret = token;
  events = get_bitbucket_server_webhook_events events;
}

-- `parse_int` is `strconv.ParseInt`, of a decimal number of 32 bits.
module _ (parse_int : String → Result ℤ) (s : Server) where
  -- The token is what `CreateToken` gives. The identifier comes back as a text.
  unfoldable pub create_webhook_on :
      String → String → String → String → List WebhookEvent → Rest (String × String)
  unfolding create_bitbucket_server_hook decimal_int
  create_webhook_on token owner repository payload_url events = do
    reply ←
        send s.webhook_id
          (create_webhook owner repository (create_bitbucket_server_hook token payload_url events))
    id ← lift reply
    pure (decimal_int id, token)

  unfoldable pub update_webhook_on :
      String → String → String → String → String → List WebhookEvent → Rest (Unit {0})
  unfolding create_bitbucket_server_hook
  update_webhook_on owner repository payload_url token webhook_id events = do
    id ← lift (parse_int webhook_id)
    send s.done
        (update_webhook owner repository id (create_bitbucket_server_hook token payload_url events))

  unfoldable pub delete_webhook_on : String → String → String → Rest (Unit {0})
  delete_webhook_on owner repository webhook_id = do
    id ← lift (parse_int webhook_id)
    send s.done (delete_webhook owner repository id)

module _ (s : Server) where
  -- The owner and the repository are not used.
  unfoldable pub set_commit_status_on :
      CommitStatus → String → String → String → String → Rest (Unit {0})
  unfolding get_bitbucket_commit_state
  set_commit_status_on status ref title description details_url =
      send s.done
        (set_commit_status ref (get_bitbucket_commit_state status) title description details_url)

  unfoldable pub get_commit_statuses :
      (String → Result Time) → String → Rest (List CommitStatusInfo)
  unfolding bitbucket_parse_commit_statuses
  get_commit_statuses parse_time ref = do
    reply ← send s.statuses (get_commit_status ref)
    statuses ← lift reply
    lift (bitbucket_parse_commit_statuses parse_time bitbucket_server statuses)
