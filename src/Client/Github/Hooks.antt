-- ===== src/Client/Github/Hooks.antt =====
-- Webhooks on GitHub.
pub mod Events
use froggit_go.Base.{ℤ, String, Option, List, [], ◌∷◌, Result, deref}
use froggit_go.Base.Decimal.{decimal_int}
use froggit_go.Calls.{◌>>=◌, ◌>>◌, pure, lift}
use froggit_go.Vcs.{
  WebhookEvent, pr_opened, pr_edited, pr_rejected, pr_merged, push, tag_pushed, tag_removed,
  no_event,
}
use froggit_go.Client.Sorting.{SetApi}
use froggit_go.Client.Github.Api.{Call, create_hook, edit_hook, delete_hook, Hook, Server, Rest}
use froggit_go.Client.Github.RateLimit.{ask}

module _ (x : SetApi) where
  -- The `switch` on an event.
  add_event : x.Set → WebhookEvent → x.Set
  add_event events pr_opened = x.add events "pull_request"
  add_event events pr_edited = x.add events "pull_request"
  add_event events pr_merged = x.add events "pull_request"
  add_event events pr_rejected = x.add events "pull_request"
  add_event events push = x.add events "push"
  add_event events tag_pushed = x.add events "push"
  add_event events tag_removed = x.add events "push"
  add_event events no_event = events

  add_events : x.Set → List WebhookEvent → x.Set
  unfolding add_event
  add_events events [] = events
  add_events events (e ∷ es) = add_events (add_event events e) es

  unfoldable pub get_github_webhook_events : List WebhookEvent → List String
  unfolding add_events
  get_github_webhook_events webhook_events = x.to_slice (add_events x.make webhook_events)

  unfoldable pub create_github_hook : String → String → List WebhookEvent → Hook
  unfolding get_github_webhook_events
  create_github_hook token payload_url webhook_events = record {
    events = get_github_webhook_events webhook_events;
    url = payload_url;
    content_type = "json";
    secret = token;
  }

-- `parse_int` is `strconv.ParseInt`, of a decimal number of 64 bits.
module _ (x : SetApi) (parse_int : String → Result ℤ) (s : Server) where
  -- The token is what `CreateToken` gives. The identifier comes back as a text.
  unfoldable pub create_webhook :
      String → String → String → String → List WebhookEvent → Rest (String × String)
  unfolding create_github_hook decimal_int ask
  create_webhook token owner repository payload_url webhook_events = do
    hook_id ←
        ask s s.hook
          (create_hook owner repository (create_github_hook x token payload_url webhook_events))
    id ← lift (deref hook_id)
    pure (decimal_int id, token)

  unfoldable pub update_webhook :
      String → String → String → String → String → List WebhookEvent → Rest (Unit {0})
  unfolding create_github_hook ask
  update_webhook owner repository payload_url token webhook_id webhook_events = do
    id ← lift (parse_int webhook_id)
    ask s s.done
        (edit_hook owner repository id (create_github_hook x token payload_url webhook_events))

  unfoldable pub delete_webhook : String → String → String → Rest (Unit {0})
  unfolding ask
  delete_webhook owner repository webhook_id = do
    id ← lift (parse_int webhook_id)
    ask s s.done (delete_hook owner repository id)
