-- ===== src/Client/Gitlab/Hooks.antt =====
-- Webhooks and commit statuses on GitLab.
pub mod Events
pub mod Identity
use froggit_go.Base.{
  ℕ, ◌+◌, ◌-◌, ◌*◌, ℤ, pos, negsuc, String, ◌<>◌, Bool, true, false, ◌&&◌, Option, none, some, List,
  [], ◌∷◌, Result, ok, err, panic, Error, foreign, leb, ltb, if◌then◌else◌,
}
use froggit_go.Base.Decimal.{decimal_int}
use froggit_go.Calls.{◌>>=◌, ◌>>◌, pure, lift, send}
use froggit_go.Vcs.{
  WebhookEvent, pr_opened, pr_edited, pr_rejected, pr_merged, push, tag_pushed, tag_removed,
  no_event,
}
use froggit_go.Client.Types.{CommitStatus, CommitStatusInfo, extract_time_with_fallback}
use froggit_go.Client.Status.{get_gitlab_commit_state, commit_status_as_string_to_status}
use froggit_go.Client.Gitlab.Api.{
  Call, add_project_hook, edit_project_hook, delete_project_hook, set_commit_status,
  get_commit_statuses, ProjectHook, Status, Server, Rest,
}
use froggit_go.Client.Gitlab.Repos.{get_project_id}

-- The `switch` on an event.
set_event : String → ProjectHook → WebhookEvent → ProjectHook
set_event branch h pr_opened = record h { merge_requests_events = true }
set_event branch h pr_edited = record h { merge_requests_events = true }
set_event branch h pr_rejected = record h { merge_requests_events = true }
set_event branch h pr_merged = record h { merge_requests_events = true }
set_event branch h push = record h { push_events = true; push_events_branch_filter = branch }
set_event branch h tag_pushed = record h { tag_push_events = true }
set_event branch h tag_removed = record h { tag_push_events = true }
set_event branch h no_event = h

set_events : String → ProjectHook → List WebhookEvent → ProjectHook
unfolding set_event
set_events branch h [] = h
set_events branch h (e ∷ es) = set_events branch (set_event branch h e) es

unfoldable pub create_project_hook : String → String → List WebhookEvent → ProjectHook
unfolding set_events
create_project_hook branch payload_url events =
    set_events branch
      (record {
        url = payload_url;
        merge_requests_events = false;
        push_events = false;
        push_events_branch_filter = "";
        tag_push_events = false;
      })
      events

-- `atoi` is `strconv.Atoi`.
module _ (atoi : String → Result ℤ) (s : Server) where
  -- The token is what `CreateToken` gives. The identifier comes back as a text.
  unfoldable pub create_webhook :
      String → String → String → String → String → List WebhookEvent → Rest (String × String)
  unfolding create_project_hook decimal_int
  create_webhook token owner repository branch payload_url events = do
    id ← send s.hook_id (
        add_project_hook (get_project_id owner repository) token
          (create_project_hook branch payload_url events))
    pure (decimal_int id, token)

  unfoldable pub update_webhook :
      String → String → String → String → String → String → List WebhookEvent → Rest (Unit {0})
  unfolding create_project_hook
  update_webhook owner repository branch payload_url token webhook_id events = do
    int_webhook ← lift (atoi webhook_id)
    send s.done (
        edit_project_hook (get_project_id owner repository) int_webhook token
          (create_project_hook branch payload_url events))

  unfoldable pub delete_webhook : String → String → String → Rest (Unit {0})
  delete_webhook owner repository webhook_id = do
    int_webhook ← lift (atoi webhook_id)
    send s.done (delete_project_hook (get_project_id owner repository) int_webhook)

abbrev status_info : Status → CommitStatusInfo
status_info t = record {
  state = commit_status_as_string_to_status t.status;
  description = t.description;
  details_url = t.target_url;
  creator = t.author_name;
  last_updated_at = extract_time_with_fallback t.finished_at;
  created_at = extract_time_with_fallback t.created_at;
}

status_infos : List Status → List CommitStatusInfo
unfolding commit_status_as_string_to_status
status_infos [] = []
status_infos (t ∷ ts) = status_info t ∷ status_infos ts

module _ (s : Server) where
  unfoldable pub set_commit_status_on :
      CommitStatus → String → String → String → String → String → String → Rest (Unit {0})
  unfolding get_gitlab_commit_state
  set_commit_status_on status owner repository ref title description details_url = send s.done (
      set_commit_status (get_project_id owner repository) ref (get_gitlab_commit_state status) title
        description details_url)

  -- The owner is not used: the project is asked for by the repository alone.
  unfoldable pub get_commit_statuses_of : String → String → Rest (List CommitStatusInfo)
  unfolding status_infos
  get_commit_statuses_of repository ref = do
    statuses ← send s.statuses (get_commit_statuses repository ref)
    pure (status_infos statuses)
