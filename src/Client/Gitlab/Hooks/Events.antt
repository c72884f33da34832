-- ===== src/Client/Gitlab/Hooks/Events.antt =====
-- Which events a webhook of GitLab is asked for.
use froggit_go.Base.{String, ◌≡◌, Bool, true, false, ◌||◌, List, [], ◌∷◌, if◌then◌else◌, arith}
use froggit_go.Vcs.{
  WebhookEvent, pr_opened, pr_edited, pr_rejected, pr_merged, push, tag_pushed, tag_removed,
}
use froggit_go.Client.Gitlab.Api.{ProjectHook}
use froggit_go.Client.Gitlab.Hooks.{set_event, set_events, create_project_hook}

abbrev pub any : (WebhookEvent → Bool) → List WebhookEvent → Bool
any p [] = false
any p (e ∷ es) = p e || any p es

abbrev pub is_pr : WebhookEvent → Bool
is_pr pr_opened = true
is_pr pr_edited = true
is_pr pr_rejected = true
is_pr pr_merged = true
is_pr _ = false

abbrev pub is_tag : WebhookEvent → Bool
is_tag tag_pushed = true
is_tag tag_removed = true
is_tag _ = false

abbrev pub is_push : WebhookEvent → Bool
is_push push = true
is_push _ = false

-- The hook has the flags of the events, beside those that it had.
abbrev IsFlagged : String → List WebhookEvent → ProjectHook → ProjectHook → Type 0
IsFlagged branch events before after =
    (after.url ≡ before.url)
    × (after.merge_requests_events ≡ (before.merge_requests_events || any is_pr events))
    × (after.push_events ≡ (before.push_events || any is_push events))
    × (after.tag_push_events ≡ (before.tag_push_events || any is_tag events))
    × (after.push_events_branch_filter
        ≡ (if any is_push events then branch else before.push_events_branch_filter))

set_events-IsFlagged :
    (branch : String) (h : ProjectHook) (events : List WebhookEvent)
    → IsFlagged branch events h (set_events branch h events)
unfolding set_events
set_events-IsFlagged branch h [] = ground arith
set_events-IsFlagged branch h (e ∷ es) =
    ground (arith, set_events-IsFlagged branch (set_event branch h e) es)

-- A webhook is asked for merge requests exactly if one of the events is about a pull request, for
-- pushes, then of the branch only, exactly if one of them is a push, and for tags exactly if one of
-- them is about a tag.
pub create_project_hook_lem :
    (branch payload_url : String) (events : List WebhookEvent)
    → let hook = create_project_hook branch payload_url events in
      (hook.url ≡ payload_url)
      × (hook.merge_requests_events ≡ any is_pr events)
      × (hook.push_events ≡ any is_push events)
      × (hook.tag_push_events ≡ any is_tag events)
      × (hook.push_events_branch_filter ≡ (if any is_push events then branch else ""))
unfolding create_project_hook
create_project_hook_lem branch payload_url events =
    set_events-IsFlagged branch
      (record {
        url = payload_url;
        merge_requests_events = false;
        push_events = false;
        push_events_branch_filter = "";
        tag_push_events = false;
      })
      events
