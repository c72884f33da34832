-- ===== src/Webhook/Github/Shapes.antt =====
-- Webhooks that GitHub's parser gives have the shape of their event.
use froggit_go.Base.{String, ◌≡◌, ◌⊎◌, true, false, ok, Option, none, some, arith}
use froggit_go.Vcs.{no_event}
use froggit_go.Webhook.Info.{Tag}
use froggit_go.Webhook.Shape.{IsWellFormed, Yields}
use froggit_go.Webhook.Github.{is_tag_event, dispatch, parse_tag_event}
use froggit_go.Webhook.Github.Events.{PushEvent, Event, push_event, pull_request_event, other_event}

-- A pushed tag was created or deleted.
abbrev pub IsSettled : Event → Type 0
IsSettled (push_event e) = (is_tag_event e ≡ false) ⊎ ((e.created ≡ true) ⊎ (e.deleted ≡ true))
IsSettled _ = Unit

pub dispatch-IsWellFormed :
    (endpoint : String) (e : Event) → IsSettled e → Yields IsWellFormed (ok (dispatch endpoint e))
unfolding dispatch
dispatch-IsWellFormed endpoint (push_event e) h = ground arith
dispatch-IsWellFormed endpoint (pull_request_event e) h = ground arith
dispatch-IsWellFormed endpoint other_event h = tt

abbrev pub tag_hash : Option Tag → Option String
tag_hash none = none
tag_hash (some t) = some t.hash

-- A push of a tag that is neither created nor deleted (a moved tag) gives a webhook whose event is
-- the empty text and whose tag has an empty hash.
pub parse_tag_event-moved :
    (e : PushEvent)
    → e.created ≡ false
    → e.deleted ≡ false
    → ((parse_tag_event e).event ≡ no_event) × (tag_hash (parse_tag_event e).tag ≡ some "")
unfolding parse_tag_event
parse_tag_event-moved e c d = ground arith
