-- ===== src/Webhook/Gitlab/Shapes.antt =====
-- Webhooks that GitLab's parser gives have the shape of their event.
use froggit_go.Base.{String, Result, arith}
use froggit_go.Webhook.Http.{Time}
use froggit_go.Webhook.Shape.{IsWellFormed, Yields}
use froggit_go.Webhook.Gitlab.{dispatch}
use froggit_go.Webhook.Gitlab.Events.{Event, push_event, merge_event, tag_event, other_event}

pub dispatch-IsWellFormed :
    (parse_time : String → String → Result Time) (e : Event)
    → Yields IsWellFormed (dispatch parse_time e)
unfolding dispatch
dispatch-IsWellFormed parse_time (push_event e) = ground arith
dispatch-IsWellFormed parse_time (merge_event e) = ground arith
dispatch-IsWellFormed parse_time (tag_event e) = ground arith
dispatch-IsWellFormed parse_time other_event = tt
