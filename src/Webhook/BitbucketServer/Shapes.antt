-- ===== src/Webhook/BitbucketServer/Shapes.antt =====
-- Webhooks that the parser of Bitbucket Server gives have the shape of their event.
use froggit_go.Base.{String, List, [], ◌∷◌, Result, ok, some, arith, ◌>>=◌}
use froggit_go.Vcs.{WebhookEvent, pr_opened, pr_edited, pr_merged, pr_rejected}
use froggit_go.Webhook.Http.{Time}
use froggit_go.Webhook.Shape.{IsWellFormed, Yields, IsPrEvent}
use froggit_go.Webhook.BitbucketServer.{
  Hook, Changes, parse_tag_event, parse_push_event, ref_change_loop, parse_pr_events, dispatch,
}

parse_tag_event-IsWellFormed :
    (hook : Hook) (c : Changes) → Yields IsWellFormed (parse_tag_event hook c)
unfolding parse_tag_event
parse_tag_event-IsWellFormed hook c = ground arith

module _ (parse_time : String → String → Result Time) (endpoint : String) (hook : Hook) where
  parse_push_event-IsWellFormed :
      Yields IsWellFormed (parse_push_event parse_time endpoint hook >>= λ i. ok (some i))
  unfolding parse_push_event
  parse_push_event-IsWellFormed = ground arith

  ref_change_loop-IsWellFormed :
      (cs : List Changes) → Yields IsWellFormed (ref_change_loop parse_time endpoint hook cs)
  unfolding ref_change_loop
  ref_change_loop-IsWellFormed [] = tt
  ref_change_loop-IsWellFormed (c ∷ cs) = ground (
    arith,
    parse_tag_event-IsWellFormed hook c,
    parse_push_event-IsWellFormed,
    ref_change_loop-IsWellFormed cs,
  )

  parse_pr_events-IsWellFormed :
      (event : WebhookEvent)
      → IsPrEvent event
      → Yields IsWellFormed (parse_pr_events parse_time endpoint hook event)
  unfolding parse_pr_events
  parse_pr_events-IsWellFormed pr_opened h = ground arith
  parse_pr_events-IsWellFormed pr_edited h = ground arith
  parse_pr_events-IsWellFormed pr_merged h = ground arith
  parse_pr_events-IsWellFormed pr_rejected h = ground arith
  parse_pr_events-IsWellFormed _ h = absurd h

  pub dispatch-IsWellFormed :
      (event : String) → Yields IsWellFormed (dispatch parse_time endpoint event hook)
  unfolding dispatch
  dispatch-IsWellFormed event = ground (
    arith,
    ref_change_loop-IsWellFormed hook.changes,
    parse_pr_events-IsWellFormed pr_opened tt,
    parse_pr_events-IsWellFormed pr_edited tt,
    parse_pr_events-IsWellFormed pr_merged tt,
    parse_pr_events-IsWellFormed pr_rejected tt,
  )
