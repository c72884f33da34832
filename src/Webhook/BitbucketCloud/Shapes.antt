-- ===== src/Webhook/BitbucketCloud/Shapes.antt =====
-- Webhooks that the parser of Bitbucket Cloud gives have the shape of their event.
use froggit_go.Base.{String, List, [], ◌∷◌, ok, some, Option, arith, ◌>>=◌}
use froggit_go.Vcs.{WebhookEvent, pr_opened, pr_edited, pr_merged, pr_rejected}
use froggit_go.Webhook.Shape.{IsWellFormed, Yields, IsPrEvent}
use froggit_go.Webhook.BitbucketCloud.{
  Hook, Change, parse_tag_event, parse_branch_change_event, push_loop, parse_pr_events, dispatch,
}

module _ (hook : Hook) where
  parse_tag_event-IsWellFormed :
      (c : Change) → Yields IsWellFormed (parse_tag_event hook c >>= λ i. ok (some i))
  unfolding parse_tag_event
  parse_tag_event-IsWellFormed c = ground arith

  parse_pr_events-IsWellFormed :
      (event : WebhookEvent) → IsPrEvent event → Yields IsWellFormed (parse_pr_events hook event)
  unfolding parse_pr_events
  parse_pr_events-IsWellFormed pr_opened h = ground arith
  parse_pr_events-IsWellFormed pr_edited h = ground arith
  parse_pr_events-IsWellFormed pr_merged h = ground arith
  parse_pr_events-IsWellFormed pr_rejected h = ground arith
  parse_pr_events-IsWellFormed _ h = absurd h

module _ (parse_address : String → Option String) (hook : Hook) where
  parse_branch_change_event-IsWellFormed :
      (c : Change)
      → Yields IsWellFormed (parse_branch_change_event parse_address hook c >>= λ i. ok (some i))
  unfolding parse_branch_change_event
  parse_branch_change_event-IsWellFormed c = ground arith

  push_loop-IsWellFormed :
      (cs : List Change) → Yields IsWellFormed (push_loop parse_address hook cs)
  unfolding push_loop
  push_loop-IsWellFormed [] = tt
  push_loop-IsWellFormed (c ∷ cs) = ground (
    arith,
    parse_tag_event-IsWellFormed hook c,
    parse_branch_change_event-IsWellFormed c,
    push_loop-IsWellFormed cs,
  )

  pub dispatch-IsWellFormed :
      (event : String) → Yields IsWellFormed (dispatch parse_address event hook)
  unfolding dispatch
  dispatch-IsWellFormed event = ground (
    arith,
    push_loop-IsWellFormed hook.changes,
    parse_pr_events-IsWellFormed hook pr_opened tt,
    parse_pr_events-IsWellFormed hook pr_edited tt,
    parse_pr_events-IsWellFormed hook pr_merged tt,
    parse_pr_events-IsWellFormed hook pr_rejected tt,
  )
