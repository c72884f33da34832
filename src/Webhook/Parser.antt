-- ===== src/Webhook/Parser.antt =====
-- The interface `webhookParser` (vcsutils/webhookparser/webhookparser.go). A parser that gives
-- `ok none` has ignored the webhook: it returned `nil, nil`.
use froggit_go.Base.{String, Option, Result}
use froggit_go.Webhook.Info.{WebhookInfo}
use froggit_go.Webhook.Http.{Request}

pub record Parser : Type 0 where
  pub validate_payload : Request → String → Result String
  pub parse_incoming_webhook : Request → String → Result (Option WebhookInfo)
