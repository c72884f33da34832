-- ===== src/Webhook/Entry/Shape.antt =====
-- A webhook that is returned has the shape of its event, whoever sent it.
use froggit_go.Base.{
  String, ◌≡◌, sym, ap, ◌∙◌, List, Option, none, some, Result, ok, err, panic, arith, Error,
}
use froggit_go.Vcs.{
  VcsProvider, github, gitlab, bitbucket_server, bitbucket_cloud, azure_repos, other_provider,
}
use froggit_go.Webhook.Info.{WebhookInfo}
use froggit_go.Webhook.Http.{Request, Body, header_get}
use froggit_go.Webhook.Parser.{Parser}
use froggit_go.Webhook.Entry.Steps.{parser_result, validate_then_parse_lem}
use froggit_go.Webhook.Shape.{IsWellFormed, Yields, Yields-bind, Yields-elim}
use froggit_go.Webhook.Github
use froggit_go.Webhook.Gitlab
use froggit_go.Webhook.BitbucketServer
use froggit_go.Webhook.BitbucketCloud
use froggit_go.Webhook.Entry.{
  Externals, WebhookOrigin, returned, reply_of, close_body, parser_for, Step, create_webhook_parser,
  validate_and_parse_http_request, parse_incoming_webhook,
}

-- If GitHub's event of this request is a push of a tag, then the tag was created or deleted.
abbrev pub IsSettled : Externals → VcsProvider → String → Request → Type 0
IsSettled x github token request =
    (payload : String) (e : Github.Events.Event)
    → Github.validate_payload x.github request token ≡ ok payload
    → x.github.parse_web_hook (x.github.web_hook_type request) payload ≡ ok e
    → Github.Shapes.IsSettled e
IsSettled x _ token request = Unit

reply_of-ok :
    (b : Option Body) (r : Result (Option WebhookInfo)) (log : List Step) {i : WebhookInfo}
    {e : Option Error}
    → (close_body b (reply_of r) log).reply ≡ returned (some i) e
    → r ≡ ok (some i)
reply_of-ok none (ok w) log h = ground arith
reply_of-ok (some b) (ok w) log h = ground arith
reply_of-ok none (err d) log h = ground arith
reply_of-ok (some b) (err d) log h = ground arith
reply_of-ok none (panic m) log h = ground arith
reply_of-ok (some b) (panic m) log h = ground arith

-- A reply with a webhook comes from a validated payload that was parsed.
pub reply-result :
    (parser : Option Parser) (token : String) (request : Request) {i : WebhookInfo}
    {e : Option Error}
    → (validate_and_parse_http_request parser token request).reply ≡ returned (some i) e
    → parser_result parser token request ≡ ok (some i)
unfolding validate_and_parse_http_request
reply-result parser token request h =
    sym (ap (λ run. run.0) (validate_then_parse_lem parser token request))
    ∙ reply_of-ok request.body _ _ h

-- A parser's webhooks have a property if those that it makes of a payload have it.
parser_result-Yields :
    (P : WebhookInfo → Type 0) (p : Parser) (token : String) (request : Request)
    → ((payload : String)
        → p.validate_payload request token ≡ ok payload
        → Yields P (p.parse_incoming_webhook request payload))
    → Yields P (parser_result (some p) token request)
parser_result-Yields P p token request h = Yields-bind P (p.validate_payload request token) _ h

module _ (x : Externals) (url token : String) (request : Request) where
  github-IsWellFormed :
      IsSettled x github token request
      → Yields IsWellFormed (parser_result (some (Github.new_parser x.github url)) token request)
  unfolding Github.new_parser
  github-IsWellFormed settled =
      parser_result-Yields IsWellFormed (Github.new_parser x.github url) token request
        λ payload valid.
          Yields-bind IsWellFormed
            (x.github.parse_web_hook (x.github.web_hook_type request) payload) _
            λ e parsed.
              Github.Shapes.dispatch-IsWellFormed (Github.new_endpoint url) e
                (settled payload e valid parsed)

  gitlab-IsWellFormed :
      Yields IsWellFormed
        (parser_result (some (Gitlab.new_parser x.gitlab x.parse_time)) token request)
  unfolding Gitlab.new_parser
  gitlab-IsWellFormed =
      parser_result-Yields IsWellFormed (Gitlab.new_parser x.gitlab x.parse_time) token request
        λ payload _.
          Yields-bind IsWellFormed
            (x.gitlab.parse_webhook (x.gitlab.webhook_event_type request) payload) _
            λ e _. Gitlab.Shapes.dispatch-IsWellFormed x.parse_time e

  server-IsWellFormed : Yields IsWellFormed (
      parser_result
        (some (BitbucketServer.new_parser x.sign x.parse_time x.unmarshal_server url))
        token
        request)
  unfolding BitbucketServer.new_parser
  server-IsWellFormed =
      parser_result-Yields IsWellFormed
        (BitbucketServer.new_parser x.sign x.parse_time x.unmarshal_server url) token request
        λ payload _. Yields-bind IsWellFormed (x.unmarshal_server payload) _ λ hook _.
          BitbucketServer.Shapes.dispatch-IsWellFormed x.parse_time url hook
            (header_get request.headers "X-Event-Key")

  cloud-IsWellFormed : Yields IsWellFormed (
      parser_result
        (some (BitbucketCloud.new_parser x.parse_address x.unmarshal_cloud))
        token
        request)
  unfolding BitbucketCloud.new_parser
  cloud-IsWellFormed =
      parser_result-Yields IsWellFormed
        (BitbucketCloud.new_parser x.parse_address x.unmarshal_cloud) token request
        λ payload _. Yields-bind IsWellFormed (x.unmarshal_cloud payload) _ λ hook _.
          BitbucketCloud.Shapes.dispatch-IsWellFormed x.parse_address hook
            (header_get request.headers "X-Event-Key")

  parser_for-IsWellFormed :
      (provider : VcsProvider)
      → IsSettled x provider token request
      → Yields IsWellFormed (parser_result (parser_for x provider url) token request)
  unfolding parser_for
  parser_for-IsWellFormed github settled = github-IsWellFormed settled
  parser_for-IsWellFormed gitlab settled = gitlab-IsWellFormed
  parser_for-IsWellFormed bitbucket_server settled = server-IsWellFormed
  parser_for-IsWellFormed bitbucket_cloud settled = cloud-IsWellFormed
  parser_for-IsWellFormed azure_repos settled = tt
  parser_for-IsWellFormed other_provider settled = tt

-- A webhook that `ParseIncomingWebhook` returns has the shape of its event, for every provider and
-- request, also beside an error of the body: a pull request event repeats the identity of its pull
-- request and has no tag, a push has neither and a branch status, a tag event has a tag and no pull
-- request. If the request is one of GitHub and its event is a push of a tag, then the tag must have
-- been created or deleted.
pub parse_incoming_webhook-IsWellFormed :
    (x : Externals) (origin : WebhookOrigin) (request : Request) {i : WebhookInfo}
    {e : Option Error}
    → IsSettled x origin.vcs_provider origin.token request
    → (parse_incoming_webhook x origin request).reply ≡ returned (some i) e
    → IsWellFormed i
unfolding parse_incoming_webhook
parse_incoming_webhook-IsWellFormed x origin request settled h =
    Yields-elim IsWellFormed _
      (reply-result (create_webhook_parser x origin) origin.token request h)
      (parser_for-IsWellFormed x _ origin.token request origin.vcs_provider settled)
