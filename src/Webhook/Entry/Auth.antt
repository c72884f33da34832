-- ===== src/Webhook/Entry/Auth.antt =====
-- Who has sent a webhook that is returned, and the close of the body.
use froggit_go.Base.{
  String, ◌<>◌, ◌≡◌, ◌≢◌, refl, ap, List, ◌∷◌, ◌⊎◌, inl, inr, Option, none, some, Result, ok, err,
  panic, arith, >>=-eq-ok, Error, join_errors, joined,
}
use froggit_go.Vcs.{
  VcsProvider, github, gitlab, bitbucket_server, bitbucket_cloud, azure_repos, other_provider,
}
use froggit_go.Webhook.Info.{WebhookInfo}
use froggit_go.Webhook.Parser.{Parser}
use froggit_go.Webhook.Http.{Request, Body, header_get, query_values, read_body}
use froggit_go.Webhook.Github
use froggit_go.Webhook.Gitlab
use froggit_go.Webhook.BitbucketServer
use froggit_go.Webhook.BitbucketCloud
use froggit_go.Webhook.Entry.{
  Externals, Reply, WebhookOrigin, returned, panicked, reply_of, close_body, parser_for, Step,
  closes, Outcome, validate_and_parse_http_request, create_webhook_parser, parse_incoming_webhook,
}
use froggit_go.Webhook.Entry.Steps.{parser_result, parser_steps, validate_then_parse_lem}
use froggit_go.Webhook.Entry.Shape.{reply-result}

-- The sender has shown that it knows the token, by the means of each provider.
abbrev pub IsAuthentic : Externals → VcsProvider → String → Request → Type 0
IsAuthentic x github token request =
    (header_get request.headers x.github.sha256_signature_header ≢ "")
    × ((payload : String) × (x.github.validate_payload request token ≡ ok payload))
IsAuthentic x gitlab token request = header_get request.headers "X-GitLab-Token" ≡ token
IsAuthentic x bitbucket_server token request =
    (body : String) × (read_body request ≡ ok body)
    × (header_get request.headers "X-Hub-Signature" ≡ "sha256=" <> x.sign body token)
IsAuthentic x bitbucket_cloud token request =
    BitbucketCloud.Auth.FirstIs token (query_values request.query "token")
IsAuthentic x _ token request = ⊥

left_out : {A B : Type 0} → A ⊎ B → ¬ A → B
left_out (inl a) n = absurd (n a)
left_out (inr b) n = b

module _ (x : Externals) (url token : String) (known : token ≢ "") (request : Request) where
  validated :
      (provider : VcsProvider) {r : Option WebhookInfo}
      → parser_result (parser_for x provider url) token request ≡ ok r
      → IsAuthentic x provider token request
  unfolding parser_for
  validated github h =
      let v = >>=-eq-ok (Github.validate_payload x.github request token) _ h in
      let a = (Github.Auth.github_accepts_iff x.github request token v.0).0 v.1 in
      (left_out a.1 known, (v.0, a.0))
  validated gitlab h =
      let v = >>=-eq-ok (Gitlab.validate_payload request token) _ h in
      ((Gitlab.Auth.gitlab_accepts_iff request token v.0).0 v.1).0
  validated bitbucket_server h =
      let v = >>=-eq-ok (BitbucketServer.validate_payload x.sign request token) _ h in
      let a = (BitbucketServer.Auth.server_accepts_iff x.sign request token v.0).0 v.1 in
      (v.0, a.0, left_out a.1 (λ both. known both.0))
  validated bitbucket_cloud h =
      let v = >>=-eq-ok (BitbucketCloud.validate_payload request token) _ h in
      ((BitbucketCloud.Auth.cloud_accepts_iff request token v.0).0 v.1).0
  validated azure_repos h = cc
  validated other_provider h = cc

-- With a token configured, `ParseIncomingWebhook` returns a webhook only for a request that shows
-- the token: by the token header (GitLab), the first `token` of the query (Bitbucket Cloud), the
-- HMAC of the body (Bitbucket Server), or a signature header that go-github accepts (GitHub).
pub parse_incoming_webhook-IsAuthentic :
    (x : Externals) (origin : WebhookOrigin) (request : Request) {i : WebhookInfo}
    {e : Option Error}
    → origin.token ≢ ""
    → (parse_incoming_webhook x origin request).reply ≡ returned (some i) e
    → IsAuthentic x origin.vcs_provider origin.token request
unfolding parse_incoming_webhook
parse_incoming_webhook-IsAuthentic x origin request known h =
    validated x _ origin.token known request origin.vcs_provider
      (reply-result (create_webhook_parser x origin) origin.token request h)

-- The reply of a result beside what the close of the body gives: its error is returned if there is
-- no other one, and else joined behind the other; a panic goes on.
abbrev pub Joins : Option Error → Result (Option WebhookInfo) → Reply → Type 0
Joins none (ok w) r = r ≡ returned w none
Joins (some d) (ok w) r = r ≡ returned w (some d)
Joins none (err e) r = r ≡ returned none (some e)
Joins (some d) (err e) r = r ≡ returned none (some (joined e d))
Joins _ (panic m) r = r ≡ panicked m

-- Behind the steps of the parser a body is closed once; without a body nothing is closed.
abbrev pub IsClosed : Option Body → Result (Option WebhookInfo) → List Step → Outcome → Type 0
IsClosed none result steps o = (o.calls ≡ steps) × Joins none result o.reply
IsClosed (some b) result steps o = (o.calls ≡ closes ∷ steps) × Joins b.close result o.reply

close_body-Joins :
    (b : Body) (c : Option Error) (r : Result (Option WebhookInfo)) (log : List Step)
    → b.close ≡ c
    → Joins c r (close_body (some b) (reply_of r) log).reply
unfolding join_errors
close_body-Joins b none (ok w) log h = rw h refl
close_body-Joins b (some d) (ok w) log h = rw h refl
close_body-Joins b none (err e) log h = rw h refl
close_body-Joins b (some d) (err e) log h = rw h refl
close_body-Joins b none (panic m) log h = refl
close_body-Joins b (some d) (panic m) log h = refl

close_body-calls :
    (b : Body) (r : Result (Option WebhookInfo)) (log : List Step)
    → (close_body (some b) (reply_of r) log).calls ≡ closes ∷ log
close_body-calls b (ok w) log = refl
close_body-calls b (err e) log = refl
close_body-calls b (panic m) log = refl

close_body-IsClosed :
    (body : Option Body) (r : Result (Option WebhookInfo)) (log : List Step)
    → IsClosed body r log (close_body body (reply_of r) log)
close_body-IsClosed none (ok w) log = (refl, refl)
close_body-IsClosed none (err e) log = (refl, refl)
close_body-IsClosed none (panic m) log = (refl, refl)
close_body-IsClosed (some b) r log =
    (close_body-calls b r log, close_body-Joins b b.close r log refl)

validate_and_parse_http_request_lem :
    (parser : Option Parser) (token : String) (request : Request)
    → validate_and_parse_http_request parser token request
      ≡ close_body request.body
          (reply_of (parser_result parser token request))
          (parser_steps parser token request)
unfolding validate_and_parse_http_request
validate_and_parse_http_request_lem parser token request =
    ap (λ run. close_body request.body (reply_of run.0) run.1)
      (validate_then_parse_lem parser token request)

-- A request is parsed only if it was validated, and its body, if there is one, is closed after that,
-- exactly once: also if the parser fails or panics. What is returned is the parser's result; an error
-- of the close is the returned error if the parser gave none, and is joined behind the parser's error
-- if it gave one. A panic of the parser goes on.
pub parse_incoming_webhook-closes :
    (x : Externals) (origin : WebhookOrigin) (request : Request)
    → let parser = create_webhook_parser x origin in
      IsClosed request.body
        (parser_result parser origin.token request)
        (parser_steps parser origin.token request)
        (parse_incoming_webhook x origin request)
unfolding parse_incoming_webhook
parse_incoming_webhook-closes x origin request =
    let parser = create_webhook_parser x origin in
    rw (validate_and_parse_http_request_lem parser origin.token request) (
      close_body-IsClosed request.body (parser_result parser origin.token request)
        (parser_steps parser origin.token request))

-- A webhook of Azure Repos, or of a provider that the package does not know, makes the call panic:
-- `createWebhookParser` gives the nil interface.
pub parse_incoming_webhook-panics :
    (x : Externals) (origin : WebhookOrigin) (request : Request)
    → (origin.vcs_provider ≡ azure_repos) ⊎ (origin.vcs_provider ≡ other_provider)
    → (parse_incoming_webhook x origin request).reply ≡ panicked "nil pointer dereference"
unfolding parse_incoming_webhook
parse_incoming_webhook-panics x origin request (inl p) = rw p (ground arith)
parse_incoming_webhook-panics x origin request (inr p) = rw p (ground arith)
