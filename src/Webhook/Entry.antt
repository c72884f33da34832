-- ===== src/Webhook/Entry.antt =====
-- The entry point of the package (vcsutils/webhookparser/webhookparser.go and factory.go).
pub mod Steps
pub mod Shape
pub mod Auth
use froggit_go.Base.{
  String, Option, none, some, List, [], ◌∷◌, Result, ok, err, panic, Error, join_errors,
}
use froggit_go.Calls.{Calls, ◌>>=◌, send, lift}
use froggit_go.Base.Text.{trim_last}
use froggit_go.Vcs.{
  VcsProvider, github, gitlab, bitbucket_server, bitbucket_cloud, azure_repos, other_provider,
}
use froggit_go.Webhook.Info.{WebhookInfo}
use froggit_go.Webhook.Http.{Request, Body, Time}
use froggit_go.Webhook.Parser.{Parser}
use froggit_go.Webhook.Github
use froggit_go.Webhook.Gitlab
use froggit_go.Webhook.BitbucketServer
use froggit_go.Webhook.BitbucketCloud

-- The packages that the parsers call: the two client libraries, the JSON decoder at the two payload
-- types, HMAC-SHA256 in hexadecimal, `time.Parse` and `mail.ParseAddress`.
pub record Externals : Type 0 where
  pub github : Github.Events.Api
  pub gitlab : Gitlab.Events.Api
  pub sign : String → String → String
  pub parse_time : String → String → Result Time
  pub parse_address : String → Option String
  pub unmarshal_server : String → Result BitbucketServer.Hook
  pub unmarshal_cloud : String → Result BitbucketCloud.Hook

pub record WebhookOrigin : Type 0 where
  pub vcs_provider : VcsProvider
  pub origin_url : String
  pub token : String

-- What a call gives: the two results, or a panic that unwinds it.
pub data Reply : Type 0 where
  returned : Option WebhookInfo → Option Error → Reply
  panicked : String → Reply

-- The calls of `validateAndParseHttpRequest` on the parser and on the body.
pub data Step : Type 0 where
  validates parses closes : Step

-- `calls` has the last call first.
pub record Outcome : Type 0 where
  pub reply : Reply
  pub calls : List Step

parser_for : Externals → VcsProvider → String → Option Parser
unfolding Github.new_parser Gitlab.new_parser BitbucketServer.new_parser BitbucketCloud.new_parser
parser_for x github url = some (Github.new_parser x.github url)
parser_for x gitlab url = some (Gitlab.new_parser x.gitlab x.parse_time)
parser_for x bitbucket_server url =
    some (BitbucketServer.new_parser x.sign x.parse_time x.unmarshal_server url)
parser_for x bitbucket_cloud url =
    some (BitbucketCloud.new_parser x.parse_address x.unmarshal_cloud)
parser_for x azure_repos url = none
parser_for x other_provider url = none

-- `createWebhookParser`; `none` is the nil interface.
unfoldable pub create_webhook_parser : Externals → WebhookOrigin → Option Parser
unfolding parser_for trim_last
create_webhook_parser x o = parser_for x o.vcs_provider (trim_last "/" o.origin_url)

-- The calls on the parser. A method of the nil interface panics.
unfoldable pub validate_then_parse :
    Option Parser → String → Request → Calls Step (Option WebhookInfo)
unfolding ◌>>=◌ send lift
validate_then_parse none token request = lift (panic "nil pointer dereference")
validate_then_parse (some p) token request = do
  payload ← send (λ _ _. p.validate_payload request token) validates
  send (λ _ _. p.parse_incoming_webhook request payload) parses

abbrev reply_of : Result (Option WebhookInfo) → Reply
reply_of (ok w) = returned w none
reply_of (err e) = returned none (some e)
reply_of (panic m) = panicked m

-- The deferred call closes the body and joins its error to the one that is returned; a panic goes on.
abbrev close_body : Option Body → Reply → List Step → Outcome
close_body none r log = record { reply = r; calls = log }
close_body (some b) (returned w e) log = record {
  reply = returned w (join_errors e b.close);
  calls = closes ∷ log;
}
close_body (some b) (panicked m) log = record { reply = panicked m; calls = closes ∷ log }

-- `validateAndParseHttpRequest`
unfoldable pub validate_and_parse_http_request : Option Parser → String → Request → Outcome
unfolding validate_then_parse join_errors
validate_and_parse_http_request parser token request =
    let (result, log) = validate_then_parse parser token request [] in
    close_body request.body (reply_of result) log

-- `ParseIncomingWebhook`
unfoldable pub parse_incoming_webhook : Externals → WebhookOrigin → Request → Outcome
unfolding create_webhook_parser validate_and_parse_http_request
parse_incoming_webhook x origin request =
    validate_and_parse_http_request (create_webhook_parser x origin) origin.token request
