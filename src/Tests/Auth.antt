-- ===== src/Tests/Auth.antt =====
-- What each parser accepts, at single requests.
use froggit_go.Base.{String, ◌<>◌, ◌≡◌, ◌≢◌, ◌↔◌, refl, [], ◌∷◌, some, none, ok, arith, eq_iff}
use froggit_go.Webhook.Http.{Request, query_values, read_body}
use froggit_go.Webhook.Github
use froggit_go.Webhook.Gitlab
use froggit_go.Webhook.BitbucketServer
use froggit_go.Webhook.BitbucketCloud
use froggit_go.Webhook.Github.Events.{Api}
use froggit_go.Webhook.BitbucketCloud.Auth.{FirstIs, cloud_accepts_iff}

abbrev api : Api
api = record {
  sha256_signature_header = "X-Hub-Signature-256";
  validate_payload = λ request token. read_body request;
  web_hook_type = λ request. "push";
  parse_web_hook = λ kind payload. ok Github.Events.other_event;
}

abbrev sign : String → String → String
sign payload token = payload <> token

abbrev request : Request
request = record {
  headers = ("x-gitlab-token", "t") ∷ ("x-hub-signature", "sha256={}t") ∷ [];
  query = ("token", "t") ∷ [];
  body = some (record { content = ok "{}"; close = none });
}

cloud_accepts_iff_example :
    (BitbucketCloud.validate_payload request "t" ≡ ok "{}")
    ↔ (FirstIs "t" (query_values request.query "token") × (read_body request ≡ ok "{}"))
cloud_accepts_iff_example = cloud_accepts_iff request "t" "{}"

-- The request shows the token to the three parsers that need no package for that.
gitlab_accepts : Gitlab.validate_payload request "t" ≡ ok "{}"
unfolding Gitlab.validate_payload
gitlab_accepts = refl

server_accepts : BitbucketServer.validate_payload sign request "t" ≡ ok "{}"
unfolding BitbucketServer.validate_payload
server_accepts = refl

cloud_accepts : BitbucketCloud.validate_payload request "t" ≡ ok "{}"
unfolding BitbucketCloud.validate_payload
cloud_accepts = refl

some_token : ◌≢◌ {A = String} "t" ""
some_token = ground (arith, eq_iff "t" "")

no_query : query_values [] "token" ≡ []
unfolding query_values
no_query = refl
