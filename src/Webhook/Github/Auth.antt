-- ===== src/Webhook/Github/Auth.antt =====
-- Which requests GitHub's parser accepts.
use froggit_go.Base.{String, ◌≡◌, ◌≢◌, ◌↔◌, ◌⊎◌, ok, arith, eq_iff}
use froggit_go.Webhook.Http.{Request, header_get}
use froggit_go.Webhook.Github.{validate_payload}
use froggit_go.Webhook.Github.Events.{Api}

-- The payload is accepted exactly when go-github accepts it and, if a token is configured, the
-- request has a signature header.
pub github_accepts_iff :
    (api : Api) (request : Request) (token payload : String)
    → (validate_payload api request token ≡ ok payload) ↔ (
        (api.validate_payload request token ≡ ok payload)
        × ((token ≡ "") ⊎ (header_get request.headers api.sha256_signature_header ≢ "")))
unfolding validate_payload
github_accepts_iff api request token payload =
    ground
      (arith, eq_iff token "", eq_iff (header_get request.headers api.sha256_signature_header) "")
