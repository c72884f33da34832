-- ===== src/Webhook/Gitlab/Auth.antt =====
-- Which requests GitLab's parser accepts.
use froggit_go.Base.{String, ◌≡◌, ◌↔◌, ok, arith, eq_iff}
use froggit_go.Webhook.Http.{Request, header_get, read_body}
use froggit_go.Webhook.Gitlab.{validate_payload}

-- The payload is accepted exactly when the header has the configured token, where a missing header
-- counts as an empty one, and the body can be read.
pub gitlab_accepts_iff :
    (request : Request) (token payload : String)
    → (validate_payload request token ≡ ok payload)
      ↔ ((header_get request.headers "X-GitLab-Token" ≡ token) × (read_body request ≡ ok payload))
unfolding validate_payload
gitlab_accepts_iff request token payload = ground (
  arith,
  eq_iff token "",
  eq_iff (header_get request.headers "X-GitLab-Token") token,
  eq_iff (header_get request.headers "X-GitLab-Token") "",
)
