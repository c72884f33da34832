-- ===== src/Webhook/BitbucketServer/Auth.antt =====
-- Which requests the parser of Bitbucket Server accepts.
use froggit_go.Base.{String, ◌<>◌, ◌≡◌, ◌↔◌, ◌⊎◌, ok, arith, eq_iff}
use froggit_go.Webhook.Http.{Request, header_get, read_body}
use froggit_go.Webhook.BitbucketServer.{validate_payload}

abbrev pub signature : Request → String
signature request = header_get request.headers "X-Hub-Signature"

-- The payload is accepted exactly when it is the body and the signature header is that of the
-- body under the token, or neither a token is configured nor a signature sent.
pub server_accepts_iff :
    (sign : String → String → String) (request : Request) (token payload : String)
    → (validate_payload sign request token ≡ ok payload) ↔ (
        (read_body request ≡ ok payload)
        × (((token ≡ "") × (signature request ≡ ""))
            ⊎ (signature request ≡ "sha256=" <> sign payload token)))
unfolding validate_payload
server_accepts_iff sign request token payload = ground (
  arith,
  eq_iff token "",
  eq_iff (signature request) "",
  eq_iff (signature request) ("sha256=" <> sign payload token),
)
