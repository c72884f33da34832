-- ===== src/Webhook/BitbucketCloud/Auth.antt =====
-- Which requests the parser of Bitbucket Cloud accepts.
use froggit_go.Base.{String, ◌≡◌, ◌≢◌, ◌↔◌, List, [], ◌∷◌, Result, ok, panic, arith, eq_iff}
use froggit_go.Webhook.Http.{Request, query_values, read_body}
use froggit_go.Webhook.BitbucketCloud.{check_keys, validate_payload}

-- The first value of a query parameter, if there is one, is the expected text.
abbrev pub FirstIs : String → List String → Type 0
FirstIs token [] = token ≡ ""
FirstIs token (key ∷ _) = key ≡ token

check_keys-ok_iff :
    (keys : List String) (token : String) (body : Result String) (payload : String)
    → (check_keys keys token body ≡ ok payload) ↔ (FirstIs token keys × (body ≡ ok payload))
unfolding check_keys
check_keys-ok_iff [] token body payload = ground (arith, eq_iff token "")
check_keys-ok_iff (key ∷ _) token body payload = ground (arith, eq_iff key token)

-- The payload is accepted exactly when the first `token` of the query is the configured one, or
-- there is none and none is configured, and the body can be read. If none is configured, a query whose
-- first `token` is not empty is refused.
pub cloud_accepts_iff :
    (request : Request) (token payload : String)
    → (validate_payload request token ≡ ok payload)
      ↔ (FirstIs token (query_values request.query "token") × (read_body request ≡ ok payload))
unfolding validate_payload
cloud_accepts_iff request token payload =
    check_keys-ok_iff (query_values request.query "token") token (read_body request) payload

-- With a token configured, a request without a `token` in its query makes the parser panic.
pub validate_payload-panics :
    (request : Request) (token : String)
    → token ≢ ""
    → query_values request.query "token" ≡ []
    → validate_payload request token ≡ panic "index out of range [0] with length 0"
unfolding validate_payload
validate_payload-panics request token t q = ground (arith, eq_iff token "")
