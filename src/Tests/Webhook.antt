-- ===== src/Tests/Webhook.antt =====
-- A request from GitLab with its token, and requests that fail.
use froggit_go.Base.{
  String, pos, ◌<>◌, ◌≡◌, ◌≢◌, refl, inl, inr, true, false, ◌==◌, if◌then◌else◌, [], ◌∷◌, none,
  some, Result, ok, err, foreign, errorf, arith, eq_iff,
}
use mathlib.Core.Path.{subst}
use froggit_go.Vcs.{push, tag_pushed, github, gitlab, azure_repos}
use froggit_go.Webhook.Info
use froggit_go.Webhook.Info.{WebhookInfo, created, no_user, no_commit, no_info, no_tag, no_repo}
use froggit_go.Webhook.Http.{Request, Body, Time}
use froggit_go.Webhook.Shape.{IsWellFormed}
use froggit_go.Webhook.Github
use froggit_go.Webhook.Gitlab
use froggit_go.Webhook.BitbucketServer
use froggit_go.Webhook.Entry.{
  Externals, WebhookOrigin, returned, panicked, create_webhook_parser, validates, parses,
  parse_incoming_webhook,
}
use froggit_go.Webhook.Entry.Auth.{
  IsAuthentic, IsClosed, parse_incoming_webhook-IsAuthentic, parse_incoming_webhook-closes,
  parse_incoming_webhook-panics,
}
use froggit_go.Webhook.Entry.Shape.{IsSettled, parse_incoming_webhook-IsWellFormed}

abbrev pub noon : Time
noon = record { unix = pos 1700000000; nanos = 0 }

abbrev commit : Gitlab.Events.PushCommit
commit = record {
  message = "first";
  url = "https://gitlab.com/acme/app/-/commit/9";
  timestamp = some noon;
  author_name = "Ann";
  author_email = "ann@acme.io";
}

abbrev pub gitlab_push : Gitlab.Events.PushEvent
gitlab_push = record {
  before = Info.git_nil_hash;
  after = "9f";
  ref = "refs/heads/main";
  user_username = "ann";
  user_email = "ann@acme.io";
  user_name = "Ann";
  user_avatar = "";
  project_path = "acme/app";
  commits = some commit ∷ [];
}

abbrev no_links : BitbucketServer.Links
no_links = record { self = [] }

abbrev server_repo : BitbucketServer.Repository
server_repo = record { slug = "app"; project_key = some "ACME" }

abbrev server_ref : BitbucketServer.Ref
server_ref = record { id = "refs/heads/main"; latest_commit = "9f"; repository = server_repo }

abbrev pub server_change : BitbucketServer.Changes
server_change = record {
  ref_display_id = "main";
  ref_type = "BRANCH";
  ref_id = "refs/heads/main";
  to_hash = "9f";
  from_hash = Info.git_nil_hash;
  type = "ADD";
}

abbrev pub server_hook : BitbucketServer.Hook
server_hook = record {
  event_key = "repo:refs_changed";
  date = "2023-11-14T22:13:20+0000";
  repository = server_repo;
  pull_request = record {
    id = pos 1;
    title = "t";
    updated_date = pos 0;
    links = no_links;
    author = none;
    from_ref = server_ref;
    to_ref = server_ref;
  };
  changes = server_change ∷ [];
  actor = record {
    name = "ann";
    email_address = "ann@acme.io";
    display_name = "Ann";
    links = no_links;
  };
}

abbrev pub parse_time : String → String → Result Time
parse_time layout text = ok noon

abbrev github_api : Github.Events.Api
github_api = record {
  sha256_signature_header = "X-Hub-Signature-256";
  validate_payload = λ request token. ok "{}";
  web_hook_type = λ request. "ping";
  parse_web_hook = λ kind payload. ok Github.Events.other_event;
}

abbrev world : Externals
world = record {
  github = github_api;
  gitlab = record {
    webhook_event_type = λ request. "Push Hook";
    parse_webhook = λ kind payload. ok (Gitlab.Events.push_event gitlab_push);
  };
  sign = λ payload token. payload <> token;
  parse_time = parse_time;
  parse_address = λ raw. none;
  unmarshal_server = λ payload. ok server_hook;
  unmarshal_cloud = λ payload. err (foreign "bad json");
}

abbrev body : Body
body = record { content = ok "{}"; close = some (foreign "close failed") }

abbrev request : Request
request = record { headers = ("x-gitlab-token", "secret") ∷ []; query = []; body = some body }

abbrev origin : WebhookOrigin
origin = record { vcs_provider = gitlab; origin_url = "https://gitlab.com/"; token = "secret" }

abbrev parsed : WebhookInfo
parsed = record no_info {
  target_repository_details = record { name = "app"; owner = "acme" };
  target_branch = "main";
  timestamp = pos 1700000000;
  event = push;
  commit = record {
    hash = "9f";
    message = "first";
    url = "https://gitlab.com/acme/app/-/commit/9";
  };
  before_commit = record no_commit { hash = Info.git_nil_hash };
  branch_status = created;
  triggered_by = record no_user { login = "ann"; email = "ann@acme.io"; display_name = "Ann" };
  committer = record no_user { display_name = "Ann"; email = "ann@acme.io" };
  author = record no_user { display_name = "Ann"; email = "ann@acme.io" };
}

-- The webhook comes back beside the error of closing the body.
reply :
    (parse_incoming_webhook world origin request).reply
    ≡ returned (some parsed) (some (foreign "close failed"))
unfolding parse_incoming_webhook
reply = refl

wrong_token :
    (parse_incoming_webhook world
      (record origin { token = "other" })
      (record request { body = none })).reply
    ≡ returned none (some (errorf "token mismatch"))
unfolding parse_incoming_webhook
wrong_token = refl

not_empty : ◌≢◌ {A = String} "secret" ""
not_empty = ground (arith, eq_iff "secret" "")

parse_incoming_webhook-IsAuthentic_example : IsAuthentic world gitlab "secret" request
parse_incoming_webhook-IsAuthentic_example =
    parse_incoming_webhook-IsAuthentic world origin request not_empty reply

abbrev tag_push : Github.Events.PushEvent
tag_push = record {
  ref = "refs/tags/v1";
  created = true;
  deleted = false;
  before = Info.git_nil_hash;
  after = "9f";
  repo = none;
  pusher = none;
  head_commit = none;
  head_commit_timestamp = noon;
}

-- The token is the payload, and the payload "moved" is a push of a tag that was moved.
abbrev github_world : Externals
github_world = record world {
  github = record {
    sha256_signature_header = "X-Hub-Signature-256";
    validate_payload = λ request token. ok token;
    web_hook_type = λ request. "push";
    parse_web_hook = λ kind payload. ok (
        Github.Events.push_event
          (if payload == "moved" then record tag_push { created = false } else tag_push));
  };
}

abbrev signed : Request
signed = record request { headers = ("x-hub-signature-256", "sha256=9") ∷ [] }

abbrev github_origin : WebhookOrigin
github_origin = record origin { vcs_provider = github; origin_url = "" }

abbrev tagged : WebhookInfo
tagged = record no_info {
  event = tag_pushed;
  tag = some (record no_tag { name = "v1"; hash = "9f" });
}

tag_reply :
    (parse_incoming_webhook github_world github_origin signed).reply
    ≡ returned (some tagged) (some (foreign "close failed"))
unfolding parse_incoming_webhook
tag_reply = refl

settled : IsSettled github_world github "secret" signed
unfolding Github.validate_payload
settled payload e valid h =
    subst Github.Shapes.IsSettled (pushed (subst Parses (secret valid) h)) (inr (inl refl))
  where
    Parses : String → Type 0
    Parses t = github_world.github.parse_web_hook "push" t ≡ ok e

    secret : ok "secret" ≡ ok payload → payload ≡ "secret"
    secret p = cc

    pushed : ok (Github.Events.push_event tag_push) ≡ ok e → Github.Events.push_event tag_push ≡ e
    pushed p = cc

parse_incoming_webhook-IsWellFormed_example : IsWellFormed tagged
parse_incoming_webhook-IsWellFormed_example =
    parse_incoming_webhook-IsWellFormed github_world github_origin signed settled tag_reply

parse_incoming_webhook-closes_example :
    IsClosed
      (some body)
      (ok (some parsed))
      (parses ∷ validates ∷ [])
      (parse_incoming_webhook world origin request)
unfolding create_webhook_parser
parse_incoming_webhook-closes_example = parse_incoming_webhook-closes world origin request

parse_incoming_webhook-panics_example :
    (parse_incoming_webhook world (record origin { vcs_provider = azure_repos }) request).reply
    ≡ panicked "nil pointer dereference"
parse_incoming_webhook-panics_example =
    parse_incoming_webhook-panics world (record origin { vcs_provider = azure_repos }) request
      (inl refl)
