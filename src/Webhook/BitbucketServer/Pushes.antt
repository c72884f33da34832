-- ===== src/Webhook/BitbucketServer/Pushes.antt =====
-- What the parser of Bitbucket Server reads in changed refs.
use froggit_go.Base.{String, ◌<>◌, ◌≡◌, ok, Result, some, List, ◌∷◌, arith, eq_iff}
use froggit_go.Vcs.{push}
use froggit_go.Webhook.Http.{Time}
use froggit_go.Webhook.Refs.{IsStatus, Gives, branch_status_lem, strip-heads}
use froggit_go.Webhook.BitbucketServer.{Hook, Changes, dispatch}

-- If the first change of a webhook of changed refs is to the branch `b`, the repository has the key of
-- a project, and the date of the payload can be parsed, then the result is a push of `b` to that
-- repository between the hashes of that change, at that time, with the status that the two hashes tell.
pub server_branch_push :
    (parse_time : String → String → Result Time) (endpoint b key : String) (time : Time)
    (hook : Hook) (c : Changes) (rest : List Changes)
    → hook.changes ≡ c ∷ rest
    → c.ref_type ≡ "BRANCH"
    → c.ref_id ≡ "refs/heads/" <> b
    → hook.repository.project_key ≡ some key
    → parse_time "2006-01-02T15:04:05-0700" hook.date ≡ ok time
    → Gives
        (λ i.
          (i.event ≡ push)
          × (i.target_repository_details ≡ record { name = hook.repository.slug; owner = key })
          × (i.target_branch ≡ b)
          × (i.timestamp ≡ time.unix)
          × (i.before_commit.hash ≡ c.from_hash)
          × (i.commit.hash ≡ c.to_hash)
          × IsStatus c.from_hash c.to_hash i.branch_status)
        (dispatch parse_time endpoint "repo:refs_changed" hook)
unfolding dispatch
server_branch_push parse_time endpoint b key time hook c rest hc ht hr hk hp = rw hc (
    ground (
      arith,
      eq_iff c.ref_type "BRANCH",
      strip-heads c.ref_id b hr,
      branch_status_lem c.from_hash c.to_hash,
    ))
