-- ===== src/Webhook/Github/Pushes.antt =====
-- What GitHub's parser reads in a push.
use froggit_go.Base.{String, ◌<>◌, ◌≡◌, ◌⊎◌, if◌then◌else◌, true, ok, some, Option, none, arith}
use froggit_go.Vcs.{push, tag_pushed, tag_removed}
use froggit_go.Webhook.Info.{Tag}
use froggit_go.Webhook.Refs.{
  IsStatus, Gives, branch_status_lem, strip-heads, strip-heads_no_tag, strip-tags,
}
use froggit_go.Webhook.Github.{dispatch}
use froggit_go.Webhook.Github.Events.{PushEvent, push_event}

-- A push to the branch `b` is parsed as a push of `b` from the old to the new hash, with the status
-- that the two hashes tell: created, deleted or updated.
pub github_branch_push :
    (endpoint b : String) (e : PushEvent)
    → e.ref ≡ "refs/heads/" <> b
    → Gives
        (λ i.
          (i.event ≡ push)
          × (i.target_branch ≡ b)
          × (i.before_commit.hash ≡ e.before)
          × (i.commit.hash ≡ e.after)
          × IsStatus e.before e.after i.branch_status)
        (ok (dispatch endpoint (push_event e)))
unfolding dispatch
github_branch_push endpoint b e h =
    ground (
      arith,
      strip-heads e.ref b h,
      strip-heads_no_tag e.ref b h,
      branch_status_lem e.before e.after,
    )

abbrev pub TagIs : String → String → Option Tag → Type 0
TagIs name hash none = ⊥
TagIs name hash (some t) = (t.name ≡ name) × (t.hash ≡ hash)

-- A push that creates or deletes the tag `t` is parsed as such, with the hash that the tag has
-- after the creation or had before the deletion.
pub github_tag_push :
    (endpoint t : String) (e : PushEvent)
    → e.ref ≡ "refs/tags/" <> t
    → (e.created ≡ true) ⊎ (e.deleted ≡ true)
    → Gives
        (λ i.
          TagIs t (if e.created then e.after else e.before) i.tag
          × (i.event ≡ (if e.created then tag_pushed else tag_removed)))
        (ok (dispatch endpoint (push_event e)))
unfolding dispatch
github_tag_push endpoint t e h c = ground (arith, strip-tags h)
