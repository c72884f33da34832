-- ===== src/Webhook/Gitlab/Pushes.antt =====
-- What GitLab's parser reads in a push, a tag and a project path.
use froggit_go.Base.{
  String, ◌<>◌, ◌≡◌, ◌≢◌, ok, panic, Result, some, Option, none, List, [], ◌∷◌, arith, ◌==◌,
  if◌then◌else◌,
}
use froggit_go.Base.Text.{
  Lacks, split_parts, split_parts-Lacks, split_parts-append, split_parts-pair, split,
}
use froggit_go.Vcs.{push, tag_pushed, tag_removed}
use froggit_go.Webhook.Http.{Time}
use froggit_go.Webhook.Info.{Tag}
use froggit_go.Webhook.Refs.{IsStatus, Gives, branch_status_lem, strip-heads, strip-tags}
use froggit_go.Webhook.Gitlab.{dispatch, parse_repo_details}
use froggit_go.Webhook.Gitlab.Events.{PushEvent, PushCommit, TagEvent, push_event, tag_event}

-- A path of an owner and a name gives the two.
pub parse_repo_details_lem :
    (owner name : String)
    → Lacks "/" owner
    → Lacks "/" name
    → parse_repo_details (owner <> String.◌∷◌ "/" name) ≡ ok (record { name = name; owner = owner })
unfolding parse_repo_details split
parse_repo_details_lem owner name o n = ground (arith, split_parts-pair "/" owner name o n)

-- Of the path of a project in a subgroup only the group is read, and not the project's name.
pub parse_repo_details-subgroup :
    (owner group rest : String)
    → Lacks "/" owner
    → Lacks "/" group
    → parse_repo_details (owner <> String.◌∷◌ "/" (group <> String.◌∷◌ "/" rest))
      ≡ ok (record { name = group; owner = owner })
unfolding parse_repo_details split
parse_repo_details-subgroup owner group rest o g = ground (
  arith,
  split_parts-append "/" owner (group <> String.◌∷◌ "/" rest) o,
  split_parts-append "/" group rest g,
)

-- A path without a `/` makes the parser panic.
pub parse_repo_details-panics :
    (path : String)
    → Lacks "/" path
    → parse_repo_details path ≡ panic "index out of range [1] with length 1"
unfolding parse_repo_details
parse_repo_details-panics path h = ground (arith, split_parts-Lacks "/" path h)

project_parts :
    (owner name path : String)
    → Lacks "/" owner
    → Lacks "/" name
    → path ≡ owner <> String.◌∷◌ "/" name
    → split_parts "/" path ≡ record { first = owner; others = name ∷ [] }
project_parts owner name path o n p = rw p (split_parts-pair "/" owner name o n)

-- The first commit, if there is one, has a timestamp.
abbrev pub FirstIsTimed : List (Option PushCommit) → Type 0
FirstIsTimed [] = Unit
FirstIsTimed (none ∷ _) = ⊥
FirstIsTimed (some c ∷ _) = c.timestamp ≢ none

-- A push to the branch `b` of a project whose path is an owner and a name, and whose first commit, if
-- there is one, has a timestamp, does not panic, and is parsed as a push of `b` to that repository with
-- the hashes before and after and the status that they tell.
pub gitlab_branch_push :
    (parse_time : String → String → Result Time) (owner name b : String) (e : PushEvent)
    → Lacks "/" owner
    → Lacks "/" name
    → e.project_path ≡ owner <> String.◌∷◌ "/" name
    → e.ref ≡ "refs/heads/" <> b
    → FirstIsTimed e.commits
    → Gives
        (λ i.
          (i.event ≡ push)
          × (i.target_repository_details ≡ record { name = name; owner = owner })
          × (i.target_branch ≡ b)
          × (i.before_commit.hash ≡ e.before)
          × (i.commit.hash ≡ e.after)
          × IsStatus e.before e.after i.branch_status)
        (dispatch parse_time (push_event e))
unfolding dispatch
gitlab_branch_push parse_time owner name b e o n p r t = ground (
  arith,
  strip-heads e.ref b r,
  branch_status_lem e.before e.after,
  project_parts owner name e.project_path o n p,
)

abbrev pub TagIs : String → String → Option Tag → Type 0
TagIs name hash none = ⊥
TagIs name hash (some t) = (t.name ≡ name) × (t.hash ≡ hash)

-- An event of the tag `t` is a push if the event names a checkout, and else a removal; the hash is
-- that after the push or before the removal.
pub gitlab_tag_push :
    (parse_time : String → String → Result Time) (owner name t : String) (e : TagEvent)
    → Lacks "/" owner
    → Lacks "/" name
    → e.project_path ≡ owner <> String.◌∷◌ "/" name
    → e.ref ≡ "refs/tags/" <> t
    → Gives
        (λ i.
          TagIs t (if e.checkout_sha == "" then e.before else e.after) i.tag
          × (i.event ≡ (if e.checkout_sha == "" then tag_removed else tag_pushed)))
        (dispatch parse_time (tag_event e))
unfolding dispatch
gitlab_tag_push parse_time owner name t e o n p r =
    ground (arith, strip-tags r, project_parts owner name e.project_path o n p)
