-- ===== src/Webhook/Refs.antt =====
-- What a push says: which branch or tag moved, and whether it was made or removed.
use froggit_go.Base.{
  String, ◌≡◌, ◌≢◌, ◌⊎◌, refl, not, Option, none, some, Result, ok, arith, ◌==◌, eq_iff, ◌<>◌,
}
use froggit_go.Base.Text.{strip, strip-append, strip-clash}
use froggit_go.Webhook.Info
use froggit_go.Webhook.Info.{
  WebhookInfo, BranchStatus, created, updated, deleted, no_status, git_nil_hash,
}

-- Git's hash of no commit stands before a creation and after a deletion.
abbrev pub IsStatus : String → String → BranchStatus → Type 0
IsStatus before after created = (before ≡ git_nil_hash) × (after ≢ git_nil_hash)
IsStatus before after deleted = (before ≢ git_nil_hash) × (after ≡ git_nil_hash)
IsStatus before after updated =
    ((before ≡ git_nil_hash) × (after ≡ git_nil_hash))
    ⊎ ((before ≢ git_nil_hash) × (after ≢ git_nil_hash))
IsStatus before after no_status = ⊥

pub branch_status_lem :
    (before after : String)
    → IsStatus before after
        (Info.branch_status (not (before == git_nil_hash)) (not (after == git_nil_hash)))
unfolding Info.branch_status
branch_status_lem before after =
    ground (arith, eq_iff before git_nil_hash, eq_iff after git_nil_hash)

-- There is a webhook, and it has the property.
abbrev pub Gives : (WebhookInfo → Type 0) → Result (Option WebhookInfo) → Type 0
Gives P (ok (some i)) = P i
Gives P _ = ⊥

-- A full branch name has the name of the branch behind its prefix, and is not that of a tag.
module _ (ref b : String) (h : ref ≡ "refs/heads/" <> b) where
  pub strip-heads : strip "refs/heads/" ref ≡ some b
  strip-heads = rw h (strip-append "refs/heads/" b)

  pub strip-heads_no_tag : strip "refs/tags/" ref ≡ none
  unfolding strip
  strip-heads_no_tag = rw h (strip-clash "refs/tags/" "refs/heads/" b refl refl)

pub strip-tags : {ref t : String} → ref ≡ "refs/tags/" <> t → strip "refs/tags/" ref ≡ some t
strip-tags {t} h = rw h (strip-append "refs/tags/" t)
