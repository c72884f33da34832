-- ===== src/Webhook/Shape.antt =====
-- What a client may rely on in every parsed webhook, and rules for results.
use froggit_go.Base.{◌≡◌, ◌≢◌, refl, Option, none, some, Result, ok, err, panic, ◌>>=◌}
use froggit_go.Vcs.{
  WebhookEvent, pr_rejected, pr_edited, pr_merged, pr_opened, push, tag_pushed, tag_removed,
  no_event,
}
use froggit_go.Webhook.Info.{WebhookInfo, PullRequest, Tag, no_status}

-- The pull request repeats the identity of the webhook.
abbrev pub Mirrors : WebhookInfo → Option PullRequest → Type 0
Mirrors i none = ⊥
Mirrors i (some p) =
    (p.id ≡ i.pull_request_id)
    × (p.target_repository ≡ i.target_repository_details)
    × (p.target_branch ≡ i.target_branch)
    × (p.source_repository ≡ i.source_repository_details)
    × (p.source_branch ≡ i.source_branch)

abbrev pub HasTag : Option Tag → Type 0
HasTag none = ⊥
HasTag (some t) = Unit

-- A pull request event carries a pull request and no tag, a push carries neither and has a branch
-- status, a tag event carries a tag and no pull request. There is no other event.
abbrev pub HasShape : WebhookEvent → WebhookInfo → Type 0
HasShape push i = (i.pull_request ≡ none) × (i.tag ≡ none) × (i.branch_status ≢ no_status)
HasShape tag_pushed i = HasTag i.tag × (i.pull_request ≡ none)
HasShape tag_removed i = HasTag i.tag × (i.pull_request ≡ none)
HasShape no_event i = ⊥
HasShape pr_opened i = Mirrors i i.pull_request × (i.tag ≡ none)
HasShape pr_edited i = Mirrors i i.pull_request × (i.tag ≡ none)
HasShape pr_merged i = Mirrors i i.pull_request × (i.tag ≡ none)
HasShape pr_rejected i = Mirrors i i.pull_request × (i.tag ≡ none)

abbrev pub IsWellFormed : WebhookInfo → Type 0
IsWellFormed i = HasShape i.event i

abbrev pub IsPrEvent : WebhookEvent → Type 0
IsPrEvent pr_opened = Unit
IsPrEvent pr_edited = Unit
IsPrEvent pr_merged = Unit
IsPrEvent pr_rejected = Unit
IsPrEvent _ = ⊥

-- If the result holds a webhook, it has the property.
abbrev pub Yields : (WebhookInfo → Type 0) → Result (Option WebhookInfo) → Type 0
Yields P (ok (some i)) = P i
Yields P _ = Unit

pub Yields-elim :
    (P : WebhookInfo → Type 0) (r : Result (Option WebhookInfo)) {i : WebhookInfo}
    → r ≡ ok (some i)
    → Yields P r
    → P i
Yields-elim P r e h = rw e at h

module _ {A : Type 0} (P : WebhookInfo → Type 0) where
  pub Yields-bind :
      (m : Result A) (f : A → Result (Option WebhookInfo))
      → ((a : A) → m ≡ ok a → Yields P (f a))
      → Yields P (m >>= f)
  Yields-bind (ok a) f h = h a refl
  Yields-bind (err e) f h = tt
  Yields-bind (panic e) f h = tt

pub Shape-pr :
    (event : WebhookEvent) (i : WebhookInfo)
    → IsPrEvent event
    → Mirrors i i.pull_request
    → i.tag ≡ none
    → HasShape event i
Shape-pr pr_opened i h m t = (m, t)
Shape-pr pr_edited i h m t = (m, t)
Shape-pr pr_merged i h m t = (m, t)
Shape-pr pr_rejected i h m t = (m, t)
Shape-pr _ i h m t = absurd h
