-- ===== src/Client/Github/Hooks/Events.antt =====
-- Which events a webhook of GitHub is asked for.
use froggit_go.Base.{String, ◌≡◌, ◌↔◌, ◌⊎◌, inl, inr, refl, true, ◌||◌, List, [], ◌∷◌, arith}
use froggit_go.Vcs.{
  WebhookEvent, pr_opened, pr_edited, pr_rejected, pr_merged, push, tag_pushed, tag_removed,
  no_event,
}
use froggit_go.Client.Sorting.{SetApi, SetLaws, Occurs, IsDistinct}
use froggit_go.Client.Gitlab.Hooks.Events.{any, is_pr, is_tag, is_push}
use froggit_go.Client.Github.Hooks.{
  add_event, add_events, get_github_webhook_events, create_github_hook,
}

-- The name of an event for which there is one in the list.
abbrev pub IsAskedFor : String → List WebhookEvent → Type 0
IsAskedFor t events =
    ((t ≡ "pull_request") × (any is_pr events ≡ true))
    ⊎ ((t ≡ "push") × ((any is_push events || any is_tag events) ≡ true))

module _ (x : SetApi) (laws : SetLaws x) where
  add_event-Occurs :
      (set : x.Set) (e : WebhookEvent) (t : String)
      → Occurs t (x.to_slice (add_event x set e))
        ↔ (IsAskedFor t (e ∷ []) ⊎ Occurs t (x.to_slice set))
  unfolding add_event
  add_event-Occurs set pr_opened t = ground (arith, laws.add_iff set "pull_request" t)
  add_event-Occurs set pr_edited t = ground (arith, laws.add_iff set "pull_request" t)
  add_event-Occurs set pr_rejected t = ground (arith, laws.add_iff set "pull_request" t)
  add_event-Occurs set pr_merged t = ground (arith, laws.add_iff set "pull_request" t)
  add_event-Occurs set push t = ground (arith, laws.add_iff set "push" t)
  add_event-Occurs set tag_pushed t = ground (arith, laws.add_iff set "push" t)
  add_event-Occurs set tag_removed t = ground (arith, laws.add_iff set "push" t)
  add_event-Occurs set no_event t = ground arith

  IsAskedFor-cons :
      (e : WebhookEvent) (es : List WebhookEvent) (t : String)
      → IsAskedFor t (e ∷ es) ↔ (IsAskedFor t (e ∷ []) ⊎ IsAskedFor t es)
  IsAskedFor-cons e es t = ground arith

  add_events-Occurs :
      (set : x.Set) (es : List WebhookEvent) (t : String)
      → Occurs t (x.to_slice (add_events x set es)) ↔ (IsAskedFor t es ⊎ Occurs t (x.to_slice set))
  unfolding add_events
  add_events-Occurs set [] t = ground arith
  add_events-Occurs set (e ∷ es) t =
      let later = add_events-Occurs (add_event x set e) es t in
      let now = add_event-Occurs set e t in
      let both = IsAskedFor-cons e es t in
      (
        λ o. elim (later.0 o) [
          | inl es_has ↦ inl (both.1 (inr es_has))
          | inr had ↦ elim (now.0 had) [ inl e_has ↦ inl (both.1 (inl e_has)) | inr old ↦ inr old ]
        ],
        λ h. elim h [
          | inl asked ↦ elim (both.0 asked) [
            | inl e_has ↦ later.1 (inr (now.1 (inl e_has)))
            | inr es_has ↦ later.1 (inl es_has)
          ]
          | inr old ↦ later.1 (inr (now.1 (inr old)))
        ],
      )

  -- A webhook of GitHub is asked for `pull_request` exactly if one of the events is about a pull
  -- request, for `push` exactly if one of them is a push or about a tag, for nothing else, and for
  -- each once; it has the address, and the token as its secret. The set is assumed to keep its laws.
  pub create_github_hook_lem :
      (token payload_url : String) (events : List WebhookEvent)
      → let hook = create_github_hook x token payload_url events in
        (hook.url ≡ payload_url)
        × (hook.secret ≡ token)
        × IsDistinct hook.events
        × ((t : String) → Occurs t hook.events ↔ IsAskedFor t events)
  unfolding create_github_hook get_github_webhook_events
  create_github_hook_lem token payload_url events = (
    refl,
    refl,
    laws.slice-IsDistinct (add_events x x.make events),
    λ t.
        let filled = add_events-Occurs x.make events t in
        (
          λ o. elim (filled.0 o) [ inl asked ↦ asked | inr old ↦ absurd (laws.make_empty t old) ],
          λ asked. filled.1 (inl asked),
        ),
  )
