-- ===== src/Client/Gitlab/Hooks/Identity.antt =====
-- A webhook of GitLab is updated and deleted by the identifier that its creation gave.
use froggit_go.Base.{ℤ, String, ◌≡◌, refl, List, ◌∷◌, Result, ok}
use froggit_go.Base.Decimal.{decimal_int}
use froggit_go.Calls.{◌>>=◌, pure, lift, send}
use froggit_go.Vcs.{WebhookEvent}
use froggit_go.Client.Gitlab.Api.{
  Call, add_project_hook, edit_project_hook, delete_project_hook, Server,
}
use froggit_go.Client.Gitlab.Repos.{get_project_id}
use froggit_go.Client.Gitlab.Hooks.{
  create_project_hook, create_webhook, update_webhook, delete_webhook,
}

-- If the server gives a new hook the number `id`, and `strconv.Atoi` reads what `strconv.Itoa` wrote
-- of it, then the identifier that `CreateWebhook` returns makes `UpdateWebhook` edit, with the token
-- of the creation, and `DeleteWebhook` delete the hook of that number.
pub create_webhook-identity :
    (atoi : String → Result ℤ) (s : Server) (token owner repository branch payload_url : String)
    (events : List WebhookEvent) (id : ℤ) (log : List Call)
    → s.hook_id log (
        add_project_hook
          (get_project_id owner repository)
          token
          (create_project_hook branch payload_url events))
      ≡ ok id
    → atoi (decimal_int id) ≡ ok id
    → let project = get_project_id owner repository in
      let hook = create_project_hook branch payload_url events in
      (webhook_id : String) × (create_webhook atoi s token owner repository branch payload_url
          events log
        ≡ (ok (webhook_id, token), add_project_hook project token hook ∷ log))
      × ((update_webhook atoi s owner repository branch payload_url token webhook_id events log).1
          ≡ edit_project_hook project id token hook ∷ log)
      × ((delete_webhook atoi s owner repository webhook_id log).1
          ≡ delete_project_hook project id ∷ log)
unfolding create_webhook update_webhook delete_webhook ◌>>=◌ pure lift send
create_webhook-identity atoi s token owner repository branch payload_url events id log created
      read =
    (decimal_int id, rw created refl, rw read refl, rw read refl)
