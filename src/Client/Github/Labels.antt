-- ===== src/Client/Github/Labels.antt =====
-- Labels on GitHub.
pub mod Paging
use froggit_go.Base.{
  ℕ, zero, suc, ◌+◌, ℤ, pos, negsuc, String, Bool, true, false, Option, none, some, List, [], ◌∷◌,
  ◌++◌, Result, ok, err, panic, Error, leb, nat_eq, deref, if◌then◌else◌, ◌>>=◌ as ◌>>>◌,
}
use froggit_go.Calls.{◌>>=◌, ◌>>◌, pure, lift}
use froggit_go.Client.Types.{LabelInfo}
use froggit_go.Client.Params.{Order}
use froggit_go.Client.Shared.{validated}
use froggit_go.Client.Github.Api.{
  GithubResponse, Call, create_label_as, get_label_named, list_labels_by_issue,
  remove_label_for_issue, Label, Server, Rest,
}
use froggit_go.Client.Github.RateLimit.{
  Outcome, returned, crashed, Attempt, request, reading_with, reading, limited,
  limited_with_response, ask,
}

-- The three pointers are read without a check.
label_info : Label → Result LabelInfo
label_info l = deref l.name >>> λ name. deref l.description >>> λ description.
    deref l.color >>> λ color. ok (record { name = name; description = description; color = color })

is_not_found : Option GithubResponse → Bool
is_not_found none = false
is_not_found (some r) = elim r.http [ none ↦ false | some h ↦ nat_eq h.status_code 404 ]

-- A label that is not found is nil, without an error.
found : Outcome (Option (Option LabelInfo)) → Outcome (Option (Option LabelInfo))
unfolding is_not_found
found (returned r (some e) l) =
    if is_not_found r then returned r none (some none) else returned r (some e) l
found (returned r none l) = returned r none l
found (crashed m) = crashed m

-- `nextPage+1 >= ghResponse.LastPage`
unfoldable pub is_last : ℕ → ℤ → Bool
is_last page (pos last) = leb last (page + 1)
is_last page (negsuc n) = true

label_names : List (Option String) → Result (List String)
label_names [] = ok []
label_names (l ∷ ls) = deref l >>> λ name. label_names ls >>> λ names. ok (name ∷ names)

module _ (s : Server) where
  execute_get_label : String → String → String → Attempt (Option (Option LabelInfo))
  unfolding found request reading_with label_info
  execute_get_label owner repository name log =
      let (o, log') =
        reading (request s.label (get_label_named owner repository name))
          (λ l. label_info l >>> λ i. ok (some i)) log in
      (found o, log')

  -- The loop over the pages, with so many rounds of fuel.
  unfoldable pub label_loop : String → String → ℤ → ℕ → ℕ → List String → Rest (List String)
  unfolding limited_with_response request label_names is_last
  label_loop owner repository id zero page results = lift (panic "out of fuel")
  label_loop owner repository id (suc fuel) page results = do
    (labels, response) ←
        limited_with_response s (request s.labels (list_labels_by_issue owner repository id page))
    names ← lift (label_names labels)
    r ← lift (deref response)
    (if is_last page r.last_page
        then pure (results ++ names)
        else label_loop owner repository id fuel (suc page) (results ++ names))

module _ (order : Order) (s : Server) where
  unfoldable pub create_label : String → String → LabelInfo → Rest (Unit {0})
  unfolding validated ask
  create_label owner repository label_info = do
    validated order
        (("owner", owner) ∷ ("repository", repository) ∷ ("LabelInfo.name", label_info.name) ∷ [])
    ask s s.done (create_label_as owner repository label_info)

  unfoldable pub get_label : String → String → String → Rest (Option LabelInfo)
  unfolding validated limited execute_get_label
  get_label owner repository name = do
    validated order (("owner", owner) ∷ ("repository", repository) ∷ ("name", name) ∷ [])
    limited s (execute_get_label s owner repository name)

  unfoldable pub list_pull_request_labels : String → String → ℤ → ℕ → Rest (List String)
  unfolding validated label_loop
  list_pull_request_labels owner repository id fuel = do
    validated order (("owner", owner) ∷ ("repository", repository) ∷ [])
    label_loop s owner repository id fuel 0 []

  unfoldable pub unlabel_pull_request : String → String → String → ℤ → Rest (Unit {0})
  unfolding validated ask
  unlabel_pull_request owner repository name id = do
    validated order (("owner", owner) ∷ ("repository", repository) ∷ [])
    ask s s.done (remove_label_for_issue owner repository id name)
