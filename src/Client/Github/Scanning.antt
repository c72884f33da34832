-- ===== src/Client/Github/Scanning.antt =====
-- Code scanning and environments on GitHub.
use froggit_go.Base.{
  String, Option, none, some, List, [], ◌∷◌, ◌++◌, Result, ok, err, panic, Error, nat_eq, deref,
  ◌==◌, if◌then◌else◌, ◌>>=◌ as ◌>>>◌,
}
use froggit_go.Calls.{◌>>=◌, ◌>>◌}
use froggit_go.Vcs.Names.{add_branch_prefix}
use froggit_go.Vcs.Values.{string_zero}
use froggit_go.Vcs.Responses.{check_response_status_with_body}
use froggit_go.Client.Types.{RepositoryEnvironmentInfo}
use froggit_go.Client.Params.{Order}
use froggit_go.Client.Shared.{validated}
use froggit_go.Client.Github.Api.{
  GithubResponse, get_environment, upload_sarif, Environment, SarifReply, Server, Rest,
}
use froggit_go.Client.Github.RateLimit.{
  Outcome, returned, crashed, Attempt, request, reading_with, limited,
}
use froggit_go.Client.Github.Commits.{get_latest_commit}

-- An outcome with the response of an attempt, its error if it has one, and its value.
outcome_of : {A : Type 0} → Option GithubResponse → Result A → Outcome (Option A)
outcome_of r (ok a) = returned r none (some a)
outcome_of r (err e) = returned r (some e) none
outcome_of r (panic m) = crashed m

module _ (s : Server) where
  -- The identifier that the text of an accepted error has.
  accepted_id : Option Error → Result String
  accepted_id none = ok ""
  accepted_id (some e) = elim (s.accepted_raw e) [ none ↦ ok "" | some raw ↦ s.unmarshal_id raw ]

  unfoldable pub handle_github_upload_sarif_id :
      Option (Option String) → Option Error → Result String
  unfolding accepted_id
  handle_github_upload_sarif_id none e = accepted_id e
  handle_github_upload_sarif_id (some pointer) e =
      let otherwise = accepted_id e in deref pointer >>> λ id. if id == "" then otherwise else ok id

  -- An error counts unless the status is `Accepted`; the response is read without a check for nil.
  uploaded : SarifReply → Result String
  unfolding handle_github_upload_sarif_id
  uploaded r = elim r.error [
    | none ↦ handle_github_upload_sarif_id r.sarif_id none
    | some e ↦ deref r.response >>> λ response. deref response.http >>> λ http.
        if nat_eq http.status_code 202
        then handle_github_upload_sarif_id r.sarif_id (some e)
        else err e
  ]

  execute_upload_code_scanning :
      String → String → String → String → String → Attempt (Option String)
  unfolding outcome_of uploaded
  execute_upload_code_scanning owner repository branch commit_sha sarif_content log =
      elim (s.encode_gzip sarif_content) [
        | ok encoded ↦
            let call = upload_sarif owner repository commit_sha branch encoded in
            let reply = s.upload log call in
            (outcome_of reply.response (uploaded reply), call ∷ log)
        | err e ↦ (returned none (some e) none, log)
        | panic m ↦ (crashed m, log)
      ]

  unfoldable pub upload_code_scanning : Order → String → String → String → String → Rest String
  unfolding get_latest_commit add_branch_prefix limited execute_upload_code_scanning
  upload_code_scanning order owner repository branch sarif_content = do
    commit ← get_latest_commit order s owner repository branch
    limited s (
        execute_upload_code_scanning owner repository (add_branch_prefix branch) commit.hash
          sarif_content)

  -- The struct is reused: `login` is the one that the last reviewer left.
  rule_reviewers : String → List s.Reviewer → Result (String × List String)
  rule_reviewers login [] = ok (login, [])
  rule_reviewers login (r ∷ rs) = s.decode_login r login >>> λ login'.
      rule_reviewers login' rs >>> λ (last, logins). ok (last, login' ∷ logins)

  environment_reviewers : String → List (List s.Reviewer) → Result (List String)
  unfolding rule_reviewers
  environment_reviewers login [] = ok []
  environment_reviewers login (rule ∷ rules) = rule_reviewers login rule >>> λ (last, logins).
      environment_reviewers last rules >>> λ rest. ok (logins ++ rest)

  -- `extractGitHubEnvironmentReviewers`
  unfoldable pub extract_github_environment_reviewers :
      Environment s.Reviewer → Result (List String)
  unfolding environment_reviewers
  extract_github_environment_reviewers e = environment_reviewers "" e.rules

  environment_info :
      Option GithubResponse → Environment s.Reviewer → Result RepositoryEnvironmentInfo
  unfolding extract_github_environment_reviewers check_response_status_with_body
  environment_info response e = deref response >>> λ r.
      check_response_status_with_body s.texts r.http (200 ∷ []) >>> λ checked.
      extract_github_environment_reviewers e >>> λ reviewers.
      ok (record { name = e.name; url = e.url; reviewers = reviewers })

  execute_get_repository_environment_info :
      String → String → String → Attempt (Option RepositoryEnvironmentInfo)
  unfolding request reading_with environment_info
  execute_get_repository_environment_info owner repository name =
      reading_with (request s.environment (get_environment owner repository name)) environment_info

  unfoldable pub get_repository_environment_info :
      Order → String → String → String → Rest RepositoryEnvironmentInfo
  unfolding validated limited execute_get_repository_environment_info
  get_repository_environment_info order owner repository name = do
    validated order (("owner", owner) ∷ ("repository", repository) ∷ ("name", name) ∷ [])
    limited s (execute_get_repository_environment_info owner repository name)
