-- ===== src/Tests/Github.antt =====
-- The client of GitHub before a server of two pages, and before one whose rate limit is exceeded.
use froggit_go.Base.{
  ℕ, pos, String, ◌≡◌, ◌≢◌, ◌↔◌, ◌≤◌, refl, Bool, true, none, some, Option, List, [], ◌∷◌, Result,
  ok, err, Error, foreign, inl, arith, length, nat_eq, if◌then◌else◌,
}
use froggit_go.Base.Text.{contains_text}
use froggit_go.Vcs.{push, pr_opened}
use froggit_go.Client.Types.{CommentInfo, PullRequestInfo, LabelInfo, read}
use froggit_go.Client.Params.{is_blank}
use froggit_go.Client.Params.Verdict.{NotBlank}
use froggit_go.Client.Sorting.{Occurs, IsSorted, IsDistinct}
use froggit_go.Client.Shared.Guards.{IsRefused}
use froggit_go.Client.Shared.Owners.{paths_at, names_of_owner, pages_from}
use froggit_go.Client.Github.Api.{
  Call, list_page, list_labels_by_issue, compare_commits, create_pull_request, zen, GithubResponse,
  CommitFile, NewPullRequest, Server,
}
use froggit_go.Client.Github.RateLimit.{
  Outcome, returned, verdict, request, run_with_rate_limit_retries, max_retries,
}
use froggit_go.Client.Github.RateLimit.Rounds.{
  retried, run_with_rate_limit_retries-retried, run_with_rate_limit_retries_gets_through,
  run_with_rate_limit_retries-length,
}
use froggit_go.Client.Github.RateLimit.Success.{final_response, ok_response}
use froggit_go.Client.Github.Repos.{
  list_repositories, add_ssh_key_to_repository, get_repository_info,
}
use froggit_go.Client.Github.Repos.Pages.{complete, last_page_seen, github_list_repositories_lists}
use froggit_go.Client.Github.Commits.{get_commits, get_commit_by_sha}
use froggit_go.Client.Github.Labels.{
  create_label, get_label, list_pull_request_labels, unlabel_pull_request,
}
use froggit_go.Client.Github.Reviews.{
  add_pull_request_comment, add_pull_request_review_comments, list_pull_request_review_comments,
  list_pull_request_comments, delete_pull_request_review_comments, delete_pull_request_comment,
}
use froggit_go.Client.Github.Scanning.{get_repository_environment_info}
use froggit_go.Client.Github.Labels.Paging.{github_list_pull_request_labels_lem, named, page_of}
use froggit_go.Client.Github.Files.{get_modified_files}
use froggit_go.Client.Github.Files.Modified.{IsNameIn, github_get_modified_files_lem}
use froggit_go.Client.Github.Hooks.{create_github_hook}
use froggit_go.Client.Github.Hooks.Events.{IsAskedFor, create_github_hook_lem}
use froggit_go.Client.Github.Pulls.{
  create_pull_request_in, map_github_pull_request_to_pull_request_info,
}
use froggit_go.Client.Github.Pulls.Labelled.{shown, create_pull_request_in_reads_back}
use froggit_go.Client.Github.Guards.{github_blank_owner_or_repository-IsRefused}
use froggit_go.Tests.Webhook.{noon}
use froggit_go.Tests.Client.{as_given, as_given-IsOrder}
use froggit_go.Tests.Sets.{slices, slices-Laws}

abbrev down : Error
down = foreign "503"

abbrev repositories : List (String × String)
repositories = ("acme", "app") ∷ []

abbrev file : CommitFile
file = record { filename = some "b.go"; previous_filename = some "a.go" }

abbrev page_number : Call → ℕ
page_number (list_page k) = k
page_number (list_labels_by_issue owner repository id k) = page_of k
page_number _ = 0

abbrev limit_response : GithubResponse
limit_response = record {
  http =
      some (record {
        status = "403 Forbidden";
        status_code = 403;
        body = ok "API rate limit exceeded";
      });
  last_page = pos 0;
}

abbrev server : Server
server = record {
  texts = record { indent = λ t. ok t; format = λ t. t };
  is_canceled = λ e. true;
  is_abuse_type = λ e. true;
  accepted_raw = λ e. none;
  unmarshal_id = λ t. ok t;
  encode_gzip = λ t. ok t;
  Reviewer = String;
  decode_login = λ r login. ok r;
  done = λ log c. (some (ok_response (pos 0)), ok tt);
  repositories =
      λ log c. (some (ok_response (last_page_seen 2 (page_number c))), ok (complete repositories));
  branches = λ log c. (none, err down);
  hook = λ log c. (none, err down);
  statuses = λ log c. (none, err down);
  pull_requests = λ log c. (none, err down);
  pull_request = λ log c. (none, err down);
  pull_request_commits = λ log c. (none, err down);
  comments = λ log c. (none, err down);
  commits = λ log c. (none, err down);
  commit = λ log c. (none, err down);
  repository = λ log c. (none, err down);
  label = λ log c. (none, err down);
  labels = λ log c. (
    some (ok_response (last_page_seen 2 (page_number c))),
    ok (named ((if nat_eq (page_number c) 1 then "bug" else "fix") ∷ [])),
  );
  environment = λ log c. (none, err down);
  compared = λ log c. (some (ok_response (pos 0)), ok (file ∷ []));
  upload = λ log c. record { sarif_id = none; response = none; error = none };
  download = λ log c. record { body = none; response = none; error = some down };
}

-- The rate limit is exceeded until two requests were sent.
abbrev limited_done : List Call → Call → Option GithubResponse × Result (Unit {0})
limited_done (c ∷ d ∷ log) _ = (some (ok_response (pos 0)), ok tt)
limited_done _ _ = (some limit_response, ok tt)

abbrev attempt : List Call → Outcome (Option (Unit {0})) × List Call
attempt = request limited_done zen

run_with_rate_limit_retries-retried_example :
    run_with_rate_limit_retries server attempt [] ≡ retried server attempt max_retries []
run_with_rate_limit_retries-retried_example = run_with_rate_limit_retries-retried server attempt []

run_with_rate_limit_retries_gets_through_example :
    run_with_rate_limit_retries server attempt []
    ≡ (returned (some (ok_response (pos 0))) none (some tt), zen ∷ zen ∷ zen ∷ [])
unfolding request contains_text verdict
run_with_rate_limit_retries_gets_through_example =
    run_with_rate_limit_retries_gets_through server attempt 2 [] (omega arith) (refl, (refl, tt))
      refl

run_with_rate_limit_retries-length_example :
    length (run_with_rate_limit_retries server attempt []).1 ≤ 6
unfolding request
run_with_rate_limit_retries-length_example =
    run_with_rate_limit_retries-length server attempt [] (λ log. omega arith)

github_list_repositories_lists_example :
    (r : List (String × List String)) × (list_repositories server 2 []
      ≡ (ok r, list_page 2 ∷ list_page 1 ∷ []))
    × ((o : String) → paths_at o r ≡ names_of_owner o (pages_from (λ k. repositories) 1 2))
github_list_repositories_lists_example =
    github_list_repositories_lists server (λ k. repositories) 2 (λ log k. refl) 1 2 [] refl
      (omega arith)

set_name : NotBlank ("owner", "acme")
unfolding is_blank
set_name = refl

abbrev labels_on : ℕ → List String
labels_on k = (if nat_eq k 1 then "bug" else "fix") ∷ []

github_list_pull_request_labels_lem_example :
    list_pull_request_labels as_given server "acme" "acme" (pos 3) 2 [] ≡ (
      ok ("bug" ∷ "bug" ∷ []),
      list_labels_by_issue "acme" "acme" (pos 3) 1
          ∷ list_labels_by_issue "acme" "acme" (pos 3) 0
          ∷ [],
    )
github_list_pull_request_labels_lem_example =
    github_list_pull_request_labels_lem as_given server "acme" "acme" (pos 3) labels_on 2
      (λ log k. refl) 1 2 [] refl (omega arith) as_given-IsOrder set_name set_name

github_get_modified_files_lem_example :
    (names : List String) × (get_modified_files slices as_given server "acme" "acme" "acme" "acme"
        []
      ≡ (ok names, compare_commits "acme" "acme" "acme" "acme" 1 ∷ []))
    × IsSorted names
    × IsDistinct names
    × ((t : String) → Occurs t names ↔ ((t ≢ "") × IsNameIn t (file ∷ [])))
github_get_modified_files_lem_example =
    github_get_modified_files_lem slices slices-Laws as_given server "acme" "acme" "acme" "acme"
      (file ∷ []) (pos 0) [] as_given-IsOrder set_name set_name set_name set_name refl

create_github_hook_lem_example :
    let hook = create_github_hook slices "t" "https://ci" (push ∷ pr_opened ∷ []) in
    (hook.url ≡ "https://ci")
    × (hook.secret ≡ "t")
    × IsDistinct hook.events
    × ((t : String) → Occurs t hook.events ↔ IsAskedFor t (push ∷ pr_opened ∷ []))
create_github_hook_lem_example =
    create_github_hook_lem slices slices-Laws "t" "https://ci" (push ∷ pr_opened ∷ [])

-- A server that takes everything with the status 201.
abbrev creating : Server
creating = record server {
  done = λ log c. (some (final_response "201 Created" 201 (pos 0)), ok tt);
}

create_pull_request_in_reads_back_example :
    (p : NewPullRequest) × (create_pull_request_in creating "acme" "app" "dev" "main" "t" "d" []
      ≡ (ok tt, create_pull_request "acme" "app" p ∷ []))
    × ((with_body : Bool)
        → (i : PullRequestInfo) × (map_github_pull_request_to_pull_request_info
              (some (shown "acme" "app" (pos 3) p))
              with_body
            ≡ ok i)
          × (i.id ≡ pos 3)
          × (i.source ≡ record { name = "dev"; repository = "app"; owner = "acme" })
          × (i.target ≡ record { name = "main"; repository = "app"; owner = "acme" }))
create_pull_request_in_reads_back_example =
    create_pull_request_in_reads_back creating "acme" "app" "dev" "main" "t" "d" (pos 3) (pos 0)
      "201 Created" 201 [] (omega arith) (omega arith) (refl, (refl, (refl, (refl, tt))))
      (refl, (refl, (refl, tt))) (refl, (refl, (refl, (refl, tt)))) (λ c. refl)

blank_owner : is_blank " " ≡ true
unfolding is_blank
blank_owner = refl

abbrev label : LabelInfo
label = record { name = "bug"; description = ""; color = "" }

abbrev comment : CommentInfo
comment = record { id = pos 3; thread_id = ""; content = ""; created = noon; version = pos 0 }

github_blank_owner_or_repository-IsRefused_example :
    IsRefused (add_ssh_key_to_repository as_given server " " "app" "t" "u" read)
    × IsRefused (get_commits as_given server " " "app" "t")
    × IsRefused (get_repository_info as_given server " " "app")
    × IsRefused (get_commit_by_sha as_given server " " "app" "t")
    × IsRefused (create_label as_given server " " "app" label)
    × IsRefused (get_label as_given server " " "app" "t")
    × IsRefused (list_pull_request_labels as_given server " " "app" (pos 3) 1)
    × IsRefused (unlabel_pull_request as_given server " " "app" "t" (pos 3))
    × IsRefused (add_pull_request_comment as_given server " " "app" "t" (pos 3))
    × IsRefused (add_pull_request_review_comments as_given server " " "app" (pos 3) [])
    × IsRefused (list_pull_request_review_comments as_given server " " "app" (pos 3))
    × IsRefused (list_pull_request_comments as_given server " " "app" (pos 3))
    × IsRefused (delete_pull_request_review_comments as_given server " " "app" (comment ∷ []))
    × IsRefused (delete_pull_request_comment as_given server " " "app" (pos 4))
    × IsRefused (get_repository_environment_info server as_given " " "app" "t")
    × IsRefused (get_modified_files slices as_given server " " "app" "t" "u")
github_blank_owner_or_repository-IsRefused_example =
    github_blank_owner_or_repository-IsRefused as_given as_given-IsOrder " " "app" (inl blank_owner)
      server slices "t" "u" (pos 3) (pos 4) 1 read label [] comment []
