-- ===== src/Tests/Gitlab.antt =====
-- The client of GitLab before a server of two pages.
use froggit_go.Base.{
  ℕ, ℤ, pos, String, ◌≡◌, ◌≢◌, ◌↔◌, refl, true, false, none, some, List, [], ◌∷◌, Result, ok, err,
  Error, foreign, All, arith,
}
use froggit_go.Vcs.{push}
use froggit_go.Client.Types.{PullRequestComment, CommentInfo, LabelInfo}
use froggit_go.Client.Params.{is_blank}
use froggit_go.Client.Params.Verdict.{NotBlank}
use froggit_go.Client.Sorting.{Occurs, IsSorted, IsDistinct}
use froggit_go.Client.Gitlab.Api.{
  list_projects, add_project_hook, edit_project_hook, delete_project_hook, compare, Server, Project,
  Diff, DiffVersion, ProjectHook,
}
use froggit_go.Client.Gitlab.Repos.{list_repositories}
use froggit_go.Client.Gitlab.Reviews.{add_pull_request_review_comment}
use froggit_go.Client.Gitlab.Files.{get_modified_files}
use froggit_go.Client.Shared.Owners.{paths_at}
use froggit_go.Client.Gitlab.Repos.Pages.{
  paths_of, projects_from, HasOwner, list_repositories-Lists,
}
use froggit_go.Client.Gitlab.Hooks.{
  create_project_hook, create_webhook, update_webhook, delete_webhook,
}
use froggit_go.Client.Gitlab.Hooks.Identity.{create_webhook-identity}
use froggit_go.Client.Gitlab.Reviews.Placing.{
  place, at_whole, add_pull_request_review_comment-places,
}
use froggit_go.Client.Gitlab.Files.Modified.{IsPathIn, get_modified_files_lem}
use froggit_go.Tests.Webhook.{noon}
use froggit_go.Tests.Client.{as_given, as_given-IsOrder}
use froggit_go.Tests.Sets.{slices, slices-Laws}

abbrev down : Error
down = foreign "503"

abbrev page : List Project
page = record { namespace_path = some "acme"; path = "app" } ∷ []

abbrev diff : Diff
diff = record { new_path = "b.go"; old_path = "a.go"; new_file = false }

abbrev server : Server
server = record {
  texts = record { indent = λ t. ok t; format = λ t. t };
  done = λ log c. ok tt;
  projects = λ log c. ok (record { projects = page; total_pages = pos 2 });
  branches = λ log c. err down;
  hook_id = λ log c. ok (pos 7);
  statuses = λ log c. err down;
  merge_requests = λ log c. err down;
  merge_request = λ log c. err down;
  versions = λ log c. err down;
  diffs = λ log c. err down;
  compared = λ log c. ok (diff ∷ diff ∷ []);
  discussions = λ log c. err down;
  notes = λ log c. err down;
  commits = λ log c. err down;
  commit = λ log c. err down;
  project = λ log c. err down;
  project_owner = λ log c. err down;
  labels = λ log c. err down;
  file = λ log c. record { content = none; status_code = none; error = some down };
}

owned : (k : ℕ) → All HasOwner page
owned k = ((λ h. cc), tt)

list_repositories-Lists_example :
    (r : List (String × List String)) × (list_repositories server 2 []
      ≡ (ok r, list_projects (some 2) ∷ list_projects (some 1) ∷ []))
    × ((o : String) → paths_at o r ≡ paths_of o (projects_from (λ k. page) 1 2))
list_repositories-Lists_example =
    list_repositories-Lists server (λ k. page) 2 (λ log k. refl) owned 1 2 [] refl (omega arith)

abbrev atoi : String → Result ℤ
atoi t = ok (pos 7)

abbrev hook : ProjectHook
hook = create_project_hook "main" "https://ci" (push ∷ [])

create_webhook-identity_example :
    (webhook_id : String) × (create_webhook atoi server "t" "acme" "app" "main" "https://ci"
        (push ∷ [])
        []
      ≡ (ok (webhook_id, "t"), add_project_hook "acme/app" "t" hook ∷ []))
    × ((update_webhook atoi server "acme" "app" "main" "https://ci" "t" webhook_id (push ∷ []) []).1
        ≡ edit_project_hook "acme/app" (pos 7) "t" hook ∷ [])
    × ((delete_webhook atoi server "acme" "app" webhook_id []).1
        ≡ delete_project_hook "acme/app" (pos 7) ∷ [])
create_webhook-identity_example =
    create_webhook-identity atoi server "t" "acme" "app" "main" "https://ci" (push ∷ []) (pos 7) []
      refl refl

abbrev comment : PullRequestComment
comment = record {
  content = "here";
  original_file_path = "a.go";
  original_start_line = pos 1;
  original_end_line = pos 1;
  original_start_column = pos 0;
  original_end_column = pos 0;
  new_file_path = "b.go";
  new_start_line = pos 3;
  new_end_line = pos 3;
  new_start_column = pos 0;
  new_end_column = pos 0;
}

abbrev version : DiffVersion
version = record { start_commit_sha = "1"; head_commit_sha = "2"; base_commit_sha = "0" }

add_pull_request_review_comment-places_example :
    add_pull_request_review_comment server "acme/app" (pos 1) comment (version ∷ []) (diff ∷ []) []
    ≡ (ok tt, at_whole "acme/app" "here" (pos 1) (place comment diff version) [] ∷ [])
add_pull_request_review_comment-places_example =
    add_pull_request_review_comment-places server "acme/app" (pos 1) comment version [] [] [] diff
      [] tt refl

abbrev info : CommentInfo
info = record { id = pos 5; thread_id = "d"; content = ""; created = noon; version = pos 0 }

named : NotBlank ("owner", "acme")
unfolding is_blank
named = refl

get_modified_files_lem_example :
    (files : List String) × (get_modified_files slices as_given server "acme" "acme" "acme" "acme"
        []
      ≡ (ok files, compare "acme/acme" "acme" "acme" ∷ []))
    × IsSorted files
    × IsDistinct files
    × ((t : String) → Occurs t files ↔ ((t ≢ "") × IsPathIn t (diff ∷ diff ∷ [])))
get_modified_files_lem_example =
    get_modified_files_lem slices slices-Laws as_given server "acme" "acme" "acme" "acme"
      (diff ∷ diff ∷ []) [] as_given-IsOrder named named named named refl

spaces : is_blank "  " ≡ true
unfolding is_blank
spaces = refl

abbrev label : LabelInfo
label = record { name = "bug"; description = ""; color = "4AB548" }
