-- ===== src/Tests/Bitbucket.antt =====
-- The clients of Bitbucket Server and Bitbucket Cloud before servers of a few pages.
use froggit_go.Base.{
  ℕ, ◌<◌, ℤ, pos, negsuc, String, ◌<>◌, ◌≡◌, ◌≢◌, refl, true, none, some, List, [], ◌∷◌, ok, err,
  Error, foreign, inl, inr, arith, eq_iff, ltb, if◌then◌else◌,
}
use froggit_go.Base.Text.{has_suffix}
use froggit_go.Client.Types.{read}
use froggit_go.Client.Params.{is_blank}
use froggit_go.Client.Shared.Guards.{IsRefused}
use froggit_go.Client.Shared.Owners.{paths_at, names_of_owner}
use froggit_go.Client.Bitbucket.{time_of_millis}
use froggit_go.Client.Bitbucket.Instants.{IsInstant, time_of_millis-IsInstant}
use froggit_go.Client.BitbucketServer.Api.{
  Call, get_projects, get_repositories, get_branches, get_activities, delete_comment, Activity,
  Server,
}
use froggit_go.Client.BitbucketServer.Paging.{Listing, page_at}
use froggit_go.Client.BitbucketServer.Repos.{
  list_branches, list_repositories, build_bitbucket_client, add_ssh_key_to_repository,
  get_commits_of, get_commit_by_sha, get_repository_info,
}
use froggit_go.Client.BitbucketServer.Repos.Listed.{
  everything, all_repositories, list_branches-everything, server_list_repositories-all_repositories,
}
use froggit_go.Client.BitbucketServer.Repos.Endpoint.{build_bitbucket_client_lem}
use froggit_go.Client.BitbucketServer.Reviews.{
  list_pull_request_comments, delete_pull_request_comment, add_comment, add_pull_request_comment,
  bare_comment,
}
use froggit_go.Client.BitbucketServer.Reviews.Listed.{
  AreAdded, server_list_pull_request_comments-AreAdded,
}
use froggit_go.Client.BitbucketServer.Reviews.Versions.{
  IsInt32, IsVersionOf, delete_pull_request_comment_versioned,
}
use froggit_go.Client.Types.{CommentInfo}
use froggit_go.Client.BitbucketServer.Files.{get_modified_files}
use froggit_go.Client.BitbucketServer.Guards.{server_blank_owner_or_repository-IsRefused}
use froggit_go.Tests.Client.{as_given, as_given-IsOrder}
use froggit_go.Tests.Sets.{slices}

abbrev down : Error
down = foreign "503"

abbrev pages : ℕ → List String
pages k = if ltb k 1 then "main" ∷ [] else "dev" ∷ []

abbrev listing : Listing String
listing = record { pages = pages; start = pos; total = 2; username = "ann" }

abbrev said : Activity
said = record {
  action = "COMMENTED";
  comment_action = "ADDED";
  comment_id = pos 7;
  created_date = pos 5;
  text = "hi";
  version = pos 3;
}

abbrev activities : Listing Activity
activities = record {
  pages = λ k. said ∷ record said { action = "OPENED" } ∷ [];
  start = pos;
  total = 2;
  username = "";
}

abbrev start_of : Call → ℕ
start_of (get_projects (pos k)) = k
start_of (get_repositories p (pos k)) = k
start_of (get_branches o r (pos k)) = k
start_of (get_activities o r i (pos k)) = k
start_of _ = 0

abbrev server : Server
server = record {
  texts = record { indent = λ t. ok t; format = λ t. t };
  is_eof = λ e. true;
  to_upper = λ t. "ANN";
  new_request = λ url. ok tt;
  done = λ log c. err (foreign "EOF");
  key_reply = λ log c. err down;
  projects = λ log c. ok (page_at listing (start_of c));
  repositories = λ log c. ok (page_at listing (start_of c));
  branches = λ log c. ok (page_at listing (start_of c));
  pull_requests = λ log c. err down;
  activities = λ log c. ok (page_at activities (start_of c));
  webhook_id = λ log c. err down;
  statuses = λ log c. err down;
  pull_request = λ log c. err down;
  commits = λ log c. err down;
  commit = λ log c. err down;
  repository = λ log c. err down;
  diffs = λ log c. err down;
  content = λ log c. record { payload = none; status_code = none; error = some down };
}

time_of_millis-IsInstant_example :
    IsInstant (negsuc 0) (time_of_millis (negsuc 0)).unix (time_of_millis (negsuc 0)).nanos
    × ((time_of_millis (negsuc 0)).nanos < 1000000000)
time_of_millis-IsInstant_example = time_of_millis-IsInstant (negsuc 0)

list_branches-everything_example : list_branches server 2 "acme" "app" [] ≡ (
  ok ("main" ∷ "dev" ∷ []),
  get_branches "acme" "app" (pos 1) ∷ get_branches "acme" "app" (pos 0) ∷ [],
)
list_branches-everything_example =
    list_branches-everything server 2 "acme" "app" listing [] (omega arith, refl, λ log k. refl)
      (omega arith)

named : ◌≢◌ {A = String} "ann" ""
named = ground (arith, eq_iff "ann" "")

server_list_repositories-all_repositories_example :
    (r : List (String × List String)) × ((list_repositories server 2 []).0 ≡ ok r)
    × ((o : String)
        → paths_at o r
          ≡ names_of_owner o
              (all_repositories server 2 (λ p. listing) ("main" ∷ "dev" ∷ ("~" <> "ANN") ∷ [])))
server_list_repositories-all_repositories_example =
    server_list_repositories-all_repositories server 2 (λ p. listing) listing []
      (omega arith, refl, λ log k. refl) (omega arith) named
      (
        ((omega arith, refl, λ log k. refl), omega arith),
        (
          ((omega arith, refl, λ log k. refl), omega arith),
          (((omega arith, refl, λ log k. refl), omega arith), tt),
        ),
      )

server_list_pull_request_comments-AreAdded_example :
    (comments : List CommentInfo) × (list_pull_request_comments server 2 "acme" "app" (pos 1) [] ≡ (
      ok comments,
      get_activities "acme" "app" (pos 1) (pos 1)
          ∷ get_activities "acme" "app" (pos 1) (pos 0)
          ∷ [],
    ))
    × AreAdded (everything activities) comments
server_list_pull_request_comments-AreAdded_example =
    server_list_pull_request_comments-AreAdded server 2 "acme" "app" (pos 1) activities []
      (omega arith, refl, λ log k. refl) (omega arith)

delete_pull_request_comment_versioned_example :
    (listed version : ℤ) × (delete_pull_request_comment server 2 "acme" "app" (pos 1) (pos 7) [] ≡ (
      ok tt,
      delete_comment "acme" "app" (pos 1) (pos 7) version
          ∷ get_activities "acme" "app" (pos 1) (pos 1)
          ∷ get_activities "acme" "app" (pos 1) (pos 0)
          ∷ [],
    ))
    × IsVersionOf (pos 7) (everything activities) listed
    × IsInt32 version
    × (IsInt32 listed → version ≡ listed)
delete_pull_request_comment_versioned_example =
    delete_pull_request_comment_versioned server 2 "acme" "app" (pos 1) (pos 7) activities []
      (omega arith, refl, λ log k. refl) (omega arith) (λ version. inr (foreign "EOF", refl, refl))

abbrev address : String
address = "https://git"

build_bitbucket_client_lem_example :
    (has_suffix (build_bitbucket_client address) "/rest" ≡ true)
    × (build_bitbucket_client (build_bitbucket_client address) ≡ build_bitbucket_client address)
build_bitbucket_client_lem_example =
    let (ends, once, trimmed) = build_bitbucket_client_lem address in (ends, once)

blank_owner : is_blank " " ≡ true
unfolding is_blank
blank_owner = refl

server_blank_owner_or_repository-IsRefused_example :
    IsRefused (add_ssh_key_to_repository as_given address server " " "app" "t" "u" read)
    × IsRefused (get_commits_of as_given address server " " "app" "t")
    × IsRefused (get_commit_by_sha as_given address server " " "app" "t")
    × IsRefused (get_repository_info as_given address server " " "app")
    × IsRefused (add_comment as_given server " " "app" (pos 1) (bare_comment "t"))
    × IsRefused (add_pull_request_comment as_given server " " "app" "t" (pos 1))
    × IsRefused (get_modified_files slices as_given server " " "app" "t" "u")
server_blank_owner_or_repository-IsRefused_example =
    server_blank_owner_or_repository-IsRefused as_given as_given-IsOrder " " "app" (inl blank_owner)
      server slices address "t" "u" (pos 1) read (bare_comment "t")
