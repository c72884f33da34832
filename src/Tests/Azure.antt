-- ===== src/Tests/Azure.antt =====
-- The client of Azure Repos before a server with two changes, and the names of branches.
use froggit_go.Base.{
  String, ◌≡◌, refl, true, Option, none, some, List, [], ◌∷◌, ok, err, Error, foreign, arith,
}
use froggit_go.Client.Params.{is_blank}
use froggit_go.Client.Params.Verdict.{NotBlank}
use froggit_go.Client.Azure.Api.{Call, get_commit_diffs, Item, Server, Client}
use froggit_go.Client.Azure.Files.{get_modified_files}
use froggit_go.Client.Azure.Files.Paging.{take, drop, AreBlobsOf, azure_get_modified_files_lem}
use froggit_go.Tests.Client.{as_given, as_given-IsOrder}
use froggit_go.Tests.Sets.{slices, slices-Laws}

abbrev down : Error
down = foreign "503"

abbrev changes : List String
changes = "/b.go" ∷ "/a.go" ∷ []

abbrev item : String → Item
item path = record { git_object_type = some "blob"; path = some path }

abbrev diffs_of : Call → Option (List String)
diffs_of (get_commit_diffs project repository before after top skip) =
    some (take top (drop skip changes))
diffs_of _ = none

abbrev server : Server
server = record {
  Change = String;
  done = λ log c. ok tt;
  names = λ log c. err down;
  threads = λ log c. err down;
  pull_requests = λ log c. err down;
  pull_request = λ log c. err down;
  commits = λ log c. err down;
  repository = λ log c. err down;
  statuses = λ log c. err down;
  content = λ log c. err down;
  diffs = λ log c. ok (diffs_of c);
  remapped = λ path. ok (item path);
}

abbrev client : Client
client = record { project = "acme"; has_connection = true }

named : NotBlank ("repository", "acme")
unfolding is_blank
named = refl

azure_get_modified_files_lem_example :
    (files : List String) × ((get_modified_files slices server as_given client 1 "acme" "acme"
        "acme" []).0
      ≡ ok files)
    × AreBlobsOf slices slices-Laws server item (λ path. refl) changes files
azure_get_modified_files_lem_example =
    azure_get_modified_files_lem slices slices-Laws server item (λ path. refl) as_given client 1
      "acme" "acme" "acme" changes [] (λ log skip. refl) (omega arith) as_given-IsOrder named named
      named refl refl
