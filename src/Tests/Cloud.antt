-- ===== src/Tests/Cloud.antt =====
-- The client of Bitbucket Cloud before a server of two pages, and the removal of a directory.
use froggit_go.Base.{
  ℕ, String, ◌<>◌, ◌≡◌, ◌≢◌, ◌↔◌, refl, none, some, List, [], ◌∷◌, ok, err, Error, foreign, arith,
  eq_iff, ltb, ◌==◌, if◌then◌else◌,
}
use froggit_go.Vcs.{github}
use froggit_go.Vcs.Removal.{
  Op, Os, open_dir, read_dir_names, close_dir, remove_all, remove_temp_dir,
  remove_temp_dir-removals,
}
use froggit_go.Extract.Path.{join_path}
use froggit_go.Client.Builder.{
  Addresses, ClientBuilder, build, new_client_builder, set_token, IsBuiltFrom, build-IsBuiltFrom,
}
use froggit_go.Client.Params.{is_blank}
use froggit_go.Client.Params.Verdict.{NotBlank}
use froggit_go.Client.Sorting.{Occurs, IsSorted, IsDistinct}
use froggit_go.Client.Shared.Owners.{pages_from}
use froggit_go.Client.BitbucketCloud.Api.{Call, diff_stat, DiffStat, Server}
use froggit_go.Client.BitbucketCloud.Files.{get_modified_files}
use froggit_go.Client.BitbucketCloud.Files.Modified.{IsPathIn, asked, cloud_get_modified_files_lem}
use froggit_go.Tests.Client.{as_given, as_given-IsOrder}
use froggit_go.Tests.Sets.{slices, slices-Laws}

abbrev down : Error
down = foreign "503"

abbrev stats : List DiffStat
stats = record { new_path = some "b.go"; old_path = none } ∷ []

abbrev page_of : Call → ℕ
page_of (diff_stat o r spec k) = k
page_of _ = 0

abbrev server : Server
server = record {
  format = λ t. t;
  new_request = λ url. ok tt;
  done = λ log c. err down;
  key_reply = λ log c. err down;
  workspaces = λ log c. err down;
  repositories = λ log c. err down;
  branches = λ log c. err down;
  webhook_uuid = λ log c. err down;
  statuses = λ log c. err down;
  pull_requests = λ log c. err down;
  pull_request = λ log c. err down;
  comments = λ log c. err down;
  commits = λ log c. err down;
  commit = λ log c. err down;
  repository = λ log c. err down;
  diffs =
      λ log c. ok (record { next = if ltb (page_of c) 2 then "more" else ""; diff_stats = stats });
}

set_name : NotBlank ("owner", "acme")
unfolding is_blank
set_name = refl

more : ◌≢◌ {A = String} "more" ""
more = ground (arith, eq_iff "more" "")

cloud_get_modified_files_lem_example :
    (files : List String) × (get_modified_files slices as_given server 2 "acme" "acme" "acme" "acme"
        []
      ≡ (ok files, asked (diff_stat "acme" "acme" ("acme" <> (".." <> "acme"))) 1 2 []))
    × IsSorted files
    × IsDistinct files
    × ((t : String) → Occurs t files ↔ ((t ≢ "") × IsPathIn t (pages_from (λ k. stats) 1 2)))
cloud_get_modified_files_lem_example =
    cloud_get_modified_files_lem slices slices-Laws as_given server "acme" "acme" "acme" "acme"
      "more" (λ k. stats) 1 2 [] as_given-IsOrder set_name set_name set_name set_name more
      (λ log k. refl) (omega arith)

-- The directory itself is locked.
abbrev os : Os
os = record {
  done = λ log c. elim c [
    | remove_all path ↦ (if path == "/tmp/x" then err down else ok tt)
    | _ ↦ ok tt
  ];
  names = λ log c. ok ("a" ∷ []);
}

removable : (l : List Op) → os.done l (remove_all (join_path ("/tmp/x" ∷ "a" ∷ []))) ≡ ok tt
unfolding join_path
removable l = refl

remove_temp_dir-removals_example : remove_temp_dir os "/tmp/x" [] ≡ (
  ok tt,
  close_dir "/tmp/x"
      ∷ remove_all (join_path ("/tmp/x" ∷ "a" ∷ []))
      ∷ read_dir_names "/tmp/x"
      ∷ open_dir "/tmp/x"
      ∷ remove_all "/tmp/x"
      ∷ [],
)
remove_temp_dir-removals_example =
    remove_temp_dir-removals os "/tmp/x" down ("a" ∷ []) [] refl (λ l. refl) (λ l. refl)
      (removable, tt) (λ l. refl)

abbrev addresses : Addresses
addresses = record { parse = λ t. ok t; accept = λ t. ok tt }

abbrev builder : ClientBuilder String
builder = set_token "secret" (new_client_builder github "quiet")

build-IsBuiltFrom_example : IsBuiltFrom builder (build addresses builder)
build-IsBuiltFrom_example = build-IsBuiltFrom addresses builder
