-- ===== src/Client/BitbucketCloud/Files.antt =====
-- Files of a repository on Bitbucket Cloud, and the operations that it does not support.
pub mod Modified
use froggit_go.Base.{
  ℕ, zero, suc, ◌+◌, String, ◌<>◌, Option, none, some, List, [], ◌∷◌, Result, panic, ◌==◌,
  if◌then◌else◌,
}
use froggit_go.Calls.{◌>>=◌, ◌>>◌, pure, lift, send}
use froggit_go.Client.Types.{Download, LabelInfo, RepositoryEnvironmentInfo}
use froggit_go.Client.Params.{Order}
use froggit_go.Client.Sorting.{SetApi, sort_strings}
use froggit_go.Client.Shared.{validated}
use froggit_go.Client.Bitbucket.{
  unsupported, labels, code_scanning, environment_info, download_file,
}
use froggit_go.Client.BitbucketCloud.Api.{Call, diff_stat, DiffStat, Server, Rest}

module _ (x : SetApi) where
  -- A path that is not a text is left out.
  add_path : x.Set → Option String → x.Set
  add_path set none = set
  add_path set (some path) = x.add set path

  unfoldable pub file_names : List DiffStat → x.Set → x.Set
  unfolding add_path
  file_names [] set = set
  file_names (d ∷ ds) set = file_names ds (add_path (add_path set d.new_path) d.old_path)

  -- The loop over the pages, with so many rounds of fuel: the page with no link to the next one is
  -- the last.
  unfoldable pub page_loop : Server → String → String → String → ℕ → ℕ → x.Set → Rest x.Set
  unfolding file_names
  page_loop s owner repository spec zero page set = lift (panic "out of fuel")
  page_loop s owner repository spec (suc fuel) page set = do
    r ← send s.diffs (diff_stat owner repository spec page)
    let set' = file_names r.diff_stats set
    (if r.next == "" then pure set' else page_loop s owner repository spec fuel (suc page) set')

  unfoldable pub get_modified_files :
      Order → Server → ℕ → String → String → String → String → Rest (List String)
  unfolding validated page_loop sort_strings
  get_modified_files order s fuel owner repository ref_before ref_after = do
    validated order (
        ("owner", owner)
        ∷ ("repository", repository)
        ∷ ("refBefore", ref_before)
        ∷ ("refAfter", ref_after)
        ∷ [])
    set ← page_loop s owner repository (ref_after <> (".." <> ref_before)) fuel 1 x.make
    pure (sort_strings (x.to_slice (x.remove set "")))

unfoldable pub create_label : LabelInfo → Rest (Unit {0})
unfolding unsupported
create_label label_info = unsupported labels

unfoldable pub get_label : String → Rest (Option LabelInfo)
unfolding unsupported
get_label name = unsupported labels

unfoldable pub list_pull_request_labels : Rest (List String)
unfolding unsupported
list_pull_request_labels = unsupported labels

unfoldable pub unlabel_pull_request : String → Rest (Unit {0})
unfolding unsupported
unlabel_pull_request name = unsupported labels

unfoldable pub upload_code_scanning : Rest String
unfolding unsupported
upload_code_scanning = unsupported code_scanning

unfoldable pub download_file_from_repo : Rest Download
unfolding unsupported
download_file_from_repo = unsupported download_file

unfoldable pub get_repository_environment_info : String → Rest RepositoryEnvironmentInfo
unfolding unsupported
get_repository_environment_info name = unsupported environment_info
