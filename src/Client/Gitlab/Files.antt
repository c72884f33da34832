-- ===== src/Client/Gitlab/Files.antt =====
-- Files of a repository on GitLab.
pub mod Modified
use froggit_go.Base.{
  ℕ, String, ◌<>◌, Bool, true, false, not, Option, none, some, List, [], ◌∷◌, Result, ok, err,
  panic, Error, errorf, foreign, nat_eq, if◌then◌else◌,
}
use froggit_go.Base.Decimal.{decimal}
use froggit_go.Calls.{◌>>=◌, ◌>>◌, pure, lift, send}
use froggit_go.Client.Types.{Download}
use froggit_go.Client.Params.{Order, Params}
use froggit_go.Client.Sorting.{SetApi, sort_strings}
use froggit_go.Client.Gitlab.Api.{Call, get_file, compare, Diff, FileReply, Server, Rest}
use froggit_go.Client.Gitlab.Repos.{get_project_id}
use froggit_go.Client.Shared.{validated}

-- `decode` is `base64.StdEncoding.DecodeString`. With no response the status code is 0, and the
-- text of the error reads it from the response again.
module _ (decode : String → Result String) where
  decoded : Option String → ℕ → Result Download
  decoded none code = ok (record { content = none; status_code = code; error = none })
  decoded (some t) code = elim (decode t) [
    | ok bytes ↦ ok (record { content = some bytes; status_code = code; error = none })
    | err e ↦ ok (record { content = none; status_code = code; error = some e })
    | panic m ↦ panic m
  ]

  checked : Option String → Option ℕ → Result Download
  unfolding decimal decoded
  checked content none = panic "nil pointer dereference"
  checked content (some code) =
      if not (nat_eq code 200)
      then ok (record {
        content = none;
        status_code = code;
        error = some (
            errorf
              ("expected 200 status code while received " <> (decimal code <> " status code")));
      })
      else decoded content code

  code_or_zero : Option ℕ → ℕ
  code_or_zero none = 0
  code_or_zero (some code) = code

  download : FileReply → Result Download
  unfolding checked code_or_zero
  download r = elim r.error [
    | some e ↦
        ok (record { content = none; status_code = code_or_zero r.status_code; error = some e })
    | none ↦ checked r.content r.status_code
  ]

  unfoldable pub download_file_from_repo :
      Server → String → String → String → String → Rest Download
  unfolding download
  download_file_from_repo s owner repository branch path log =
      let call = get_file (get_project_id owner repository) path branch in
      (download (s.file log call), call ∷ log)

module _ (x : SetApi) where
  -- The loop over the diffs.
  file_names : List Diff → x.Set → x.Set
  file_names [] set = set
  file_names (d ∷ ds) set = file_names ds (x.add (x.add set d.new_path) d.old_path)

  unfoldable pub get_modified_files :
      Order → Server → String → String → String → String → Rest (List String)
  unfolding validated file_names sort_strings
  get_modified_files order s owner repository ref_before ref_after = do
    validated order (
        ("owner", owner)
        ∷ ("repository", repository)
        ∷ ("refBefore", ref_before)
        ∷ ("refAfter", ref_after)
        ∷ [])
    diffs ← send s.compared (compare (get_project_id owner repository) ref_before ref_after)
    pure (sort_strings (x.to_slice (x.remove (file_names diffs x.make) "")))

unfoldable pub upload_code_scanning : Rest String
upload_code_scanning = lift (err (errorf "code scanning is not supported on Gitlab"))

-- `A` stands for `RepositoryEnvironmentInfo`, of which no value is given.
unfoldable pub get_repository_environment_info : {A : Type 0} → Rest A
get_repository_environment_info =
    lift (err (errorf "get repository environment info is currently not supported on Bitbucket"))
