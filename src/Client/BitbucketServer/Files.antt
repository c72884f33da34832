-- ===== src/Client/BitbucketServer/Files.antt =====
-- Files of a repository on Bitbucket Server, and the operations that it does not support.
use froggit_go.Base.{ℕ, String, Option, none, some, List, [], ◌∷◌, Result, ok, panic}
use froggit_go.Calls.{◌>>=◌, ◌>>◌, pure, lift, send}
use froggit_go.Client.Types.{Download, LabelInfo, RepositoryEnvironmentInfo}
use froggit_go.Client.Params.{Order}
use froggit_go.Client.Sorting.{SetApi, sort_strings}
use froggit_go.Client.Shared.{validated}
use froggit_go.Client.Bitbucket.{unsupported, labels, code_scanning, environment_info}
use froggit_go.Client.BitbucketServer.Api.{
  get_content, stream_diff, DiffPaths, ContentReply, Server, Rest,
}

code_or_zero : Option ℕ → ℕ
code_or_zero none = 0
code_or_zero (some code) = code

-- The content is read from the reply without a check for nil.
content_of : ContentReply → Result Download
unfolding code_or_zero
content_of r = elim r.error [
  | some e ↦
      ok (record { content = none; status_code = code_or_zero r.status_code; error = some e })
  | none ↦ elim r.payload [
    | none ↦ panic "nil pointer dereference"
    | some t ↦
        ok (record { content = some t; status_code = code_or_zero r.status_code; error = none })
  ]
]

unfoldable pub download_file_from_repo : Server → String → String → String → String → Rest Download
unfolding content_of
download_file_from_repo s owner repository branch path log =
    let call = get_content owner repository path branch in
    (content_of (s.content log call), call ∷ log)

module _ (x : SetApi) where
  unfoldable pub file_names : List DiffPaths → x.Set → x.Set
  file_names [] set = set
  file_names (d ∷ ds) set = file_names ds (x.add (x.add set d.source) d.destination)

  -- The diff goes from the later reference to the earlier one.
  unfoldable pub get_modified_files :
      Order → Server → String → String → String → String → Rest (List String)
  unfolding validated file_names sort_strings
  get_modified_files order s owner repository ref_before ref_after = do
    validated order (
        ("owner", owner)
        ∷ ("repository", repository)
        ∷ ("refBefore", ref_before)
        ∷ ("refAfter", ref_after)
        ∷ [])
    reply ← send s.diffs (stream_diff owner repository ref_after ref_before)
    diffs ← lift reply
    pure (sort_strings (x.to_slice (x.remove (file_names diffs x.make) "")))

unfoldable pub create_label : LabelInfo → Rest (Unit {0})
unfolding unsupported
create_label label_info = unsupported labels

unfoldable pub get_label : String → Rest (Option LabelInfo)
unfolding unsupported
get_label name = unsupported labels

unfoldable pub list_pull_request_labels : Rest (List String)
unfolding unsupported
list_pull_request_labels = unsupported labels

unfoldable pub unlabel_pull_request : String → Rest (Unit {0})
unfolding unsupported
unlabel_pull_request name = unsupported labels

unfoldable pub upload_code_scanning : Rest String
unfolding unsupported
upload_code_scanning = unsupported code_scanning

unfoldable pub get_repository_environment_info : String → Rest RepositoryEnvironmentInfo
unfolding unsupported
get_repository_environment_info name = unsupported environment_info
