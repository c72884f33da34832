-- ===== src/Client/Azure/Files.antt =====
-- Files of a repository on Azure Repos, and the operations that it does not support.
pub mod Paging
use froggit_go.Base.{
  ℕ, zero, suc, ◌+◌, String, ◌<>◌, Bool, true, false, not, Option, none, some, List, [], ◌∷◌,
  Result, ok, err, panic, Error, errorf, ltb, length, ◌==◌, if◌then◌else◌, ◌>>=◌ as ◌>>>◌,
}
use froggit_go.Base.Text.{trim_prefix}
use froggit_go.Calls.{◌>>=◌, ◌>>◌, pure, lift, send, as_result}
use froggit_go.Vcs.Values.{default_if_not_nil, string_zero}
use froggit_go.Client.Types.{Download}
use froggit_go.Client.Params.{Order, validate_parameters_not_blank}
use froggit_go.Client.Sorting.{SetApi, sort_strings}
use froggit_go.Client.Azure.Api.{
  Call, get_item_content, get_commit_diffs, Item, Server, Rest, Client, build_azure_repos_client,
}

abbrev pub page_size : ℕ
page_size = 100

abbrev pub changes_of : {A : Type 0} → Option (List A) → List A
changes_of none = []
changes_of (some cs) = cs

module _ (x : SetApi) (s : Server) where
  -- An item that is not a blob is skipped.
  add_item : x.Set → Item → x.Set
  unfolding trim_prefix
  add_item set i =
      if not (default_if_not_nil i.git_object_type == "blob")
      then set
      else x.add set (trim_prefix (default_if_not_nil i.path) "/")

  add_changes : x.Set → List s.Change → Result x.Set
  unfolding add_item
  add_changes set [] = ok set
  add_changes set (c ∷ cs) = s.remapped c >>> λ i. add_changes (add_item set i) cs

  -- The loop over the pages: a page that is not full is the last one. The fuel bounds the rounds.
  page_loop : String → String → String → String → ℕ → ℕ → x.Set → Rest x.Set
  unfolding add_changes
  page_loop project repository ref_before ref_after zero skip set = lift (panic "out of fuel")
  page_loop project repository ref_before ref_after (suc fuel) skip set = do
    reply ← send s.diffs (get_commit_diffs project repository ref_before ref_after page_size skip)
    set' ← lift (add_changes set (changes_of reply))
    let more = page_loop project repository ref_before ref_after fuel (skip + page_size) set'
    (if ltb (length (changes_of reply)) page_size then pure set' else more)

  unfoldable pub get_modified_files :
      Order → Client → ℕ → String → String → String → Rest (List String)
  unfolding validate_parameters_not_blank build_azure_repos_client page_loop sort_strings
  get_modified_files order c fuel repository ref_before ref_after = do
    lift (
        as_result (
          validate_parameters_not_blank order (
            ("repository", repository) ∷ ("refBefore", ref_before) ∷ ("refAfter", ref_after) ∷ [])))
    build_azure_repos_client s c
    set ← page_loop c.project repository ref_before ref_after fuel 0 x.make
    pure (sort_strings (x.to_slice (x.remove set "")))

-- A failed request has the status code 404, and the other failures 0.
unfoldable pub download_file_from_repo :
    Order → Server → Client → String → String → String → String → Rest Download
unfolding validate_parameters_not_blank build_azure_repos_client
download_file_from_repo order s c owner repository branch path log =
    let start =
      lift (
        as_result (
          validate_parameters_not_blank order
            (("owner", owner) ∷ ("repository", repository) ∷ ("path", path) ∷ [])))
      >> build_azure_repos_client s c in
    let (r, log') = start log in
    let call = get_item_content c.project repository branch path in
    elim r [
      | err e ↦ (ok (failed 0 e), log')
      | panic m ↦ (panic m, log')
      | ok _ ↦ (received (s.content log' call), call ∷ log')
    ]
  where
    failed : ℕ → Error → Download
    failed code e = record { content = none; status_code = code; error = some e }

    read : Result String → Result Download
    read (ok t) = ok (record { content = some t; status_code = 200; error = none })
    read (err e) = ok (failed 0 e)
    read (panic m) = panic m

    received : Result (Result String) → Result Download
    received (ok t) = read t
    received (err e) = ok (failed 404 e)
    received (panic m) = panic m

pub data Unsupported : Type 0 where
  add_ssh_key_to_repository get_commit_by_sha create_label get_label list_pull_request_labels :
      Unsupported
  unlabel_pull_request upload_code_scanning create_webhook update_webhook delete_webhook :
      Unsupported
  get_repository_environment_info : Unsupported

operation_name : Unsupported → String
operation_name add_ssh_key_to_repository = "add ssh key to repository"
operation_name get_commit_by_sha = "get commit by sha"
operation_name create_label = "create label"
operation_name get_label = "get label"
operation_name list_pull_request_labels = "list pull request labels"
operation_name unlabel_pull_request = "unlabel pull request"
operation_name upload_code_scanning = "upload code scanning"
operation_name create_webhook = "create webhook"
operation_name update_webhook = "update webhook"
operation_name delete_webhook = "delete webhook"
operation_name get_repository_environment_info = "get repository environment info"

-- These operations send no request and give the error of `getUnsupportedInAzureError`.
unfoldable pub unsupported : {A : Type 0} → Unsupported → Rest A
unfolding operation_name
unsupported o =
    lift (err (errorf (operation_name o <> " is currently not supported for Azure Repos")))
