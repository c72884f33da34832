-- ===== src/Vcs/Names.antt =====
-- Names of branches, files and states (vcsutils/utils.go).
use froggit_go.Base.{
  String, ◌<>◌, ◌≡◌, ◌≢◌, sym, ap, ◌∙◌, inl, inr, Bool-cases, true, false, ◌&&◌, not, Option, none,
  some, ◌==◌, if◌then◌else◌, arith, eq_iff,
}
use froggit_go.Base.Text.{has_prefix, trim_prefix, has_prefix-append, trim_prefix-append}
use froggit_go.Vcs.{branch_prefix, PullRequestState, open_state, closed_state, other_state}

-- `AddBranchPrefix`
unfoldable pub add_branch_prefix : String → String
unfolding has_prefix
add_branch_prefix branch =
    if not (branch == "") && not (has_prefix branch branch_prefix)
    then branch_prefix <> branch
    else branch

-- `GetPullRequestFilePath`
unfoldable pub get_pull_request_file_path : String → String
unfolding trim_prefix
get_pull_request_file_path path = if path == "" then "" else "/" <> trim_prefix path "/"

-- `MapPullRequestState`; `none` is nil.
unfoldable pub map_pull_request_state : PullRequestState → Option String
map_pull_request_state open_state = some "open"
map_pull_request_state closed_state = some "closed"
map_pull_request_state (other_state t) = none

add_branch_prefix-kept :
    (branch : String) → has_prefix branch branch_prefix ≡ true → add_branch_prefix branch ≡ branch
unfolding add_branch_prefix
add_branch_prefix-kept branch h = ground arith

add_branch_prefix-added :
    (branch : String)
    → branch ≢ ""
    → has_prefix branch branch_prefix ≡ false
    → add_branch_prefix branch ≡ branch_prefix <> branch
unfolding add_branch_prefix
add_branch_prefix-added branch named h = ground (arith, eq_iff branch "")

trim_prefix-missing : (s p : String) → has_prefix s p ≡ false → trim_prefix s p ≡ s
unfolding trim_prefix has_prefix
trim_prefix-missing s p h = ground arith

-- A branch with a name gets the prefix unless it has it: the result has the prefix, has the same
-- name behind it, and is not changed by a second call.
pub add_branch_prefix_lem :
    (branch : String)
    → branch ≢ ""
    → (has_prefix (add_branch_prefix branch) branch_prefix ≡ true)
      × (trim_prefix (add_branch_prefix branch) branch_prefix ≡ trim_prefix branch branch_prefix)
      × (add_branch_prefix (add_branch_prefix branch) ≡ add_branch_prefix branch)
add_branch_prefix_lem branch named = elim (Bool-cases (has_prefix branch branch_prefix)) [
  | inl e ↦
      let kept = add_branch_prefix-kept branch e in
      (
        ap (λ t. has_prefix t branch_prefix) kept ∙ e,
        ap (λ t. trim_prefix t branch_prefix) kept,
        ap add_branch_prefix kept,
      )
  | inr e ↦
      let added = add_branch_prefix-added branch named e in
      let prefixed = has_prefix-append branch_prefix branch in
      (
        ap (λ t. has_prefix t branch_prefix) added ∙ prefixed,
        ap (λ t. trim_prefix t branch_prefix) added
            ∙ trim_prefix-append branch_prefix branch
            ∙ sym (trim_prefix-missing branch branch_prefix e),
        ap add_branch_prefix added
            ∙ add_branch_prefix-kept (branch_prefix <> branch) prefixed
            ∙ sym added,
      )
]
