-- ===== src/Client/Gitlab/Files/Modified.antt =====
-- Which files `GetModifiedFiles` of GitLab gives.
use froggit_go.Base.{String, ◌≡◌, ◌≢◌, ◌↔◌, ◌⊎◌, refl, List, [], ◌∷◌, ok, arith}
use froggit_go.Calls.{◌>>=◌, pure, lift, send}
use froggit_go.Client.Params.{Order, IsOrder}
use froggit_go.Client.Params.Verdict.{NotBlank, validate_parameters_not_blank-passes_iff}
use froggit_go.Client.Sorting.{
  SetApi, SetLaws, Occurs, IsDistinct, IsSorted, sort_strings, sort_strings-IsSorted,
  sort_strings-IsDistinct, sort_strings-Occurs,
}
use froggit_go.Client.Gitlab.Api.{Call, compare, Diff, Server}
use froggit_go.Client.Gitlab.Repos.{get_project_id}
use froggit_go.Client.Gitlab.Files.{file_names, get_modified_files}

-- The text is the old or the new path of one of the diffs.
abbrev pub IsPathIn : String → List Diff → Type 0
IsPathIn t [] = ⊥
IsPathIn t (d ∷ ds) = ((t ≡ d.new_path) ⊎ (t ≡ d.old_path)) ⊎ IsPathIn t ds

file_names-Occurs :
    (x : SetApi) (laws : SetLaws x) (ds : List Diff) (set : x.Set) (t : String)
    → Occurs t (x.to_slice (file_names x ds set)) ↔ (IsPathIn t ds ⊎ Occurs t (x.to_slice set))
unfolding file_names
file_names-Occurs x laws [] set t = ground arith
file_names-Occurs x laws (d ∷ ds) set t = ground (
  arith,
  file_names-Occurs x laws ds (x.add (x.add set d.new_path) d.old_path) t,
  laws.add_iff (x.add set d.new_path) d.old_path t,
  laws.add_iff set d.new_path t,
)

-- For parameters that are not blank, and a comparison that the server gives, `GetModifiedFiles`
-- returns the old and new paths of its diffs: sorted, each once, without the empty path, and no
-- others. It sends one request. The set is assumed to keep its laws.
pub get_modified_files_lem :
    (x : SetApi) (laws : SetLaws x) (order : Order) (s : Server)
    (owner repository ref_before ref_after : String) (diffs : List Diff) (log : List Call)
    → IsOrder order
    → NotBlank ("owner", owner)
    → NotBlank ("repository", repository)
    → NotBlank ("refBefore", ref_before)
    → NotBlank ("refAfter", ref_after)
    → s.compared log (compare (get_project_id owner repository) ref_before ref_after) ≡ ok diffs
    → (files : List String) × (get_modified_files x order s owner repository ref_before ref_after
          log
        ≡ (ok files, compare (get_project_id owner repository) ref_before ref_after ∷ log))
      × IsSorted files
      × IsDistinct files
      × ((t : String) → Occurs t files ↔ ((t ≢ "") × IsPathIn t diffs))
unfolding get_modified_files ◌>>=◌ lift send pure
get_modified_files_lem x laws order s owner repository ref_before ref_after diffs log o n_owner
      n_repo n_before n_after c =
    let set = file_names x diffs x.make in
    let slice = x.to_slice (x.remove set "") in
    let passes =
      (validate_parameters_not_blank-passes_iff order
          (("owner", owner)
            ∷ ("repository", repository)
            ∷ ("refBefore", ref_before)
            ∷ ("refAfter", ref_after)
            ∷ [])
          o).1
        (n_owner, (n_repo, (n_before, (n_after, tt)))) in
    (
      sort_strings slice,
      rw (passes, c) refl,
      sort_strings-IsSorted slice,
      sort_strings-IsDistinct slice (laws.slice-IsDistinct (x.remove set "")),
      λ t. ground (
        arith,
        sort_strings-Occurs t slice,
        laws.remove_iff set "" t,
        file_names-Occurs x laws diffs x.make t,
        laws.make_empty t,
      ),
    )
