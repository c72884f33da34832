-- ===== src/Client/Github/Files/Modified.antt =====
-- Which files `GetModifiedFiles` of GitHub gives.
use froggit_go.Base.{String, ◌≡◌, ◌≢◌, ◌↔◌, ◌⊎◌, refl, ◌∙◌, ℤ, List, [], ◌∷◌, some, ok, arith}
use froggit_go.Vcs.Values.{default_if_not_nil, string_zero}
use froggit_go.Client.Params.{Order, IsOrder}
use froggit_go.Client.Params.Verdict.{NotBlank}
use froggit_go.Client.Sorting.{
  SetApi, SetLaws, Occurs, IsDistinct, IsSorted, sort_strings, sort_strings-IsSorted,
  sort_strings-IsDistinct, sort_strings-Occurs,
}
use froggit_go.Client.Shared.Guards.{validated-passes}
use froggit_go.Client.Github.Api.{Call, compare_commits, CommitFile, Server}
use froggit_go.Client.Github.RateLimit.Success.{ok_response, reading_with_succeeds}
use froggit_go.Client.Github.Files.{
  file_names, compared_names, execute_get_modified_files, get_modified_files,
}

-- The text is the name, or the previous name, of one of the files.
abbrev pub IsNameIn : String → List CommitFile → Type 0
IsNameIn t [] = ⊥
IsNameIn t (f ∷ fs) =
    ((t ≡ default_if_not_nil f.filename) ⊎ (t ≡ default_if_not_nil f.previous_filename))
    ⊎ IsNameIn t fs

file_names-Occurs :
    (x : SetApi) (laws : SetLaws x) (fs : List CommitFile) (set : x.Set) (t : String)
    → Occurs t (x.to_slice (file_names x fs set)) ↔ (IsNameIn t fs ⊎ Occurs t (x.to_slice set))
unfolding file_names
file_names-Occurs x laws [] set t = ground arith
file_names-Occurs x laws (f ∷ fs) set t =
    let name = default_if_not_nil f.filename in
    let previous = default_if_not_nil f.previous_filename in
    ground (
      arith,
      file_names-Occurs x laws fs (x.add (x.add set name) previous) t,
      laws.add_iff (x.add set name) previous t,
      laws.add_iff set name t,
    )

-- For parameters that are not blank, and a comparison that the server gives with the status `OK`,
-- `GetModifiedFiles` of GitHub returns the names and the previous names of its files: sorted, each
-- once, without the empty name, and no others. It sends one request. The set is assumed to keep its
-- laws.
pub github_get_modified_files_lem :
    (x : SetApi) (laws : SetLaws x) (order : Order) (s : Server)
    (owner repository ref_before ref_after : String) (files : List CommitFile) (last : ℤ)
    (log : List Call)
    → IsOrder order
    → NotBlank ("owner", owner)
    → NotBlank ("repository", repository)
    → NotBlank ("refBefore", ref_before)
    → NotBlank ("refAfter", ref_after)
    → s.compared log (compare_commits owner repository ref_before ref_after 1)
      ≡ (some (ok_response last), ok files)
    → (names : List String) × (get_modified_files x order s owner repository ref_before ref_after
          log
        ≡ (ok names, compare_commits owner repository ref_before ref_after 1 ∷ log))
      × IsSorted names
      × IsDistinct names
      × ((t : String) → Occurs t names ↔ ((t ≢ "") × IsNameIn t files))
unfolding get_modified_files execute_get_modified_files compared_names
github_get_modified_files_lem x laws order s owner repository ref_before ref_after files last log o
      n_owner n_repo n_before n_after given =
    let set = file_names x files x.make in
    let slice = x.to_slice (x.remove set "") in
    let call = compare_commits owner repository ref_before ref_after 1 in
    (
      sort_strings slice,
      validated-passes order
            (("owner", owner)
              ∷ ("repository", repository)
              ∷ ("refBefore", ref_before)
              ∷ ("refAfter", ref_after)
              ∷ [])
            _ log o (n_owner, (n_repo, (n_before, (n_after, tt))))
          ∙ reading_with_succeeds s s.compared call files last log given (compared_names x s)
              (sort_strings slice) refl,
      sort_strings-IsSorted slice,
      sort_strings-IsDistinct slice (laws.slice-IsDistinct (x.remove set "")),
      λ t. ground (
        arith,
        sort_strings-Occurs t slice,
        laws.remove_iff set "" t,
        file_names-Occurs x laws files x.make t,
        laws.make_empty t,
      ),
    )
