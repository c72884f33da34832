-- ===== src/Tests/Client.antt =====
-- Statuses and parameters.
use froggit_go.Base.{◌≡◌, refl, [], ◌∷◌, some, errorf}
use froggit_go.Client.Types.{pass, error, in_progress}
use froggit_go.Client.Status.{
  commit_status_as_string_to_status, get_bitbucket_commit_state, get_gitlab_commit_state,
  map_status_to_string, get_github_commit_state, state_reads_back,
}
use froggit_go.Client.Params.{Params, IsOrder, validate_parameters_not_blank}

state_reads_back_example :
    (commit_status_as_string_to_status (map_status_to_string in_progress) ≡ in_progress)
    × (commit_status_as_string_to_status (get_github_commit_state in_progress) ≡ in_progress)
    × (commit_status_as_string_to_status (get_bitbucket_commit_state in_progress) ≡ in_progress)
    × (commit_status_as_string_to_status (get_gitlab_commit_state in_progress) ≡ error)
state_reads_back_example = state_reads_back in_progress

mixed_case : commit_status_as_string_to_status "SuCCeeDed" ≡ pass
unfolding commit_status_as_string_to_status
mixed_case = refl

abbrev pub as_given : Params → Params
as_given ps = ps

pub as_given-IsOrder : IsOrder as_given
as_given-IsOrder ps p = (λ m. m, λ m. m)

abbrev params : Params
params = ("owner", "acme") ∷ ("branch", " ") ∷ []

complains :
    validate_parameters_not_blank as_given params
    ≡ some (errorf "validation failed: required parameter 'branch' is missing")
unfolding validate_parameters_not_blank
complains = refl
