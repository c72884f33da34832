-- ===== src/Client/Github/Pulls/Labelled.antt =====
-- The branches of a pull request of GitHub, which it names behind their owner.
use text.Mathlib.TextLemmas.{cons-append, nil-append}
use froggit_go.Base.{
  ℕ, ◌≢◌, ℤ, String, ◌<>◌, ◌≡◌, refl, ap, ◌∙◌, Bool, some, none, List, [], ◌∷◌, ◌++◌, Result, ok,
  err, errorf, if◌then◌else◌,
}
use froggit_go.Base.Text.{Lacks, split, split-append, split-Lacks}
use froggit_go.Client.Types.{PullRequestInfo}
use froggit_go.Client.Github.Api.{
  Call, create_pull_request, NewPullRequest, PullRequest, PullRequestBranch, Server,
}
use froggit_go.Client.Github.RateLimit.Success.{final_response, ask_final}
use froggit_go.Client.Github.Pulls.{
  extract_branch_from_label, map_github_pull_request_to_pull_request_info, branch_names,
  branch_repo, both, create_pull_request_in,
}

-- A label has one colon, behind the owner.
split-pair :
    (owner branch : String)
    → Lacks ":" owner
    → Lacks ":" branch
    → split ":" (owner <> (":" <> branch)) ≡ owner ∷ branch ∷ []
split-pair owner branch h_owner h_branch =
    let colon : ":" <> branch ≡ String.◌∷◌ ":" branch =
      cons-append ":" "" branch ∙ ap (λ t. String.◌∷◌ ":" t) (nil-append branch) in
    ap (λ t. split ":" (owner <> t)) colon
    ∙ split-append ":" owner branch
    ∙ ap (λ xs. xs ++ split ":" branch) (split-Lacks ":" owner h_owner)
    ∙ ap (λ xs. owner ∷ xs) (split-Lacks ":" branch h_branch)

-- What a label with these parts is read as.
abbrev branch_in : String → List String → Result String
branch_in label parts = elim parts [
  | owner ∷ branch ∷ rest ↦ ok branch
  | _ ↦ err (errorf ("bad label format " <> label))
]

extract_branch_from_label-label :
    (owner branch : String)
    → Lacks ":" owner
    → Lacks ":" branch
    → extract_branch_from_label (owner <> (":" <> branch)) ≡ ok branch
unfolding extract_branch_from_label
extract_branch_from_label-label owner branch h_owner h_branch =
    ap (branch_in (owner <> (":" <> branch))) (split-pair owner branch h_owner h_branch)

-- How GitHub shows a branch of a repository.
abbrev pub shown_branch : String → String → String → PullRequestBranch
shown_branch owner repository label = record {
  label = some label;
  repo = some (record { name = some repository; owner = some (some owner) });
}

-- A pull request within a repository, as GitHub shows it: the head is the one of the request.
abbrev pub shown : String → String → ℤ → NewPullRequest → PullRequest
shown owner repository number p = record {
  number = some number;
  html_url = none;
  body = some p.body;
  head = some (shown_branch owner repository p.head);
  base = some (shown_branch owner repository (owner <> (":" <> p.base)));
}

-- The pull request that `CreatePullRequest` asks for is read back with its branches, if neither they
-- nor the owner have a colon in them and the repository of the branches is the one it was created in.
-- The request is sent once when the server takes it, with any status but those of the rate limit, 403
-- and 429.
pub create_pull_request_in_reads_back :
    (s : Server) (owner repository source_branch target_branch title description : String)
    (number last : ℤ) (status : String) (code : ℕ) (log : List Call)
    → code ≢ 403
    → code ≢ 429
    → Lacks ":" owner
    → Lacks ":" source_branch
    → Lacks ":" target_branch
    → ((c : Call) → s.done log c ≡ (some (final_response status code last), ok tt))
    → (p : NewPullRequest) × (create_pull_request_in s owner repository source_branch target_branch
          title description log
        ≡ (ok tt, create_pull_request owner repository p ∷ log))
      × ((with_body : Bool)
          → (i : PullRequestInfo) × (map_github_pull_request_to_pull_request_info
                (some (shown owner repository number p))
                with_body
              ≡ ok i)
            × (i.id ≡ number)
            × (i.source ≡ record { name = source_branch; repository = repository; owner = owner })
            × (i.target ≡ record { name = target_branch; repository = repository; owner = owner }))
unfolding create_pull_request_in map_github_pull_request_to_pull_request_info branch_names both
    branch_repo
create_pull_request_in_reads_back s owner repository source_branch target_branch title description
      number last status code log no_abuse not_too_many h_owner h_source h_target taken =
    (
      record {
        title = title;
        body = description;
        head = owner <> (":" <> source_branch);
        base = target_branch;
      },
      ask_final s s.done _ tt status code last log no_abuse not_too_many (taken _),
      λ with_body. (
        record {
          id = number;
          url = "";
          body = if with_body then description else "";
          source = record { name = source_branch; repository = repository; owner = owner };
          target = record { name = target_branch; repository = repository; owner = owner };
        },
        rw
            (
              extract_branch_from_label-label owner source_branch h_owner h_source,
              extract_branch_from_label-label owner target_branch h_owner h_target,
            )
            refl,
        refl,
        refl,
        refl,
      ),
    )
