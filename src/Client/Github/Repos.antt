-- ===== src/Client/Github/Repos.antt =====
-- Repositories, branches and keys on GitHub.
pub mod Pages
use froggit_go.Base.{
  ℕ, zero, suc, ◌+◌, ℤ, pos, negsuc, String, ◌<>◌, Bool, true, false, Option, none, some, List, [],
  ◌∷◌, Result, ok, err, panic, Error, leb, deref, ◌==◌, if◌then◌else◌, ◌>>=◌ as ◌>>>◌,
}
use froggit_go.Calls.{◌>>=◌, ◌>>◌, pure, lift, send}
use froggit_go.Client.Types.{
  Permission, read, read_write, RepositoryVisibility, public, internal, private, RepositoryInfo,
}
use froggit_go.Client.Params.{Order}
use froggit_go.Client.Shared.{validated, append_to}
use froggit_go.Client.Github.Api.{
  GithubResponse, Call, zen, create_key, list_page, list_branches, get_repository, Repository,
  RepositoryDetails, Server, Rest,
}
use froggit_go.Client.Github.RateLimit.{
  Attempt, request, reading, reading_with, limited, limited_with_response, ask,
}

-- The repositories of a page, by their owners. The name and the owner's login are pointers.
unfoldable pub group :
    List Repository → List (String × List String) → Result (List (String × List String))
unfolding append_to
group [] results = ok results
group (r ∷ rs) results = deref r.owner_login >>> λ owner.
    deref r.name >>> λ name. group rs (append_to owner name results)

-- `nextPage+1 > ghResponse.LastPage`
unfoldable pub is_last : ℕ → ℤ → Bool
is_last page (pos last) = leb last page
is_last page (negsuc n) = true

names_of : List (Option String) → Result (List String)
names_of [] = ok []
names_of (b ∷ bs) = deref b >>> λ name. names_of bs >>> λ names. ok (name ∷ names)

module _ (s : Server) where
  -- The only request that is not sent again.
  unfoldable pub test_connection : Rest (Unit {0})
  test_connection log = ((s.done log zen).1, zen ∷ log)

  -- The loop over the pages, with so many rounds of fuel.
  unfoldable pub repository_loop :
      ℕ → ℕ → List (String × List String) → Rest (List (String × List String))
  unfolding group is_last limited_with_response request
  repository_loop zero page results = lift (panic "out of fuel")
  repository_loop (suc fuel) page results = do
    (repositories, response) ← limited_with_response s (request s.repositories (list_page page))
    results ← lift (group repositories results)
    r ← lift (deref response)
    (if is_last page r.last_page then pure results else repository_loop fuel (suc page) results)

  unfoldable pub list_repositories : ℕ → Rest (List (String × List String))
  unfolding repository_loop
  list_repositories fuel = repository_loop fuel 1 []

  execute_list_branch : String → String → Attempt (Option (List String))
  unfolding request reading_with names_of
  execute_list_branch owner repository =
      reading (request s.branches (list_branches owner repository)) names_of

  unfoldable pub list_branches_of : String → String → Rest (List String)
  unfolding limited execute_list_branch
  list_branches_of owner repository = limited s (execute_list_branch owner repository)

-- `*repo.Visibility`
unfoldable pub get_github_repository_visibility : RepositoryDetails → Result RepositoryVisibility
get_github_repository_visibility r = deref r.visibility >>> λ visibility. ok (
    if visibility == "public"
    then public
    else if visibility == "internal"
    then internal
    else private)

module _ (order : Order) (s : Server) where
  unfoldable pub add_ssh_key_to_repository :
      String → String → String → String → Permission → Rest (Unit {0})
  unfolding validated ask
  add_ssh_key_to_repository owner repository key_name public_key permission = do
    validated order (
        ("owner", owner)
        ∷ ("repository", repository)
        ∷ ("key name", key_name)
        ∷ ("public key", public_key)
        ∷ [])
    ask s s.done (
        create_key owner repository public_key key_name
          (elim permission [ read ↦ true | read_write ↦ false ]))

  unfoldable pub get_repository_info : String → String → Rest RepositoryInfo
  unfolding validated ask get_github_repository_visibility
  get_repository_info owner repository = do
    validated order (("owner", owner) ∷ ("repository", repository) ∷ [])
    repo ← ask s s.repository (get_repository owner repository)
    visibility ← lift (get_github_repository_visibility repo)
    pure (record {
      clone_info = record { http = repo.clone_url; ssh = repo.ssh_url };
      repository_visibility = visibility;
    })
