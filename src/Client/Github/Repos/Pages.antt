-- ===== src/Client/Github/Repos/Pages.antt =====
-- The listing of the repositories of GitHub asks for every page, and leaves no repository out.
use mathlib.Core.List.{append-nil}
use froggit_go.Base.{
  ℕ, zero, suc, ◌+◌, ◌<◌, ℤ, pos, String, ◌≡◌, refl, sym, ap, ◌∙◌, Bool-cases, inl, inr, true,
  false, some, List, [], ◌∷◌, ok, arith, leb, if◌then◌else◌,
}
use froggit_go.Calls.{pure, >>=-ok, >>=-lift}
use froggit_go.Client.Github.Api.{Call, list_page, Repository, Server}
use froggit_go.Client.Github.RateLimit.Success.{ok_response, limited_with_response_succeeds}
use froggit_go.Client.Github.Repos.{group, is_last, repository_loop, list_repositories}
use froggit_go.Client.Shared.Owners.{
  paths_at, names_of_owner, append_all, pages_from, paths_at-append_all, append_all-page,
}

-- Repositories whose owner and name are given.
abbrev pub complete : List (String × String) → List Repository
complete [] = []
complete ((owner, name) ∷ ps) = record { owner_login = some owner; name = some name } ∷ complete ps

group-complete :
    (ps : List (String × String)) (r : List (String × List String))
    → group (complete ps) r ≡ ok (append_all ps r)
unfolding group
group-complete [] r = refl
group-complete ((owner, name) ∷ ps) r = group-complete ps _

-- The number of the last page, which is left out on that page itself.
abbrev pub last_page_seen : ℕ → ℕ → ℤ
last_page_seen total k = if leb total k then pos 0 else pos total

is_last-last_page_seen : (total k : ℕ) → is_last k (last_page_seen total k) ≡ leb total k
unfolding is_last
is_last-last_page_seen total k = elim (Bool-cases (leb total k)) [
  | inl e ↦ rw e (ground arith)
  | inr e ↦ rw e e
]

-- The log after so many pages from `k` on were asked for.
abbrev pub asked : ℕ → ℕ → List Call → List Call
asked k zero log = log
asked k (suc n) log = asked (suc k) n (list_page k ∷ log)

module _ (s : Server) (pages : ℕ → List (String × String)) (total : ℕ)
    (stable : (log : List Call) (k : ℕ)
      → s.repositories log (list_page k)
        ≡ (some (ok_response (last_page_seen total k)), ok (complete (pages k)))) where
  -- A round that is not the last, or is.
  repository_round :
      (fuel k : ℕ) (r : List (String × List String)) (log : List Call)
      → repository_loop s (suc fuel) k r log
        ≡ (if leb total k
              then pure (append_all (pages k) r)
              else repository_loop s fuel (suc k) (append_all (pages k) r))
            (list_page k ∷ log)
  unfolding repository_loop pure
  repository_round fuel k r log =
      >>=-ok _ _ log (
        limited_with_response_succeeds s s.repositories (list_page k) (complete (pages k))
          (last_page_seen total k) log (stable log k))
      ∙ >>=-lift _ _ (list_page k ∷ log) (group-complete (pages k) r)
      ∙ >>=-lift _ _ (list_page k ∷ log) refl
      ∙ rw (is_last-last_page_seen total k) refl

  repository_loop_lists :
      (n fuel k : ℕ) (r : List (String × List String)) (log : List Call)
      → n < fuel
      → k + n ≡ total
      → repository_loop s fuel k r log
        ≡ (ok (append_all (pages_from pages k (suc n)) r), asked k (suc n) log)
  unfolding pure
  repository_loop_lists n zero k r log f e = absurd (omega arith)
  repository_loop_lists zero (suc fuel) k r log f e =
      let last : leb total k ≡ true = ground arith in
      repository_round fuel k r log
      ∙ rw last (ap (λ ps. (ok (append_all ps r), list_page k ∷ log)) (sym (append-nil (pages k))))
  repository_loop_lists (suc n) (suc fuel) k r log f e =
      let more : leb total k ≡ false = ground arith in
      let rest =
        repository_loop_lists n fuel (suc k) (append_all (pages k) r) (list_page k ∷ log)
          (omega arith) (omega arith) in
      repository_round fuel k r log
      ∙ rw more rest
      ∙ ap (λ m. (ok m, asked k (suc (suc n)) log)) (append_all-page pages k (suc n) r)

  -- If the server gives its pages, of which there is at least one, with the number of the last page on
  -- all but that page, and every repository with its owner and its name, then `ListRepositories` of
  -- GitHub asks for each page once, in order, comes to an end, and gives every owner the names of all
  -- of its repositories, in order. A round of fuel for each page is enough.
  pub github_list_repositories_lists :
      (n fuel : ℕ) (log : List Call)
      → total ≡ suc n
      → n < fuel
      → (r : List (String × List String)) × (list_repositories s fuel log
          ≡ (ok r, asked 1 total log))
        × ((o : String) → paths_at o r ≡ names_of_owner o (pages_from pages 1 total))
  unfolding list_repositories
  github_list_repositories_lists n fuel log e f = (
    append_all (pages_from pages 1 total) [],
    repository_loop_lists n fuel 1 [] log f (omega arith)
        ∙ ap (λ t. (ok (append_all (pages_from pages 1 t) []), asked 1 t log)) (sym e),
    λ o. paths_at-append_all o (pages_from pages 1 total) [],
  )
