-- ===== src/Client/BitbucketServer/Repos/Listed.antt =====
-- What the listings of Bitbucket Server give, over all of their pages.
use mathlib.Core.List.{append_assoc, append-nil}
use froggit_go.Base.{
  ℕ, zero, suc, ◌≤◌, String, ◌<>◌, ◌≡◌, ◌≢◌, refl, sym, ap, ◌∙◌, false, List, [], ◌∷◌, ◌++◌, ok,
  arith, ◌==◌, eq_iff, All,
}
use froggit_go.Calls.{pure, lift, >>=-ok}
use froggit_go.Client.Shared.{append_to}
use froggit_go.Client.Shared.Owners.{
  paths_at, names_of_owner, append_all, pages_from, paths_at-append_all, append_all-append,
}
use froggit_go.Client.BitbucketServer.Api.{
  Call, get_projects, get_repositories, get_branches, Server,
}
use froggit_go.Client.BitbucketServer.Paging.{Listing, IsServed, asked, added, page_loop_serves}
use froggit_go.Client.BitbucketServer.Repos.{
  append_items, append_repositories, list_projects, project_repositories, list_repositories,
  list_branches,
}

abbrev pub everything : {A : Type 0} → Listing A → List A
everything l = pages_from l.pages 0 l.total

-- Pages that are appended one after the other.
pub added-append :
    {A B : Type 0} (of_page : List A → List B) (pages : ℕ → List A) (k n : ℕ) (r : List B)
    → ((xs ys : List A) → of_page (xs ++ ys) ≡ of_page xs ++ of_page ys)
    → of_page [] ≡ []
    → added (λ r xs. r ++ of_page xs) pages k n r ≡ r ++ of_page (pages_from pages k n)
added-append of_page pages k zero r splits empty =
    sym (append-nil r) ∙ ap (λ ys. r ++ ys) (sym empty)
added-append of_page pages k (suc n) r splits empty =
    added-append of_page pages (suc k) n (r ++ of_page (pages k)) splits empty
    ∙ append_assoc r (of_page (pages k)) (of_page (pages_from pages (suc k) n))
    ∙ ap (λ ys. r ++ ys) (sym (splits (pages k) (pages_from pages (suc k) n)))

module _ (s : Server) where
  -- If the server keeps to a listing of the branches, `ListBranches` of Bitbucket Server gives all of
  -- them, in order, and asks for each page once. A round of fuel for each page is enough.
  pub list_branches-everything :
      (fuel : ℕ) (owner repository : String) (l : Listing String) (log : List Call)
      → IsServed s.branches (get_branches owner repository) l
      → l.total ≤ fuel
      → list_branches s fuel owner repository log
        ≡ (ok (everything l), asked (get_branches owner repository) l.start 0 l.total log)
  unfolding list_branches pure
  list_branches-everything fuel owner repository l log served enough =
      let (last, run, same) =
        page_loop_serves s.branches (get_branches owner repository) append_items (λ r xs. r ++ xs) l
          fuel [] log served (λ r k. refl) enough in
      >>=-ok _ _ log run
      ∙ ap (λ r. (ok r, asked (get_branches owner repository) l.start 0 l.total log))
          (added-append (λ xs. xs) l.pages 0 l.total [] (λ xs ys. refl) refl)

  list_projects-everything :
      (fuel : ℕ) (l : Listing String) (log : List Call)
      → IsServed s.projects get_projects l
      → l.total ≤ fuel
      → l.username ≢ ""
      → list_projects s fuel log ≡ (
        ok (everything l ++ (("~" <> s.to_upper l.username) ∷ [])),
        asked get_projects l.start 0 l.total log,
      )
  unfolding list_projects lift
  list_projects-everything fuel l log served enough named =
      let (last, run, same) =
        page_loop_serves s.projects get_projects append_items (λ r xs. r ++ xs) l fuel [] log served
          (λ r k. refl) enough in
      let is_named : (l.username == "") ≡ false = ground (arith, eq_iff l.username "") in
      >>=-ok _ _ log run
      ∙ rw (same, is_named)
          (ap
            (λ r. (
              ok (r ++ (("~" <> s.to_upper l.username) ∷ [])),
              asked get_projects l.start 0 l.total log,
            ))
            (added-append (λ xs. xs) l.pages 0 l.total [] (λ xs ys. refl) refl))

-- The repositories of a project, each with its project.
abbrev pub with_project : String → List String → List (String × String)
with_project project [] = []
with_project project (slug ∷ slugs) = (project, slug) ∷ with_project project slugs

with_project-append :
    (project : String) (xs ys : List String)
    → with_project project (xs ++ ys) ≡ with_project project xs ++ with_project project ys
with_project-append project [] ys = refl
with_project-append project (x ∷ xs) ys =
    ap (λ ps. (project, x) ∷ ps) (with_project-append project xs ys)

append_repositories-append_all :
    (project : String) (r : List (String × List String)) (slugs : List String)
    → append_repositories project r slugs ≡ append_all (with_project project slugs) r
unfolding append_repositories
append_repositories-append_all project r [] = refl
append_repositories-append_all project r (slug ∷ slugs) =
    append_repositories-append_all project (append_to project slug r) slugs

added-append_all :
    (project : String) (pages : ℕ → List String) (k n : ℕ) (r : List (String × List String))
    → added (append_repositories project) pages k n r
      ≡ append_all (with_project project (pages_from pages k n)) r
added-append_all project pages k zero r = refl
added-append_all project pages k (suc n) r =
    added-append_all project pages (suc k) n (append_repositories project r (pages k))
    ∙ ap (append_all (with_project project (pages_from pages (suc k) n)))
        (append_repositories-append_all project r (pages k))
    ∙ sym (
        append_all-append (with_project project (pages k))
          (with_project project (pages_from pages (suc k) n)) r)
    ∙ ap (λ ps. append_all ps r)
        (sym (with_project-append project (pages k) (pages_from pages (suc k) n)))

module _ (s : Server) (fuel : ℕ) (listing : String → Listing String) where
  -- The repositories of the projects, each with its project.
  abbrev pub all_repositories : List String → List (String × String)
  all_repositories [] = []
  all_repositories (p ∷ ps) = with_project p (everything (listing p)) ++ all_repositories ps

  -- The server keeps to the listing of the project, and there is fuel enough for it.
  abbrev pub IsListed : String → Type 0
  IsListed p = IsServed s.repositories (get_repositories p) (listing p) × ((listing p).total ≤ fuel)

  project_repositories-append_all :
      (projects : List String) (r : List (String × List String)) (log : List Call)
      → All IsListed projects
      → (project_repositories s fuel projects r log).0
        ≡ ok (append_all (all_repositories projects) r)
  unfolding project_repositories pure
  project_repositories-append_all [] r log h = refl
  project_repositories-append_all (p ∷ ps) r log ((served, enough), rest) =
      let (last, run, same) =
        page_loop_serves s.repositories (get_repositories p)
          (λ r slugs. ok (append_repositories p r slugs)) (append_repositories p) (listing p) fuel r
          log served (λ r k. refl) enough in
      ap (λ x. x.0) (>>=-ok _ _ log run)
      ∙ project_repositories-append_all ps _ _ rest
      ∙ ap (λ m. ok (append_all (all_repositories ps) m))
          (added-append_all p (listing p).pages 0 (listing p).total r)
      ∙ ap ok (
          sym (append_all-append (with_project p (everything (listing p))) (all_repositories ps) r))

  -- If the server keeps to a listing of the projects, names the user, and keeps to a listing of the
  -- repositories of every project and of that of the user, then `ListRepositories` of Bitbucket Server
  -- gives every owner the repositories of all its pages, in order, and those of the user under `~`
  -- and the name in upper case. A round of fuel for each page of a listing is enough.
  pub server_list_repositories-all_repositories :
      (l : Listing String) (log : List Call)
      → IsServed s.projects get_projects l
      → l.total ≤ fuel
      → l.username ≢ ""
      → All IsListed (everything l ++ (("~" <> s.to_upper l.username) ∷ []))
      → (r : List (String × List String)) × ((list_repositories s fuel log).0 ≡ ok r)
        × ((o : String)
            → paths_at o r
              ≡ names_of_owner o
                  (all_repositories (everything l ++ (("~" <> s.to_upper l.username) ∷ []))))
  unfolding list_repositories
  server_list_repositories-all_repositories l log served enough named listed =
      let projects = everything l ++ (("~" <> s.to_upper l.username) ∷ []) in
      (
        append_all (all_repositories projects) [],
        ap (λ x. x.0) (>>=-ok _ _ log (list_projects-everything s fuel l log served enough named))
            ∙ project_repositories-append_all projects [] _ listed,
        λ o. paths_at-append_all o (all_repositories projects) [],
      )
