-- ===== src/Client/Gitlab/Repos/Pages.antt =====
-- The listing of repositories asks for every page, and leaves no project out.
use mathlib.Core.List.{append_assoc, append-nil}
use froggit_go.Base.{
  ℕ, zero, suc, ◌+◌, ◌<◌, pos, String, ◌≡◌, ◌≢◌, refl, sym, ap, ◌∙◌, true, false, Option, none,
  some, List, [], ◌∷◌, ◌++◌, Result, ok, arith, ◌==◌, if◌then◌else◌, All, leb, Bool-cases,
  Option-cases, inl, inr,
}
use froggit_go.Calls.{◌>>=◌, pure, lift, send}
use froggit_go.Client.Gitlab.Api.{Call, list_projects, Project, Server}
use froggit_go.Client.Gitlab.Repos.{group, is_last, project_loop, list_repositories}
use froggit_go.Client.Shared.{append_to}
use froggit_go.Client.Shared.Owners.{paths_at, paths_at-append_to}

-- The projects of an owner in a list of projects.
abbrev pub of_owner : String → Option String → String → List String → List String
of_owner o none path rest = rest
of_owner o (some q) path rest = if q == o then path ∷ rest else rest

abbrev pub paths_of : String → List Project → List String
paths_of o [] = []
paths_of o (p ∷ ps) = of_owner o p.namespace_path p.path (paths_of o ps)

-- A project whose namespace is there is put below its owner.
abbrev pub HasOwner : Project → Type 0
HasOwner p = p.namespace_path ≢ none

-- The map that `group` gives has, for every owner, the paths that it had and then the new ones.
abbrev Adds :
    List Project → List (String × List String) → Result (List (String × List String)) → Type 0
Adds ps r g =
    (r' : List (String × List String)) × (g ≡ ok r')
    × ((o : String) → paths_at o r' ≡ paths_at o r ++ paths_of o ps)

snoc-cons :
    (o q path : String) (xs rest : List String)
    → (xs ++ (if q == o then path ∷ [] else [])) ++ rest ≡ xs ++ of_owner o (some q) path rest
snoc-cons o q path xs rest = elim (Bool-cases (q == o)) [
  | inl e ↦ rw e (append_assoc xs (path ∷ []) rest)
  | inr e ↦ rw e (ap (λ ys. ys ++ rest) (append-nil xs))
]

group-Adds :
    (ps : List Project) (r : List (String × List String)) → All HasOwner ps → Adds ps r (group ps r)
unfolding group
group-Adds [] r h = (r, refl, λ o. sym (append-nil (paths_at o r)))
group-Adds (p ∷ ps) r h = elim (Option-cases p.namespace_path) [
  | inl e ↦ absurd (h.0 e)
  | inr (q, e) ↦
      let (r', given, adds) = group-Adds ps (append_to q p.path r) h.1 in
      (
        r',
        rw e given,
        λ o. rw e (
            adds o
            ∙ ap (λ xs. xs ++ paths_of o ps) (paths_at-append_to o q p.path r)
            ∙ snoc-cons o q p.path (paths_at o r) (paths_of o ps)),
      )
]

-- The projects of so many pages from `k` on, and the log after they were asked for.
abbrev pub projects_from : (ℕ → List Project) → ℕ → ℕ → List Project
projects_from pages k zero = []
projects_from pages k (suc n) = pages k ++ projects_from pages (suc k) n

abbrev pub asked : ℕ → ℕ → List Call → List Call
asked k zero log = log
asked k (suc n) log = asked (suc k) n (list_projects (some k) ∷ log)

paths_of-append :
    (o : String) (xs ys : List Project) → paths_of o (xs ++ ys) ≡ paths_of o xs ++ paths_of o ys
paths_of-append o [] ys = refl
paths_of-append o (p ∷ xs) ys = elim (Option-cases p.namespace_path) [
  | inl e ↦ rw e (paths_of-append o xs ys)
  | inr (q, e) ↦ elim (Bool-cases (q == o)) [
    | inl same ↦ rw (e, same) (ap (λ t. p.path ∷ t) (paths_of-append o xs ys))
    | inr other ↦ rw (e, other) (paths_of-append o xs ys)
  ]
]

module _ (s : Server) (pages : ℕ → List Project) (total : ℕ)
    (stable : (log : List Call) (k : ℕ)
      → s.projects log (list_projects (some k))
        ≡ ok (record { projects = pages k; total_pages = pos total }))
    (owned : (k : ℕ) → All HasOwner (pages k)) where
  -- The run gives a map with the paths of the projects, and has asked for the pages.
  abbrev pub Lists :
      ℕ
      → ℕ
      → List (String × List String)
      → List Call
      → Result (List (String × List String)) × List Call
      → Type 0
  Lists k n r log run =
      (r' : List (String × List String)) × (run ≡ (ok r', asked k n log))
      × ((o : String) → paths_at o r' ≡ paths_at o r ++ paths_of o (projects_from pages k n))

  project_loop-Lists :
      (n fuel k : ℕ) (r : List (String × List String)) (log : List Call)
      → n < fuel
      → k + n ≡ total
      → Lists k (suc n) r log (project_loop s fuel k r log)
  unfolding project_loop is_last ◌>>=◌ send lift pure
  project_loop-Lists n zero k r log f e = absurd (omega arith)
  project_loop-Lists zero (suc fuel) k r log f e =
      let (r', given, adds) = group-Adds (pages k) r (owned k) in
      let last : leb total k ≡ true = ground arith in
      (
        r',
        rw (stable log k, given, last) refl,
        λ o. adds o ∙ ap (λ ps. paths_at o r ++ paths_of o ps) (sym (append-nil (pages k))),
      )
  project_loop-Lists (suc n) (suc fuel) k r log f e =
      let (r', given, adds) = group-Adds (pages k) r (owned k) in
      let more : leb total k ≡ false = ground arith in
      let (r'', rest, adds') =
        project_loop-Lists n fuel (suc k) r' (list_projects (some k) ∷ log) (omega arith)
          (omega arith) in
      (
        r'',
        rw (stable log k, given, more) rest,
        λ o.
            adds' o
            ∙ ap (λ xs. xs ++ paths_of o (projects_from pages (suc k) (suc n))) (adds o)
            ∙ append_assoc (paths_at o r) (paths_of o (pages k)) _
            ∙ ap (λ xs. paths_at o r ++ xs) (sym (paths_of-append o (pages k) _)),
      )

  -- If the server keeps to its pages, of which there is at least one, and every project has a
  -- namespace, then `ListRepositories` asks for each page once, in order, comes to an end, and gives
  -- every owner the paths of all of its projects, in order. A round of fuel for each page is enough.
  pub list_repositories-Lists :
      (n fuel : ℕ) (log : List Call)
      → total ≡ suc n
      → n < fuel
      → Lists 1 total [] log (list_repositories s fuel log)
  unfolding list_repositories
  list_repositories-Lists n fuel log e f = rw e (project_loop-Lists n fuel 1 [] log f (omega arith))
