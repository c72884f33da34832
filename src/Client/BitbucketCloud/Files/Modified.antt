-- ===== src/Client/BitbucketCloud/Files/Modified.antt =====
-- Which files `GetModifiedFiles` of Bitbucket Cloud gives, over all pages.
use mathlib.Core.List.{append-nil}
use froggit_go.Base.{
  ℕ, zero, suc, ◌+◌, ◌<◌, String, ◌<>◌, ◌≡◌, ◌≢◌, ◌↔◌, ◌⊎◌, refl, sym, ap, ◌∙◌, Bool, true, false,
  Option, none, some, List, [], ◌∷◌, ◌++◌, ok, arith, ltb, ◌==◌, eq_iff, if◌then◌else◌,
}
use froggit_go.Calls.{pure, send, >>=-ok}
use froggit_go.Client.Params.{Order, IsOrder}
use froggit_go.Client.Params.Verdict.{NotBlank}
use froggit_go.Client.Sorting.{
  SetApi, SetLaws, Occurs, IsDistinct, IsSorted, sort_strings, sort_strings-IsSorted,
  sort_strings-IsDistinct, sort_strings-Occurs,
}
use froggit_go.Client.Shared.Guards.{validated-passes}
use froggit_go.Client.Shared.Owners.{pages_from}
use froggit_go.Client.BitbucketCloud.Api.{Call, diff_stat, DiffStat, Server}
use froggit_go.Client.BitbucketCloud.Files.{add_path, file_names, page_loop, get_modified_files}

-- The text is the new or the old path of one of the differences.
abbrev pub IsPathIn : String → List DiffStat → Type 0
IsPathIn t [] = ⊥
IsPathIn t (d ∷ ds) = ((d.new_path ≡ some t) ⊎ (d.old_path ≡ some t)) ⊎ IsPathIn t ds

module _ (x : SetApi) where
  file_names-append :
      (cs ds : List DiffStat) (set : x.Set)
      → file_names x (cs ++ ds) set ≡ file_names x ds (file_names x cs set)
  unfolding file_names
  file_names-append [] ds set = refl
  file_names-append (c ∷ cs) ds set =
      file_names-append cs ds (add_path x (add_path x set c.new_path) c.old_path)

  module _ (laws : SetLaws x) where
    add_path-Occurs :
        (set : x.Set) (path : Option String) (t : String)
        → Occurs t (x.to_slice (add_path x set path))
          ↔ ((path ≡ some t) ⊎ Occurs t (x.to_slice set))
    unfolding add_path
    add_path-Occurs set none t = ground arith
    add_path-Occurs set (some p) t = ground (arith, laws.add_iff set p t)

    file_names-Occurs :
        (ds : List DiffStat) (set : x.Set) (t : String)
        → Occurs t (x.to_slice (file_names x ds set)) ↔ (IsPathIn t ds ⊎ Occurs t (x.to_slice set))
    unfolding file_names
    file_names-Occurs [] set t = ground arith
    file_names-Occurs (d ∷ ds) set t = ground (
      arith,
      file_names-Occurs ds (add_path x (add_path x set d.new_path) d.old_path) t,
      add_path-Occurs (add_path x set d.new_path) d.old_path t,
      add_path-Occurs set d.new_path t,
    )

-- The log after so many pages from `k` on were asked for.
abbrev pub asked : (ℕ → Call) → ℕ → ℕ → List Call → List Call
asked call k zero log = log
asked call k (suc n) log = asked call (suc k) n (call k ∷ log)

module _ (x : SetApi) (s : Server) (owner repository spec : String) (pages : ℕ → List DiffStat)
    (total : ℕ) (link : String) (is_link : link ≢ "")
    (stable : (log : List Call) (k : ℕ)
      → s.diffs log (diff_stat owner repository spec k)
        ≡ ok (record { next = if ltb k total then link else ""; diff_stats = pages k })) where
  no_link : (b : Bool) → ((if b then link else "") == "") ≡ (if b then false else true)
  no_link true = ground (arith, eq_iff link "")
  no_link false = (eq_iff "" "").1 refl

  page_round :
      (fuel k : ℕ) (set : x.Set) (log : List Call)
      → page_loop x s owner repository spec (suc fuel) k set log
        ≡ (if (if ltb k total then false else true)
              then pure (file_names x (pages k) set)
              else page_loop x s owner repository spec fuel (suc k) (file_names x (pages k) set))
            (diff_stat owner repository spec k ∷ log)
  unfolding page_loop send
  page_round fuel k set log =
      let log' = diff_stat owner repository spec k ∷ log in
      >>=-ok _ _ log (ap (λ r. (r, log')) (stable log k))
      ∙ ap
          (λ b.
            (if b
                then pure (file_names x (pages k) set)
                else page_loop x s owner repository spec fuel (suc k) (file_names x (pages k) set))
              log')
          (no_link (ltb k total))

  page_loop_all :
      (n fuel k : ℕ) (set : x.Set) (log : List Call)
      → n < fuel
      → k + n ≡ total
      → page_loop x s owner repository spec fuel k set log ≡ (
        ok (file_names x (pages_from pages k (suc n)) set),
        asked (diff_stat owner repository spec) k (suc n) log,
      )
  unfolding pure
  page_loop_all n zero k set log f e = absurd (omega arith)
  page_loop_all zero (suc fuel) k set log f e =
      let last : ltb k total ≡ false = ground arith in
      page_round fuel k set log
      ∙ rw last (
          ap (λ ds. (ok (file_names x ds set), diff_stat owner repository spec k ∷ log))
            (sym (append-nil (pages k))))
  page_loop_all (suc n) (suc fuel) k set log f e =
      let more : ltb k total ≡ true = ground arith in
      let rest =
        page_loop_all n fuel (suc k) (file_names x (pages k) set)
          (diff_stat owner repository spec k ∷ log) (omega arith) (omega arith) in
      page_round fuel k set log
      ∙ rw more rest
      ∙ ap (λ r. (ok r, asked (diff_stat owner repository spec) k (suc (suc n)) log))
          (sym (file_names-append x (pages k) (pages_from pages (suc k) (suc n)) set))

-- For parameters that are not blank, if the server gives its pages, of which there is at least one,
-- and a link to the next one on all but the last, then `GetModifiedFiles` of Bitbucket Cloud comes to
-- an end and returns the new and the old paths of the differences of all pages: sorted, each once,
-- without the empty path, and no others. It asks for each page once, in order, and a round of fuel for
-- each page is enough. The set is assumed to keep its laws.
pub cloud_get_modified_files_lem :
    (x : SetApi) (laws : SetLaws x) (order : Order) (s : Server)
    (owner repository ref_before ref_after link : String) (pages : ℕ → List DiffStat) (n fuel : ℕ)
    (log : List Call)
    → IsOrder order
    → NotBlank ("owner", owner)
    → NotBlank ("repository", repository)
    → NotBlank ("refBefore", ref_before)
    → NotBlank ("refAfter", ref_after)
    → link ≢ ""
    → ((log : List Call) (k : ℕ)
        → s.diffs log (diff_stat owner repository (ref_after <> (".." <> ref_before)) k)
          ≡ ok (record { next = if ltb k (suc n) then link else ""; diff_stats = pages k }))
    → n < fuel
    → (files : List String) × (get_modified_files x order s fuel owner repository ref_before
          ref_after log
        ≡ (
          ok files,
          asked (diff_stat owner repository (ref_after <> (".." <> ref_before))) 1 (suc n) log,
        ))
      × IsSorted files
      × IsDistinct files
      × ((t : String) → Occurs t files ↔ ((t ≢ "") × IsPathIn t (pages_from pages 1 (suc n))))
unfolding get_modified_files pure
cloud_get_modified_files_lem x laws order s owner repository ref_before ref_after link pages n fuel
      log o n_owner n_repo n_before n_after is_link stable f =
    let spec = ref_after <> (".." <> ref_before) in
    let set = file_names x (pages_from pages 1 (suc n)) x.make in
    let slice = x.to_slice (x.remove set "") in
    (
      sort_strings slice,
      validated-passes order
            (("owner", owner)
              ∷ ("repository", repository)
              ∷ ("refBefore", ref_before)
              ∷ ("refAfter", ref_after)
              ∷ [])
            _ log o (n_owner, (n_repo, (n_before, (n_after, tt))))
          ∙ >>=-ok _ _ log (
              page_loop_all x s owner repository spec pages (suc n) link is_link stable n fuel 1
                x.make log f (omega arith)),
      sort_strings-IsSorted slice,
      sort_strings-IsDistinct slice (laws.slice-IsDistinct (x.remove set "")),
      λ t. ground (
        arith,
        sort_strings-Occurs t slice,
        laws.remove_iff set "" t,
        file_names-Occurs x laws (pages_from pages 1 (suc n)) x.make t,
        laws.make_empty t,
      ),
    )
