-- ===== src/Client/Github/Labels/Paging.antt =====
-- Which pages the listing of the labels of a pull request asks for.
use mathlib.Core.List.{append_assoc, append-nil}
use froggit_go.Base.{
  ℕ, zero, suc, ◌+◌, ◌<◌, ℤ, pos, String, ◌≡◌, refl, sym, ap, ◌∙◌, true, false, some, Option, List,
  [], ◌∷◌, ◌++◌, ok, arith, leb, if◌then◌else◌,
}
use froggit_go.Calls.{pure, >>=-ok, >>=-lift}
use froggit_go.Client.Params.{Order, IsOrder}
use froggit_go.Client.Params.Verdict.{NotBlank}
use froggit_go.Client.Shared.Guards.{validated-passes}
use froggit_go.Client.Shared.Owners.{pages_from}
use froggit_go.Client.Github.Api.{Call, list_labels_by_issue, Server}
use froggit_go.Client.Github.RateLimit.Success.{ok_response, limited_with_response_succeeds}
use froggit_go.Client.Github.Labels.{label_names, is_last, label_loop, list_pull_request_labels}

abbrev pub named : List String → List (Option String)
named [] = []
named (l ∷ ls) = some l ∷ named ls

label_names-named : (ls : List String) → label_names (named ls) ≡ ok ls
unfolding label_names
label_names-named [] = refl
label_names-named (l ∷ ls) = rw (label_names-named ls) refl

-- GitHub takes page 0 for page 1, and leaves out the number of the last page on that page itself.
abbrev pub page_of : ℕ → ℕ
page_of zero = 1
page_of (suc k) = suc k

abbrev pub last_page_seen : ℕ → ℕ → ℤ
last_page_seen total k = if leb total (page_of k) then pos 0 else pos total

is_last-before :
    (total k : ℕ) → page_of k < total → is_last k (last_page_seen total k) ≡ leb total (k + 1)
unfolding is_last
is_last-before total k h = let more : leb total (page_of k) ≡ false = ground arith in rw more refl

module _ (order : Order) (s : Server) (owner repository : String) (id : ℤ) (pages : ℕ → List String)
    (total : ℕ)
    (stable : (log : List Call) (k : ℕ)
      → s.labels log (list_labels_by_issue owner repository id k)
        ≡ (some (ok_response (last_page_seen total k)), ok (named (pages (page_of k))))) where
  -- The log after so many pages from `k` on were asked for.
  abbrev pub asked : ℕ → ℕ → List Call → List Call
  asked k zero log = log
  asked k (suc n) log = asked (suc k) n (list_labels_by_issue owner repository id k ∷ log)

  label_round :
      (fuel k : ℕ) (r : List String) (log : List Call)
      → label_loop s owner repository id (suc fuel) k r log
        ≡ (if is_last k (last_page_seen total k)
              then pure (r ++ pages (page_of k))
              else label_loop s owner repository id fuel (suc k) (r ++ pages (page_of k)))
            (list_labels_by_issue owner repository id k ∷ log)
  unfolding label_loop pure
  label_round fuel k r log =
      let call = list_labels_by_issue owner repository id k in
      >>=-ok _ _ log (
        limited_with_response_succeeds s s.labels call (named (pages (page_of k)))
          (last_page_seen total k) log (stable log k))
      ∙ >>=-lift _ _ (call ∷ log) (label_names-named (pages (page_of k)))
      ∙ >>=-lift _ _ (call ∷ log) refl

  -- From a page behind the first, the loop stops before the last page.
  label_loop_stops :
      (n fuel k : ℕ) (r : List String) (log : List Call)
      → n < fuel
      → suc k + suc n ≡ total
      → label_loop s owner repository id fuel (suc k) r log
        ≡ (ok (r ++ pages_from pages (suc k) (suc n)), asked (suc k) (suc n) log)
  unfolding pure
  label_loop_stops n zero k r log f e = absurd (omega arith)
  label_loop_stops zero (suc fuel) k r log f e =
      let last : leb total (suc k + 1) ≡ true = ground arith in
      label_round fuel (suc k) r log
      ∙ rw (is_last-before total (suc k) (omega arith), last)
          (ap (λ xs. (ok (r ++ xs), asked (suc k) 1 log)) (sym (append-nil (pages (suc k)))))
  label_loop_stops (suc n) (suc fuel) k r log f e =
      let more : leb total (suc k + 1) ≡ false = ground arith in
      let rest =
        label_loop_stops n fuel (suc k) (r ++ pages (suc k))
          (list_labels_by_issue owner repository id (suc k) ∷ log) (omega arith) (omega arith) in
      label_round fuel (suc k) r log
      ∙ rw (is_last-before total (suc k) (omega arith), more) rest
      ∙ ap (λ xs. (ok xs, asked (suc k) (suc (suc n)) log))
          (append_assoc r (pages (suc k)) (pages_from pages (suc (suc k)) (suc n)))

  label_loop_all :
      (n fuel : ℕ) (log : List Call)
      → n < fuel
      → total ≡ suc n
      → label_loop s owner repository id fuel 0 [] log
        ≡ (ok (pages 1 ++ pages_from pages 1 n), asked 0 (suc n) log)
  unfolding pure is_last
  label_loop_all n zero log f e = absurd (omega arith)
  label_loop_all zero (suc fuel) log f e =
      label_round fuel 0 [] log
      ∙ rw e (ap (λ xs. (ok xs, asked 0 1 log)) (sym (append-nil (pages 1))))
  label_loop_all (suc n) (suc fuel) log f e =
      let more : leb total 1 ≡ false = ground arith in
      label_round fuel 0 [] log
      ∙ rw (is_last-before total 0 (omega arith), more)
          (label_loop_stops n fuel 0 (pages 1) (list_labels_by_issue owner repository id 0 ∷ log)
            (omega arith) (omega arith))

  -- For parameters that are not blank, if the server takes page 0 for page 1 and gives the number of
  -- the last page on all pages but that one, then `ListPullRequestLabels` asks for as many pages as
  -- there are, from page 0 on: the labels of the first page come twice if there is another page, and
  -- those of the last page are then left out.
  pub github_list_pull_request_labels_lem :
      (n fuel : ℕ) (log : List Call)
      → total ≡ suc n
      → n < fuel
      → IsOrder order
      → NotBlank ("owner", owner)
      → NotBlank ("repository", repository)
      → list_pull_request_labels order s owner repository id fuel log
        ≡ (ok (pages 1 ++ pages_from pages 1 n), asked 0 total log)
  unfolding list_pull_request_labels
  github_list_pull_request_labels_lem n fuel log e f o n_owner n_repository =
      validated-passes order (("owner", owner) ∷ ("repository", repository) ∷ []) _ log o
        (n_owner, (n_repository, tt))
      ∙ label_loop_all n fuel log f e
      ∙ ap (λ t. (ok (pages 1 ++ pages_from pages 1 n), asked 0 t log)) (sym e)
