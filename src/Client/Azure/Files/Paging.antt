-- ===== src/Client/Azure/Files/Paging.antt =====
-- The paging of `GetModifiedFiles` of Azure Repos comes to an end and leaves no file out.
use froggit_go.Base.{
  ℕ, zero, suc, ◌+◌, ◌/◌, ◌<◌, ◌≤◌, String, ◌≡◌, ◌≢◌, ◌↔◌, ◌⊎◌, inl, inr, refl, sym, ap, ◌∙◌, true,
  false, List, [], ◌∷◌, ◌++◌, some, Result, ok, arith, ltb, length, Bool-cases, eq_iff,
}
use mathlib.Core.Path.{subst}
use froggit_go.Base.Text.{trim_prefix}
use froggit_go.Calls.{◌>>=◌, pure, lift, send}
use froggit_go.Vcs.Values.{default_if_not_nil, string_zero}
use froggit_go.Client.Params.{Order, IsOrder}
use froggit_go.Client.Params.Verdict.{NotBlank, validate_parameters_not_blank-passes_iff}
use froggit_go.Client.Sorting.{
  SetApi, SetLaws, Occurs, IsDistinct, IsSorted, sort_strings, sort_strings-IsSorted,
  sort_strings-IsDistinct, sort_strings-Occurs,
}
use froggit_go.Client.Azure.Api.{
  Call, new_client, get_commit_diffs, Item, Server, Client, build_azure_repos_client,
}
use froggit_go.Client.Azure.Files.{page_size, add_item, add_changes, page_loop, get_modified_files}

-- The first elements of a list, and the others.
abbrev pub take {ℓ} : {A : Type ℓ} → ℕ → List A → List A
take zero xs = []
take (suc n) [] = []
take (suc n) (x ∷ xs) = x ∷ take n xs

abbrev pub drop {ℓ} : {A : Type ℓ} → ℕ → List A → List A
drop zero xs = xs
drop (suc n) [] = []
drop (suc n) (x ∷ xs) = drop n xs

suc_out : (m n : ℕ) → suc m + n ≡ suc (m + n)
suc_out m n = omega arith

ltb-true : (a b : ℕ) → ltb a b ≡ true → a < b
ltb-true a b h = ground arith

ltb-false : (a b : ℕ) → ltb a b ≡ false → b ≤ a
ltb-false a b h = ground arith

module _ {A : Type 0} where
  take-drop : (n : ℕ) (xs : List A) → take n xs ++ drop n xs ≡ xs
  take-drop zero xs = refl
  take-drop (suc n) [] = refl
  take-drop (suc n) (x ∷ xs) = ap (λ t. x ∷ t) (take-drop n xs)

  drop-nil : (n : ℕ) → drop {A = A} n [] ≡ []
  drop-nil zero = refl
  drop-nil (suc n) = refl

  drop-drop : (m n : ℕ) (xs : List A) → drop (m + n) xs ≡ drop n (drop m xs)
  drop-drop zero n xs = ap (λ k. drop k xs) (omega arith)
  drop-drop (suc m) n [] = drop-nil (suc m + n) ∙ sym (drop-nil n)
  drop-drop (suc m) n (x ∷ xs) = ap (λ k. drop k (x ∷ xs)) (suc_out m n) ∙ drop-drop m n xs

  drop-short : (n : ℕ) (xs : List A) → length (take n xs) < n → drop n xs ≡ []
  drop-short zero xs h = absurd (omega arith)
  drop-short (suc n) [] h = refl
  drop-short (suc n) (x ∷ xs) h = drop-short n xs (omega arith)

  length-drop : (n : ℕ) (xs : List A) → n ≤ length (take n xs) → length xs ≡ n + length (drop n xs)
  length-drop zero xs h = omega arith
  length-drop (suc n) [] h = absurd (omega arith)
  length-drop (suc n) (x ∷ xs) h = let shorter = length-drop n xs (omega arith) in omega arith

module _ (x : SetApi) (laws : SetLaws x) (s : Server) (item : s.Change → Item)
    (read : (c : s.Change) → s.remapped c ≡ ok (item c)) where
  -- The text is the path of a blob among the changes, without a slash in front.
  abbrev pub IsBlobIn : String → List s.Change → Type 0
  IsBlobIn t [] = ⊥
  IsBlobIn t (c ∷ cs) =
      ((default_if_not_nil (item c).git_object_type ≡ "blob")
        × (t ≡ trim_prefix (default_if_not_nil (item c).path) "/"))
      ⊎ IsBlobIn t cs

  IsBlobIn-append :
      (t : String) (cs ds : List s.Change) → IsBlobIn t (cs ++ ds) ↔ (IsBlobIn t cs ⊎ IsBlobIn t ds)
  IsBlobIn-append t [] ds = ground arith
  IsBlobIn-append t (c ∷ cs) ds = ground (arith, IsBlobIn-append t cs ds)

  IsBlobIn-take :
      (t : String) (n : ℕ) (cs : List s.Change)
      → IsBlobIn t cs ↔ (IsBlobIn t (take n cs) ⊎ IsBlobIn t (drop n cs))
  IsBlobIn-take t n cs =
      subst (λ l. IsBlobIn t l ↔ (IsBlobIn t (take n cs) ⊎ IsBlobIn t (drop n cs))) (take-drop n cs)
        (IsBlobIn-append t (take n cs) (drop n cs))

  add_item-Occurs :
      (set : x.Set) (i : Item) (t : String)
      → Occurs t (x.to_slice (add_item x s set i)) ↔ (
          ((default_if_not_nil i.git_object_type ≡ "blob")
            × (t ≡ trim_prefix (default_if_not_nil i.path) "/"))
          ⊎ Occurs t (x.to_slice set))
  unfolding add_item
  add_item-Occurs set i t = ground (
    arith,
    eq_iff (default_if_not_nil i.git_object_type) "blob",
    laws.add_iff set (trim_prefix (default_if_not_nil i.path) "/") t,
  )

  -- The set that results has the blobs of the changes, beside what it had.
  abbrev Adds : List s.Change → x.Set → Result x.Set → Type 0
  Adds cs set r =
      (set' : x.Set) × (r ≡ ok set')
      × ((t : String) → Occurs t (x.to_slice set') ↔ (IsBlobIn t cs ⊎ Occurs t (x.to_slice set)))

  add_changes-Adds : (cs : List s.Change) (set : x.Set) → Adds cs set (add_changes x s set cs)
  unfolding add_changes
  add_changes-Adds [] set = (set, refl, λ t. ground arith)
  add_changes-Adds (c ∷ cs) set =
      let (set', given, adds) = add_changes-Adds cs (add_item x s set (item c)) in
      (set', rw (read c) given, λ t. ground (arith, adds t, add_item-Occurs set (item c) t))

  -- The page was the last one, and what stands behind it is nothing.
  Adds-last :
      (rest : List s.Change) (set : x.Set) (r : Result x.Set)
      → drop page_size rest ≡ []
      → Adds (take page_size rest) set r
      → Adds rest set r
  Adds-last rest set r none_left (set', given, adds) = (
    set',
    given,
    λ t.
        let split : IsBlobIn t rest ↔ (IsBlobIn t (take page_size rest) ⊎ IsBlobIn t []) =
          subst (λ l. IsBlobIn t rest ↔ (IsBlobIn t (take page_size rest) ⊎ IsBlobIn t l)) none_left
            (IsBlobIn-take t page_size rest) in
        ground (arith, adds t, split),
  )

  -- A page and what stands behind it.
  Adds-more :
      (rest : List s.Change) (set set' : x.Set) (r : Result x.Set)
      → ((t : String)
          → Occurs t (x.to_slice set')
            ↔ (IsBlobIn t (take page_size rest) ⊎ Occurs t (x.to_slice set)))
      → Adds (drop page_size rest) set' r
      → Adds rest set r
  Adds-more rest set set' r first (set'', given, adds) =
      (set'', given, λ t. ground (arith, adds t, first t, IsBlobIn-take t page_size rest))

  module _ (project repository ref_before ref_after : String) (changes : List s.Change)
      (pages : (log : List Call) (skip : ℕ)
        → s.diffs log (get_commit_diffs project repository ref_before ref_after page_size skip)
          ≡ ok (some (take page_size (drop skip changes)))) where
    -- The loop gives a set, whatever the log is.
    abbrev Collects : ℕ → x.Set → Result x.Set → Type 0
    Collects skip set r = Adds (drop skip changes) set r

    page_loop-Adds :
        (fuel skip : ℕ) (rest : List s.Change) (set : x.Set) (log : List Call)
        → rest ≡ drop skip changes
        → length rest / page_size < fuel
        → Adds rest set (page_loop x s project repository ref_before ref_after fuel skip set log).0
    unfolding page_loop ◌>>=◌ send lift pure
    page_loop-Adds zero skip rest set log e f = absurd (omega arith)
    page_loop-Adds (suc fuel) skip rest set log e f =
        let page = take page_size rest in
        let (set', given, adds) = add_changes-Adds page set in
        let asked = pages log skip ∙ ap (λ r. ok (some (take page_size r))) (sym e) in
        elim (Bool-cases (ltb (length page) page_size)) [
          | inl short ↦
              Adds-last rest set _
                (drop-short page_size rest (ltb-true (length page) page_size short))
                (set', rw (asked, given, short) refl, adds)
          | inr full ↦
              let shorter = length-drop page_size rest (ltb-false (length page) page_size full) in
              let next =
                page_loop-Adds fuel (skip + page_size) (drop page_size rest) set'
                  (get_commit_diffs project repository ref_before ref_after page_size skip ∷ log)
                  (ap (drop page_size) e ∙ sym (drop-drop skip page_size changes)) (omega arith) in
              Adds-more rest set set' _ adds (rw (asked, given, full) next)
        ]

  -- What `GetModifiedFiles` promises of the changes between two commits.
  abbrev pub AreBlobsOf : List s.Change → List String → Type 0
  AreBlobsOf changes files =
      IsSorted files
      × IsDistinct files
      × ((t : String) → Occurs t files ↔ ((t ≢ "") × IsBlobIn t changes))

  sorted_blobs :
      (changes : List s.Change) (set : x.Set)
      → ((t : String)
          → Occurs t (x.to_slice set) ↔ (IsBlobIn t changes ⊎ Occurs t (x.to_slice x.make)))
      → AreBlobsOf changes (sort_strings (x.to_slice (x.remove set "")))
  sorted_blobs changes set h =
      let slice = x.to_slice (x.remove set "") in
      (
        sort_strings-IsSorted slice,
        sort_strings-IsDistinct slice (laws.slice-IsDistinct (x.remove set "")),
        λ t.
            ground (
              arith,
              sort_strings-Occurs t slice,
              laws.remove_iff set "" t,
              h t,
              laws.make_empty t,
            ),
      )

  -- If the server gives the changes in pages of 100, from the number that it is asked to skip, and
  -- every change has an item that can be read, then `GetModifiedFiles` of Azure Repos comes to an
  -- end and returns the paths of the changed blobs, without the slash in front: sorted, each once,
  -- without the empty path, and no others. As many rounds as there are hundreds of changes, and one
  -- more, are enough. The parameters are not blank, the client is built, and the set keeps its laws.
  pub azure_get_modified_files_lem :
      (order : Order) (c : Client) (fuel : ℕ) (repository ref_before ref_after : String)
      (changes : List s.Change) (log : List Call)
      → ((log : List Call) (skip : ℕ)
          → s.diffs log (get_commit_diffs c.project repository ref_before ref_after page_size skip)
            ≡ ok (some (take page_size (drop skip changes))))
      → length changes / page_size < fuel
      → IsOrder order
      → NotBlank ("repository", repository)
      → NotBlank ("refBefore", ref_before)
      → NotBlank ("refAfter", ref_after)
      → c.has_connection ≡ true
      → s.done log new_client ≡ ok tt
      → (files : List String) × ((get_modified_files x s order c fuel repository ref_before
            ref_after log).0
          ≡ ok files)
        × AreBlobsOf changes files
  unfolding get_modified_files build_azure_repos_client ◌>>=◌ lift send pure
  azure_get_modified_files_lem order c fuel repository ref_before ref_after changes log pages f o
        n_repo n_before n_after connected built =
      let passes =
        (validate_parameters_not_blank-passes_iff order
            (("repository", repository) ∷ ("refBefore", ref_before) ∷ ("refAfter", ref_after) ∷ [])
            o).1
          (n_repo, (n_before, (n_after, tt))) in
      let (set, given, adds) =
        page_loop-Adds c.project repository ref_before ref_after changes pages fuel 0 changes x.make
          (new_client ∷ log) refl f in
      (
        sort_strings (x.to_slice (x.remove set "")),
        rw (passes, connected, built, given) refl,
        sorted_blobs changes set adds,
      )
