-- ===== src/Client/BitbucketServer/Reviews/Versions.antt =====
-- The deletion of a comment on Bitbucket Server names the version of the comment.
use froggit_go.Base.{
  ℕ, ◌-◌, ◌%◌, ◌^◌, ◌≤◌, ◌<◌, ℤ, pos, negsuc, String, ◌≡◌, ◌≢◌, refl, ◌∙◌, ◌⊎◌, inl, inr,
  Bool-cases, true, false, List, [], ◌∷◌, ok, err, Error, ltb, arith,
}
use froggit_go.Calls.{>>=-ok}
use froggit_go.Vcs.Values.{int_comparable}
use froggit_go.Client.BitbucketServer.Api.{Call, get_activities, delete_comment, Activity, Server}
use froggit_go.Client.BitbucketServer.Paging.{Listing, IsServed, asked}
use froggit_go.Client.BitbucketServer.Repos.Listed.{everything}
use froggit_go.Client.BitbucketServer.Reviews.{
  int32, comment_version, deleted, delete_with_version, delete_pull_request_comment,
}
use froggit_go.Client.BitbucketServer.Reviews.Listed.{
  IsAdded, is_new_comment-cases, new_comments, list_pull_request_comments-new_comments,
}

-- A value of 32 bits.
abbrev pub IsInt32 : ℤ → Type 0
IsInt32 (pos n) = n < 2 ^ 31
IsInt32 (negsuc n) = n < 2 ^ 31

ltb-true : (a b : ℕ) → ltb a b ≡ true → a < b
ltb-true a b h = ground arith

ltb-false : (a b : ℕ) → ltb a b ≡ false → b ≤ a
ltb-false a b h = ground arith

ltb-less : (a b : ℕ) → a < b → ltb a b ≡ true
ltb-less a b h = ground arith

-- The two cases of the conversion, by the rest modulo 2 ^ 32.
complement : (n : ℕ) → 2 ^ 31 ≤ n % 2 ^ 32 → (2 ^ 32 - 1) - n % 2 ^ 32 < 2 ^ 31
complement n h = omega arith

int32-IsInt32 : (v : ℤ) → IsInt32 (int32 v)
unfolding int32
int32-IsInt32 (pos n) = elim (Bool-cases (ltb (n % 2 ^ 32) (2 ^ 31))) [
  | inl e ↦ rw e (ltb-true (n % 2 ^ 32) (2 ^ 31) e)
  | inr e ↦ rw e (complement n (ltb-false (n % 2 ^ 32) (2 ^ 31) e))
]
int32-IsInt32 (negsuc n) = elim (Bool-cases (ltb (n % 2 ^ 32) (2 ^ 31))) [
  | inl e ↦ rw e (ltb-true (n % 2 ^ 32) (2 ^ 31) e)
  | inr e ↦ rw e (complement n (ltb-false (n % 2 ^ 32) (2 ^ 31) e))
]

int32_same : (v : ℤ) → IsInt32 v → int32 v ≡ v
unfolding int32
int32_same (pos n) h =
    let rest : n % 2 ^ 32 ≡ n = omega arith in rw (rest, ltb-less n (2 ^ 31) h) refl
int32_same (negsuc n) h =
    let rest : n % 2 ^ 32 ≡ n = omega arith in rw (rest, ltb-less n (2 ^ 31) h) refl

-- The version is that of the first activity that added the comment with the identifier, or 0 if there
-- is none.
abbrev pub IsVersionOf : ℤ → List Activity → ℤ → Type 0
IsVersionOf id [] v = v ≡ pos 0
IsVersionOf id (a ∷ later) v =
    (IsAdded a × (a.comment_id ≡ id) × (v ≡ a.version))
    ⊎ ((¬ (IsAdded a × (a.comment_id ≡ id))) × IsVersionOf id later v)

equal-cases :
    (a b : ℤ)
    → ((int_comparable.equal a b ≡ true) × (a ≡ b)) ⊎ ((int_comparable.equal a b ≡ false) × (a ≢ b))
equal-cases (pos m) (pos n) = ground arith
equal-cases (negsuc m) (negsuc n) = ground arith
equal-cases (pos m) (negsuc n) = ground arith
equal-cases (negsuc m) (pos n) = ground arith

comment_version-IsVersionOf :
    (id : ℤ) (acts : List Activity) → IsVersionOf id acts (comment_version id (new_comments acts))
unfolding comment_version
comment_version-IsVersionOf id [] = refl
comment_version-IsVersionOf id (a ∷ later) = elim (is_new_comment-cases a) [
  | inl (e, added) ↦ rw e (elim (equal-cases a.comment_id id) [
    | inl (same, named) ↦ rw same (inl (added, named, refl))
    | inr (other, named) ↦
        rw other (inr ((λ both. named both.1), comment_version-IsVersionOf id later))
  ])
  | inr (e, other) ↦ rw e (inr ((λ both. other both.0), comment_version-IsVersionOf id later))
]

module _ (s : Server) where
  -- The deletion is taken, or ends with `io.EOF`.
  abbrev pub IsTaken : List Call → Call → Type 0
  IsTaken log call =
      (s.done log call ≡ ok tt) ⊎ ((e : Error) × (s.done log call ≡ err e) × (s.is_eof e ≡ true))

  delete_with_version_taken :
      (owner repository : String) (id comment_id version : ℤ) (log : List Call)
      → IsTaken log (delete_comment owner repository id comment_id (int32 version))
      → delete_with_version s owner repository id comment_id version log
        ≡ (ok tt, delete_comment owner repository id comment_id (int32 version) ∷ log)
  unfolding delete_with_version deleted
  delete_with_version_taken owner repository id comment_id version log (inl done) = rw done refl
  delete_with_version_taken owner repository id comment_id version log (inr (e, failed, eof)) =
      rw (failed, eof) refl

  -- If the server keeps to a listing of the activities, and takes the deletion or ends it with
  -- `io.EOF`, whatever version it names, then `DeletePullRequestComment` of Bitbucket Server succeeds:
  -- it asks for all pages of activities, and then for the deletion. The listed version is that of the
  -- first activity that added the comment with the identifier, or 0 if there is none. The version that
  -- is sent is a number of 32 bits, and is the listed one if that is. A round of fuel for each page is
  -- enough.
  pub delete_pull_request_comment_versioned :
      (fuel : ℕ) (owner repository : String) (id comment_id : ℤ) (l : Listing Activity)
      (log : List Call)
      → IsServed s.activities (get_activities owner repository id) l
      → l.total ≤ fuel
      → ((version : ℤ)
          → IsTaken
              (asked (get_activities owner repository id) l.start 0 l.total log)
              (delete_comment owner repository id comment_id version))
      → (listed version : ℤ) × (delete_pull_request_comment s fuel owner repository id comment_id
            log
          ≡ (
            ok tt,
            delete_comment owner repository id comment_id version
                ∷ asked (get_activities owner repository id) l.start 0 l.total log,
          ))
        × IsVersionOf comment_id (everything l) listed
        × IsInt32 version
        × (IsInt32 listed → version ≡ listed)
  unfolding delete_pull_request_comment
  delete_pull_request_comment_versioned fuel owner repository id comment_id l log served enough
        taken =
      let listed = comment_version comment_id (new_comments (everything l)) in
      (
        listed,
        int32 listed,
        >>=-ok _ _ log (
              list_pull_request_comments-new_comments s fuel owner repository id l log served
                enough)
            ∙ delete_with_version_taken owner repository id comment_id listed _
                (taken (int32 listed)),
        comment_version-IsVersionOf comment_id (everything l),
        int32-IsInt32 listed,
        int32_same listed,
      )
