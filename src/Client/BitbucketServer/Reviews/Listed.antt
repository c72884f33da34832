-- ===== src/Client/BitbucketServer/Reviews/Listed.antt =====
-- Which comments of a pull request of Bitbucket Server are listed.
use froggit_go.Base.{
  ◌⊎◌, true, false, arith, eq_iff, ℕ, ◌≤◌, ℤ, String, ◌≡◌, refl, sym, ap, ◌∙◌, Bool-cases, inl, inr,
  List, [], ◌∷◌, ◌++◌, ok, if◌then◌else◌,
}
use mathlib.Core.List.{append_assoc, append-nil}
use froggit_go.Calls.{pure, >>=-ok}
use froggit_go.Client.Types.{CommentInfo}
use froggit_go.Client.BitbucketServer.Api.{Call, get_activities, Activity, Server}
use froggit_go.Client.BitbucketServer.Paging.{Listing, IsServed, asked, page_loop_serves}
use froggit_go.Client.BitbucketServer.Repos.Listed.{everything, added-append}
use froggit_go.Client.BitbucketServer.Reviews.{
  is_new_comment, comment_info, add_comments, list_pull_request_comments,
}

-- The activities that add a comment, as comments.
abbrev pub new_comments : List Activity → List CommentInfo
new_comments [] = []
new_comments (a ∷ later) =
    let rest = new_comments later in if is_new_comment a then comment_info a ∷ rest else rest

new_comments-append :
    (xs ys : List Activity) → new_comments (xs ++ ys) ≡ new_comments xs ++ new_comments ys
new_comments-append [] ys = refl
new_comments-append (a ∷ xs) ys = elim (Bool-cases (is_new_comment a)) [
  | inl e ↦ rw e (ap (λ cs. comment_info a ∷ cs) (new_comments-append xs ys))
  | inr e ↦ rw e (new_comments-append xs ys)
]

add_comments-new_comments :
    (r : List CommentInfo) (acts : List Activity) → add_comments r acts ≡ r ++ new_comments acts
unfolding add_comments
add_comments-new_comments r [] = sym (append-nil r)
add_comments-new_comments r (a ∷ later) = elim (Bool-cases (is_new_comment a)) [
  | inl e ↦ rw e (
      add_comments-new_comments (r ++ (comment_info a ∷ [])) later
      ∙ append_assoc r (comment_info a ∷ []) (new_comments later))
  | inr e ↦ rw e (add_comments-new_comments r later)
]

-- The activity is the adding of a comment.
abbrev pub IsAdded : Activity → Type 0
IsAdded a = (a.action ≡ "COMMENTED") × (a.comment_action ≡ "ADDED")

-- The comment is that of the activity, with the number of its date read as seconds.
abbrev pub Shows : Activity → CommentInfo → Type 0
Shows a c =
    (c.id ≡ a.comment_id)
    × (c.content ≡ a.text)
    × (c.version ≡ a.version)
    × (c.thread_id ≡ "")
    × (c.created.unix ≡ a.created_date)
    × (c.created.nanos ≡ 0)

-- One comment for each activity that adds one, in order, and no other.
abbrev pub AreAdded : List Activity → List CommentInfo → Type 0
AreAdded [] cs = cs ≡ []
AreAdded (a ∷ later) [] = (¬ IsAdded a) × AreAdded later []
AreAdded (a ∷ later) (c ∷ cs) =
    (IsAdded a × Shows a c × AreAdded later cs) ⊎ ((¬ IsAdded a) × AreAdded later (c ∷ cs))

pub is_new_comment-cases :
    (a : Activity)
    → ((is_new_comment a ≡ true) × IsAdded a) ⊎ ((is_new_comment a ≡ false) × (¬ IsAdded a))
is_new_comment-cases a = elim (Bool-cases (is_new_comment a)) [
  | inl e ↦ inl (e, ground (arith, eq_iff a.action "COMMENTED", eq_iff a.comment_action "ADDED"))
  | inr e ↦
      inr (e, λ added. ground (arith, eq_iff a.action "COMMENTED", eq_iff a.comment_action "ADDED"))
]

skipped-AreAdded :
    (a : Activity) (later : List Activity) (cs : List CommentInfo)
    → ¬ IsAdded a
    → AreAdded later cs
    → AreAdded (a ∷ later) cs
skipped-AreAdded a later [] n h = (n, h)
skipped-AreAdded a later (c ∷ cs) n h = inr (n, h)

new_comments-AreAdded : (acts : List Activity) → AreAdded acts (new_comments acts)
new_comments-AreAdded [] = refl
new_comments-AreAdded (a ∷ later) = elim (is_new_comment-cases a) [
  | inl (e, added) ↦
      rw e (inl (added, (refl, refl, refl, refl, refl, refl), new_comments-AreAdded later))
  | inr (e, other) ↦ rw e (skipped-AreAdded a later _ other (new_comments-AreAdded later))
]

module _ (s : Server) (fuel : ℕ) (owner repository : String) (id : ℤ) (l : Listing Activity)
    (log : List Call) (served : IsServed s.activities (get_activities owner repository id) l)
    (enough : l.total ≤ fuel) where
  pub list_pull_request_comments-new_comments :
      list_pull_request_comments s fuel owner repository id log ≡ (
        ok (new_comments (everything l)),
        asked (get_activities owner repository id) l.start 0 l.total log,
      )
  unfolding list_pull_request_comments pure
  list_pull_request_comments-new_comments =
      let call = get_activities owner repository id in
      let (last, run, same) =
        page_loop_serves s.activities call (λ r acts. ok (add_comments r acts))
          (λ r acts. r ++ new_comments acts) l fuel [] log served
          (λ r k. ap ok (add_comments-new_comments r (l.pages k))) enough in
      >>=-ok _ _ log run
      ∙ ap (λ r. (ok r, asked call l.start 0 l.total log))
          (added-append new_comments l.pages 0 l.total [] new_comments-append refl)

  -- If the server keeps to a listing of the activities, `ListPullRequestComments` of Bitbucket Server
  -- gives one comment for each activity with the action COMMENTED and the comment action ADDED, of all
  -- pages and in order, and no other: with the identifier, the text and the version of the activity,
  -- and with its date taken for seconds. It asks for each page once, and a round of fuel for each page
  -- is enough.
  pub server_list_pull_request_comments-AreAdded :
      (comments : List CommentInfo) × (list_pull_request_comments s fuel owner repository id log
        ≡ (ok comments, asked (get_activities owner repository id) l.start 0 l.total log))
      × AreAdded (everything l) comments
  server_list_pull_request_comments-AreAdded = (
    new_comments (everything l),
    list_pull_request_comments-new_comments,
    new_comments-AreAdded (everything l),
  )
