-- ===== src/Client/Gitlab/Reviews/Deleting.antt =====
-- Which notes `DeletePullRequestReviewComments` of GitLab deletes.
use froggit_go.Base.{ℤ, pos, String, ◌≡◌, refl, List, [], ◌∷◌}
use froggit_go.Calls.{Makes, Makes-bind, Makes-lift, Makes-pure, Makes-send}
use froggit_go.Client.Types.{CommentInfo}
use froggit_go.Client.Params.{Order, Params}
use froggit_go.Client.Gitlab.Api.{Call, delete_discussion_note, Server, Rest}
use froggit_go.Client.Gitlab.Repos.{get_project_id}
use froggit_go.Client.Shared.{validated}
use froggit_go.Client.Gitlab.Reviews.{delete_loop, delete_pull_request_review_comments}
use froggit_go.Client.Shared.{wrapped}

-- The request is to delete the note 0 of a discussion.
abbrev pub IsNoteZero : Call → Type 0
IsNoteZero (delete_discussion_note project id discussion note) = note ≡ pos 0
IsNoteZero _ = ⊥

Makes-wrapped :
    {P : Call → Type 0} {A : Type 0} (t : String) (m : Rest A) → Makes P m → Makes P (wrapped t m)
unfolding wrapped
Makes-wrapped t m h = record { keeps = h.keeps }

module _ (order : Order) (s : Server) (owner repository : String) (id : ℤ) where
  validated-Makes : (ps : Params) → Makes IsNoteZero (validated order ps)
  unfolding validated
  validated-Makes ps = Makes-lift _

  delete_loop-IsNoteZero :
      (comments : List CommentInfo)
      → Makes IsNoteZero (delete_loop order s owner repository id comments)
  unfolding delete_loop
  delete_loop-IsNoteZero [] = Makes-pure tt
  delete_loop-IsNoteZero (c ∷ cs) = Makes-bind _ _ (validated-Makes _) λ _.
      Makes-bind _ _
        (Makes-wrapped _ _ (
          Makes-send s.done
            (delete_discussion_note (get_project_id owner repository) id c.thread_id (pos 0)) refl))
        λ _. delete_loop-IsNoteZero cs

  -- Whatever comments it is given, `DeletePullRequestReviewComments` asks only for deletions of the
  -- note with the identifier 0: the identifiers of the comments are not used.
  pub delete_pull_request_review_comments-IsNoteZero :
      (comments : List CommentInfo)
      → Makes IsNoteZero (delete_pull_request_review_comments order s owner repository id comments)
  unfolding delete_pull_request_review_comments
  delete_pull_request_review_comments-IsNoteZero comments =
      Makes-bind _ _ (validated-Makes _) λ _. delete_loop-IsNoteZero comments
