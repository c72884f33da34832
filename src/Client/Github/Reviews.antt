-- ===== src/Client/Github/Reviews.antt =====
-- Comments on pull requests of GitHub: those of the conversation, and those of a review, which stand
-- at lines of the diff.
use froggit_go.Base.{
  ℕ, ℤ, pos, String, ◌<>◌, ◌||◌, not, Option, none, some, List, [], ◌∷◌, Result, ok, err, errorf,
  wrapping, deref, nat_eq, if◌then◌else◌, ◌>>=◌ as ◌>>>◌,
}
use froggit_go.Base.Decimal.{decimal, decimal_int}
use froggit_go.Calls.{◌>>=◌, ◌>>◌, pure, lift}
use froggit_go.Extract.Path.{clean}
use froggit_go.Vcs.Values.{int_comparable}
use froggit_go.Client.Types.{CommentInfo, PullRequestComment}
use froggit_go.Client.Params.{Order}
use froggit_go.Client.Shared.{validated}
use froggit_go.Client.Github.Api.{
  GithubResponse, list_pull_request_commits, create_issue_comment, create_review_comment,
  list_review_comments, list_issue_comments, delete_review_comment, delete_issue_comment, Comment,
  NewReviewComment, Server, Rest,
}
use froggit_go.Client.Github.RateLimit.{
  returned, crashed, Attempt, request, reading, reading_with, limited, ask,
}

-- `fmt.Errorf("...: %w", err)` of the error of an attempt.
unfoldable pub wrapped_attempt : {A : Type 0} → String → Attempt A → Attempt A
wrapped_attempt text m log =
    let (o, log') = m log in
    (
      elim o [
        | returned r (some e) a ↦ returned r (some (wrapping text e)) a
        | returned r none a ↦ returned r none a
        | crashed p ↦ crashed p
      ],
      log',
    )

-- The thread and the version stay empty.
comment_infos : List Comment → List CommentInfo
comment_infos [] = []
comment_infos (c ∷ cs) =
    record { id = c.id; thread_id = ""; content = c.body; created = c.created_at; version = pos 0 }
    ∷ comment_infos cs

-- The commits are in order: the last one is the latest. `pr_id` is the number as a text.
latest_commit_sha : String → List String → Result String
latest_commit_sha pr_id [] =
    err (errorf ("could not fetch the commits list for pull request " <> pr_id))
latest_commit_sha pr_id (sha ∷ []) = ok sha
latest_commit_sha pr_id (sha ∷ next ∷ rest) = latest_commit_sha pr_id (next ∷ rest)

-- The first line is left out if it is the last one.
unfoldable pub new_review_comment : String → PullRequestComment → NewReviewComment
unfolding clean
new_review_comment latest_sha c = record {
  commit_id = latest_sha;
  body = c.content;
  start_line =
      if int_comparable.equal c.new_start_line c.new_end_line then none else some c.new_start_line;
  line = c.new_end_line;
  path = clean c.new_file_path;
}

module _ (s : Server) where
  execute_create_pull_request_review_comment :
      String → String → String → ℤ → PullRequestComment → Attempt (Option (Unit {0}))
  unfolding wrapped_attempt request new_review_comment decimal_int
  execute_create_pull_request_review_comment owner repository latest_sha id comment =
      wrapped_attempt
        ("could not create a code review comment for <"
          <> (owner
              <> ("/"
                  <> (repository
                      <> ("> in pull request " <> (decimal_int id <> ". error received: "))))))
        (request s.done
          (create_review_comment owner repository id (new_review_comment latest_sha comment)))

  unfoldable pub review_loop :
      String → String → String → ℤ → List PullRequestComment → Rest (Unit {0})
  unfolding limited execute_create_pull_request_review_comment
  review_loop owner repository latest_sha id [] = pure tt
  review_loop owner repository latest_sha id (c ∷ cs) =
      limited s (execute_create_pull_request_review_comment owner repository latest_sha id c)
      >> review_loop owner repository latest_sha id cs

  execute_list_pull_request_review_comments :
      String → String → ℤ → Attempt (Option (List CommentInfo))
  unfolding request reading_with comment_infos
  execute_list_pull_request_review_comments owner repository id =
      reading (request s.comments (list_review_comments owner repository id))
        (λ cs. ok (comment_infos cs))

  execute_delete_pull_request_review_comment : String → String → ℤ → Attempt (Option (Unit {0}))
  unfolding wrapped_attempt request
  execute_delete_pull_request_review_comment owner repository comment_id =
      wrapped_attempt "could not delete pull request review comment: "
        (request s.done (delete_review_comment owner repository comment_id))

  status_code_of : GithubResponse → ℕ
  status_code_of r = elim r.http [ none ↦ 0 | some h ↦ h.status_code ]

  -- The message reads the status code without the check for nil.
  deleted : Option GithubResponse → Unit {0} → Result (Unit {0})
  unfolding status_code_of decimal
  deleted response done = deref response >>> λ r.
      if not (nat_eq (status_code_of r) 204 || nat_eq (status_code_of r) 200)
      then (deref r.http >>> λ h. err (
          errorf (
            "expected 204 status code while received "
            <> (decimal h.status_code <> " status code"))))
      else ok tt

  execute_delete_pull_request_comment : String → String → ℤ → Attempt (Option (Unit {0}))
  unfolding request reading_with deleted
  execute_delete_pull_request_comment owner repository comment_id =
      reading_with (request s.done (delete_issue_comment owner repository comment_id)) deleted

some_comments : List PullRequestComment → Result (Unit {0})
some_comments [] =
    err (errorf "could not add a pull request review comment, no comments were provided")
some_comments (c ∷ cs) = ok tt

module _ (order : Order) (s : Server) where
  unfoldable pub add_pull_request_comment : String → String → String → ℤ → Rest (Unit {0})
  unfolding validated ask
  add_pull_request_comment owner repository content id = do
    validated order (("owner", owner) ∷ ("repository", repository) ∷ ("content", content) ∷ [])
    ask s s.done (create_issue_comment owner repository id content)

  unfoldable pub add_pull_request_review_comments :
      String → String → ℤ → List PullRequestComment → Rest (Unit {0})
  unfolding validated some_comments ask latest_commit_sha review_loop decimal_int
  add_pull_request_review_comments owner repository id comments = do
    validated order
        (("owner", owner) ∷ ("repository", repository) ∷ ("pullRequestID", decimal_int id) ∷ [])
    lift (some_comments comments)
    commits ← ask s s.pull_request_commits (list_pull_request_commits owner repository id)
    latest_sha ← lift (latest_commit_sha (decimal_int id) commits)
    review_loop s owner repository latest_sha id comments

  unfoldable pub list_pull_request_review_comments : String → String → ℤ → Rest (List CommentInfo)
  unfolding validated limited execute_list_pull_request_review_comments
  list_pull_request_review_comments owner repository id = do
    validated order (("owner", owner) ∷ ("repository", repository) ∷ [])
    limited s (execute_list_pull_request_review_comments s owner repository id)

  unfoldable pub list_pull_request_comments : String → String → ℤ → Rest (List CommentInfo)
  unfolding validated ask comment_infos
  list_pull_request_comments owner repository id = do
    validated order (("owner", owner) ∷ ("repository", repository) ∷ [])
    comments ← ask s s.comments (list_issue_comments owner repository id)
    pure (comment_infos comments)

  -- The parameters are validated before each comment.
  unfoldable pub delete_pull_request_review_comments :
      String → String → List CommentInfo → Rest (Unit {0})
  unfolding validated limited execute_delete_pull_request_review_comment decimal_int
  delete_pull_request_review_comments owner repository [] = pure tt
  delete_pull_request_review_comments owner repository (c ∷ cs) = do
    validated order
        (("owner", owner) ∷ ("repository", repository) ∷ ("commentID", decimal_int c.id) ∷ [])
    limited s (execute_delete_pull_request_review_comment s owner repository c.id)
    delete_pull_request_review_comments owner repository cs

  unfoldable pub delete_pull_request_comment : String → String → ℤ → Rest (Unit {0})
  unfolding validated limited execute_delete_pull_request_comment
  delete_pull_request_comment owner repository comment_id = do
    validated order (("owner", owner) ∷ ("repository", repository) ∷ [])
    limited s (execute_delete_pull_request_comment s owner repository comment_id)
