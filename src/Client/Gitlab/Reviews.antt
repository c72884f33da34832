-- ===== src/Client/Gitlab/Reviews.antt =====
-- Comments on merge requests of GitLab: notes, and discussions at a position of the diff.
pub mod Placing
pub mod Deleting
use froggit_go.Base.{
  ℕ, ℤ, pos, negsuc, String, ◌<>◌, Bool, true, false, Option, none, some, List, [], ◌∷◌, ◌++◌,
  Result, ok, err, panic, Error, errorf, error_text, deref, ◌==◌, if◌then◌else◌, ◌>>=◌ as ◌>>>◌,
}
use froggit_go.Base.Decimal.{decimal_int}
use froggit_go.Calls.{◌>>=◌, ◌>>◌, pure, lift, send, Calls}
use froggit_go.Client.Types.{CommentInfo, PullRequestComment}
use froggit_go.Client.Params.{Order, Params}
use froggit_go.Client.Gitlab.Api.{
  Call, create_note, diff_versions, list_diffs, create_discussion, list_discussions, list_notes,
  delete_discussion_note, delete_note, Position, DiffVersion, Diff, Note, Discussion, Server, Rest,
}
use froggit_go.Client.Gitlab.Repos.{get_project_id}
use froggit_go.Client.Shared.{validated, wrapped, retold, or_else}

-- The first diff whose new path is the comment's. Its old path is left out if the file is new.
find_diff : String → List Diff → Option Diff
find_diff path [] = none
find_diff path (d ∷ ds) =
    let rest = find_diff path ds in if d.new_path == path then some d else rest

position : PullRequestComment → Diff → DiffVersion → Position
position c d v = record {
  start_sha = v.start_commit_sha;
  head_sha = v.head_commit_sha;
  base_sha = v.base_commit_sha;
  new_line = c.new_start_line;
  new_path = d.new_path;
  old_line = some c.new_start_line;
  old_path = some (if d.new_file then "" else d.old_path);
}

unfoldable pub position_of : PullRequestComment → List DiffVersion → List Diff → Result Position
unfolding find_diff position
position_of c versions changes = elim (find_diff c.new_file_path changes) [
  | none ↦ err (
      errorf ("could not find changes to " <> (c.new_file_path <> " in the current merge request")))
  | some d ↦ elim versions [
    | [] ↦ panic "index out of range [0] with length 0"
    | v ∷ vs ↦ ok (position c d v)
  ]
]

-- `pullRequestID` is never blank as a text.
abbrev with_id : String → String → ℤ → Params
with_id owner repository id =
    ("owner", owner) ∷ ("repository", repository) ∷ ("pullRequestID", decimal_int id) ∷ []

unfoldable pub map_notes : String → List Note → Result (List CommentInfo)
map_notes discussion_id [] = ok []
map_notes discussion_id (n ∷ ns) = deref n.created_at >>> λ created.
    map_notes discussion_id ns >>> λ rest. ok (
      record {
        id = n.id;
        thread_id = discussion_id;
        content = n.body;
        created = created;
        version = pos 0;
      }
      ∷ rest)

map_discussions : List Discussion → Result (List CommentInfo)
unfolding map_notes
map_discussions [] = ok []
map_discussions (d ∷ ds) =
    map_notes d.id d.notes >>> λ notes. map_discussions ds >>> λ rest. ok (notes ++ rest)

module _ (s : Server) where
  -- The call at the whole position, and if it fails one without the old line and path.
  unfoldable pub discuss : String → ℤ → String → Position → Rest (Unit {0})
  unfolding or_else wrapped
  discuss project_id id content p = wrapped "could not create a merge request discussion thread: " (
      or_else (send s.done (create_discussion project_id id content p)) (
        send s.done (
          create_discussion project_id id content (record p { old_line = none; old_path = none }))))

  unfoldable pub add_pull_request_review_comment :
      String → ℤ → PullRequestComment → List DiffVersion → List Diff → Rest (Unit {0})
  unfolding position_of discuss
  add_pull_request_review_comment project_id id c versions changes = do
    p ← lift (position_of c versions changes)
    discuss project_id id c.content p

  comment_loop :
      String → ℤ → List DiffVersion → List Diff → List PullRequestComment → Rest (Unit {0})
  unfolding add_pull_request_review_comment
  comment_loop project_id id versions changes [] = pure tt
  comment_loop project_id id versions changes (c ∷ cs) =
      add_pull_request_review_comment project_id id c versions changes
      >> comment_loop project_id id versions changes cs

module _ (order : Order) (s : Server) where
  unfoldable pub add_pull_request_comment : String → String → String → ℤ → Rest (Unit {0})
  unfolding validated
  add_pull_request_comment owner repository content id = do
    validated order (("owner", owner) ∷ ("repository", repository) ∷ ("content", content) ∷ [])
    send s.done (create_note (get_project_id owner repository) id content)

  some_comments : List PullRequestComment → Result (Unit {0})
  some_comments [] =
      err (errorf "could not add merge request review comments, no comments provided")
  some_comments (c ∷ cs) = ok tt

  unfoldable pub add_pull_request_review_comments :
      String → String → ℤ → List PullRequestComment → Rest (Unit {0})
  unfolding validated some_comments wrapped comment_loop
  add_pull_request_review_comments owner repository id comments = do
    validated order (("owner", owner) ∷ ("repository", repository) ∷ [])
    lift (some_comments comments)
    let project_id = get_project_id owner repository
    versions ←
        wrapped "could not get merge request diff versions: "
          (send s.versions (diff_versions project_id id))
    changes ←
        wrapped "could not get merge request changes: " (send s.diffs (list_diffs project_id id))
    comment_loop s project_id id versions changes comments

  unfoldable pub list_pull_request_review_comments : String → String → ℤ → Rest (List CommentInfo)
  unfolding validated decimal_int wrapped map_discussions
  list_pull_request_review_comments owner repository id = do
    validated order (with_id owner repository id)
    discussions ←
        wrapped "failed fetching the list of merge requests discussions: "
          (send s.discussions (list_discussions (get_project_id owner repository) id))
    lift (map_discussions discussions)

  unfoldable pub list_pull_request_comments : String → String → ℤ → Rest (List CommentInfo)
  unfolding validated decimal_int map_notes
  list_pull_request_comments owner repository id = do
    validated order (with_id owner repository id)
    notes ← send s.notes (list_notes (get_project_id owner repository) id)
    lift (map_notes "" notes)

  -- The variable `commentID` is declared and never set: it is 0.
  delete_loop : String → String → ℤ → List CommentInfo → Rest (Unit {0})
  unfolding validated decimal_int wrapped
  delete_loop owner repository id [] = pure tt
  delete_loop owner repository id (c ∷ cs) =
      let comment_id = pos 0 in
      do
        validated order (("commentID", decimal_int comment_id) ∷ ("discussionID", c.thread_id) ∷ [])
        wrapped "an error occurred while deleting pull request review comment: " (
            send s.done
              (delete_discussion_note (get_project_id owner repository) id c.thread_id comment_id))
        delete_loop owner repository id cs

  unfoldable pub delete_pull_request_review_comments :
      String → String → ℤ → List CommentInfo → Rest (Unit {0})
  unfolding validated decimal_int delete_loop
  delete_pull_request_review_comments owner repository id comments = do
    validated order (with_id owner repository id)
    delete_loop owner repository id comments

  unfoldable pub delete_pull_request_comment : String → String → ℤ → ℤ → Rest (Unit {0})
  unfolding validated retold
  delete_pull_request_comment owner repository id comment_id = do
    validated order (("owner", owner) ∷ ("repository", repository) ∷ [])
    retold "an error occurred while deleting pull request comment:\n"
        (send s.done (delete_note (get_project_id owner repository) id comment_id))
