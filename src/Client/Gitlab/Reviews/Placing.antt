-- ===== src/Client/Gitlab/Reviews/Placing.antt =====
-- How a review comment is placed on a merge request of GitLab.
use froggit_go.Base.{
  String, ◌<>◌, ◌≡◌, ◌≢◌, refl, ℤ, List, [], ◌∷◌, ◌++◌, none, some, Result, ok, err, panic, Error,
  errorf, wrapping, arith, All, eq_iff, if◌then◌else◌,
}
use froggit_go.Calls.{◌>>=◌, lift, send}
use froggit_go.Client.Types.{PullRequestComment}
use froggit_go.Client.Gitlab.Api.{Call, create_discussion, Position, DiffVersion, Diff, Server}
use froggit_go.Client.Gitlab.Reviews.{
  discuss, find_diff, position_of, add_pull_request_review_comment,
}

-- The diff is of another file.
abbrev pub IsElsewhere : String → Diff → Type 0
IsElsewhere path d = d.new_path ≢ path

find_diff-some :
    (path : String) (before after : List Diff) (d : Diff)
    → All (IsElsewhere path) before
    → d.new_path ≡ path
    → find_diff path (before ++ (d ∷ after)) ≡ some d
unfolding find_diff
find_diff-some path [] after d h e = ground (arith, eq_iff d.new_path path)
find_diff-some path (b ∷ before) after d h e =
    ground (arith, eq_iff b.new_path path, find_diff-some path before after d h.1 e)

find_diff-none :
    (path : String) (ds : List Diff) → All (IsElsewhere path) ds → find_diff path ds ≡ none
unfolding find_diff
find_diff-none path [] h = refl
find_diff-none path (d ∷ ds) h = ground (arith, eq_iff d.new_path path, find_diff-none path ds h.1)

-- The line of the comment in the latest version of the diff, with the old path if the file is not new.
abbrev pub place : PullRequestComment → Diff → DiffVersion → Position
place c d v = record {
  start_sha = v.start_commit_sha;
  head_sha = v.head_commit_sha;
  base_sha = v.base_commit_sha;
  new_line = c.new_start_line;
  new_path = c.new_file_path;
  old_line = some c.new_start_line;
  old_path = some (if d.new_file then "" else d.old_path);
}

abbrev pub wrap : Error → Error
wrap e = wrapping "could not create a merge request discussion thread: " e

module _ (project_id content : String) (id : ℤ) (p : Position) (log : List Call) where
  abbrev pub at_whole : Call
  at_whole = create_discussion project_id id content p

  abbrev pub at_new : Call
  at_new = create_discussion project_id id content (record p { old_line = none; old_path = none })

  -- What two requests come to, by their answers: the second is sent only after an error of the first,
  -- and its error is the one that is returned.
  abbrev pub tried : Result (Unit {0}) → Result (Unit {0}) → Result (Unit {0}) × List Call
  tried (ok _) second = (ok tt, at_whole ∷ log)
  tried (err e) (ok _) = (ok tt, at_new ∷ at_whole ∷ log)
  tried (err e) (err f) = (err (wrap f), at_new ∷ at_whole ∷ log)
  tried (err e) (panic m) = (panic m, at_new ∷ at_whole ∷ log)
  tried (panic m) second = (panic m, at_whole ∷ log)

  discuss_lem :
      (s : Server)
      → discuss s project_id id content p log
        ≡ tried (s.done log at_whole) (s.done (at_whole ∷ log) at_new)
  unfolding discuss send
  discuss_lem s = ground arith

position_of-place :
    (c : PullRequestComment) (v : DiffVersion) (older : List DiffVersion) (ds : List Diff)
    (d : Diff)
    → find_diff c.new_file_path ds ≡ some d
    → d.new_path ≡ c.new_file_path
    → position_of c (v ∷ older) ds ≡ ok (place c d v)
unfolding position_of
position_of-place c v older ds d e same = rw (position_of, e, same) refl

position_of-missing :
    (c : PullRequestComment) (versions : List DiffVersion) (ds : List Diff)
    → find_diff c.new_file_path ds ≡ none
    → position_of c versions ds
      ≡ err (
          errorf
            ("could not find changes to " <> (c.new_file_path <> " in the current merge request")))
unfolding position_of
position_of-missing c versions ds e = rw (position_of, e) refl

-- A comment on a file of the merge request is sent at its line of the latest version; if the server
-- answers that with an error, it is sent once more without the old line and path. The call fails
-- only if both requests do, with the error of the second. The first diff of the file counts.
pub add_pull_request_review_comment-places :
    (s : Server) (project_id : String) (id : ℤ) (c : PullRequestComment) (v : DiffVersion)
    (older : List DiffVersion) (before after : List Diff) (d : Diff) (log : List Call)
    → All (IsElsewhere c.new_file_path) before
    → d.new_path ≡ c.new_file_path
    → add_pull_request_review_comment s project_id id c (v ∷ older) (before ++ (d ∷ after)) log
      ≡ tried project_id c.content id
          (place c d v)
          log
          (s.done log (at_whole project_id c.content id (place c d v) log))
          (s.done
            (at_whole project_id c.content id (place c d v) log ∷ log)
            (at_new project_id c.content id (place c d v) log))
unfolding add_pull_request_review_comment ◌>>=◌ lift
add_pull_request_review_comment-places s project_id id c v older before after d log others same =
    rw
      (position_of-place c v older _ d (find_diff-some c.new_file_path before after d others same)
        same)
      (discuss_lem project_id c.content id (place c d v) log s)

-- A comment on a file that the merge request does not change is refused without a request.
pub add_pull_request_review_comment-refuses :
    (s : Server) (project_id : String) (id : ℤ) (c : PullRequestComment)
    (versions : List DiffVersion) (changes : List Diff) (log : List Call)
    → All (IsElsewhere c.new_file_path) changes
    → add_pull_request_review_comment s project_id id c versions changes log ≡ (
      err (
          errorf
            ("could not find changes to " <> (c.new_file_path <> " in the current merge request"))),
      log,
    )
unfolding add_pull_request_review_comment ◌>>=◌ lift
add_pull_request_review_comment-refuses s project_id id c versions changes log others =
    rw (position_of-missing c versions changes (find_diff-none c.new_file_path changes others)) refl
