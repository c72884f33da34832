-- ===== src/Client/BitbucketServer/Reviews.antt =====
-- Comments on pull requests of Bitbucket Server.
pub mod Listed
pub mod Versions
use froggit_go.Base.{
  ℕ, suc, ◌+◌, ◌-◌, ◌%◌, ◌^◌, ℤ, pos, negsuc, String, ◌<>◌, Bool, true, false, ◌&&◌, Option, none,
  some, List, [], ◌∷◌, ◌++◌, Result, ok, err, panic, Error, errorf, error_text, ltb, ◌==◌,
  if◌then◌else◌,
}
use froggit_go.Calls.{◌>>=◌, ◌>>◌, pure, lift, send}
use froggit_go.Vcs.Names.{get_pull_request_file_path}
use froggit_go.Vcs.Values.{int_comparable}
use froggit_go.Client.Types.{CommentInfo, PullRequestComment}
use froggit_go.Client.Params.{Order}
use froggit_go.Client.Shared.{validated}
use froggit_go.Client.BitbucketServer.Api.{
  Call, get_activities, create_pull_request_comment, delete_comment, Activity, Anchor, Server, Rest,
}
use froggit_go.Client.BitbucketServer.Paging.{page_loop}

-- `int32(v)`: the value that agrees with `v` modulo 2 ^ 32.
unfoldable pub int32 : ℤ → ℤ
int32 (pos n) = let r = n % 2 ^ 32 in if ltb r (2 ^ 31) then pos r else negsuc ((2 ^ 32 - 1) - r)
int32 (negsuc n) = let r = n % 2 ^ 32 in if ltb r (2 ^ 31) then negsuc r else pos ((2 ^ 32 - 1) - r)

-- A comment is placed at a line if the path of its file is not empty.
unfoldable pub anchor_of : PullRequestComment → Option Anchor
unfolding get_pull_request_file_path
anchor_of c =
    let path = get_pull_request_file_path c.new_file_path in
    if path == ""
    then none
    else some (record {
      line = c.new_start_line;
      line_type = "CONTEXT";
      file_type = "FROM";
      path = path;
      src_path = path;
    })

-- A comment with a content only.
abbrev pub bare_comment : String → PullRequestComment
bare_comment content = record {
  content = content;
  original_file_path = "";
  original_start_line = pos 0;
  original_end_line = pos 0;
  original_start_column = pos 0;
  original_end_column = pos 0;
  new_file_path = "";
  new_start_line = pos 0;
  new_end_line = pos 0;
  new_start_column = pos 0;
  new_end_column = pos 0;
}

abbrev pub is_new_comment : Activity → Bool
is_new_comment a = (a.action == "COMMENTED") && (a.comment_action == "ADDED")

-- The date of creation is taken for seconds.
abbrev pub comment_info : Activity → CommentInfo
comment_info a = record {
  id = a.comment_id;
  thread_id = "";
  content = a.text;
  created = record { unix = a.created_date; nanos = 0 };
  version = a.version;
}

-- The new comments of a page, behind those before it.
unfoldable pub add_comments : List CommentInfo → List Activity → List CommentInfo
add_comments results [] = results
add_comments results (a ∷ later) =
    let skipped = add_comments results later in
    if is_new_comment a then add_comments (results ++ (comment_info a ∷ [])) later else skipped

-- The version of the first comment with the identifier, and 0 if there is none.
unfoldable pub comment_version : ℤ → List CommentInfo → ℤ
comment_version id [] = pos 0
comment_version id (c ∷ cs) =
    let rest = comment_version id cs in if int_comparable.equal c.id id then c.version else rest

some_comments : List PullRequestComment → Result (Unit {0})
some_comments [] =
    err (errorf "could not add a pull request review comment, no comments were provided")
some_comments (c ∷ cs) = ok tt

module _ (order : Order) (s : Server) where
  unfoldable pub add_comment : String → String → ℤ → PullRequestComment → Rest (Unit {0})
  unfolding validated anchor_of
  add_comment owner repository id c = do
    validated order (("owner", owner) ∷ ("repository", repository) ∷ ("content", c.content) ∷ [])
    send s.done (create_pull_request_comment owner repository id c.content (anchor_of c))

  unfoldable pub add_pull_request_comment : String → String → String → ℤ → Rest (Unit {0})
  unfolding add_comment
  add_pull_request_comment owner repository content id =
      add_comment owner repository id (bare_comment content)

  comment_loop : String → String → ℤ → List PullRequestComment → Rest (Unit {0})
  unfolding add_comment
  comment_loop owner repository id [] = pure tt
  comment_loop owner repository id (c ∷ cs) =
      add_comment owner repository id c >> comment_loop owner repository id cs

  unfoldable pub add_pull_request_review_comments :
      String → String → ℤ → List PullRequestComment → Rest (Unit {0})
  unfolding some_comments comment_loop
  add_pull_request_review_comments owner repository id comments =
      lift (some_comments comments) >> comment_loop owner repository id comments

module _ (s : Server) where
  unfoldable pub list_pull_request_comments : ℕ → String → String → ℤ → Rest (List CommentInfo)
  unfolding page_loop add_comments
  list_pull_request_comments fuel owner repository id = do
    (results, page) ←
        page_loop s.activities (get_activities owner repository id)
          (λ r activities. ok (add_comments r activities)) fuel (pos 0) []
    pure results

  abbrev pub list_pull_request_review_comments : ℕ → String → String → ℤ → Rest (List CommentInfo)
  list_pull_request_review_comments = list_pull_request_comments

  -- An `io.EOF` of the deletion is no error.
  deleted : Result (Unit {0}) → Result (Unit {0})
  unfolding error_text
  deleted (ok done) = ok tt
  deleted (err e) =
      if s.is_eof e
      then ok tt
      else err (errorf ("an error occurred while deleting pull request comment:\n" <> error_text e))
  deleted (panic m) = panic m

  delete_with_version : String → String → ℤ → ℤ → ℤ → Rest (Unit {0})
  unfolding deleted int32
  delete_with_version owner repository id comment_id version log =
      let call = delete_comment owner repository id comment_id (int32 version) in
      (deleted (s.done log call), call ∷ log)

  unfoldable pub delete_pull_request_comment : ℕ → String → String → ℤ → ℤ → Rest (Unit {0})
  unfolding list_pull_request_comments comment_version delete_with_version
  delete_pull_request_comment fuel owner repository id comment_id = do
    comments ← list_pull_request_comments fuel owner repository id
    delete_with_version owner repository id comment_id (comment_version comment_id comments)

  unfoldable pub delete_pull_request_review_comments :
      ℕ → String → String → ℤ → List CommentInfo → Rest (Unit {0})
  unfolding delete_pull_request_comment
  delete_pull_request_review_comments fuel owner repository id [] = pure tt
  delete_pull_request_review_comments fuel owner repository id (c ∷ cs) =
      delete_pull_request_comment fuel owner repository id c.id
      >> delete_pull_request_review_comments fuel owner repository id cs
