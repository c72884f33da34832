-- ===== src/Client/Github/Files.antt =====
-- Files of a repository on GitHub.
pub mod Modified
use froggit_go.Base.{
  ℕ, String, ◌<>◌, Bool, true, false, ◌&&◌, not, Option, none, some, List, [], ◌∷◌, ◌++◌, Result,
  ok, err, panic, Error, errorf, error_text, join_errors, nat_eq, deref, ◌==◌, if◌then◌else◌,
  ◌>>=◌ as ◌>>>◌,
}
use froggit_go.Base.Decimal.{decimal}
use froggit_go.Calls.{◌>>=◌, ◌>>◌, pure, lift}
use froggit_go.Vcs.Names.{add_branch_prefix}
use froggit_go.Vcs.Values.{default_if_not_nil, string_zero}
use froggit_go.Vcs.Responses.{check_response_status_with_body}
use froggit_go.Client.Types.{Download, RepositoryEnvironmentInfo}
use froggit_go.Client.Params.{Order}
use froggit_go.Client.Sorting.{SetApi, sort_strings}
use froggit_go.Client.Shared.{validated}
use froggit_go.Client.Github.Api.{
  GithubResponse, Call, get_environment, compare_commits, upload_sarif, download_contents,
  CommitFile, Environment, Body, BodyReply, SarifReply, Server, Rest,
}
use froggit_go.Client.Github.RateLimit.{
  Outcome, returned, crashed, Attempt, request, reading_with, limited, run_with_rate_limit_retries,
}
use froggit_go.Client.Github.Commits.{get_latest_commit}

module _ (s : Server) where
  -- The error of `Close` joins the one that is there.
  close_error : Option Body → Option Error
  close_error none = none
  close_error (some b) = b.close_error

  -- What reading the body leaves, given the error that there is without a body.
  read_all : Option Body → Option Error → Option String × Option Error
  read_all none e = (none, e)
  read_all (some b) e = (some b.content, b.read_error)

  downloaded : BodyReply → ℕ → Download
  unfolding read_all close_error join_errors decimal error_text
  downloaded reply code =
      let closing = close_error reply.body in
      let (content, read_error) = read_all reply.body reply.error in
      let done : Download = record {
        content = content;
        status_code = code;
        error = join_errors read_error closing;
      } in
      elim reply.error [
        | none ↦ done
        | some e ↦ if nat_eq code 200 then done else record {
          content = none;
          status_code = code;
          error =
              join_errors
                (some (
                  errorf (
                    "expected 200 status code while received "
                    <> (decimal code <> (" status code with error:\n" <> error_text e)))))
                closing;
        }
      ]

  -- Without a response, the body is only closed.
  no_response : BodyReply → Download
  unfolding close_error join_errors
  no_response reply = record {
    content = none;
    status_code = 0;
    error = join_errors reply.error (close_error reply.body);
  }

  unfoldable pub execute_download_file_from_repo :
      String → String → String → String → Attempt Download
  unfolding downloaded no_response
  execute_download_file_from_repo owner repository branch path log =
      let call = download_contents owner repository path branch in
      let reply = s.download log call in
      let d : Download = elim reply.response [
        | none ↦ no_response reply
        | some r ↦ elim r.http [
          | none ↦ no_response reply
          | some h ↦ downloaded reply h.status_code
        ]
      ] in
      (returned reply.response d.error d, call ∷ log)

  -- The content and the status code stay beside an error.
  kept : Outcome Download → Result Download
  kept (returned r e d) = ok (record d { error = e })
  kept (crashed m) = panic m

  unfoldable pub download_file_from_repo : String → String → String → String → Rest Download
  unfolding run_with_rate_limit_retries execute_download_file_from_repo kept
  download_file_from_repo owner repository branch path log =
      let (o, log') =
        run_with_rate_limit_retries s (execute_download_file_from_repo owner repository branch path)
          log in
      (kept o, log')

module _ (x : SetApi) where
  file_names : List CommitFile → x.Set → x.Set
  file_names [] set = set
  file_names (f ∷ fs) set =
      file_names fs
        (x.add (x.add set (default_if_not_nil f.filename)) (default_if_not_nil f.previous_filename))

  -- The names of the files, if the status of the response is `OK`.
  compared_names : Server → Option GithubResponse → List CommitFile → Result (List String)
  unfolding check_response_status_with_body file_names sort_strings
  compared_names s response files = deref response >>> λ r.
      check_response_status_with_body s.texts r.http (200 ∷ []) >>> λ checked.
      ok (sort_strings (x.to_slice (x.remove (file_names files x.make) "")))

  execute_get_modified_files :
      Server → String → String → String → String → Attempt (Option (List String))
  unfolding request reading_with compared_names
  execute_get_modified_files s owner repository ref_before ref_after =
      reading_with (request s.compared (compare_commits owner repository ref_before ref_after 1))
        (compared_names s)

  unfoldable pub get_modified_files :
      Order → Server → String → String → String → String → Rest (List String)
  unfolding validated limited execute_get_modified_files
  get_modified_files order s owner repository ref_before ref_after = do
    validated order (
        ("owner", owner)
        ∷ ("repository", repository)
        ∷ ("refBefore", ref_before)
        ∷ ("refAfter", ref_after)
        ∷ [])
    limited s (execute_get_modified_files s owner repository ref_before ref_after)
