-- ===== src/Client/Bitbucket.antt =====
-- What the two clients of Bitbucket have in common (vcsclient/bitbucketcommon.go): the operations
-- that are not supported, and the reading of commit statuses.
pub mod Instants
use froggit_go.Base.{
  ℕ, zero, suc, ◌+◌, ◌-◌, ◌*◌, ◌/◌, ◌%◌, ℤ, pos, negsuc, String, ◌<>◌, List, [], ◌∷◌, Result, ok,
  err, panic, Error, errorf, error_text, nat_eq, ◌==◌, if◌then◌else◌, ◌>>=◌,
}
use froggit_go.Calls.{Calls, lift}
use froggit_go.Webhook.Http.{Time}
use froggit_go.Vcs.{VcsProvider, bitbucket_server}
use froggit_go.Client.Types.{CommitStatusInfo, When, zero_time, at_time}
use froggit_go.Client.Status.{commit_status_as_string_to_status}

-- The eight errors at the head of the file.
pub data Unsupported : Type 0 where
  labels code_scanning download_file get_commits environment_info : Unsupported
  list_review_comments add_review_comments delete_comment : Unsupported

subject : Unsupported → String
subject labels = "labels are "
subject code_scanning = "code scanning is "
subject download_file = "download file from repo is "
subject get_commits = "get commits is "
subject environment_info = "get repository environment info is "
subject list_review_comments = "list pull request review comments is "
subject add_review_comments = "add pull request review comment is "
subject delete_comment = "delete pull request comment is "

unfoldable pub unsupported_error : Unsupported → Error
unfolding subject
unsupported_error u = errorf (subject u <> "currently not supported on Bitbucket")

-- An operation that is not supported sends no request.
unfoldable pub unsupported : {C A : Type 0} → Unsupported → Calls C A
unfolding unsupported_error
unsupported u = lift (err (unsupported_error u))

abbrev pub bitbucket_pr_content_size_limit : ℕ
bitbucket_pr_content_size_limit = 32768

-- `BitbucketCommitInfo`. `date_added` is `int64(DateAdded)`, the milliseconds without their fraction.
pub record BitbucketCommitInfo : Type 0 where
  pub title : String
  pub url : String
  pub state : String
  pub creator : String
  pub description : String
  pub created_on : String
  pub updated_on : String
  pub date_added : ℤ

-- `-n`
minus : ℕ → ℤ
minus zero = pos 0
minus (suc n) = negsuc n

-- `time.Unix` of seconds at or before 1970 and of nanoseconds that go back from them, less than a
-- second: the nanoseconds of a time are not negative.
before : ℕ → ℕ → Time
unfolding minus
before seconds zero = record { unix = minus seconds; nanos = 0 }
before seconds (suc n) = record { unix = negsuc seconds; nanos = 1000000000 - suc n }

-- The time of milliseconds since 1970. The division rounds towards zero.
unfoldable pub time_of_millis : ℤ → Time
unfolding before
time_of_millis (pos ms) =
    let sec = ms / 1000 in record { unix = pos sec; nanos = (ms - sec * 1000) * 1000000 }
time_of_millis (negsuc n) = let sec = suc n / 1000 in before sec ((suc n - sec * 1000) * 1000000)

unfoldable pub get_bitbucket_server_commit_status_info : BitbucketCommitInfo → CommitStatusInfo
unfolding commit_status_as_string_to_status time_of_millis
get_bitbucket_server_commit_status_info c = record {
  state = commit_status_as_string_to_status c.state;
  description = c.description;
  details_url = c.url;
  creator = c.title;
  created_at = at_time (time_of_millis c.date_added);
  last_updated_at = zero_time;
}

-- `parse_time` is `time.Parse` for RFC 3339.
module _ (parse_time : String → Result Time) where
  -- An empty text is the zero time.
  parsed : String → String → Result When
  unfolding error_text
  parsed name text = if text == "" then ok zero_time else elim (parse_time text) [
    | ok t ↦ ok (at_time t)
    | err e ↦ err (errorf ("error parsing commit status " <> (name <> (" date: " <> error_text e))))
    | panic m ↦ panic m
  ]

  unfoldable pub get_bitbucket_cloud_commit_status_info :
      BitbucketCommitInfo → Result CommitStatusInfo
  unfolding parsed commit_status_as_string_to_status
  get_bitbucket_cloud_commit_status_info c = parsed "created_on" c.created_on >>= λ created.
      parsed "updated_on" c.updated_on >>= λ updated. ok (record {
        state = commit_status_as_string_to_status c.state;
        description = c.description;
        details_url = c.url;
        creator = c.creator;
        created_at = created;
        last_updated_at = updated;
      })

  unfoldable pub get_commit_status_info_by_bitbucket_provider :
      VcsProvider → BitbucketCommitInfo → Result CommitStatusInfo
  unfolding get_bitbucket_server_commit_status_info get_bitbucket_cloud_commit_status_info
  get_commit_status_info_by_bitbucket_provider provider c = elim provider [
    | bitbucket_server ↦ ok (get_bitbucket_server_commit_status_info c)
    | _ ↦ get_bitbucket_cloud_commit_status_info c
  ]

  -- `bitbucketParseCommitStatuses`, given the statuses that are decoded.
  unfoldable pub bitbucket_parse_commit_statuses :
      VcsProvider → List BitbucketCommitInfo → Result (List CommitStatusInfo)
  unfolding get_commit_status_info_by_bitbucket_provider
  bitbucket_parse_commit_statuses provider [] = ok []
  bitbucket_parse_commit_statuses provider (c ∷ cs) =
      get_commit_status_info_by_bitbucket_provider provider c >>= λ i.
      bitbucket_parse_commit_statuses provider cs >>= λ is. ok (i ∷ is)
