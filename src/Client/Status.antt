-- ===== src/Client/Status.antt =====
-- The statuses of commits, as the servers spell them (`commitStatusAsStringToStatus` in
-- vcsclient/vcsclient.go, `getGitLabCommitState` in vcsclient/gitlab.go,
-- `getGitHubCommitState` in vcsclient/github.go, `mapStatusToString` in vcsclient/azurerepos.go and
-- `getBitbucketCommitState` in vcsclient/bitbucketcommon.go).
use Prim.Native.Char.{code}
use froggit_go.Base.{
  ℕ, ◌+◌, String, ◌≡◌, refl, Bool, true, false, ◌&&◌, ◌||◌, leb, nat_eq, if◌then◌else◌,
}
use froggit_go.Client.Types.{CommitStatus, pass, fail, error, in_progress, other_status}

-- `strings.ToLower` of a code point, as far as it gives an ASCII letter: the capital letters, and
-- the two others whose lower case is ASCII. The rest stays outside ASCII.
lower : ℕ → ℕ
lower c =
    if leb b'A' c && leb c b'Z'
    then c + 32
    else if nat_eq c 0x130
    then b'i'
    else if nat_eq c 0x212A
    then b'k'
    else c

-- The text in lower case is the word, which is an ASCII one.
unfoldable pub lowers_to : String → String → Bool
unfolding lower
lowers_to String.[] String.[] = true
lowers_to (String.◌∷◌ c s) (String.◌∷◌ d w) = nat_eq (lower (code c)) (code d) && lowers_to s w
lowers_to _ _ = false

unfoldable pub commit_status_as_string_to_status : String → CommitStatus
unfolding lowers_to
commit_status_as_string_to_status raw =
    if lowers_to raw "success" || (lowers_to raw "succeeded" || lowers_to raw "successful")
    then pass
    else if lowers_to raw "fail" || (lowers_to raw "failure" || lowers_to raw "failed")
    then fail
    else if lowers_to raw "pending" || lowers_to raw "inprogress"
    then in_progress
    else error

unfoldable pub get_bitbucket_commit_state : CommitStatus → String
get_bitbucket_commit_state pass = "SUCCESSFUL"
get_bitbucket_commit_state fail = "FAILED"
get_bitbucket_commit_state error = "FAILED"
get_bitbucket_commit_state in_progress = "INPROGRESS"
get_bitbucket_commit_state other_status = ""

unfoldable pub get_gitlab_commit_state : CommitStatus → String
get_gitlab_commit_state pass = "success"
get_gitlab_commit_state fail = "failed"
get_gitlab_commit_state error = "failed"
get_gitlab_commit_state in_progress = "running"
get_gitlab_commit_state other_status = ""

unfoldable pub get_github_commit_state : CommitStatus → String
get_github_commit_state pass = "success"
get_github_commit_state fail = "failure"
get_github_commit_state error = "error"
get_github_commit_state in_progress = "pending"
get_github_commit_state other_status = ""

-- `mapStatusToString`, of Azure Repos.
unfoldable pub map_status_to_string : CommitStatus → String
map_status_to_string pass = "Succeeded"
map_status_to_string fail = "Failed"
map_status_to_string error = "Error"
map_status_to_string in_progress = "Pending"
map_status_to_string other_status = ""

-- An error is set as a failure, and a value without a name as no status: it is read as an error.
abbrev pub as_set : CommitStatus → CommitStatus
as_set error = fail
as_set other_status = error
as_set s = s

-- A status that is set on GitLab: a check that is in progress is read back as an error.
abbrev pub as_set_on_gitlab : CommitStatus → CommitStatus
as_set_on_gitlab in_progress = error
as_set_on_gitlab s = as_set s

-- A status that is set on Azure Repos or on GitHub is read back as it was set, where a value without a
-- name is read as an error. On Bitbucket, beside this, an error is set as a failure. On GitLab it is so
-- too, and a status in progress is set as `running`, which is read back as an error.
pub state_reads_back :
    (s : CommitStatus)
    → let read_back : CommitStatus = elim s [ other_status ↦ error | named ↦ named ] in
      (commit_status_as_string_to_status (map_status_to_string s) ≡ read_back)
      × (commit_status_as_string_to_status (get_github_commit_state s) ≡ read_back)
      × (commit_status_as_string_to_status (get_bitbucket_commit_state s) ≡ as_set s)
      × (commit_status_as_string_to_status (get_gitlab_commit_state s) ≡ as_set_on_gitlab s)
unfolding commit_status_as_string_to_status map_status_to_string get_github_commit_state
    get_bitbucket_commit_state get_gitlab_commit_state
state_reads_back pass = (refl, refl, refl, refl)
state_reads_back fail = (refl, refl, refl, refl)
state_reads_back error = (refl, refl, refl, refl)
state_reads_back in_progress = (refl, refl, refl, refl)
state_reads_back other_status = (refl, refl, refl, refl)
