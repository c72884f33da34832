-- ===== src/Lib.antt =====
-- froggit-go is a Go library over the version control services GitHub, GitLab, Bitbucket
-- Server, Bitbucket Cloud and Azure Repos. Package vcsutils/webhookparser turns the HTTP
-- request of a webhook into one description of what happened. Package vcsclient has a client
-- for each service behind one interface. Package vcsutils has what they share: the constants,
-- the unpacking of downloaded archives, and a retry executor. The development models the
-- webhook parsers, the unpacking, the retry executor, the five clients and their builder.
--
-- Base: texts (the functions of package strings that the program calls), signed integers, Go's
-- errors, and results. A Go call comes to a value, an error or a panic; nil dereferences and
-- index errors are panics, and a pointer is an Option. Calls: code that calls a system outside
-- the program, with the log of its calls; what a call gives is any function of the log and the
-- call. Both the unpacking (calls of the operating system) and the clients (requests to the
-- server) are written over it.
--
-- Vcs: vcsutils/consts.go (VcsProvider, WebhookEvent, PullRequestState). Vcs/Values:
-- DefaultIfNotNil, GetZeroValue and GetNilIfZeroVal of vcsutils/utils.go. Vcs/Responses:
-- CheckResponseStatusWithBody and GenerateResponseError of the same file. Vcs/Names:
-- AddBranchPrefix, GetPullRequestFilePath and MapPullRequestState.
--
-- Webhook/Info and Webhook/Parser: WebhookInfo with its parts, and the interface of a parser
-- (vcsutils/webhookparser/webhookparser.go). Webhook/Entry: ParseIncomingWebhook,
-- validateAndParseHttpRequest with its deferred close of the body, and createWebhookParser
-- (factory.go), with the log of the calls on the parser and on the body; its child Steps has
-- which methods of a parser are called. Webhook/Github, Webhook/Gitlab, Webhook/BitbucketServer
-- and Webhook/BitbucketCloud: the four parsers, each file named as its source; a child Events
-- or Payload has the data that the parser reads, Auth says which requests are accepted, Shapes
-- which webhooks are made, and Pushes what a push is parsed to. Packages outside the repository
-- (go-github, go-gitlab, the decoding of JSON, HMAC, the parsing of times and addresses) are
-- fields of Externals and may be any functions.
--
-- Extract: Untar, Unzip, unzipFile, safeCopy, sanitizeExtractionPath and removeBaseDir of
-- vcsutils/utils.go, for Unix paths. Extract/Path has filepath.Clean and filepath.Join over the
-- parts of a path. Extract/Io has the calls of the operating system, which may answer each with
-- any error. safeCopy is given fuel for size / 1024 + 1 rounds, which safe_copy-returns shows
-- to be enough. Modes of files and the bytes themselves are left out: a source is its length
-- and the way it ends.
--
-- Retry: RetryExecutor.Execute (vcsutils/retryexecutor.go) with the trace of its attempts,
-- waits and messages. The handler and the context are functions of the number of the attempt.
--
-- Client/Types, Client/Status and Client/Params: the data of vcsclient/vcsclient.go, the
-- spelling of commit statuses, and validateParametersNotBlank, which ranges over a Go map: the
-- order is a parameter. Client/Gitlab: the operations of vcsclient/gitlab.go, in Repos
-- (repositories, branches, commits, labels, keys), Hooks (webhooks, statuses), Merges (merge
-- requests), Reviews (comments) and Files. Client/Gitlab/Api has the requests and the replies
-- of go-gitlab; strconv.Atoi, base64 and the set package of gofrog are parameters, the last
-- with the laws that the code relies on. The loop over the pages of ListRepositories is given
-- fuel, and one round for each page is enough.
--
-- Client/Azure: the operations of vcsclient/azurerepos.go, in Pulls (pull requests and
-- comments), Commits (repositories, branches, commits, statuses) and Files. The loop over the
-- pages of GetModifiedFiles is given fuel, and a round for each hundred of changes and one more
-- are enough. Client/Sorting: sort.Strings as an insertion sort, and the laws of the set.
--
-- Client/Shared: what several clients do, the map from owners to repositories (Owners), and
-- what an operation does with a blank owner or repository (Guards). Client/Builder:
-- vcsclient/factory.go and the constructors of the clients.
--
-- Client/Github: the operations of vcsclient/github.go. RateLimit has the retries:
-- runWithRateLimitRetries is the executor of Retry with a handler that runs an attempt after
-- the requests of the attempts before it; an attempt leaves a response, an error and the
-- variables that it sets, or a panic. Repos, Commits (with statuses), Hooks, Pulls, Reviews,
-- Labels, Files and Scanning (code scanning, environments) are written over it. go-github, the
-- decoding of JSON, gzip and mapstructure are parameters. The loops over pages are given fuel:
-- a round for each page is enough.
--
-- Client/Bitbucket: vcsclient/bitbucketcommon.go. Client/BitbucketServer: the operations of
-- vcsclient/bitbucketserver.go; Paging has the loop over pages that its listings share, with a
-- round of fuel for each page. Client/BitbucketCloud: the operations of
-- vcsclient/bitbucketcloud.go. Vcs/Removal: RemoveTempDir and RemoveDirContents of
-- vcsutils/utils.go.
--
-- Not modelled: DownloadRepository, the creation of a .git folder, the loggers and the contexts
-- of the calls.
pub mod Base
pub mod Calls
pub mod Vcs
pub mod Webhook
pub mod Extract
pub mod Retry
pub mod Client
mod Tests
