-- ===== src/Client/Builder.antt =====
-- The builder of clients (vcsclient/factory.go), and the constructors that it calls.
use froggit_go.Base.{
  String, ◌<>◌, ◌≡◌, refl, Bool-cases, inl, inr, Option, none, some, Result, ok, err, panic, ◌==◌,
  if◌then◌else◌, ◌>>=◌,
}
use froggit_go.Base.Text.{trim_suffix}
use froggit_go.Vcs.{
  VcsProvider, github, gitlab, bitbucket_server, bitbucket_cloud, azure_repos, other_provider,
}

pub record VcsInfo : Type 0 where
  pub api_endpoint : String
  pub username : String
  pub token : String
  pub project : String

-- `ClientBuilder`; `Logger` is any type of loggers.
pub record ClientBuilder (Logger : Type 0) : Type 0 where
  pub vcs_provider : VcsProvider
  pub vcs_info : VcsInfo
  pub logger : Logger

-- What the constructors make from the information: for each client, the address that it uses if it
-- has one of its own.
pub data VcsClient (Logger : Type 0) : Type 0 where
  github_client gitlab_client bitbucket_cloud_client :
      VcsInfo → Option String → Logger → VcsClient Logger
  bitbucket_server_client : VcsInfo → Logger → VcsClient Logger
  azure_repos_client : VcsInfo → String → Logger → VcsClient Logger

-- `url.Parse`, whose result stands for its text, and the refusal of an address by go-gitlab.
pub record Addresses : Type 0 where
  pub parse : String → Result String
  pub accept : Option String → Result (Unit {0})

-- `buildGithubClient`: the address ends in one slash.
unfoldable pub build_github_client : Addresses → VcsInfo → Result (Option String)
unfolding trim_suffix
build_github_client a i =
    let parsed = a.parse (trim_suffix i.api_endpoint "/" <> "/") in
    if i.api_endpoint == "" then ok none else parsed >>= λ u. ok (some u)

module _ {Logger : Type 0} where
  unfoldable pub new_client_builder : VcsProvider → Logger → ClientBuilder Logger
  new_client_builder provider empty_logger = record {
    vcs_provider = provider;
    vcs_info = record { api_endpoint = ""; username = ""; token = ""; project = "" };
    logger = empty_logger;
  }

  unfoldable pub set_api_endpoint : String → ClientBuilder Logger → ClientBuilder Logger
  set_api_endpoint t b = record b { vcs_info = record b.vcs_info { api_endpoint = t } }

  unfoldable pub set_username : String → ClientBuilder Logger → ClientBuilder Logger
  set_username t b = record b { vcs_info = record b.vcs_info { username = t } }

  unfoldable pub set_token : String → ClientBuilder Logger → ClientBuilder Logger
  set_token t b = record b { vcs_info = record b.vcs_info { token = t } }

  unfoldable pub set_logger : Logger → ClientBuilder Logger → ClientBuilder Logger
  set_logger l b = record b { logger = l }

  unfoldable pub set_project : String → ClientBuilder Logger → ClientBuilder Logger
  set_project t b = record b { vcs_info = record b.vcs_info { project = t } }

  new_github_client : Addresses → VcsInfo → Logger → Result (VcsClient Logger)
  unfolding build_github_client
  new_github_client a i l = build_github_client a i >>= λ u. ok (github_client i u l)

  -- An address that is not set is left to go-gitlab.
  new_gitlab_client : Addresses → VcsInfo → Logger → Result (VcsClient Logger)
  new_gitlab_client a i l =
      let address = if i.api_endpoint == "" then none else some i.api_endpoint in
      a.accept address >>= λ accepted. ok (gitlab_client i address l)

  new_bitbucket_cloud_client : Addresses → VcsInfo → Logger → Result (VcsClient Logger)
  new_bitbucket_cloud_client a i l =
      let parsed = a.parse i.api_endpoint in
      if i.api_endpoint == ""
      then ok (bitbucket_cloud_client i none l)
      else (parsed >>= λ u. ok (bitbucket_cloud_client i (some u) l))

  new_azure_repos_client : VcsInfo → Logger → Result (VcsClient Logger)
  unfolding trim_suffix
  new_azure_repos_client i l = ok (azure_repos_client i (trim_suffix i.api_endpoint "/") l)

  -- A provider that is none of the five gives neither a client nor an error.
  unfoldable pub build : Addresses → ClientBuilder Logger → Result (Option (VcsClient Logger))
  unfolding new_github_client new_gitlab_client new_bitbucket_cloud_client new_azure_repos_client
  build a b = elim b.vcs_provider [
    | github ↦ new_github_client a b.vcs_info b.logger >>= λ c. ok (some c)
    | gitlab ↦ new_gitlab_client a b.vcs_info b.logger >>= λ c. ok (some c)
    | bitbucket_server ↦ ok (some (bitbucket_server_client b.vcs_info b.logger))
    | bitbucket_cloud ↦ new_bitbucket_cloud_client a b.vcs_info b.logger >>= λ c. ok (some c)
    | azure_repos ↦ new_azure_repos_client b.vcs_info b.logger >>= λ c. ok (some c)
    | other_provider ↦ ok none
  ]

  -- The provider, the information and the logger of a client.
  abbrev pub provider_of : VcsClient Logger → VcsProvider
  provider_of (github_client i u l) = github
  provider_of (gitlab_client i u l) = gitlab
  provider_of (bitbucket_cloud_client i u l) = bitbucket_cloud
  provider_of (bitbucket_server_client i l) = bitbucket_server
  provider_of (azure_repos_client i u l) = azure_repos

  abbrev pub info_of : VcsClient Logger → VcsInfo
  info_of (github_client i u l) = i
  info_of (gitlab_client i u l) = i
  info_of (bitbucket_cloud_client i u l) = i
  info_of (bitbucket_server_client i l) = i
  info_of (azure_repos_client i u l) = i

  abbrev pub logger_of : VcsClient Logger → Logger
  logger_of (github_client i u l) = l
  logger_of (gitlab_client i u l) = l
  logger_of (bitbucket_cloud_client i u l) = l
  logger_of (bitbucket_server_client i l) = l
  logger_of (azure_repos_client i u l) = l

  -- What is built has the provider, the information and the logger of the builder, and nothing is
  -- built exactly for another provider.
  abbrev pub IsBuiltFrom : ClientBuilder Logger → Result (Option (VcsClient Logger)) → Type 0
  IsBuiltFrom b (ok (some c)) =
      (provider_of c ≡ b.vcs_provider) × (info_of c ≡ b.vcs_info) × (logger_of c ≡ b.logger)
  IsBuiltFrom b (ok none) = b.vcs_provider ≡ other_provider
  IsBuiltFrom b (err e) = Unit
  IsBuiltFrom b (panic m) = Unit

  module _ (i : VcsInfo) (l : Logger) where
    abbrev asked : VcsProvider → ClientBuilder Logger
    asked p = record { vcs_provider = p; vcs_info = i; logger = l }

    -- Clients that are made from an address.
    from_address :
        {A : Type 0} (r : Result A) (p : VcsProvider) (make : A → VcsClient Logger)
        → ((u : A) → IsBuiltFrom (asked p) (ok (some (make u))))
        → IsBuiltFrom (asked p) (r >>= (λ u. ok (make u)) >>= λ c. ok (some c))
    from_address (ok u) p make made = made u
    from_address (err e) p make made = tt
    from_address (panic m) p make made = tt

    cloud-IsBuiltFrom :
        (a : Addresses)
        → IsBuiltFrom
            (asked bitbucket_cloud)
            (new_bitbucket_cloud_client a i l >>= λ c. ok (some c))
    unfolding new_bitbucket_cloud_client
    cloud-IsBuiltFrom a = elim (Bool-cases (i.api_endpoint == "")) [
      | inl e ↦ rw e (refl, refl, refl)
      | inr e ↦ rw e (
          from_address (a.parse i.api_endpoint) bitbucket_cloud
            (λ u. bitbucket_cloud_client i (some u) l) (λ u. (refl, refl, refl)))
    ]

    asked-IsBuiltFrom :
        (a : Addresses) (p : VcsProvider) → IsBuiltFrom (asked p) (build a (asked p))
    unfolding build new_github_client new_gitlab_client new_azure_repos_client
    asked-IsBuiltFrom a github =
        from_address (build_github_client a i) github (λ u. github_client i u l)
          (λ u. (refl, refl, refl))
    asked-IsBuiltFrom a gitlab =
        let address = if i.api_endpoint == "" then none else some i.api_endpoint in
        from_address (a.accept address) gitlab (λ u. gitlab_client i address l)
          (λ u. (refl, refl, refl))
    asked-IsBuiltFrom a bitbucket_server = (refl, refl, refl)
    asked-IsBuiltFrom a bitbucket_cloud = cloud-IsBuiltFrom a
    asked-IsBuiltFrom a azure_repos = (refl, refl, refl)
    asked-IsBuiltFrom a other_provider = refl

  -- A client that `Build` gives is of the provider that was asked for, with the information and the
  -- logger of the builder; nil without an error is given only for a value that names no provider.
  pub build-IsBuiltFrom : (a : Addresses) (b : ClientBuilder Logger) → IsBuiltFrom b (build a b)
  build-IsBuiltFrom a b = asked-IsBuiltFrom b.vcs_info b.logger a b.vcs_provider
