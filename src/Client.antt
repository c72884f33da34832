-- ===== src/Client.antt =====
-- Package vcsclient: what the clients share (vcsclient/vcsclient.go).
pub mod Types
pub mod Status
pub mod Params
pub mod Shared
pub mod Sorting
pub mod Builder
pub mod Github
pub mod Gitlab
pub mod Azure
pub mod Bitbucket
pub mod BitbucketServer
pub mod BitbucketCloud
