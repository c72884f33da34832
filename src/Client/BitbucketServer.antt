-- ===== src/Client/BitbucketServer.antt =====
-- The client of Bitbucket Server (vcsclient/bitbucketserver.go).
pub mod Api
pub mod Paging
pub mod Repos
pub mod Hooks
pub mod Pulls
pub mod Reviews
pub mod Files
pub mod Guards
