-- ===== src/Client/BitbucketCloud.antt =====
-- The client of Bitbucket Cloud (vcsclient/bitbucketcloud.go).
pub mod Api
pub mod Repos
pub mod Hooks
pub mod Pulls
pub mod Files
pub mod Guards
