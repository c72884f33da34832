-- ===== src/Client/Gitlab.antt =====
-- The client of GitLab (vcsclient/gitlab.go). What it takes from the package go-gitlab is in `Api`;
-- a run has the log of its requests.
pub mod Api
pub mod Repos
pub mod Hooks
pub mod Merges
pub mod Reviews
pub mod Files
pub mod Guards
