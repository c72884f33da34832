-- ===== src/Client/Github.antt =====
-- The client of GitHub (vcsclient/github.go).
pub mod Api
pub mod RateLimit
pub mod Repos
pub mod Commits
pub mod Hooks
pub mod Pulls
pub mod Reviews
pub mod Labels
pub mod Files
pub mod Scanning
pub mod Guards
